-- ===== src/Servers/Interfaces.antt =====
-- nmoscommon/interfaceController.py: the addresses of the interfaces to use, from the configuration,
-- the routing rules, the default gateway or all interfaces. The `netifaces` package, the
-- configuration and the package that knows the routing rules are parameters.
use Prim.Native.Char.{code}
use Prim.Native.String.{String}
use nmos_common.Common.{
  Bool, true, false, ◌&&◌, Option, none, some, List, [], ◌∷◌, eqb, if◌then◌else◌,
}
use nmos_common.Common.Exec.{Result, ok, err}

pub data Exn : Type 0 where
  key_error index_error value_error : Exn

-- `ifaddresses` of a name: it raises, has no IPv4 entry, or has a list of those, each perhaps
-- without an address
pub data Addresses : Type 0 where
  unknown no_inet : Addresses
  inet : List (Option String) → Addresses

pub data Config : Type 0 where
  missing star : Config
  names : List String → Config

pub record Machine : Type 0 where
  pub interfaces : List String
  pub addresses : String → Addresses
  pub gateway : Option String
  pub local_ip : Option String
  pub config : Config

abbrev pub starts_with : String → String → Bool
starts_with String.[] s = true
starts_with (String.◌∷◌ p ps) String.[] = false
starts_with (String.◌∷◌ p ps) (String.◌∷◌ c s) = eqb (code p) (code c) && starts_with ps s

-- `ifaddresses(name)[AF_INET][0]['addr']`
abbrev pub first_address : Addresses → Result Exn String
first_address unknown = err value_error
first_address no_inet = err key_error
first_address (inet []) = err index_error
first_address (inet (none ∷ l)) = err key_error
first_address (inet (some a ∷ l)) = ok a

-- what one round of a loop does to the rest of it
abbrev pub add_usable : Result Exn String → Result Exn (List String) → Result Exn (List String)
add_usable (ok a) (ok l) = ok (if starts_with "127." a then l else a ∷ l)
add_usable (ok a) (err e) = err e
add_usable (err key_error) rest = rest
add_usable (err index_error) rest = rest
add_usable (err value_error) rest = err value_error

abbrev pub until_key_error : Result Exn String → Result Exn (List String) → Result Exn (List String)
until_key_error (ok a) (ok l) = ok (a ∷ l)
until_key_error (ok a) (err e) = err e
until_key_error (err key_error) rest = ok []
until_key_error (err e) rest = err e

abbrev pub only : Result Exn String → Result Exn (List String)
only (ok a) = ok (a ∷ [])
only (err key_error) = ok []
only (err e) = err e

-- the next way is tried where one finds nothing
abbrev pub or_next : Result Exn (List String) → Result Exn (List String) → Result Exn (List String)
or_next (ok []) next = next
or_next r next = r

module _ (m : Machine) where
  unfoldable pub all_among : List String → Result Exn (List String)
  all_among [] = ok []
  all_among (name ∷ more) =
      let rest = all_among more in
      if starts_with "lo" name then rest else add_usable (first_address (m.addresses name)) rest

  -- `_get_all_interfaces`
  unfoldable pub all_interfaces : Result Exn (List String)
  all_interfaces = all_among m.interfaces

  -- the loop over the configured names, which a KeyError ends
  unfoldable pub named : List String → Result Exn (List String)
  named [] = ok []
  named (name ∷ more) = until_key_error (first_address (m.addresses name)) (named more)

  -- `_get_default_interface_from_file`
  unfoldable pub from_file : Result Exn (List String)
  from_file = elim m.config [ missing ↦ ok [] | star ↦ all_interfaces | names l ↦ named l ]

  -- `_get_default_interface_from_routing_rules`
  abbrev pub from_routing_rules : Result Exn (List String)
  from_routing_rules = elim m.local_ip [ none ↦ ok [] | some a ↦ ok (a ∷ []) ]

  -- `_get_default_interface_from_gateway`
  unfoldable pub from_gateway : Result Exn (List String)
  from_gateway = elim m.gateway [
    | none ↦ ok []
    | some name ↦ only (first_address (m.addresses name))
  ]

  unfoldable pub get_default_interfaces : Result Exn (List String)
  get_default_interfaces =
      or_next from_file (or_next from_routing_rules (or_next from_gateway all_interfaces))
