-- ===== src/Servers/Usable.antt =====
-- When no interface is found (nmoscommon/interfaceController.py).
use Prim.Native.String.{String}
use nmos_common.Common.{
  zero, suc, ◌≡◌, refl, subst, Bool, true, false, ◌||◌, List, [], ◌∷◌, In, arith, if◌then◌else◌,
}
use nmos_common.Common.Exec.{Result, ok, err}
use nmos_common.Servers.Interfaces.{
  Exn, key_error, index_error, value_error, Machine, starts_with, first_address, add_usable,
  or_next, all_among, all_interfaces, from_file, from_routing_rules, from_gateway,
  get_default_interfaces,
}

-- a loopback interface, one without an IPv4 address, or one with a loopback address
abbrev pub no_address : Result Exn String → Bool
no_address (ok a) = starts_with "127." a
no_address (err value_error) = false
no_address (err e) = true

abbrev pub is_unusable : Machine → String → Bool
is_unusable m name = starts_with "lo" name || no_address (first_address (m.addresses name))

or_next-nothing : (a b : Result Exn (List String)) → or_next a b ≡ ok [] → b ≡ ok []
or_next-nothing (ok []) b h = h
or_next-nothing (ok (x ∷ l)) b h = cc
or_next-nothing (err e) b h = cc

add_usable-nothing :
    (a : Result Exn String) (rest : Result Exn (List String))
    → add_usable a rest ≡ ok []
    → (no_address a ≡ true) × (rest ≡ ok [])
add_usable-nothing (ok a) (ok l) h = ground arith
add_usable-nothing (ok a) (err e) h = cc
add_usable-nothing (err key_error) rest h = (refl, h)
add_usable-nothing (err index_error) rest h = (refl, h)
add_usable-nothing (err value_error) rest h = cc

round-nothing :
    (b : Bool) (a : Result Exn String) (rest : Result Exn (List String))
    → (if b then rest else add_usable a rest) ≡ ok []
    → ((b || no_address a) ≡ true) × (rest ≡ ok [])
round-nothing true a rest h = (refl, h)
round-nothing false a rest h = add_usable-nothing a rest h

all_among-nothing :
    (m : Machine) (l : List String)
    → all_among m l ≡ ok []
    → (name : String) → In name l
    → is_unusable m name ≡ true
unfolding all_among
all_among-nothing m [] h name (i, e) = cc
all_among-nothing m (x ∷ l) h name (zero, e) =
    let same : x ≡ name = cc in
    subst (λ y. is_unusable m y ≡ true) same
      (round-nothing (starts_with "lo" x) (first_address (m.addresses x)) (all_among m l) h).0
all_among-nothing m (x ∷ l) h name (suc i, e) =
    all_among-nothing m l
      (round-nothing (starts_with "lo" x) (first_address (m.addresses x)) (all_among m l) h).1 name
      (i, e)

-- If no interface is found, then every interface of the machine is a loopback interface, has no
-- IPv4 address, or has one that begins with 127: none that could be used was missed by the
-- configuration, the routing rules and the gateway.
pub get_default_interfaces-nothing :
    (m : Machine) (name : String)
    → get_default_interfaces m ≡ ok []
    → In name m.interfaces
    → is_unusable m name ≡ true
unfolding get_default_interfaces all_interfaces
get_default_interfaces-nothing m name h here =
    all_among-nothing m m.interfaces
      (or_next-nothing (from_gateway m) (all_interfaces m)
        (or_next-nothing (from_routing_rules m) _ (or_next-nothing (from_file m) _ h)))
      name here
