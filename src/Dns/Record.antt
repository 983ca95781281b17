-- ===== src/Dns/Record.antt =====
-- One service found by DNS-SD (nmoscommon/mdns/dnsService.py). Texts of records are read as code
-- points. The timer of a service is `timer`; what the listener is told is a list of events.
use nmos_common.Common.{
  ℕ, ◌+◌, ◌*◌, ◌-◌, String, Bool, true, false, Option, none, some, List, [], ◌∷◌, ◌++◌, codes,
  same_text, leb, eqb, ◌&&◌, if◌then◌else◌,
}
use nmos_common.Common.Exec.{Result, ok, err, Exec, ◌>>=◌, ◌>>◌, pure, modify, gets}
use nmos_common.Dns.{Resolver, DnsExn, other, get_srv_record, get_txt_record}

pub record Service : Type 0 where
  pub name : String
  pub ttl : ℕ
  pub txt : List (List ℕ × List ℕ)
  pub hostname : List ℕ
  pub address : String
  pub port : ℕ
  pub running : Bool
  pub timer : Bool

pub data Action : Type 0 where
  add remove : Action

-- what the client's callback gets
pub record Heard : Type 0 where
  pub action : Action
  pub type : String
  pub name : String
  pub address : String
  pub port : ℕ
  pub hostname : List ℕ
  pub txt : List (List ℕ × List ℕ)

abbrev push : ℕ → List (List ℕ) → List (List ℕ)
push c [] = (c ∷ []) ∷ []
push c (word ∷ words) = (c ∷ word) ∷ words

-- `.split(sep)`
unfoldable pub split : ℕ → List ℕ → List (List ℕ)
split sep [] = [] ∷ []
split sep (c ∷ s) = let rest = split sep s in if eqb c sep then [] ∷ rest else push c rest

-- `s.rstrip(".")`
unfoldable pub remove_trailing_dot : List ℕ → List ℕ
remove_trailing_dot [] = []
remove_trailing_dot (c ∷ s) = elim (remove_trailing_dot s) [
  | [] ↦ (if eqb c b'.' then [] else c ∷ [])
  | d ∷ t ↦ c ∷ d ∷ t
]

abbrev pub tail : List ℕ → List ℕ
tail [] = []
tail (_ ∷ s) = s

abbrev pub but_last : List ℕ → List ℕ
but_last [] = []
but_last (c ∷ []) = []
but_last (c ∷ d ∷ s) = c ∷ but_last (d ∷ s)

-- a write to a dict whose keys are lists of code points
unfoldable pub put_text : List ℕ → List ℕ → List (List ℕ × List ℕ) → List (List ℕ × List ℕ)
put_text k v [] = (k, v) ∷ []
put_text k v ((j, w) ∷ d) =
    let rest = put_text k v d in if same_text j k then (j, v) ∷ d else (j, w) ∷ rest

-- one `key=value`, in quotes; without a `=` there is an IndexError
unfoldable pub txt_entry : List (List ℕ) → Result DnsExn (List ℕ × List ℕ)
txt_entry (key ∷ value ∷ _) = ok (tail key, but_last value)
txt_entry _ = err other

unfoldable pub txt_dict :
    List (List ℕ) → List (List ℕ × List ℕ) → Result DnsExn (List (List ℕ × List ℕ))
txt_dict [] d = ok d
txt_dict (bit ∷ bits) d = elim (txt_entry (split b'=' bit)) [
  | err e ↦ err e
  | ok (k, v) ↦ txt_dict bits (put_text k v d)
]

-- `_makeTXTDict`
unfoldable pub make_txt_dict : String → Result DnsExn (List (List ℕ × List ℕ))
make_txt_dict text = txt_dict (split b' ' (codes text)) []

-- `int`, on digits
unfoldable pub to_number : ℕ → List ℕ → Result DnsExn ℕ
to_number n [] = ok n
to_number n (c ∷ s) =
    let rest = to_number (n * 10 + (c - 48)) s in if leb 48 c && leb c 57 then rest else err other

abbrev pub int : List ℕ → Result DnsExn ℕ
int [] = err other
int (c ∷ s) = to_number 0 (c ∷ s)

abbrev pub M : Type 0 → Type 0
M A = Exec Service DnsExn A

unfoldable pub lift : {A : Type 0} → Result DnsExn A → M A
lift r s = (r, s)

abbrev pub host_found : Option String → Result DnsExn String
host_found none = err other
host_found (some address) = ok address

-- priority, weight, port and target of an SRV record
abbrev pub srv_fields : List (List ℕ) → Result DnsExn (List ℕ × List ℕ)
srv_fields (_ ∷ _ ∷ port ∷ hostname ∷ _) = ok (port, hostname)
srv_fields _ = err other

module _ (r : Resolver) where
  unfoldable pub parse_srv_record : List String → M (Unit {0})
  unfolding lift
  parse_srv_record [] = pure tt
  parse_srv_record (value ∷ values) = do
    fields ← lift (srv_fields (split b' ' (codes value)))
    modify (λ s. record s { hostname = remove_trailing_dot fields.1 })
    address ← lift (host_found (r.gethostbyname (remove_trailing_dot fields.1)))
    modify (λ s. record s { address = address })
    port ← lift (int fields.0)
    modify (λ s. record s { port = port })
    parse_srv_record values

  -- `_initialiseFromDNS`
  unfoldable pub initialise_from_dns : M (Unit {0})
  unfolding lift
  initialise_from_dns = do
    name ← gets (λ s. s.name)
    srv ← lift (get_srv_record r name)
    txt ← lift (get_txt_record r name)
    modify (λ s. record s { ttl = txt.0.ttl })
    d ← lift (make_txt_dict txt.0.text)
    modify (λ s. record s { txt = d })
    parse_srv_record (srv.0 ∷ srv.1)

  -- `__init__`, for the name of a pointer record
  unfoldable pub new_service : String → Result DnsExn (Unit {0}) × Service
  new_service name = initialise_from_dns (record {
    name = name;
    ttl = 0;
    txt = [];
    hostname = [];
    address = "";
    port = 0;
    running = false;
    timer = false;
  })

-- `DNSListener`: for a client that wants registrations only, removals are not told
module _ (type : String) (register_only : Bool) where
  unfoldable pub tell : Action → Service → Heard
  tell action s = record {
    action = action;
    type = type;
    name = s.name;
    address = s.address;
    port = s.port;
    hostname = s.hostname;
    txt = s.txt;
  }

  unfoldable pub add_listener : Service → List Heard
  add_listener s = tell add s ∷ []

  unfoldable pub remove_listener : Service → List Heard
  remove_listener s = if register_only then [] else tell remove s ∷ []

  -- `_updateService`
  unfoldable pub update_service : Service → List Heard
  update_service s = remove_listener s ++ add_listener s

  unfoldable pub start : Service → Service × List Heard
  start s = (record s { timer = true; running = true }, add_listener s)

  unfoldable pub stop : Service → Service
  stop s = record s { timer = (if s.running then false else s.timer); running = false }

  unfoldable pub close : Service → Service × List Heard
  close s = (stop s, remove_listener s)
