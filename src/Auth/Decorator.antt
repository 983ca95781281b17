-- ===== src/Auth/Decorator.antt =====
-- The deprecated decorator of single handlers (nmoscommon/auth/nmos_auth.py, class `RequiresAuth`).
-- The address of the authorization server and its metadata are found as in Auth/Keys, and a token
-- in a header is read as in Auth/Token. A value is JSON without fractions.
use nmos_common.Common.{
  same_text, codes, ℕ, ◌+◌, String, Bool, true, false, ◌||◌, Option, none, some, List, [], ◌∷◌, ltb,
  map, ◌==◌, if◌then◌else◌,
}
use nmos_common.Common.Dict.{Dict, get}
use nmos_common.Common.Json.{Json, null, str, list, dict, Items, nil, item, end, field}
use nmos_common.Auth.Exn.{
  AuthExn, Check, ok, err, missing_authorization, unsupported_token_type, invalid_claim,
  missing_claim, rejected, type_error, value_error, key_error, attribute_error, request_error,
  os_error, name_error, index_error, socket_error, http, ◌>>=◌,
}
use nmos_common.Auth.Claims.{Claims, Request, Library, is_inside, validate}
use nmos_common.Auth.Token.{token_of, lower}
use nmos_common.Auth.Keys as Keys
use nmos_common.Auth.Keys.{State, get_jwk_url, refresh_key_interval}
use nmos_common.Auth.Middleware.{decoded}
use nmos_common.Auth.Newest.{lookup, find_most_recent}

-- a reply of the key endpoint: a RequestException, no content type, another one, a text that is no JSON,
-- whose error is a RequestException in some versions of the library, or a value
pub data KeyReply : Type 0 where
  unreachable no_type wrong_type : KeyReply
  undecodable : (is_request_error : Bool) → KeyReply
  document : Json → KeyReply

-- the library's result for a key: a PEM text, or one of its exceptions
pub data Loaded : Type 0 where
  pem : String → Loaded
  no_jose_key lacks_entry bad_value : Loaded

-- the certificate file: not there, not readable, or its text
pub data File : Type 0 where
  absent unreadable : File
  content : String → File

-- `server` gives the configured and discovered addresses, the metadata and the clock
pub record Network : Type 0 where
  pub server : Keys.Network
  pub keys_at : String → KeyReply
  pub load : Json → Loaded
  pub load_pem : String → Loaded
  pub certificate : File

pub record Decorator : Type 0 where
  pub condition : Bool
  pub api_name : String
  pub lib : Library
  pub decode : List ℕ → String → Option Claims

-- `"keys" in jwks` of a list
unfoldable pub holds_keys : Items → Bool
holds_keys nil = false
holds_keys (item (str s) l) = s == "keys" || holds_keys l
holds_keys (item _ l) = holds_keys l

abbrev pub entry_or : Json → Option Json → Check Json
entry_or v none = ok v
entry_or v (some entry) = ok entry

-- `"keys" in jwks` and the entry, or the value itself
unfoldable pub keys_of : Json → Check Json
unfolding lookup is_inside holds_keys
keys_of (dict d) = entry_or (dict d) (lookup "keys" d)
keys_of (list l) = if holds_keys l then err type_error else ok (list l)
keys_of (str s) = if is_inside (codes "keys") (codes s) then err type_error else ok (str s)
keys_of _ = err type_error

unfoldable pub read_reply : KeyReply → Check Json
read_reply unreachable = err (http 500)
read_reply no_type = err key_error
read_reply wrong_type = err value_error
read_reply (undecodable true) = err request_error
read_reply (undecodable false) = err value_error
read_reply (document v) = keys_of v

unfoldable pub loaded : Loaded → Check String
loaded (pem s) = ok s
loaded no_jose_key = err rejected
loaded lacks_entry = err key_error
loaded bad_value = err value_error

-- `getCertFromFile`: none is Python's None
unfoldable pub cert_from_file : File → Check (Option String)
cert_from_file absent = ok none
cert_from_file unreadable = err os_error
cert_from_file (content s) = ok (some s)

-- a class variable's refresh: `update_public_key`
abbrev pub update_public_key : ℕ → Check String → State → Check String × State
update_public_key now (err e) s = (err e, s)
update_public_key now (ok key) s =
    (ok key, record s { public_key = some key; key_last_refreshed = now })

abbrev pub cached : Option String → Check String
cached none = err name_error
cached (some key) = ok key

module _ (net : Network) where
  unfoldable pub get_jwks : State → Check Json × State
  get_jwks s =
      let (url, s') = get_jwk_url net.server s in (url >>= λ u. read_reply (net.keys_at u), s')

  -- `extractPublicKey` of what the endpoint answers, or of a certificate
  unfoldable pub extract_public_key : Json → Check String
  extract_public_key (dict d) = loaded (net.load (dict d))
  extract_public_key (list l) = find_most_recent l >>= λ key. loaded (net.load key)
  extract_public_key (str s) = loaded (net.load_pem s)
  extract_public_key _ = err name_error

  abbrev pub from_certificate : Option String → Check String
  from_certificate none = extract_public_key null
  from_certificate (some s) = extract_public_key (str s)

  -- the handler of RequestException
  unfoldable pub or_certificate : Check String → Check String
  or_certificate (err request_error) = cert_from_file net.certificate >>= from_certificate
  or_certificate r = r

  unfoldable pub is_stale : State → Bool
  is_stale s = elim s.public_key [
    | none ↦ true
    | some _ ↦ ltb (s.key_last_refreshed + refresh_key_interval) net.server.now
  ]

  -- `getPublicKey`
  unfoldable pub get_public_key : State → Check String × State
  get_public_key s =
      let (jwks, s') = get_jwks s in
      if is_stale s
      then update_public_key net.server.now (or_certificate (jwks >>= extract_public_key)) s'
      else (cached s.public_key, s)

-- the first argument of a call of the wrapped function: for a socket its environment, and whether
-- sending over it fails; the query string comes as a dict of the first values
pub record Socket : Type 0 where
  pub authorization : Option String
  pub query_string : Option (Dict String)
  pub is_closed : Bool

pub data FirstArg : Type 0 where
  no_arg no_socket : FirstArg
  socket : Socket → FirstArg

-- the result of a check, the class variables afterwards and the messages sent over the socket
pub record Checked : Type 0 where
  pub result : Check (Unit {0})
  pub state : State
  pub sent : List Json

-- the errors that `handleSocketAuth` answers: AuthlibBaseError and KeyError
abbrev pub is_answered : AuthExn → Bool
is_answered missing_authorization = true
is_answered unsupported_token_type = true
is_answered invalid_claim = true
is_answered missing_claim = true
is_answered rejected = true
is_answered key_error = true
is_answered _ = false

abbrev pub socket_failure : Json
socket_failure =
    dict (field "type" (str "error") (field "data" (str "Socket Authentication Error") end))

abbrev pub silent : Check (Unit {0}) × State → Checked
silent (r, s) = record { result = r; state = s; sent = [] }

-- the handler of an error: a message is sent before the error is raised again
unfoldable pub report : Socket → Check (Unit {0}) × State → Checked
report ws (ok _, s) = record { result = ok tt; state = s; sent = [] }
report ws (err e, s) =
    if is_answered e
    then (if ws.is_closed
        then (record { result = err socket_error; state = s; sent = [] })
        else record { result = err e; state = s; sent = socket_failure ∷ [] })
    else record { result = err e; state = s; sent = [] }

unfoldable pub is_upgrade : Request → Bool
is_upgrade req = elim req.upgrade [
  | none ↦ false
  | some u ↦ same_text (map lower (codes u)) (codes "websocket")
]

module _ (d : Decorator) (net : Network) (req : Request) where
  unfoldable pub check_claims : List ℕ → String → Check (Unit {0})
  check_claims token key =
      decoded (d.decode token key) >>= λ claims. validate d.lib d.api_name claims req

  abbrev pub with_token : Check (List ℕ) → State → Check (Unit {0}) × State
  with_token (err e) s = (err e, s)
  with_token (ok token) s = let (key, s') = get_public_key net s in (key >>= check_claims token, s')

  -- the claims are checked against the request that Flask handles
  unfoldable pub process_access_token : String → State → Check (Unit {0}) × State
  process_access_token auth s = with_token (token_of (codes auth)) s

  -- a token that may be missing
  abbrev pub process_or : AuthExn → Option String → State → Check (Unit {0}) × State
  process_or e none s = (err e, s)
  process_or e (some auth) s = process_access_token auth s

  unfoldable pub handle_http_auth : State → Check (Unit {0}) × State
  handle_http_auth s = process_or missing_authorization req.authorization s

  -- the token of a query string
  unfoldable pub from_query : Option (Dict String) → State → Check (Unit {0}) × State
  from_query none s = (err missing_authorization, s)
  from_query (some query) s = process_or key_error (get "access_token" query) s

  abbrev pub from_socket : Socket → Option String → State → Checked
  from_socket ws (some auth) s = silent (process_access_token auth s)
  from_socket ws none s = report ws (from_query ws.query_string s)

  unfoldable pub handle_socket_auth : FirstArg → State → Checked
  handle_socket_auth no_arg s = silent (err index_error, s)
  handle_socket_auth no_socket s = silent (err attribute_error, s)
  handle_socket_auth (socket ws) s = from_socket ws ws.authorization s

  -- the wrapped function: whether the function it wraps is called
  unfoldable pub call : FirstArg → State → Checked
  call arg s =
      if d.condition
      then (if is_upgrade req then handle_socket_auth arg s else silent (handle_http_auth s))
      else record { result = ok tt; state = s; sent = [] }
