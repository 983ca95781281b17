-- ===== src/Auth/Keys.antt =====
-- The public key of the authorization server and its cache (nmoscommon/auth/auth_middleware.py,
-- `get_auth_server_url` to `getPublicKey`). A key is its PEM text; times are whole seconds.
use nmos_common.Common.{
  ℕ, ◌+◌, String, Bool, true, false, Option, none, some, List, [], ◌∷◌, ltb, ◌==◌, if◌then◌else◌,
}
use nmos_common.Auth.Exn.{Check, ok, err, value_error, key_error, http, ◌>>=◌}

pub record Jwk : Type 0 where
  pub alg : Option String
  pub material : String

pub data Jwks : Type 0 where
  one : Jwk → Jwks
  many : List Jwk → Jwks
  certificate : String → Jwks
  other : Jwks

-- a reply of the key endpoint: a RequestException, or the content type with the decoded document
pub data KeyReply : Type 0 where
  unreachable : KeyReply
  reply : (is_json : Bool) → Option Jwks → KeyReply

-- `auth_server` is the configured or discovered address, `metadata` what an endpoint answers: a
-- RequestException, or a document and its 'jwks_uri'; `load` and `load_pem` may raise.
pub record Network : Type 0 where
  pub config_url : String
  pub discovered : String
  pub metadata : String → String → Option (Option String)
  pub keys_at : String → KeyReply
  pub load : Jwk → Option String
  pub load_pem : String → Option String
  pub now : ℕ

-- the class variables and the address that the instance remembers
pub record State : Type 0 where
  pub public_key : Option String
  pub key_last_refreshed : ℕ
  pub auth_href : Option String

abbrev pub refresh_key_interval : ℕ
refresh_key_interval = 3600

abbrev pub token_alg : String
token_alg = "RS512"

abbrev metadata_endpoints : List String
metadata_endpoints =
    ".well-known/oauth-authorization-server" ∷ ".well-known/openid-configuration" ∷ []

unfoldable pub get_auth_server_url : Network → Option String
get_auth_server_url net =
    if net.config_url == ""
    then (if net.discovered == "" then none else some net.discovered)
    else some net.config_url

-- the first endpoint that answers
unfoldable pub get_metadata : Network → String → List String → Option (Option String)
get_metadata net href [] = none
get_metadata net href (endpoint ∷ endpoints) = elim (net.metadata href endpoint) [
  | some document ↦ some document
  | none ↦ get_metadata net href endpoints
]

abbrev first_known : Option String → Option String → Option String
first_known (some href) _ = some href
first_known none known = known

unfoldable pub jwks_uri : Option (Option String) → Check String
jwks_uri (some (some uri)) = ok uri
jwks_uri _ = err (http 500)

abbrev pub url_at : Network → Option String → State → Check String × State
url_at net none s = (err (http 500), s)
url_at net (some href) s =
    (jwks_uri (get_metadata net href metadata_endpoints), record s { auth_href = some href })

-- `_get_jwk_url`: an address once found is remembered
unfoldable pub get_jwk_url : Network → State → Check String × State
get_jwk_url net s = url_at net (first_known (get_auth_server_url net) s.auth_href) s

unfoldable pub read_reply : KeyReply → Check Jwks
read_reply unreachable = err (http 500)
read_reply (reply false document) = err value_error
read_reply (reply true none) = err value_error
read_reply (reply true (some jwks)) = ok jwks

unfoldable pub get_jwks : Network → State → Check Jwks × State
get_jwks net s =
    let (url, s') = get_jwk_url net s in (url >>= (λ u. read_reply (net.keys_at u)), s')

-- `findJWKByAlg`: the first key of the algorithm
unfoldable pub find_jwk : String → List Jwk → Check Jwk
find_jwk alg [] = err value_error
find_jwk alg (key ∷ keys) = elim key.alg [
  | none ↦ err key_error
  | some a ↦ (let later = find_jwk alg keys in if a == alg then ok key else later)
]

-- every failure to extract a key is answered by a 500
abbrev pub or_500 {ℓ} : {A : Type ℓ} → Option A → Check A
or_500 none = err (http 500)
or_500 (some a) = ok a

abbrev all_500 {ℓ} : {A : Type ℓ} → Check A → Check A
all_500 (ok a) = ok a
all_500 (err e) = err (http 500)

unfoldable pub extract_public_key : Network → Jwks → Check String
unfolding find_jwk
extract_public_key net (one key) =
    all_500 (find_jwk token_alg (key ∷ [])) >>= λ _. or_500 (net.load key)
extract_public_key net (many keys) =
    all_500 (find_jwk token_alg keys) >>= λ key. or_500 (net.load key)
extract_public_key net (certificate pem) = or_500 (net.load_pem pem)
extract_public_key net other = err (http 500)

unfoldable pub is_stale : Network → State → Bool
is_stale net s = elim s.public_key [
  | none ↦ true
  | some _ ↦ ltb (s.key_last_refreshed + refresh_key_interval) net.now
]

abbrev pub store_key : Network → Check String → State → Check String × State
store_key net (err e) s = (err e, s)
store_key net (ok key) s =
    (ok key, record s { public_key = some key; key_last_refreshed = net.now })

abbrev pub cached : State → Check String
cached s = or_500 s.public_key

unfoldable pub get_public_key : Network → State → Check String × State
get_public_key net s =
    if is_stale net s
    then (let (jwks, s') = get_jwks net s in store_key net (jwks >>= extract_public_key net) s')
    else (cached s, s)
