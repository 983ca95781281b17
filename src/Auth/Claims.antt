-- ===== src/Auth/Claims.antt =====
-- nmoscommon/auth/claims_validator.py. `fnmatch` and the checks that the token library makes by
-- itself are parameters. An API name is one text.
use nmos_common.Common.{
  codes, ℕ, String, Bool, true, false, ◌&&◌, ◌||◌, Option, none, some, List, [], ◌∷◌, any, elem,
  ◌<>◌, ◌==◌, if◌then◌else◌,
}
use nmos_common.Common.Dict.{Dict, get, has}
use nmos_common.Auth.Exn.{
  AuthExn, Check, ok, err, invalid_claim, missing_claim, type_error, attribute_error, rejected,
  http, ◌>>=◌,
}
use nmos_common.Auth.Paths.{sub_path, is_api_root, strip_prefix}

-- an x-nmos claim: the paths that may be read and written
abbrev pub Permissions : Type 0
Permissions = Dict (List String)

-- the decoded token: its x-nmos claims, its scope, its audience as a list
pub record Claims : Type 0 where
  pub nmos : Dict Permissions
  pub scope : Option String
  pub aud : List String

pub record Request : Type 0 where
  pub method : String
  pub path : String
  pub authorization : Option String
  pub upgrade : Option String
  pub websocket_key : Bool
  pub query_string : Option (Dict String)

pub record Library : Type 0 where
  pub fnmatch : List ℕ → String → Bool
  pub fqdn : String
  pub base_checks : Claims → Bool

-- `generate_claims_options`: the x-nmos names that the options hold
unfoldable pub claim_options : String → List String
claim_options nmos_api = if nmos_api == "" then [] else ("x-nmos-" <> nmos_api) ∷ []

-- `needle in haystack`, on texts
unfoldable pub is_inside : List ℕ → List ℕ → Bool
unfolding strip_prefix
is_inside needle [] = elim (strip_prefix needle []) [ none ↦ false | some _ ↦ true ]
is_inside needle (c ∷ s) =
    elim (strip_prefix needle (c ∷ s)) [ none ↦ false | some _ ↦ true ] || is_inside needle s

unfoldable pub access_right : String → Check String
access_right method =
    if elem method ("GET" ∷ "OPTIONS" ∷ "HEAD" ∷ [])
    then ok "read"
    else if elem method ("PUT" ∷ "POST" ∷ "PATCH" ∷ "DELETE" ∷ [])
    then ok "write"
    else err (http 405)

-- an entry that is there and not empty
unfoldable pub nonempty_entry {ℓ} : {A : Type ℓ} → String → Dict (List A) → Check (List A)
nonempty_entry k d = elim (get k d) [
  | none ↦ err invalid_claim
  | some l ↦ elim l [ [] ↦ err invalid_claim | x ∷ xs ↦ ok (x ∷ xs) ]
]

unfoldable pub found_path : Option (List ℕ) → Check (List ℕ)
found_path none = err attribute_error
found_path (some p) = ok p

unfoldable pub require : Bool → AuthExn → Check (Unit {0})
require true e = ok tt
require false e = err e

-- the paths without authorisation
abbrev pub base_paths : List String
base_paths = "/" ∷ "/x-nmos" ∷ "/x-nmos/" ∷ []

module _ (lib : Library) where
  unfoldable pub validate_aud : Claims → Check (Unit {0})
  validate_aud claims = require (any (lib.fnmatch (codes lib.fqdn)) claims.aud) invalid_claim

  -- `_validate_permissions_object`
  unfoldable pub validate_permissions : Claims → Request → String → Check (Unit {0})
  validate_permissions claims request claim_name = do
    permissions ← nonempty_entry claim_name claims.nmos
    right ← access_right request.method
    urls ← nonempty_entry right permissions
    path ← found_path (sub_path (codes request.path))
    require (any (lib.fnmatch path) urls) invalid_claim

  unfoldable pub validate_each : Claims → Request → List String → Check (Unit {0})
  validate_each claims request [] = ok tt
  validate_each claims request (name ∷ names) =
      validate_permissions claims request name >>= λ _. validate_each claims request names

  -- the check of a request to the root of an API: the scope, or else the claim, is enough
  unfoldable pub validate_root : String → Claims → Check (Unit {0})
  validate_root nmos_api claims = elim claims.scope [
    | none ↦ err type_error
    | some scope ↦
        require
          (is_inside (codes nmos_api) (codes scope) || has ("x-nmos-" <> nmos_api) claims.nmos)
          missing_claim
  ]

  abbrev pub all_present : Claims → List String → Bool
  all_present claims [] = true
  all_present claims (name ∷ names) = has name claims.nmos && all_present claims names

  unfoldable pub validate_nmos : String → Claims → Request → Check (Unit {0})
  validate_nmos nmos_api claims request =
      if nmos_api == ""
      then ok tt
      else if elem request.path base_paths
      then ok tt
      else if is_api_root (codes request.path)
      then validate_root nmos_api claims
      else require (all_present claims (claim_options nmos_api)) missing_claim >>= λ _.
          validate_each claims request (claim_options nmos_api)

  unfoldable pub validate : String → Claims → Request → Check (Unit {0})
  validate nmos_api claims request = require (lib.base_checks claims) rejected >>= λ _.
      validate_aud claims >>= λ _. validate_nmos nmos_api claims request
