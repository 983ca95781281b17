-- ===== src/Auth/Middleware.antt =====
-- The middleware's decision (nmoscommon/auth/auth_middleware.py, `processAccessToken` to
-- `__call__`): a request reaches the application, or is answered with an error.
use nmos_common.Common.{
  same_text, codes, ℕ, String, Bool, false, not, ◌||◌, Option, none, some, List, elem, map,
  if◌then◌else◌,
}
use nmos_common.Common.Dict.{get}
use nmos_common.Auth.Exn.{
  AuthExn, Check, ok, err, missing_authorization, rejected, type_error, key_error, ◌>>=◌,
}
use nmos_common.Auth.Claims.{Claims, Request, Library, base_paths, validate}
use nmos_common.Auth.Token.{token_of, lower}
use nmos_common.Auth.Keys.{Network, State, get_public_key}

-- an instance: its mode and API name, and `jwt.decode`, which may raise
pub record Middleware : Type 0 where
  pub auth_mode : Bool
  pub api_name : String
  pub lib : Library
  pub decode : List ℕ → String → Option Claims

abbrev pub decoded : Option Claims → Check Claims
decoded none = err rejected
decoded (some claims) = ok claims

-- the application is called, or an error response is given for the exception
pub data Outcome : Type 0 where
  passed : Outcome
  refused : AuthExn → Outcome

abbrev pub outcome : Check (Unit {0}) × State → Outcome × State
outcome (ok _, s) = (passed, s)
outcome (err e, s) = (refused e, s)

module _ (m : Middleware) (net : Network) where
  -- what is done with a token and a key
  unfoldable pub check_claims : Request → List ℕ → String → Check (Unit {0})
  check_claims req token key =
      decoded (m.decode token key) >>= λ claims. validate m.lib m.api_name claims req

  abbrev pub with_key : Request → List ℕ → Check String × State → Check (Unit {0}) × State
  with_key req token (key, s) = (key >>= check_claims req token, s)

  abbrev pub with_token : Request → Check (List ℕ) → State → Check (Unit {0}) × State
  with_token req (err e) s = (err e, s)
  with_token req (ok token) s = with_key req token (get_public_key net s)

  unfoldable pub process_access_token : String → Request → State → Check (Unit {0}) × State
  process_access_token auth req s = with_token req (token_of (codes auth)) s

  unfoldable pub handle_http_auth : Request → State → Check (Unit {0}) × State
  handle_http_auth req s = elim req.authorization [
    | none ↦ (err missing_authorization, s)
    | some auth ↦ process_access_token auth req s
  ]

  -- `self.processAccessToken(auth_string)`: the call lacks the argument `req`
  unfoldable pub process_without_request : String → State → Check (Unit {0}) × State
  process_without_request auth s = (err type_error, s)

  unfoldable pub handle_socket_auth : Request → State → Check (Unit {0}) × State
  handle_socket_auth req s = elim req.authorization [
    | some auth ↦ process_without_request auth s
    | none ↦ elim req.query_string [
      | none ↦ (err missing_authorization, s)
      | some query ↦ elim (get "access_token" query) [
        | none ↦ (err key_error, s)
        | some auth ↦ process_without_request auth s
      ]
    ]
  ]

  -- a websocket upgrade, by either header
  unfoldable pub is_socket : Request → Bool
  is_socket req =
      elim req.upgrade [
        | none ↦ false
        | some u ↦ same_text (map lower (codes u)) (codes "websocket")
      ]
      || req.websocket_key

  unfoldable pub handle_auth : Request → State → Check (Unit {0}) × State
  handle_auth req s = if is_socket req then handle_socket_auth req s else handle_http_auth req s

  unfoldable pub call : Request → State → Outcome × State
  call req s =
      if not m.auth_mode || elem req.path base_paths
      then (passed, s)
      else outcome (handle_auth req s)
