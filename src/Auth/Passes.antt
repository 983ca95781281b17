-- ===== src/Auth/Passes.antt =====
-- Which requests the middleware lets pass
-- (nmoscommon/auth/auth_middleware.py).
use nmos_common.Common.{
  codes, ℕ, String, ◌≡◌, refl, true, false, Option, none, some, List, elem, arith, inl, inr,
  Bool-cases, Option-cases, subst,
}
use nmos_common.Common.Dict.{get}
use nmos_common.Auth.Exn.{AuthExn, Check, ok, err, missing_authorization, key_error, type_error}
use nmos_common.Auth.Permits.{bind-ok}
use nmos_common.Auth.Claims.{Claims, Request, base_paths, validate}
use nmos_common.Auth.Token.{token_of}
use nmos_common.Auth.Keys.{Network, State, get_public_key}
use nmos_common.Auth.Middleware.{
  Middleware, passed, refused, outcome, decoded, with_token, check_claims, process_access_token,
  handle_http_auth, process_without_request, handle_socket_auth, is_socket, handle_auth, call,
}

module _ (m : Middleware) (net : Network) (req : Request) (s : State) where
  socket_refused : (e : AuthExn) × (handle_socket_auth m net req s ≡ (err e, s))
  unfolding handle_socket_auth process_without_request
  socket_refused = elim (Option-cases req.authorization) [
    | inr (auth, h) ↦ (type_error, rw h refl)
    | inl h ↦ elim (Option-cases req.query_string) [
      | inl q ↦ (missing_authorization, rw (h, q) refl)
      | inr (query, q) ↦ elim (Option-cases (get "access_token" query)) [
        | inl g ↦ (key_error, rw (h, q, g) refl)
        | inr (auth, g) ↦ (type_error, rw (h, q, g) refl)
      ]
    ]
  ]

  refused_socket :
      (e : AuthExn)
      → handle_socket_auth m net req s ≡ (err e, s)
      → m.auth_mode ≡ true
      → elem req.path base_paths ≡ false
      → is_socket m net req ≡ true
      → call m net req s ≡ (refused e, s)
  unfolding call handle_auth
  refused_socket e h on path socket = ground (arith)

  -- In auth mode every websocket upgrade outside the base paths is refused, whatever token it
  -- brings, and no key is fetched for it.
  pub call_socket :
      m.auth_mode ≡ true
      → elem req.path base_paths ≡ false
      → is_socket m net req ≡ true
      → (e : AuthExn) × (call m net req s ≡ (refused e, s))
  call_socket on path socket = let (e, h) = socket_refused in (e, refused_socket e h on path socket)

  -- The request carries a token that the decoder accepts under a key that the middleware has
  -- or fetched, and the claims of the token permit the request.
  pub record Authorised : Type 0 where
    pub auth : String
    pub token : List ℕ
    pub key : String
    pub claims : Claims
    pub header : req.authorization ≡ some auth
    pub token_found : token_of (codes auth) ≡ ok token
    pub key_found : (get_public_key net s).0 ≡ ok key
    pub decoding : m.decode token key ≡ some claims
    pub permitted : validate m.lib m.api_name claims req ≡ ok tt

  outcome-passed : (r : Check (Unit {0}) × State) → (outcome r).0 ≡ passed → r.0 ≡ ok tt
  outcome-passed (ok tt, s') e = refl
  outcome-passed (err x, s') e = cc

  decoded-ok : (o : Option Claims) (c : Claims) → decoded o ≡ ok c → o ≡ some c
  decoded-ok none c e = cc
  decoded-ok (some d) c e = cc

  call-handle :
      m.auth_mode ≡ true
      → elem req.path base_paths ≡ false
      → call m net req s ≡ outcome (handle_auth m net req s)
  unfolding call
  call-handle on path = ground (arith)

  checked :
      (auth : String)
      → req.authorization ≡ some auth
      → (r : Check (List ℕ)) → token_of (codes auth) ≡ r
      → (with_token m net req r s).0 ≡ ok tt
      → Authorised
  unfolding check_claims
  checked auth header (err x) found e = cc
  checked auth header (ok token) found e =
      let (key, key_found, e₁) =
        bind-ok (get_public_key net s).0 (check_claims m net req token) tt e in
      let (claims, decoding, e₂) = bind-ok (decoded (m.decode token key)) _ tt e₁ in
      record {
        auth = auth;
        token = token;
        key = key;
        claims = claims;
        header = header;
        token_found = found;
        key_found = key_found;
        decoding = decoded-ok _ claims decoding;
        permitted = e₂;
      }

  header_there :
      (auth : String)
      → req.authorization ≡ some auth
      → handle_http_auth m net req s ≡ with_token m net req (token_of (codes auth)) s
  unfolding handle_http_auth process_access_token
  header_there auth h = rw h refl

  no_header :
      req.authorization ≡ none → handle_http_auth m net req s ≡ (err missing_authorization, s)
  unfolding handle_http_auth
  no_header h = rw h refl

  http-Authorised : (handle_http_auth m net req s).0 ≡ ok tt → Authorised
  http-Authorised e = elim (Option-cases req.authorization) [
    | inl h ↦ ground (arith, no_header h)
    | inr (auth, h) ↦
        checked auth h (token_of (codes auth)) refl
          (subst (λ x. x.0 ≡ ok tt) (header_there auth h) e)
  ]

  handle_auth-http :
      is_socket m net req ≡ false → handle_auth m net req s ≡ handle_http_auth m net req s
  unfolding handle_auth
  handle_auth-http h = ground (arith)

  passed_http :
      m.auth_mode ≡ true
      → elem req.path base_paths ≡ false
      → is_socket m net req ≡ false
      → (call m net req s).0 ≡ passed
      → (outcome (handle_http_auth m net req s)).0 ≡ passed
  passed_http on path h e =
      subst (λ x. (outcome x).0 ≡ passed) (handle_auth-http h)
        (subst (λ x. x.0 ≡ passed) (call-handle on path) e)

  -- In auth mode a request outside the base paths that reaches the application is no websocket
  -- upgrade, and it carries a token that decodes under the middleware's key to claims that permit
  -- the request.
  pub call-Authorised :
      m.auth_mode ≡ true
      → elem req.path base_paths ≡ false
      → (call m net req s).0 ≡ passed
      → (is_socket m net req ≡ false) × Authorised
  call-Authorised on path e = elim (Bool-cases (is_socket m net req)) [
    | inl h ↦ let (x, r) = call_socket on path h in ground (arith)
    | inr h ↦ (
      h,
      http-Authorised (outcome-passed (handle_http_auth m net req s) (passed_http on path h e)),
    )
  ]
