-- ===== src/Auth/Decorated.antt =====
-- Which calls the decorator lets through, and where its keys come from
-- (nmoscommon/auth/nmos_auth.py).
use nmos_common.Common.{
  codes, ℕ, String, ◌≡◌, refl, true, false, Option, none, some, List, arith, inl, inr, Bool-cases,
  subst, Bool, if◌then◌else◌,
}
use nmos_common.Common.Dict.{Dict, get}
use nmos_common.Auth.Exn.{AuthExn, Check, ok, err, missing_authorization, key_error}
use nmos_common.Auth.Permits.{bind-ok}
use nmos_common.Auth.Claims.{Claims, Request, validate}
use nmos_common.Auth.Token.{token_of}
use nmos_common.Auth.Keys.{State}
use nmos_common.Auth.Middleware.{decoded}
use nmos_common.Auth.Decorator.{
  Network, Decorator, Socket, FirstArg, no_arg, no_socket, socket, silent, report, get_public_key,
  check_claims, with_token, process_access_token, handle_http_auth, process_or, from_socket,
  from_query, handle_socket_auth, is_upgrade, call,
}

-- where a call may carry its token: in the header of the request; on an upgrade, in the header of
-- the socket, or else in its query string
pub data Carries (req : Request) : FirstArg → String → Type 0 where
  in_header :
      {arg : FirstArg} {auth : String}
      → is_upgrade req ≡ false
      → req.authorization ≡ some auth
      → Carries req arg auth
  in_environment :
      {ws : Socket} {auth : String}
      → is_upgrade req ≡ true
      → ws.authorization ≡ some auth
      → Carries req (socket ws) auth
  in_query :
      {ws : Socket} {query : Dict String} {auth : String}
      → is_upgrade req ≡ true
      → ws.authorization ≡ none
      → ws.query_string ≡ some query
      → get "access_token" query ≡ some auth
      → Carries req (socket ws) auth

module _ (d : Decorator) (net : Network) (req : Request) (s : State) where
  -- The text holds a token that the decoder accepts under a key that is cached or fetched, and the
  -- claims of the token permit the request.
  pub record Permitted (auth : String) : Type 0 where
    pub token : List ℕ
    pub key : String
    pub claims : Claims
    pub token_found : token_of (codes auth) ≡ ok token
    pub key_found : (get_public_key net s).0 ≡ ok key
    pub decoding : d.decode token key ≡ some claims
    pub permits : validate d.lib d.api_name claims req ≡ ok tt

  decoded-some : (o : Option Claims) (c : Claims) → decoded o ≡ ok c → o ≡ some c
  decoded-some none c e = cc
  decoded-some (some x) c e = cc

  token-Permitted :
      (auth : String) (r : Check (List ℕ))
      → token_of (codes auth) ≡ r
      → (with_token d net req r s).0 ≡ ok tt
      → Permitted auth
  unfolding check_claims
  token-Permitted auth (err x) found e = cc
  token-Permitted auth (ok token) found e =
      let (key, key_found, e₁) =
        bind-ok (get_public_key net s).0 (check_claims d net req token) tt e in
      let (claims, decoding, e₂) = bind-ok (decoded (d.decode token key)) _ tt e₁ in
      record {
        token = token;
        key = key;
        claims = claims;
        token_found = found;
        key_found = key_found;
        decoding = decoded-some _ claims decoding;
        permits = e₂;
      }

  process-Permitted :
      (auth : String) → (process_access_token d net req auth s).0 ≡ ok tt → Permitted auth
  process-Permitted auth e = unfold process_access_token in token-Permitted auth _ refl e

  -- the call carries a text that permits the request
  abbrev pub Lets : FirstArg → Type 0
  Lets arg = (auth : String) × Carries req arg auth × Permitted auth

  process_or-Permitted :
      (x : AuthExn) (o : Option String)
      → (process_or d net req x o s).0 ≡ ok tt
      → (auth : String) × (o ≡ some auth) × Permitted auth
  process_or-Permitted x none e = cc
  process_or-Permitted x (some auth) e = (auth, refl, process-Permitted auth e)

  header-Lets :
      (arg : FirstArg)
      → is_upgrade req ≡ false
      → (handle_http_auth d net req s).0 ≡ ok tt
      → Lets arg
  header-Lets arg plain e =
      unfold handle_http_auth in
      let (auth, h, p) = process_or-Permitted missing_authorization req.authorization e in
      (auth, in_header plain h, p)

  report-ok :
      (ws : Socket) (r : Check (Unit {0}) × State) → (report ws r).result ≡ ok tt → r.0 ≡ ok tt
  unfolding report
  report-ok ws (ok tt, t) e = refl
  report-ok ws (err x, t) e = ground (arith)

  query-Lets :
      (ws : Socket)
      → is_upgrade req ≡ true
      → ws.authorization ≡ none
      → (o : Option (Dict String)) → ws.query_string ≡ o
      → (from_query d net req o s).0 ≡ ok tt
      → Lets (socket ws)
  unfolding from_query
  query-Lets ws up bare none h e = cc
  query-Lets ws up bare (some query) h e =
      let (auth, g, p) = process_or-Permitted key_error (get "access_token" query) e in
      (auth, in_query up bare h g, p)

  environment-Lets :
      (ws : Socket)
      → is_upgrade req ≡ true
      → (o : Option String) → ws.authorization ≡ o
      → (from_socket d net req ws o s).result ≡ ok tt
      → Lets (socket ws)
  environment-Lets ws up none h e = query-Lets ws up h ws.query_string refl (report-ok ws _ e)
  environment-Lets ws up (some auth) h e = (auth, in_environment up h, process-Permitted auth e)

  socket-Lets :
      (arg : FirstArg)
      → is_upgrade req ≡ true
      → (handle_socket_auth d net req arg s).result ≡ ok tt
      → Lets arg
  unfolding handle_socket_auth
  socket-Lets no_arg up e = cc
  socket-Lets no_socket up e = cc
  socket-Lets (socket ws) up e = environment-Lets ws up ws.authorization refl e

  call-on :
      (arg : FirstArg) (b : Bool)
      → d.condition ≡ true
      → is_upgrade req ≡ b
      → call d net req arg s
        ≡ (if b then handle_socket_auth d net req arg s else silent (handle_http_auth d net req s))
  unfolding call
  call-on arg b on h = rw (on, h) refl

  -- Where the decorator is on, a call reaches the wrapped function only with a token, in the header
  -- of a plain request or in the header or the query string of a websocket, that decodes under the
  -- cached or fetched key to claims that permit the request.
  pub call-Lets :
      (arg : FirstArg) → d.condition ≡ true → (call d net req arg s).result ≡ ok tt → Lets arg
  call-Lets arg on e = elim (Bool-cases (is_upgrade req)) [
    | inl h ↦ socket-Lets arg h (subst (λ c. c.result ≡ ok tt) (call-on arg true on h) e)
    | inr h ↦ header-Lets arg h (subst (λ c. c.result ≡ ok tt) (call-on arg false on h) e)
  ]
