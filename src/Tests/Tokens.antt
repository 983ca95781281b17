-- ===== src/Tests/Tokens.antt =====
-- The authorisation middleware at concrete requests (nmoscommon/auth/).
use nmos_common.Common.{◌+◌, ◌≡◌, ◌≤◌, ◌<>◌, ◌↔◌, refl, true, false, some, none, [], ◌∷◌}
use nmos_common.Common.Dict.{get}
use nmos_common.Auth.Exn.{AuthExn, ok}
use nmos_common.Auth.Claims.{
  Claims, Request, Library, validate_each, access_right, found_path, nonempty_entry,
  validate_permissions, validate_root, validate, validate_aud, require, validate_nmos,
  claim_options,
}
use nmos_common.Auth.Permits.{Grants, validate_nmos_iff}
use nmos_common.Auth.Keys.{Network, State, KeyReply, get_public_key, is_stale, refresh_key_interval}
use nmos_common.Auth.Middleware.{
  Middleware, passed, refused, call, handle_auth, is_socket, handle_http_auth, process_access_token,
  check_claims,
}
use nmos_common.Auth.Token.{
  token_of, bearer_token, check_token, drop_space, drop_word, is_bearer, is_space, lower,
  split_once, take_word,
}
use nmos_common.Auth.Paths.{
  is_api_root, sub_path, at_end, is_digit, is_lower, skip, skip_some, skip_version, strip_prefix,
  slash_end, to_line_end,
}
use nmos_common.Auth.Passes.{call-Authorised, call_socket, Authorised}
use nmos_common.Auth.Cached.{get_public_key-ok}

-- every pattern matches, and the library's own checks pass
abbrev pub lib : Library
lib = record { fnmatch = λ _ _. true; fqdn = "api.example"; base_checks = λ _. true }

abbrev pub claims : Claims
claims = record {
  nmos = ("x-nmos-query", ("read", "*" ∷ []) ∷ []) ∷ [];
  scope = none;
  aud = "api.example" ∷ [];
}

abbrev pub request : Request
request = record {
  method = "GET";
  path = "/x-nmos/query/v1.2/flows";
  authorization = some "Bearer abc";
  upgrade = none;
  websocket_key = false;
  query_string = none;
}

abbrev upgrade : Request
upgrade = record request { websocket_key = true }

abbrev middleware : Middleware
middleware = record { auth_mode = true; api_name = "query"; lib = lib; decode = λ _ _. some claims }

abbrev pub net : Network
net = record {
  config_url = "";
  discovered = "";
  metadata = λ _ _. none;
  keys_at = λ _. KeyReply.unreachable;
  load = λ _. none;
  load_pem = λ _. none;
  now = 4000;
}

abbrev pub recent : State
recent = record { public_key = some "pem"; key_last_refreshed = 500; auth_href = none }

abbrev empty : State
empty = record { public_key = none; key_last_refreshed = 0; auth_href = none }

validate_nmos_iff_example :
    (validate_nmos lib "query" claims request ≡ ok tt)
    ↔ Grants lib claims request ("x-nmos-" <> "query")
unfolding is_api_root
validate_nmos_iff_example = validate_nmos_iff lib claims request "query" refl refl refl

call_socket_example : (e : AuthExn) × (call middleware net upgrade recent ≡ (refused e, recent))
unfolding is_socket
call_socket_example = call_socket middleware net upgrade recent refl refl refl

passes : (call middleware net request recent).0 ≡ passed
unfolding call handle_auth is_socket handle_http_auth process_access_token check_claims
    get_public_key is_stale token_of bearer_token check_token drop_space drop_word is_bearer
    is_space lower split_once take_word validate_each access_right found_path nonempty_entry
    validate_permissions validate_root validate validate_aud require validate_nmos claim_options
    is_api_root sub_path at_end is_digit is_lower skip skip_some skip_version strip_prefix slash_end
    to_line_end get
passes = refl

call-Authorised_example :
    (is_socket middleware net request ≡ false) × Authorised middleware net request recent
call-Authorised_example = call-Authorised middleware net request recent refl refl passes

get_public_key-ok_example :
    ((get_public_key net recent).1.public_key ≡ some "pem")
    × (net.now ≤ (get_public_key net recent).1.key_last_refreshed + refresh_key_interval)
unfolding get_public_key is_stale
get_public_key-ok_example = get_public_key-ok net recent "pem" refl
