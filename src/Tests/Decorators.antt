-- ===== src/Tests/Decorators.antt =====
-- The decorator at concrete calls (nmoscommon/auth/nmos_auth.py).
use nmos_common.Common.{◌≡◌, ◌≢◌, refl, true, false, some, none, [], ◌∷◌, String}
use nmos_common.Common.Dict.{get}
use nmos_common.Common.Json.{Json, str, dict, Items, nil, item, end, field}
use nmos_common.Auth.Exn.{ok, err, name_error, request_error}
use nmos_common.Auth.Claims.{
  validate_each, access_right, found_path, nonempty_entry, validate_permissions, validate_root,
  validate, validate_aud, require, validate_nmos, claim_options, Request,
}
use nmos_common.Auth.Keys.{State}
use nmos_common.Auth.Token.{
  token_of, bearer_token, check_token, drop_space, drop_word, is_bearer, is_space, lower,
  split_once, take_word,
}
use nmos_common.Auth.Paths.{
  is_api_root, sub_path, at_end, is_digit, is_lower, skip, skip_some, skip_version, strip_prefix,
  slash_end, to_line_end,
}
use nmos_common.Auth.Newest.{
  plus, kid_stamp, strip, int_of, digits_of, lookup, find_most_recent, reduce_newer, newer,
  is_later,
}
use nmos_common.Auth.Latest.{Latest, AllStamped, find_most_recent-Latest}
use nmos_common.Auth.Decorator.{
  unreachable, undecodable, absent, content, Network, Decorator, FirstArg, socket, call, is_upgrade,
  handle_socket_auth, from_query, process_access_token, check_claims, get_public_key, is_stale,
  socket_failure, report, or_certificate, cert_from_file, extract_public_key, bad_value,
}
use nmos_common.Auth.Decorated.{Lets, call-Lets}
use nmos_common.Auth.Fallback.{get_public_key-file}
use nmos_common.Tests.Tokens.{lib, claims, request, net, recent}

abbrev network : Network
network = record {
  server = net;
  keys_at = λ _. unreachable;
  load = λ _. bad_value;
  load_pem = λ _. bad_value;
  certificate = absent;
}

abbrev decorator : Decorator
decorator = record { condition = true; api_name = "query"; lib = lib; decode = λ _ _. some claims }

abbrev upgrade : Request
upgrade = record request { upgrade = some "WebSocket"; authorization = none }

abbrev socket_with_token : FirstArg
socket_with_token = socket (record {
  authorization = none;
  query_string = some (("access_token", "abc") ∷ []);
  is_closed = false;
})

lets_socket : (call decorator network upgrade socket_with_token recent).result ≡ ok tt
unfolding call is_upgrade handle_socket_auth from_query report process_access_token check_claims
    get_public_key is_stale token_of bearer_token check_token drop_space drop_word is_bearer
    is_space lower split_once take_word validate_each access_right found_path nonempty_entry
    validate_permissions validate_root validate validate_aud require validate_nmos claim_options
    is_api_root sub_path at_end is_digit is_lower skip skip_some skip_version strip_prefix slash_end
    to_line_end get
lets_socket = refl

call-Lets_example : Lets decorator network upgrade recent socket_with_token
call-Lets_example = call-Lets decorator network upgrade recent socket_with_token refl lets_socket

-- a socket without a token is told so
told_socket :
    (call decorator network upgrade
      (socket (record { authorization = none; query_string = none; is_closed = false }))
      recent).sent
    ≡ socket_failure ∷ []
unfolding call is_upgrade handle_socket_auth from_query report lower
told_socket = refl

abbrev key_of : String → Json
key_of kid = dict (field "kid" (str kid) end)

abbrev two_keys : Items
two_keys = item (key_of "x-nmos-9") (item (key_of "x-nmos-10") nil)

newest_of_two : find_most_recent two_keys ≡ ok (key_of "x-nmos-10")
unfolding find_most_recent reduce_newer newer kid_stamp strip int_of digits_of lookup is_later
    drop_space is_space
newest_of_two = refl

two_keys-AllStamped : AllStamped two_keys
unfolding kid_stamp strip int_of digits_of lookup drop_space is_space
two_keys-AllStamped = ((plus 9, refl), ((plus 10, refl), tt))

find_most_recent-Latest_example : Latest two_keys
find_most_recent-Latest_example =
    find_most_recent-Latest (key_of "x-nmos-9") (item (key_of "x-nmos-10") nil) two_keys-AllStamped

abbrev empty : State
empty = record { public_key = none; key_last_refreshed = 0; auth_href = none }

reached : (url : String) → network.keys_at url ≢ undecodable true
reached url e = cc

get_public_key-file_example :
    get_public_key (record network { certificate = content "pem" }) empty
    ≡ get_public_key network empty
get_public_key-file_example = get_public_key-file network empty (content "pem") reached

-- without a certificate file the fallback ends in an unset variable
missing_file : or_certificate network (err request_error) ≡ err name_error
unfolding or_certificate cert_from_file extract_public_key
missing_file = refl
