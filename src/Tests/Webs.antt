-- ===== src/Tests/Webs.antt =====
-- Resources and sockets at concrete requests (nmoscommon/webapi.py).
use nmos_common.Common.{◌||◌, ℕ, ◌≡◌, refl, true, false, none, some, [], ◌∷◌}
use nmos_common.Common.Json.{Json, int, str, list, dict, item, field, end, nil}
use nmos_common.Web.{no_body, html_type, ipp_response, data_value, returns_json, is_iterable}
use nmos_common.Common.Unicode.{Unicode, int_of, digits, skip_space, space, value_of}
use nmos_common.Web.Resource.{
  alone, segments, split_path, walk, enter, get_field, get_item, position, obj_path_access,
  resource_route,
}
use nmos_common.Web.Errors.{Werkzeug, error, authlib_error}
use nmos_common.Web.Secure.{OauthConfig, returns_requires_auth, passes, unauthorised}
use nmos_common.Web.Sock.{raised_sock, handle_sock, receive_all}

-- no characters beyond ASCII
abbrev ascii : Unicode
ascii = record { digit_value = λ c. none; is_digit = λ c. false; is_space = λ c. false }

abbrev device : Json
device = dict (field "senders" (list (item (str "a") (item (int 7) nil))) end)

second_sender : walk ascii (segments "/senders//1/") device ≡ some (int 7)
unfolding walk segments split_path enter get_field get_item position int_of digits skip_space space
    value_of
second_sender = refl

no_third : walk ascii (segments "senders/2") device ≡ none
unfolding walk segments split_path enter get_field get_item position int_of digits skip_space space
    value_of
no_third = refl

abbrev werkzeug : Werkzeug
werkzeug = record {
  get_response =
      λ code text. record { status = code; mime = html_type; headers = []; body = no_body };
  sends = λ is_head body. is_head || is_iterable body;
  trace = "";
  headers = none;
}

-- a number is found and cannot be sent
unsent : resource_route ascii werkzeug "GET" true "senders/1" device ≡ none
unfolding resource_route obj_path_access returns_json ipp_response walk segments split_path enter
    get_field get_item position int_of digits skip_space space value_of
unsent = refl

-- an error of authlib is a 401 as JSON, and a 500 as a page and to a HEAD
refused_as_json : (error werkzeug false false (authlib_error (some 401) "")).status ≡ 401
unfolding error ipp_response
refused_as_json = refl

refused_as_page : (error werkzeug false true (authlib_error (some 401) "")).status ≡ 500
unfolding error ipp_response
refused_as_page = refl

-- a server that knows one token
abbrev oauth : OauthConfig
oauth = record {
  check_token = λ t. record { code = 200; userid = some "me"; token = some "good" };
  access_whitelist = "me" ∷ [];
}

-- the handler has counted the request before it is refused
refused_after :
    returns_requires_auth {S = ℕ}
      (some oauth)
      none
      false
      (λ n. (some (alone (data_value device)), 5))
      4
    ≡ (some unauthorised, 5)
unfolding returns_requires_auth passes
refused_after = refl

-- a handler that raises leaves its websocket listed
left_open :
    handle_sock {S = ℕ}
      (λ m n. (false, n))
      "id"
      (some "x" ∷ none ∷ [])
      (record { socks = []; app = 0 })
    ≡ (raised_sock, record { socks = "id" ∷ []; app = 0 })
unfolding handle_sock receive_all
left_open = refl
