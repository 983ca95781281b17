-- ===== src/Web/Errors.antt =====
-- nmoscommon/webapi.py, WebAPI.error: what a request is answered when its handler raises.
use nmos_common.Common.{ℕ, String, Bool, Option, none, some, [], eqb, if◌then◌else◌}
use nmos_common.Common.Dict.{Dict}
use nmos_common.Common.Json.{str, int, dict, field, end}
use nmos_common.Web.{
  Response, Body, json_text, page, data_of, html_type, json_type, default_type, ipp_response,
  headers_of,
}

-- an HTTPException, an error of authlib with its `status_code` if it has one, or any other
pub data Exn : Type 0 where
  http_exception : (code : ℕ) (description : String) → Exn
  authlib_error : (status_code : Option ℕ) (text : String) → Exn
  exception : Exn

-- `get_response` is werkzeug's, `trace` the traceback as a page and in the debug text, `headers` the
-- exception's attribute if it has one
pub record Werkzeug : Type 0 where
  pub get_response : ℕ → String → Response
  -- whether a response with this body can be sent, in answer to a HEAD or not
  pub sends : (is_head : Bool) → Body → Bool
  pub trace : String
  pub headers : Option (Dict String)

abbrev head_status : Exn → ℕ
head_status (http_exception code description) = code
head_status _ = 500

-- a status of None or 0 counts as none
abbrev or_400 : Option ℕ → ℕ
or_400 none = 400
or_400 (some n) = if eqb n 0 then 400 else n

abbrev json_status : Exn → ℕ
json_status (http_exception code description) = code
json_status (authlib_error status_code text) = or_400 status_code
json_status exception = 500

abbrev description_of : Exn → String
description_of (http_exception code description) = description
description_of (authlib_error status_code text) = text
description_of exception = "Internal Error"

abbrev error_page : Werkzeug → Exn → Response
error_page lib (http_exception code description) =
    if eqb code 400
    then ipp_response (page (str lib.trace)) code [] html_type
    else lib.get_response code description
error_page lib _ = ipp_response (page (str lib.trace)) 500 [] html_type

abbrev error_json : Werkzeug → Exn → Response
error_json lib e =
    ipp_response
      (json_text (
        dict (
          field "code" (int (json_status e))
            (field "error" (str (description_of e)) (field "debug" (str lib.trace) end)))))
      (json_status e) (headers_of lib.headers) json_type

-- `error`; the answer to a HEAD is empty
unfoldable pub error : Werkzeug → (is_head html : Bool) → Exn → Response
error lib is_head html e =
    if is_head
    then ipp_response (data_of (str "")) (head_status e) [] default_type
    else if html
    then error_page lib e
    else error_json lib e
