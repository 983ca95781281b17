-- ===== src/Web.antt =====
-- nmoscommon/webapi.py: responses, and the decorators that make them. What a handler returns is JSON
-- data, a text, or a response; names of headers are compared as they are written.
pub mod Errors
pub mod Resource
pub mod Secure
pub mod Sock
pub mod Cors
pub mod Routes
pub mod Views
pub mod Guarded
pub mod Leads
use nmos_common.Common.{
  ℕ, String, Bool, true, false, not, Option, none, some, List, [], ◌∷◌, ◌<>◌, eqb, is_some,
  if◌then◌else◌,
}
use nmos_common.Common.Dict.{Dict, get, put, has, keys}
use nmos_common.Common.Json.{Json, bool, int, dict, list, str}

-- what is in a response: JSON text, the page that shows it, or data that is passed on as it is, which
-- werkzeug goes over when it sends it
pub data Body : Type 0 where
  no_body : Body
  json_text page : Json → Body
  data_of : Json → Body

-- a text or a structure can be gone over, and None counts as empty; a number or a boolean cannot
abbrev pub is_number : Json → Bool
is_number (int n) = true
is_number (bool b) = true
is_number _ = false

abbrev pub is_iterable : Body → Bool
is_iterable (data_of v) = not (is_number v)
is_iterable _ = true

pub data Mime : Type 0 where
  json_type html_type default_type : Mime
  typed : Json → Mime

pub record Response : Type 0 where
  pub status : ℕ
  pub mime : Mime
  pub headers : Dict String
  pub body : Body

-- `headers.get(name, default)`
abbrev set_default : String → String → Dict String → Dict String
set_default name value h = elim (get name h) [ none ↦ put name value h | some v ↦ put name v h ]

abbrev pub join : List String → String
join [] = ""
join (x ∷ []) = x
join (x ∷ y ∷ l) = x <> ", " <> join (y ∷ l)

-- the headers that `IppResponse.__init__` completes; by then there is one at least
unfoldable pub ipp_headers : Dict String → Dict String
ipp_headers headers =
    let h₁ = set_default "Access-Control-Allow-Origin" "*" headers in
    let h₂ =
      set_default "Access-Control-Allow-Methods" "GET, PUT, POST, HEAD, OPTIONS, DELETE" h₁ in
    let h₃ = set_default "Access-Control-Max-Age" "21600" h₂ in
    let h₄ = set_default "Cache-Control" "no-cache, must-revalidate, no-store" h₃ in
    if has "Access-Control-Allow-Headers" h₄
    then h₄
    else put "Access-Control-Allow-Headers" (join (keys h₄)) h₄

unfoldable pub ipp_response : Body → ℕ → Dict String → Mime → Response
ipp_response body status headers mime = record {
  status = status;
  mime = mime;
  headers = ipp_headers headers;
  body = body;
}

unfoldable pub jsonify : Json → ℕ → Dict String → Response
jsonify r status headers = ipp_response (json_text r) status headers json_type

unfoldable pub htmlify : Json → ℕ → Response
htmlify r status = ipp_response (page r) status [] html_type

-- what a handler returns; data that `json.dumps` refuses is `unserialisable`
pub data Returned : Type 0 where
  data_value : Json → Returned
  unserialisable : Returned
  response : Response → Returned

-- alone, or in a tuple with a status and headers
pub record Result : Type 0 where
  pub status : Option ℕ
  pub headers : Option (Dict String)
  pub value : Returned

abbrev pub status_of : Option ℕ → ℕ
status_of none = 200
status_of (some n) = n

abbrev pub headers_of : Option (Dict String) → Dict String
headers_of none = []
headers_of (some h) = h

-- a dict or a list
abbrev pub is_structure : Json → Bool
is_structure (dict d) = true
is_structure (list l) = true
is_structure _ = false

-- `html` tells whether a page is the best match of the request's Accept header
abbrev pub shown : Bool → Json → ℕ → Dict String → Response
shown true r status headers = htmlify r status
shown false r status headers = jsonify r status headers

abbrev pub refused_status : ℕ → ℕ
refused_status n = if eqb n 200 then 204 else n

abbrev pub json_of : Bool → ℕ → Dict String → Returned → Response
json_of html status headers (data_value r) =
    if is_structure r
    then shown html r status headers
    else ipp_response (data_of r) status headers default_type
json_of html status headers unserialisable =
    ipp_response no_body (refused_status status) [] default_type
json_of html status headers (response r) = r

-- `returns_json`, whose response may hold a number, which cannot be sent
unfoldable pub returns_json : Bool → Result → Response
returns_json html r = json_of html (status_of r.status) (headers_of r.headers) r.value
