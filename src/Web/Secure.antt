-- ===== src/Web/Secure.antt =====
-- nmoscommon/webapi.py: returns_requires_auth, and the checks of a token by a login server. The
-- handler acts on a state; the response of a handler is an IppResponse.
use nmos_common.Common.{
  ℕ, String, Bool, true, false, Option, none, some, List, [], ◌∷◌, ◌==◌, elem, eqb, if◌then◌else◌,
}
use nmos_common.Common.Dict.{Dict, put}
use nmos_common.Web.{
  Response, Result, Returned, data_value, unserialisable, response, no_body, data_of, default_type,
  ipp_response, is_structure, shown, refused_status, status_of, headers_of,
}

-- what the login server says of a token: the status, and two keys of the JSON object
pub record Checked : Type 0 where
  pub code : ℕ
  pub userid : Option String
  pub token : Option String

pub record OauthConfig : Type 0 where
  pub check_token : String → Checked
  pub access_whitelist : List String

-- a missing key is a KeyError, which is none
abbrev pub listed : Option String → List String → Option Bool
listed none whitelist = none
listed (some user) whitelist = some (elem user whitelist)

-- `default_authorize`
unfoldable pub default_authorize : Option OauthConfig → String → Option Bool
default_authorize none token = some true
default_authorize (some c) token = listed (c.check_token token).userid c.access_whitelist

abbrev pub same_token : Option String → String → Option Bool
same_token none token = none
same_token (some t) token = some (t == token)

-- `default_authenticate`, for a token that is there
unfoldable pub default_authenticate : Option OauthConfig → String → Option Bool
default_authenticate none token = some true
default_authenticate (some c) token =
    let same = same_token (c.check_token token).token token in
    if eqb (c.check_token token).code 200 then same else some false

-- the header that is set first, and those of the handler over it
unfoldable pub update_headers : Dict String → Dict String → Dict String
update_headers [] h = h
update_headers ((name, value) ∷ more) h = update_headers more (put name value h)

abbrev pub credentials : Dict String
credentials = ("Access-Control-Allow-Credentials", "true") ∷ []

abbrev pub secured : Bool → ℕ → Dict String → Returned → Response
secured html status headers (data_value r) =
    if is_structure r
    then shown html r status headers
    else ipp_response (data_of r) status headers default_type
secured html status headers unserialisable =
    ipp_response no_body (refused_status status) [] default_type
secured html status headers (response r) = record r {
  headers = put "Access-Control-Allow-Credentials" "true" r.headers;
}

abbrev pub unauthorised : Response
unauthorised = ipp_response no_body 401 [] default_type

-- the second check is made only if the first one passes
abbrev pub checks : Option Bool → Option Bool → Option Bool
checks none authorized = none
checks (some false) authorized = some false
checks (some true) authorized = authorized

-- whether a request with this token passes; none is an exception
unfoldable pub passes : Option OauthConfig → Option String → Option Bool
passes none token = some true
passes (some c) none = some false
passes (some c) (some token) =
    checks (default_authenticate (some c) token) (default_authorize (some c) token)

abbrev pub decided : Option Bool → Response → Option Response
decided none r = none
decided (some false) r = some unauthorised
decided (some true) r = some r

-- what becomes of the handler's result; none is that it raised
abbrev pub authorised : Option OauthConfig → Option String → Bool → Option Result → Option Response
authorised config token html none = none
authorised config token html (some r) =
    let headers = update_headers (headers_of r.headers) credentials in
    decided (passes config token) (secured html (status_of r.status) headers r.value)

-- `returns_requires_auth`: the handler runs before the token is looked at, and may raise
unfoldable pub returns_requires_auth :
    {S : Type 0}
    → Option OauthConfig
    → Option String
    → Bool
    → (S → Option Result × S)
    → S
    → Option Response × S
returns_requires_auth config token html f s =
    let (r, s') = f s in (authorised config token html r, s')
