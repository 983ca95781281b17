-- ===== src/Web/Views.antt =====
-- nmoscommon/webapi.py: what the rules of WebAPI.add_routes do with a request: the wrapper of each
-- kind of route, under the one for other origins.
use Prim.Native.String.{String}
use nmos_common.Common.{Bool, Option, none, some, ◌<>◌, ◌==◌, [], ◌∷◌}
use nmos_common.Common.Json.{Json, null, str, dict}
use nmos_common.Common.Unicode.{Unicode}
use nmos_common.Web.{
  Response, Result, Returned, Mime, default_type, typed, data_of, ipp_response, returns_json,
}
use nmos_common.Web.Resource.{obj_path_access, alone, get_field}
use nmos_common.Web.Secure.{OauthConfig, returns_requires_auth}
use nmos_common.Web.Cors.{Flask, crossdomain}
use nmos_common.Web.Routes.{
  Kind, secure, basic, json, plain, file, resource, Rule, rule, sock, on_error,
}

-- the parts of a request that the wrappers look at
pub record Request : Type 0 where
  pub method : String
  pub token : Option String
  pub html : Bool
  pub path : String

-- what a method gives to the wrapper of its kind, and changes; none is an exception
abbrev pub Run : Type 0 → Kind → Type 0
Run S secure = S → Option Result × S
Run S basic = S → Option Response × S
Run S json = S → Option Result × S
Run S plain = S → Option Response × S
Run S file = S → Option Json × S
Run S resource = S → Option Json × S

-- `config` is the WebAPI's, `unicode` tells characters beyond ASCII, and `format` Python's `str` of a value that is no text
pub record Server : Type 0 where
  pub unicode : Unicode
  pub flask : Flask
  pub config : Option OauthConfig
  pub format : Json → String

unfoldable pub returns_response : Response → Response
returns_response r = ipp_response r.body r.status r.headers r.mime

abbrev pub content_type : Option Json → Mime
content_type none = default_type
content_type (some null) = default_type
content_type (some v) = typed v

abbrev pub text_of : (Json → String) → Json → String
text_of format (str s) = s
text_of format v = format v

abbrev pub file_response :
    (Json → String) → Option Json → Option Json → Option Json → Mime → Option Response
file_response format (some content) (some name) (some type) mime = some (
    ipp_response (data_of content) 200
      ((
        "Content-Disposition",
        "attachment; filename=" <> text_of format name <> "." <> text_of format type,
      )
        ∷ [])
      mime)
file_response format _ _ _ mime = none

-- `returns_file`; none is a missing key, or a value that is no dict
unfoldable pub returns_file : (Json → String) → Json → Option Response
returns_file format (dict d) =
    file_response format (get_field "content" d) (get_field "filename" d) (get_field "type" d)
      (content_type (get_field "content-type" d))
returns_file format _ = none

abbrev pub shown_as : Bool → Option Returned → Option Response
shown_as html none = none
shown_as html (some r) = some (returns_json html (alone r))

abbrev pub unless_raised : {A : Type 0} → (A → Option Response) → Option A → Option Response
unless_raised f none = none
unless_raised f (some v) = f v

module _ {S : Type 0} (server : Server) where
  unfoldable pub wrapped : (k : Kind) → Run S k → Request → S → Option Response × S
  wrapped secure f req s = returns_requires_auth server.config req.token req.html f s
  wrapped basic f req s =
      let (r, s') = f s in (unless_raised (λ v. some (returns_response v)) r, s')
  wrapped json f req s =
      let (r, s') = f s in (unless_raised (λ v. some (returns_json req.html v)) r, s')
  wrapped plain f req s = f s
  wrapped file f req s = let (r, s') = f s in (unless_raised (returns_file server.format) r, s')
  wrapped resource f req s =
      let (r, s') = f s in
      (
        unless_raised
            (λ v.
              shown_as req.html (obj_path_access server.unicode (req.method == "GET") req.path v))
            r,
        s',
      )

  -- the view of a rule; a websocket and an error handler are none
  unfoldable pub serve : Rule → ((k : Kind) → Run S k) → Request → S → Option Response × S
  serve (rule path endpoint methods k cors) f req s =
      crossdomain server.flask cors req.method (wrapped k (f k) req) s
  serve (sock path endpoint) f req s = (none, s)
  serve (on_error codes cors) f req s = (none, s)
