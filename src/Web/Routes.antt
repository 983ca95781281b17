-- ===== src/Web/Routes.antt =====
-- nmoscommon/webapi.py: the decorators that mark a method as a route, and WebAPI.add_routes, which
-- makes the rules of the marked methods. Flask's table of rules is what the rules are added to.
use Prim.Native.Char.{Char, code}
use Prim.Native.String.{String}
use nmos_common.Common.{
  ℕ, zero, suc, ◌+◌, Bool, true, false, not, ◌&&◌, ◌||◌, Option, none, some, List, [], ◌∷◌, ◌++◌,
  ◌<>◌, elem, eqb, keep_if, if◌then◌else◌,
}
use nmos_common.Web.Cors.{Origin, one, Cors}

-- a method of a routes object with the attributes that the decorators give it; an attribute that is
-- None counts as one that is not there
pub record Method : Type 0 where
  pub name : String
  pub common_path : Option String
  pub secure_path : Option String
  pub response_path : Option String
  pub app_path : Option String
  pub file_path : Option String
  pub resource_path : Option String
  pub socket_path : Option String
  pub app_methods : Option (List String)
  pub app_headers : Option (List String)
  pub app_origin : Origin
  pub auto_json : Bool
  pub error_codes : Option (List ℕ)

-- a default where the caller gives None
abbrev pub or_else {ℓ} : {A : Type ℓ} → Option A → A → A
or_else none d = d
or_else (some a) d = a

unfoldable pub secure_route :
    String → Option (List String) → Bool → Option (List String) → Origin → Method → Method
secure_route path methods auto_json headers origin func = record func {
  common_path = some path;
  secure_path = some path;
  app_methods = some (or_else methods ("GET" ∷ "HEAD" ∷ []));
  auto_json = auto_json;
  app_headers = some (or_else headers []);
  app_origin = origin;
}

unfoldable pub basic_route : String → Method → Method
basic_route path func = record func { common_path = some path; response_path = some path }

unfoldable pub route :
    String → Option (List String) → Bool → Option (List String) → Origin → Method → Method
route path methods auto_json headers origin func = record func {
  common_path = some path;
  app_path = some path;
  app_methods = methods;
  auto_json = auto_json;
  app_headers = some (or_else headers []);
  app_origin = origin;
}

unfoldable pub resource_method : String → Option (List String) → Method → Method
resource_method path methods func = record func {
  common_path = some path;
  resource_path = some path;
  app_methods = methods;
}

unfoldable pub file_route : String → Option (List String) → Option (List String) → Method → Method
file_route path methods headers func = record func {
  common_path = some path;
  file_path = some path;
  app_methods = methods;
  app_headers = headers;
}

unfoldable pub errorhandler : List ℕ → Method → Method
errorhandler codes func = record func { error_codes = some codes }

unfoldable pub on_json : String → Method → Method
on_json path func = record func { socket_path = some path }

-- how a method is wrapped
pub data Kind : Type 0 where
  secure basic json plain file resource : Kind

-- what is registered: a rule with its view, the route of a websocket, or a handler of error codes
pub data Rule : Type 0 where
  rule : (path endpoint : String) → (methods : List String) → Kind → Cors → Rule
  sock : (path endpoint : String) → Rule
  on_error : List ℕ → Cors → Rule

-- `path.endswith("/")` and `path.rstrip("/")`
abbrev pub ends_slash : String → Bool
ends_slash String.[] = false
ends_slash (String.◌∷◌ c String.[]) = eqb (code c) b'/'
ends_slash (String.◌∷◌ c (String.◌∷◌ d s)) = ends_slash (String.◌∷◌ d s)

abbrev pub put_char : Char → String → String
put_char c String.[] = if eqb (code c) b'/' then "" else String.◌∷◌ c String.[]
put_char c (String.◌∷◌ d s) = String.◌∷◌ c (String.◌∷◌ d s)

unfoldable pub rstrip_slash : String → String
rstrip_slash String.[] = ""
rstrip_slash (String.◌∷◌ c s) = put_char c (rstrip_slash s)

-- `basepath.replace('/', '_')`
unfoldable pub underscored : String → String
underscored String.[] = ""
underscored (String.◌∷◌ c s) =
    if eqb (code c) b'/' then "_" <> underscored s else String.◌∷◌ c (underscored s)

abbrev pub add_path : Option String → List String → List String
add_path none paths = paths
add_path (some path) paths = path ∷ paths

unfoldable pub api_paths : List Method → List String
api_paths [] = []
api_paths (m ∷ ms) = add_path m.common_path (api_paths ms)

-- OPTIONS is answered at a path, unless that of another route is the same without its slash
unfoldable pub crossdomain_methods : List String → Option String → List String
crossdomain_methods paths none = []
crossdomain_methods paths (some path) =
    if (ends_slash path && not (elem (rstrip_slash path) paths)) || not (ends_slash path)
    then "OPTIONS" ∷ []
    else []

abbrev pub any_origin : Origin
any_origin = one "*"

abbrev pub cors_of : Origin → List String → Option (List String) → Cors
cors_of origin methods headers = record {
  origin = origin;
  methods = some methods;
  headers = headers;
  max_age = "21600";
  attach_to_all = true;
  automatic_options = true;
}

abbrev pub all_methods : List String
all_methods = "GET" ∷ "POST" ∷ "PUT" ∷ "DELETE" ∷ "OPTIONS" ∷ "HEAD" ∷ []

-- `range(a, a + n)`
abbrev pub range : ℕ → ℕ → List ℕ
range zero a = []
range (suc n) a = a ∷ range n (a + 1)

-- the codes of a handler: those given, or all of them that Flask knows
abbrev pub codes_of : (ℕ → Bool) → List ℕ → List ℕ
codes_of known [] = keep_if known (range 200 400)
codes_of known (c ∷ codes) = c ∷ codes

module _ (known : ℕ → Bool) (paths : List String) (basepath : String) where
  -- the body of the loop: the first mark that a method has decides
  unfoldable pub rules_of : Method → List Rule
  rules_of m =
      let endpoint = underscored basepath <> "_" <> m.name in
      let methods = or_else m.app_methods ("GET" ∷ "HEAD" ∷ []) in
      let headers = or_else m.app_headers [] in
      let options = crossdomain_methods paths m.common_path in
      elim m.secure_path [
        | some path ↦
            rule (basepath <> path) endpoint (methods ++ options) secure (
              cors_of m.app_origin methods
                (some (headers ++ "Content-Type" ∷ "Authorization" ∷ "token" ∷ [])))
            ∷ []
        | none ↦ elim m.response_path [
          | some path ↦
              rule (basepath <> path) endpoint ("GET" ∷ "POST" ∷ "HEAD" ∷ options) basic (
                cors_of any_origin ("GET" ∷ "POST" ∷ "HEAD" ∷ [])
                  (some ("Content-Type" ∷ "Authorization" ∷ [])))
              ∷ []
          | none ↦ elim m.app_path [
            | some path ↦
                rule (basepath <> path) endpoint (methods ++ options)
                  (if m.auto_json then json else plain)
                  (cors_of m.app_origin methods
                    (some (headers ++ "Content-Type" ∷ "Authorization" ∷ [])))
                ∷ []
            | none ↦ elim m.file_path [
              | some path ↦
                  rule (basepath <> path) endpoint (methods ++ options) file (
                    cors_of any_origin methods
                      (some (headers ++ "Content-Type" ∷ "Authorization" ∷ [])))
                  ∷ []
              | none ↦ elim m.resource_path [
                | some path ↦
                    let cors =
                      cors_of any_origin methods
                        (some (headers ++ "Content-Type" ∷ "Authorization" ∷ "api-key" ∷ [])) in
                    rule (basepath <> path) endpoint (methods ++ options) resource cors
                    ∷ rule (basepath <> path <> "<path:path>/") (endpoint <> "_path")
                        (methods ++ options) resource cors
                    ∷ []
                | none ↦ elim m.socket_path [
                  | some path ↦ sock (basepath <> path) endpoint ∷ []
                  | none ↦ elim m.error_codes [
                    | some codes ↦
                        on_error (codes_of known codes) (cors_of any_origin all_methods none) ∷ []
                    | none ↦ []
                  ]
                ]
              ]
            ]
          ]
        ]
      ]

  unfoldable pub all_rules : List Method → List Rule
  all_rules [] = []
  all_rules (m ∷ ms) = rules_of m ++ all_rules ms

-- `add_routes`, for the methods in the order of the classes; none is the failed assertion
unfoldable pub add_routes : (ℕ → Bool) → List Method → String → Option (List Rule)
add_routes known methods basepath =
    if ends_slash basepath
    then none
    else some (all_rules known (api_paths methods) basepath methods)
