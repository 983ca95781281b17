-- ===== src/Web/Cors.antt =====
-- nmoscommon/flask_cors.py: the wrapper of a handler that answers OPTIONS and sets the headers for
-- other origins. What Flask answers to OPTIONS and Python's `upper` are parameters; names of headers
-- are compared as they are written.
use Prim.Native.String.{compare}
use Prim.Native.Nat.{Ordering}
use nmos_common.Common.{
  String, Bool, true, false, not, ◌&&◌, Option, none, some, List, [], ◌∷◌, map, ◌==◌, if◌then◌else◌,
}
use nmos_common.Common.Dict.{Dict, get, put}
use nmos_common.Web.{Response, join}

-- `default_options` is `make_default_options_response()`
pub record Flask : Type 0 where
  pub default_options : Response
  pub upper : String → String

-- a text, or several
pub data Origin : Type 0 where
  one : String → Origin
  several : List String → Origin

-- the arguments of `crossdomain`; the age is its printed text
pub record Cors : Type 0 where
  pub origin : Origin
  pub methods : Option (List String)
  pub headers : Option (List String)
  pub max_age : String
  pub attach_to_all : Bool
  pub automatic_options : Bool

abbrev before : Ordering → Bool
before Ordering.gt = false
before _ = true

unfoldable pub insert : String → List String → List String
insert x [] = x ∷ []
insert x (y ∷ l) = let later = insert x l in if before (compare x y) then x ∷ y ∷ l else y ∷ later

unfoldable pub sorted : List String → List String
sorted [] = []
sorted (x ∷ l) = insert x (sorted l)

abbrev pub origin_text : Origin → String
origin_text (one origin) = origin
origin_text (several origins) = join origins

-- a handler's response and what it changes; none is an exception
abbrev pub Handler : Type 0 → Type 0
Handler S = S → Option Response × S

module _ (flask : Flask) (cors : Cors) where
  -- `get_methods`: none is a KeyError
  unfoldable pub get_methods : Option String
  get_methods = elim cors.methods [
    | some methods ↦ some (join (sorted (map flask.upper methods)))
    | none ↦ get "allow" flask.default_options.headers
  ]

  abbrev pub allow_headers : Option (List String) → Dict String → Dict String
  allow_headers none h = h
  allow_headers (some headers) h =
      put "Access-Control-Allow-Headers" (join (map flask.upper headers)) h

  -- the headers are set one after the other
  abbrev pub attached : Option String → Response → Option Response
  attached none resp = none
  attached (some methods) resp = some (record resp {
    headers = allow_headers cors.headers (
        put "Access-Control-Max-Age" cors.max_age (
          put "Access-Control-Allow-Methods" methods
            (put "Access-Control-Allow-Origin" (origin_text cors.origin) resp.headers)));
  })

  abbrev pub attach : String → Option Response → Option Response
  attach method none = none
  attach method (some resp) =
      if not cors.attach_to_all && not (method == "OPTIONS")
      then some resp
      else attached get_methods resp

  -- `wrapped_function`
  unfoldable pub crossdomain {ℓ} :
      {S : Type ℓ} → String → (S → Option Response × S) → S → Option Response × S
  crossdomain method f s =
      let (resp, s') =
        if cors.automatic_options && method == "OPTIONS"
        then (some flask.default_options, s)
        else f s in
      (attach method resp, s')
