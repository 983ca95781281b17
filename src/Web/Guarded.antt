-- ===== src/Web/Guarded.antt =====
-- The routes that are marked secure, and the answers to OPTIONS (nmoscommon/webapi.py and
-- flask_cors.py).
use Prim.Native.String.{String}
use nmos_common.Common.{
  eq_refl, ℕ, zero, suc, ◌≡◌, refl, ap, ◌∙◌, subst, Bool, true, false, Option, none, some, List, [],
  ◌∷◌, ◌++◌, ◌<>◌, ◌==◌, In, elem, arith, Bool-cases, inl, inr, if◌then◌else◌,
}
use nmos_common.Common.Dict.{Dict}
use nmos_common.Common.Json.{null, bool, int, str, list, dict}
use nmos_common.Web.{
  Response, Result, Returned, data_value, unserialisable, response, jsonify, htmlify,
  refused_status, status_of, headers_of, ipp_response,
}
use mathlib.Core.Path.{ap₂}
use nmos_common.Web.Secure.{
  passes, returns_requires_auth, authorised, decided, secured, update_headers, credentials,
}
use nmos_common.Web.Cors.{crossdomain, attach, get_methods, Origin}
use nmos_common.Web.Routes.{
  add_path, Method, Rule, rule, Kind, secure, cors_of, or_else, rules_of, api_paths,
  crossdomain_methods, ends_slash, rstrip_slash, put_char, underscored,
}
use nmos_common.Web.Views.{Server, Request, Run, wrapped, serve}

-- the status of a response, if there is one
abbrev pub answer : Option Response → Option ℕ
answer none = none
answer (some r) = some r.status

module _ (known : ℕ → Bool) (paths : List String) (basepath : String) (m : Method)
    (path : String) where
  abbrev secure_rule : Rule
  secure_rule =
      rule (basepath <> path) (underscored basepath <> "_" <> m.name)
        (or_else m.app_methods ("GET" ∷ "HEAD" ∷ []) ++ crossdomain_methods paths m.common_path)
        secure
        (cors_of m.app_origin (or_else m.app_methods ("GET" ∷ "HEAD" ∷ []))
          (some (or_else m.app_headers [] ++ "Content-Type" ∷ "Authorization" ∷ "token" ∷ [])))

  rules_of-secure : m.secure_path ≡ some path → rules_of known paths basepath m ≡ secure_rule ∷ []
  unfolding rules_of
  rules_of-secure h = rw h refl

In-one : {A : Type 0} (a b : A) → In a (b ∷ []) → b ≡ a
In-one a b (zero, e) = cc
In-one a b (suc i, e) = cc

-- the status that a handler's result asks for
abbrev pub status_asked : Returned → ℕ → ℕ
status_asked (data_value v) n = n
status_asked unserialisable n = refused_status n
status_asked (response r) n = r.status

secured-status :
    (html : Bool) (n : ℕ) (headers : Dict String) (v : Returned)
    → (secured html n headers v).status ≡ status_asked v n
unfolding jsonify htmlify ipp_response
secured-status true n headers (data_value (dict d)) = refl
secured-status false n headers (data_value (dict d)) = refl
secured-status true n headers (data_value (list l)) = refl
secured-status false n headers (data_value (list l)) = refl
secured-status html n headers (data_value null) = refl
secured-status html n headers (data_value (bool b)) = refl
secured-status html n headers (data_value (int i)) = refl
secured-status html n headers (data_value (str t)) = refl
secured-status html n headers unserialisable = refl
secured-status html n headers (response r) = refl

-- what a result of the handler is answered, by what the check of the token comes to: none is an
-- exception, of the handler or of the check
abbrev pub status_for : Option Bool → Option Result → Option ℕ
status_for pass none = none
status_for none (some r) = none
status_for (some false) (some r) = some 401
status_for (some true) (some r) = some (status_asked r.value (status_of r.status))

module _ {S : Type 0} (server : Server) (req : Request) (s : S) where
  abbrev is_options : Bool
  is_options = req.method == "OPTIONS"

  decided-status :
      (pass : Option Bool) (html : Bool) (headers : Dict String) (r : Result)
      → answer (decided pass (secured html (status_of r.status) headers r.value))
        ≡ status_for pass (some r)
  unfolding ipp_response
  decided-status none html headers r = refl
  decided-status (some false) html headers r = refl
  decided-status (some true) html headers r =
      ap some (secured-status html (status_of r.status) headers r.value)

  authorised-status :
      (o : Option Result)
      → answer (authorised server.config req.token req.html o)
        ≡ status_for (passes server.config req.token) o
  authorised-status none = refl
  authorised-status (some r) =
      decided-status (passes server.config req.token) req.html
        (update_headers (headers_of r.headers) credentials) r

  wrapped-status :
      (f : S → Option Result × S)
      → answer (wrapped server secure f req s).0
        ≡ status_for (passes server.config req.token) (f s).0
  unfolding wrapped returns_requires_auth
  wrapped-status f = authorised-status (f s).0

  wrapped-state : (f : S → Option Result × S) → (wrapped server secure f req s).1 ≡ (f s).1
  unfolding wrapped returns_requires_auth
  wrapped-state f = refl

  -- what a call gives: the status, and what it changes
  abbrev pub seen : Option Response × S → Option ℕ × S
  seen (r, t) = (answer r, t)

  attach-status :
      (origin : Origin) (methods : List String) (headers : Option (List String))
      (o : Option Response)
      → answer (attach server.flask (cors_of origin methods headers) req.method o) ≡ answer o
  unfolding get_methods
  attach-status origin methods headers none = refl
  attach-status origin methods headers (some r) = refl

  crossdomain-status :
      (origin : Origin) (methods : List String) (headers : Option (List String))
      (f : S → Option Response × S)
      → seen (crossdomain server.flask (cors_of origin methods headers) req.method f s)
        ≡ (if is_options then (some server.flask.default_options.status, s) else seen (f s))
  unfolding crossdomain
  crossdomain-status origin methods headers f = elim (Bool-cases is_options) [
    | inl o ↦ rw o (
        ap (λ a. (a, s)) (attach-status origin methods headers (some server.flask.default_options)))
    | inr o ↦ rw o (ap (λ a. (a, (f s).1)) (attach-status origin methods headers (f s).0))
  ]

  -- The rule that is made for a method marked secure answers every OPTIONS, whatever its token,
  -- without calling the method. For any other request it calls the method: if that or the check of
  -- the token raises, so does the rule; if both return, the answer is a 401 where the token does not
  -- pass, and has the status that the method's result asks for where it does. What the method changes
  -- is changed in all of these cases.
  pub serve-secure :
      (known : ℕ → Bool) (paths : List String) (basepath : String) (m : Method) (path : String)
      (r : Rule) (run : (k : Kind) → Run S k)
      → m.secure_path ≡ some path
      → In r (rules_of known paths basepath m)
      → seen (serve server r run req s) ≡ (
          if is_options
          then (some server.flask.default_options.status, s)
          else (status_for (passes server.config req.token) (run secure s).0, (run secure s).1))
  unfolding serve
  serve-secure known paths basepath m path r run marked here =
      let same : secure_rule known paths basepath m path ≡ r =
        In-one r _ (subst (In r) (rules_of-secure known paths basepath m path marked) here) in
      subst
        (λ x. seen (serve server x run req s) ≡ (
          if is_options
          then (some server.flask.default_options.status, s)
          else (status_for (passes server.config req.token) (run secure s).0, (run secure s).1)))
        same
        (crossdomain-status m.app_origin _ _ (wrapped server secure (run secure) req)
          ∙ ap (λ x. if is_options then (some server.flask.default_options.status, s) else x)
              (ap₂ (λ a t. (a, t)) (wrapped-status (run secure)) (wrapped-state (run secure))))

-- a path with a slash behind it
abbrev pub slashed : String → String
slashed String.[] = "/"
slashed (String.◌∷◌ c s) = String.◌∷◌ c (slashed s)

ends_slash-slashed : (q : String) → ends_slash (slashed q) ≡ true
ends_slash-slashed String.[] = refl
ends_slash-slashed (String.◌∷◌ c String.[]) = refl
ends_slash-slashed (String.◌∷◌ c (String.◌∷◌ d s)) = ends_slash-slashed (String.◌∷◌ d s)

rstrip_slash-slashed : (q : String) → ends_slash q ≡ false → rstrip_slash (slashed q) ≡ q
unfolding rstrip_slash
rstrip_slash-slashed String.[] h = refl
rstrip_slash-slashed (String.◌∷◌ c String.[]) h = rw h refl
rstrip_slash-slashed (String.◌∷◌ c (String.◌∷◌ d s)) h =
    ap (put_char c) (rstrip_slash-slashed (String.◌∷◌ d s) h)

some_same : {A : Type 0} (a b : A) → some a ≡ some b → a ≡ b
some_same a b e = cc

elem-add_path :
    (o : Option String) (q : String) (l : List String) → o ≡ some q → elem q (add_path o l) ≡ true
elem-add_path o q l h = rw (h, eq_refl q) refl

elem-add_more :
    (o : Option String) (q : String) (l : List String)
    → elem q l ≡ true
    → elem q (add_path o l) ≡ true
elem-add_more none q l h = h
elem-add_more (some p) q l h = ground arith

elem-api_paths :
    (ms : List Method) (m : Method) (q : String)
    → In m ms
    → m.common_path ≡ some q
    → elem q (api_paths ms) ≡ true
unfolding api_paths
elem-api_paths [] m q (i, e) h = cc
elem-api_paths (x ∷ ms) m q (zero, e) h =
    elem-add_path x.common_path q (api_paths ms) (ap (λ y. y.common_path) (some_same x m e) ∙ h)
elem-api_paths (x ∷ ms) m q (suc i, e) h =
    elem-add_more x.common_path q (api_paths ms) (elem-api_paths ms m q (i, e) h)

-- Where a route's path ends in no slash, OPTIONS is a method of its rule, and it is no method that
-- add_routes adds to a rule for the same path with a slash behind it.
pub crossdomain_methods-slashed :
    (ms : List Method) (m : Method) (q : String)
    → In m ms
    → m.common_path ≡ some q
    → ends_slash q ≡ false
    → (crossdomain_methods (api_paths ms) (some q) ≡ "OPTIONS" ∷ [])
      × (crossdomain_methods (api_paths ms) (some (slashed q)) ≡ [])
unfolding crossdomain_methods
crossdomain_methods-slashed ms m q here h e = (
  rw e refl,
  rw (ends_slash-slashed q, rstrip_slash-slashed q e, elem-api_paths ms m q here h) refl,
)
