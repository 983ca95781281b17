-- ===== src/Auth/Permits.antt =====
-- When the claims of a token permit a request (nmoscommon/auth/claims_validator.py).
use nmos_common.Common.{
  codes, ℕ, String, ◌≡◌, refl, ◌↔◌, ◌≢◌, Bool, true, false, Option, none, some, List, [], ◌∷◌, ◌&&◌,
  any, elem, arith, ◌<>◌, ◌==◌,
}
use nmos_common.Common.Dict.{Dict, get, has, get-nil}
use nmos_common.Auth.Exn.{AuthExn, Check, ok, err, invalid_claim, missing_claim, ◌>>=◌}
use nmos_common.Auth.Paths.{sub_path, is_api_root}
use nmos_common.Auth.Claims.{
  Claims, Permissions, Request, Library, base_paths, claim_options, access_right, nonempty_entry,
  found_path, require, validate_permissions, validate_each, validate_nmos,
}

-- The token names the claim, and the claim lists a pattern for the path under the right that the
-- method needs.
pub record Grants (lib : Library) (claims : Claims) (request : Request) (name : String)
    : Type 0 where
  pub permissions : Permissions
  pub right : String
  pub urls : List String
  pub path : List ℕ
  pub named : get name claims.nmos ≡ some permissions
  pub needed : access_right request.method ≡ ok right
  pub listed : get right permissions ≡ some urls
  pub below : sub_path (codes request.path) ≡ some path
  pub matched : any (lib.fnmatch path) urls ≡ true

-- inversion of a bind
pub bind-ok :
    {A B : Type 0} (m : Check A) (f : A → Check B) (b : B)
    → (m >>= f) ≡ ok b
    → (a : A) × (m ≡ ok a) × (f a ≡ ok b)
bind-ok (ok a) f b e = (a, refl, e)
bind-ok (err x) f b e = cc

entry-ok :
    {A : Type 0} (k : String) (d : Dict (List A)) (l : List A)
    → nonempty_entry k d ≡ ok l
    → get k d ≡ some l
unfolding nonempty_entry
entry-ok k d l e = ground arith

entry_there :
    {A : Type 0} (k : String) (d : Dict (List A)) (l : List A)
    → get k d ≡ some l
    → l ≢ []
    → nonempty_entry k d ≡ ok l
unfolding nonempty_entry
entry_there k d [] e h = absurd (h refl)
entry_there k d (x ∷ l) e h = rw (e, nonempty_entry)

found_there : (o : Option (List ℕ)) (p : List ℕ) → o ≡ some p → found_path o ≡ ok p
unfolding found_path
found_there none p e = cc
found_there (some q) p e = cc

require_there : (b : Bool) (e : AuthExn) → b ≡ true → require b e ≡ ok tt
unfolding require
require_there b e h = rw (h, require)

some_of_any : {A : Type 0} (p : A → Bool) (l : List A) → any p l ≡ true → l ≢ []
some_of_any p [] h e = cc
some_of_any p (x ∷ l) h e = cc

some_of_get : {A : Type 0} (k : String) (d : Dict A) (v : A) → get k d ≡ some v → d ≢ []
some_of_get {A} k [] v e f = ground (arith, get-nil {0} {V = A} k)
some_of_get k (x ∷ d) v e f = cc

found-ok : (o : Option (List ℕ)) (p : List ℕ) → found_path o ≡ ok p → o ≡ some p
unfolding found_path
found-ok none p e = cc
found-ok (some q) p e = cc

require-ok : (b : Bool) (e : AuthExn) → require b e ≡ ok tt → b ≡ true
unfolding require
require-ok true e h = refl
require-ok false e h = cc

module _ (lib : Library) (claims : Claims) (request : Request) where
  permissions-Grants :
      (name : String)
      → validate_permissions lib claims request name ≡ ok tt
      → Grants lib claims request name
  permissions-Grants name e =
      unfold validate_permissions in
      let (permissions, named, e₁) = bind-ok (nonempty_entry name claims.nmos) _ tt e in
      let (right, needed, e₂) = bind-ok (access_right request.method) _ tt e₁ in
      let (urls, listed, e₃) = bind-ok (nonempty_entry right permissions) _ tt e₂ in
      let (path, below, e₄) = bind-ok (found_path (sub_path (codes request.path))) _ tt e₃ in
      record {
        permissions = permissions;
        right = right;
        urls = urls;
        path = path;
        named = entry-ok name claims.nmos permissions named;
        needed = needed;
        listed = entry-ok right permissions urls listed;
        below = found-ok _ path below;
        matched = require-ok _ invalid_claim e₄;
      }

  Grants-permissions :
      (name : String)
      → Grants lib claims request name
      → validate_permissions lib claims request name ≡ ok tt
  unfolding validate_permissions
  Grants-permissions name g =
      rw
        (
          entry_there name claims.nmos g.permissions g.named
              (some_of_get g.right g.permissions g.urls g.listed),
          g.needed,
          entry_there g.right g.permissions g.urls g.listed
              (some_of_any (lib.fnmatch g.path) g.urls g.matched),
          found_there _ g.path g.below,
        )
        (require_there _ invalid_claim g.matched)

  Grants-has : (name : String) → Grants lib claims request name → has name claims.nmos ≡ true
  Grants-has name g = rw (g.named, has)

  -- the check below a version of an API
  abbrev last_check : String → Check (Unit {0})
  last_check name = require (has name claims.nmos && true) missing_claim >>= λ _.
      validate_permissions lib claims request name >>= λ _. ok tt

  below_version :
      (nmos_api : String)
      → (nmos_api == "") ≡ false
      → elem request.path base_paths ≡ false
      → is_api_root (codes request.path) ≡ false
      → validate_nmos lib nmos_api claims request ≡ last_check ("x-nmos-" <> nmos_api)
  unfolding validate_nmos claim_options validate_each
  below_version nmos_api named below_base below_root = rw (named, below_base, below_root) refl

  last_check-ok :
      (name : String)
      → last_check name ≡ ok tt
      → validate_permissions lib claims request name ≡ ok tt
  last_check-ok name e =
      let (_, present, e₁) =
        bind-ok (require (has name claims.nmos && true) missing_claim) _ tt e in
      let (_, done, e₂) = bind-ok (validate_permissions lib claims request name) _ tt e₁ in done

  last_check-Grants : (name : String) → Grants lib claims request name → last_check name ≡ ok tt
  last_check-Grants name g =
      rw
        (
          require_there (has name claims.nmos && true) missing_claim (rw (Grants-has name g) refl),
          Grants-permissions name g,
        )
        refl

  -- For an API that is named, and a path that is neither a base path nor the root of an API or of
  -- a version, the x-nmos check succeeds exactly if the token's claim for that API grants the path
  -- under the right that the method needs.
  pub validate_nmos_iff :
      (nmos_api : String)
      → (nmos_api == "") ≡ false
      → elem request.path base_paths ≡ false
      → is_api_root (codes request.path) ≡ false
      → (validate_nmos lib nmos_api claims request ≡ ok tt)
        ↔ Grants lib claims request ("x-nmos-" <> nmos_api)
  validate_nmos_iff nmos_api named below_base below_root =
      rw (below_version nmos_api named below_base below_root)
        (λ e. permissions-Grants _ (last_check-ok _ e), λ g. last_check-Grants _ g)
