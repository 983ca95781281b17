-- ===== src/Common/Dict.antt =====
-- Python's `dict` with text keys, in insertion order: a write to a key that is there keeps its
-- place, a write to a new key goes to the end.
use Prim.Native.String.{String}
use mathlib.Core.Path.{◌≡◌, refl, ap, ◌∙◌}
use mathlib.Core.Logic.{inl, inr}
use mathlib.Core.Bool.{Bool, ◌&&◌}
use mathlib.Core.Option.{Option, none, some}
use mathlib.Core.List.{List, [], ◌∷◌, map}
use native.Mathlib.Omega.{arith}
use text.Mathlib.Text.{◌==◌}
use text.Mathlib.TextEquality.{eq_iff}
use nmos_common.Common.Tests.{if◌then◌else◌, is_some, Bool-cases}
use nmos_common.Common.Lists.{All}

abbrev pub Dict {ℓ} : Type ℓ → Type ℓ
Dict V = List (String × V)

module _ {ℓ} {V : Type ℓ} where
  -- d.get(k)
  unfoldable pub get : String → Dict V → Option V
  get k [] = none
  get k ((j, v) ∷ d) = if j == k then some v else get k d

  -- d[k] = v
  unfoldable pub put : String → V → Dict V → Dict V
  put k v [] = (k, v) ∷ []
  put k v ((j, w) ∷ d) = if j == k then (j, v) ∷ d else (j, w) ∷ put k v d

  -- d.pop(k, None)
  unfoldable pub remove : String → Dict V → Dict V
  remove k [] = []
  remove k ((j, v) ∷ d) = let rest = remove k d in if j == k then rest else (j, v) ∷ rest

  -- k in d
  abbrev pub has : String → Dict V → Bool
  has k d = is_some (get k d)

  -- d.keys()
  abbrev pub keys : Dict V → List String
  keys d = map (λ e. e.0) d

  pub get-put :
      (k j : String) (v : V) (d : Dict V) → get j (put k v d) ≡ (if k == j then some v else get j d)
  unfolding get put
  get-put k j v [] = refl
  get-put k j v ((i, w) ∷ d) = ground (arith, eq_iff k j, eq_iff i k, eq_iff i j, get-put k j v d)

  pub get-remove :
      (k j : String) (d : Dict V) → get j (remove k d) ≡ (if k == j then none else get j d)
  unfolding get remove
  get-remove k j [] = ground arith
  get-remove k j ((i, w) ∷ d) = ground (arith, eq_iff k j, eq_iff i k, eq_iff i j, get-remove k j d)

  pub get-nil : (k : String) → get k [] ≡ none
  unfolding get
  get-nil k = refl

pub ruleset dict_laws = (get-nil, get-put, get-remove)

-- a dict of dicts, a missing one being empty
module _ {ℓ} {V : Type ℓ} where
  abbrev pub or_empty : Option (Dict V) → Dict V
  or_empty none = []
  or_empty (some d) = d

  abbrev pub get_in : String → String → Dict (Dict V) → Option V
  get_in t n ds = get n (or_empty (get t ds))

  -- a dict that differs at one key
  pub get_in-put :
      (t n : String) (o : Option V) (d : Dict V) (ds : Dict (Dict V))
      → ((b : String) → get b d ≡ (if n == b then o else get_in t b ds))
      → (a b : String) → get_in a b (put t d ds) ≡ (if t == a && n == b then o else get_in a b ds)
  get_in-put t n o d ds h a b =
      ap (λ x. get b (or_empty x)) (get-put t a d ds) ∙ elim (Bool-cases (t == a)) [
        | inl same ↦
            rw same (h b ∙ ap (λ x. if n == b then o else get_in x b ds) ((eq_iff t a).0 same))
        | inr differs ↦ rw differs refl
      ]

-- no key twice
abbrev pub IsDict {ℓ} : {V : Type ℓ} → Dict V → Type ℓ
IsDict [] = Unit
IsDict ((k, v) ∷ d) = (get k d ≡ none) × IsDict d

-- What holds of every entry holds of the one that is found, and is kept by a write and a removal.
module _ {ℓ κ} {V : Type ℓ} (P : String × V → Type κ) where
  pub All-put : (k : String) (v : V) (d : Dict V) → P (k, v) → All P d → All P (put k v d)
  unfolding put
  All-put k v [] p h = (p, h)
  All-put k v ((j, w) ∷ d) p h = ground (arith, eq_iff j k, All-put k v d p h.1)

  pub All-remove : (k : String) (d : Dict V) → All P d → All P (remove k d)
  unfolding remove
  All-remove k [] h = h
  All-remove k ((j, w) ∷ d) h = ground (arith, All-remove k d h.1)

  pub All-get : (k : String) (d : Dict V) (v : V) → get k d ≡ some v → All P d → P (k, v)
  unfolding get
  All-get k [] v e h = ground arith
  All-get k ((j, w) ∷ d) v e h = ground (arith, eq_iff j k, All-get k d v)
