-- ===== src/Common/Lists.antt =====
-- Lists over the native numbers, and membership, quantifiers and filters that compute.
use Prim.Native.Nat.{ℕ, zero, suc, ◌+◌, ◌<◌}
use Prim.Native.String.{String}
use mathlib.Core.Path.{◌≡◌, refl, subst}
use mathlib.Core.Logic.{inl, inr}
use mathlib.Core.Bool.{Bool, true, false, ◌&&◌, ◌||◌}
use mathlib.Core.Option.{Option, none, some}
use mathlib.Core.List.{List, [], ◌∷◌, ◌++◌}
use native.Mathlib.Omega.{arith}
use text.Mathlib.Text.{◌==◌}
use nmos_common.Common.Tests.{if◌then◌else◌, Bool-cases}

module _ {ℓ} {A : Type ℓ} where
  abbrev pub length : List A → ℕ
  length [] = 0
  length (_ ∷ xs) = suc (length xs)

  abbrev pub get_elem? : List A → ℕ → Option A
  get_elem? [] i = none
  get_elem? (x ∷ xs) zero = some x
  get_elem? (x ∷ xs) (suc i) = get_elem? xs i

  pub length-append : (xs ys : List A) → length (xs ++ ys) ≡ length xs + length ys
  length-append [] ys = omega arith
  length-append (_ ∷ xs) ys = omega (arith, length-append xs ys)

  -- `[x for x in xs if p(x)]`
  abbrev pub keep_if : (A → Bool) → List A → List A
  keep_if p [] = []
  keep_if p (x ∷ xs) = let rest = keep_if p xs in if p x then x ∷ rest else rest

  abbrev pub all : (A → Bool) → List A → Bool
  all p [] = true
  all p (x ∷ xs) = p x && all p xs

  abbrev pub any : (A → Bool) → List A → Bool
  any p [] = false
  any p (x ∷ xs) = p x || any p xs

module _ {ℓ κ} {A : Type ℓ} where
  abbrev pub All : (A → Type κ) → List A → Type κ
  All P [] = Unit
  All P (x ∷ xs) = P x × All P xs

  pub All-append : (P : A → Type κ) (xs ys : List A) → All P xs → All P ys → All P (xs ++ ys)
  All-append P [] ys hx hy = hy
  All-append P (x ∷ xs) ys hx hy = (hx.0, All-append P xs ys hx.1 hy)

-- membership, by a position
module _ {ℓ} {A : Type ℓ} where
  abbrev pub In : A → List A → Type ℓ
  In a xs = (i : ℕ) × (get_elem? xs i ≡ some a)

  pub In-cons : (a x : A) (xs : List A) → In a xs → In a (x ∷ xs)
  In-cons a x xs (i, e) = (suc i, e)

  -- what a filtered list holds was in the list and passed the test
  keep_if-head :
      (p : A → Bool) (x : A) (xs : List A) (i : ℕ) (a : A)
      → p x ≡ true
      → ((i : ℕ) → get_elem? (keep_if p xs) i ≡ some a → In a xs × (p a ≡ true))
      → get_elem? (x ∷ keep_if p xs) i ≡ some a
      → In a (x ∷ xs) × (p a ≡ true)
  keep_if-head p x xs zero a hit ih e = ((zero, e), ground arith)
  keep_if-head p x xs (suc i) a hit ih e = let (m, h) = ih i e in (In-cons a x xs m, h)

  pub get_elem?-keep_if :
      (p : A → Bool) (xs : List A) (i : ℕ) (a : A)
      → get_elem? (keep_if p xs) i ≡ some a
      → In a xs × (p a ≡ true)
  get_elem?-keep_if p [] i a e = cc
  get_elem?-keep_if p (x ∷ xs) i a e = elim (Bool-cases (p x)) [
    | inl hit ↦ keep_if-head p x xs i a hit (λ j. get_elem?-keep_if p xs j a) (rw hit at e)
    | inr miss ↦ let (m, h) = get_elem?-keep_if p xs i a (rw miss at e) in (In-cons a x xs m, h)
  ]

  pub In-append_left : (a : A) (xs ys : List A) → In a xs → In a (xs ++ ys)
  In-append_left a [] ys (i, e) = cc
  In-append_left a (x ∷ xs) ys (zero, e) = (0, e)
  In-append_left a (x ∷ xs) ys (suc i, e) = In-cons a x (xs ++ ys) (In-append_left a xs ys (i, e))

  pub In-append_right : (a : A) (xs ys : List A) → In a ys → In a (xs ++ ys)
  In-append_right a [] ys h = h
  In-append_right a (x ∷ xs) ys h = In-cons a x (xs ++ ys) (In-append_right a xs ys h)

  pub All-In {κ} : (P : A → Type κ) (xs : List A) (a : A) → All P xs → In a xs → P a
  All-In P [] a h (i, e) = cc
  All-In P (x ∷ xs) a h (zero, e) = subst P (cc) h.0
  All-In P (x ∷ xs) a h (suc i, e) = All-In P xs a h.1 (i, e)

  pub get_elem?-lt : (xs : List A) (i : ℕ) → i < length xs → (a : A) × (get_elem? xs i ≡ some a)
  get_elem?-lt [] i h = absurd (omega arith)
  get_elem?-lt (x ∷ xs) zero h = (x, refl)
  get_elem?-lt (x ∷ xs) (suc i) h = get_elem?-lt xs i (omega arith)

-- `x in xs`, for texts
abbrev pub elem : String → List String → Bool
elem x xs = any (λ y. y == x) xs

-- the last element of a list that has one
pub last_of {ℓ κ} :
    {A : Type ℓ} (P : A → Type κ) (xs : List A)
    → 0 < length xs
    → All P xs
    → (ini : List A) × (x : A) × (xs ≡ ini ++ x ∷ []) × P x
last_of P [] h a = absurd (omega arith)
last_of P (x ∷ []) h a = ([], x, refl, a.0)
last_of P (x ∷ y ∷ xs) h a =
    let (ini, z, e, p) = last_of P (y ∷ xs) (omega arith) a.1 in (x ∷ ini, z, cc, p)
