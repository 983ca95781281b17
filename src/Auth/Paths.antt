-- ===== src/Auth/Paths.antt =====
-- The two patterns for request paths of nmoscommon/auth/claims_validator.py, over code points.
use nmos_common.Common.{
  codes, ℕ, Bool, true, false, ◌&&◌, ◌||◌, Option, none, some, List, [], ◌∷◌, leb, eqb,
  if◌then◌else◌,
}

unfoldable pub is_lower : ℕ → Bool
is_lower c = leb b'a' c && leb c b'z'

unfoldable pub is_digit : ℕ → Bool
is_digit c = leb b'0' c && leb c b'9'

-- the text after a fixed prefix
unfoldable pub strip_prefix : List ℕ → List ℕ → Option (List ℕ)
strip_prefix [] s = some s
strip_prefix (p ∷ ps) [] = none
strip_prefix (p ∷ ps) (c ∷ s) = if eqb p c then strip_prefix ps s else none

-- the text after a longest run of characters of a class
unfoldable pub skip : (ℕ → Bool) → List ℕ → List ℕ
skip p [] = []
skip p (c ∷ s) = if p c then skip p s else c ∷ s

-- the same for a run that is not empty: `[…]+`
unfoldable pub skip_some : (ℕ → Bool) → List ℕ → Option (List ℕ)
unfolding skip
skip_some p [] = none
skip_some p (c ∷ s) = if p c then some (skip p s) else none

infixl 10 ◌>>=◌
abbrev ◌>>=◌ : {A B : Type 0} → Option A → (A → Option B) → Option B
none >>= f = none
some a >>= f = f a

-- `v[0-9]+\.[0-9]+`
unfoldable pub skip_version : List ℕ → Option (List ℕ)
unfolding strip_prefix skip_some is_digit
skip_version s = do
  a ← strip_prefix (codes "v") s
  b ← skip_some is_digit a
  c ← strip_prefix (codes ".") b
  skip_some is_digit c

-- what `.*` takes
unfoldable pub to_line_end : List ℕ → List ℕ
to_line_end [] = []
to_line_end (c ∷ s) = if eqb c 10 then [] else c ∷ to_line_end s

-- `/x-nmos/[a-z]+/v[0-9]+\.[0-9]+/(.*)`, and its group
unfoldable pub sub_path : List ℕ → Option (List ℕ)
unfolding strip_prefix skip_some is_lower skip_version to_line_end
sub_path path = do
  a ← strip_prefix (codes "/x-nmos/") path
  b ← skip_some is_lower a
  c ← strip_prefix (codes "/") b
  d ← skip_version c
  e ← strip_prefix (codes "/") d
  some (to_line_end e)

-- `$`: the end, or a line feed there
unfoldable pub at_end : List ℕ → Bool
at_end [] = true
at_end (c ∷ []) = eqb c 10
at_end _ = false

abbrev holds : (List ℕ → Bool) → Option (List ℕ) → Bool
holds p none = false
holds p (some s) = p s

unfoldable pub slash_end : List ℕ → Bool
unfolding at_end strip_prefix
slash_end s = at_end s || holds at_end (strip_prefix (codes "/") s)

unfoldable pub version_end : List ℕ → Bool
unfolding slash_end skip_version
version_end s = slash_end s || holds slash_end (skip_version s)

unfoldable pub root_end : List ℕ → Bool
unfolding version_end strip_prefix
root_end s = version_end s || holds version_end (strip_prefix (codes "/") s)

-- the rest of the name `[a-z]+`, which may give back what it took, and what follows it
unfoldable pub name_end : List ℕ → Bool
unfolding root_end is_lower
name_end [] = root_end []
name_end (c ∷ s) = root_end (c ∷ s) || (is_lower c && name_end s)

abbrev first_letter : List ℕ → Bool
first_letter [] = false
first_letter (c ∷ s) = is_lower c && name_end s

-- `^/x-nmos/([a-z]+)/?(v[0-9]+\.[0-9]+)?/?$`
unfoldable pub is_api_root : List ℕ → Bool
unfolding strip_prefix name_end
is_api_root path = holds first_letter (strip_prefix (codes "/x-nmos/") path)
