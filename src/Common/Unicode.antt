-- ===== src/Common/Unicode.antt =====
-- Python 3's `int(text)` and `text.isdigit()`. What the characters beyond ASCII are is a parameter.
use nmos_common.Common.{
  ℕ, ◌+◌, ◌*◌, ◌-◌, Bool, true, false, Option, none, some, List, [], ◌∷◌, ◌&&◌, ◌||◌, all, eqb, leb,
  if◌then◌else◌,
}

-- `digit_value` is what a decimal digit counts, and `is_digit` also holds of digits that `int` refuses
pub record Unicode : Type 0 where
  pub digit_value : ℕ → Option ℕ
  pub is_digit : ℕ → Bool
  pub is_space : ℕ → Bool

pub data Whole : Type 0 where
  plus minus : ℕ → Whole

abbrev pub signed : (ℕ → Whole) → Option ℕ → Option Whole
signed sign none = none
signed sign (some n) = some (sign n)

abbrev pub or_zero : Option ℕ → ℕ
or_zero none = 0
or_zero (some n) = n

module _ (unicode : Unicode) where
  unfoldable pub value_of : ℕ → Option ℕ
  value_of c =
      if leb 48 c && leb c 57
      then some (c - 48)
      else if leb 128 c
      then unicode.digit_value c
      else none

  unfoldable pub space : ℕ → Bool
  space c = leb 9 c && leb c 13 || leb 28 c && leb c 32 || (leb 128 c && unicode.is_space c)

  unfoldable pub skip_space : List ℕ → List ℕ
  skip_space [] = []
  skip_space (c ∷ s) = let rest = skip_space s in if space c then rest else c ∷ s

  -- one more character, when a digit stands before it or not
  abbrev pub digit_or_end : Option ℕ → Bool → Bool → Bool → ℕ → Option ℕ → Option ℕ → Option ℕ
  digit_or_end (some _) after is_underscore ends n digit underscore = digit
  digit_or_end none false is_underscore ends n digit underscore = none
  digit_or_end none true is_underscore ends n digit underscore =
      if is_underscore then underscore else if ends then some n else none

  -- digits, single underscores between them, and spaces behind; `after` tells whether a digit stands
  -- before
  unfoldable pub digits : Bool → ℕ → List ℕ → Option ℕ
  digits after n [] = if after then some n else none
  digits after n (c ∷ s) =
      digit_or_end (value_of c) after (eqb c b'_') (all space (c ∷ s)) n
        (digits true (n * 10 + or_zero (value_of c)) s) (digits false n s)

  abbrev pub whole_of : List ℕ → Option Whole
  whole_of [] = none
  whole_of (c ∷ s) =
      if eqb c b'-'
      then signed minus (digits false 0 s)
      else if eqb c b'+'
      then signed plus (digits false 0 s)
      else signed plus (digits false 0 (c ∷ s))

  -- `int(text)`; none is a ValueError
  unfoldable pub int_of : List ℕ → Option Whole
  int_of s = whole_of (skip_space s)

  abbrev digit_like : ℕ → Bool
  digit_like c = leb 48 c && leb c 57 || (leb 128 c && unicode.is_digit c)

  -- `text.isdigit()`
  unfoldable pub isdigit : List ℕ → Bool
  isdigit [] = false
  isdigit (c ∷ s) = all digit_like (c ∷ s)
