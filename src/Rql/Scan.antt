-- ===== src/Rql/Scan.antt =====
-- Texts as lists of characters, and how Python's `re.sub` and `re.findall` go over them
-- (nmoscommon/rql/parser.py and converters.py). A match is found by a function of the text from a
-- position on, which gives what the match stands for and its length, never 0.
use Prim.Native.Char.{Char, code}
use Prim.Native.String.{String}
use nmos_common.Common.{
  ℕ, zero, suc, ◌-◌, Bool, ◌&&◌, ◌||◌, Option, none, some, List, [], ◌∷◌, ◌++◌, leb, eqb,
  if◌then◌else◌,
}
use nmos_common.Common.Exec.{Result, ok}
use nmos_common.Rql.Converters.{RqlExn}
use nmos_common.Rql.Parser.{and_then}

abbrev pub Text : Type 0
Text = List Char

abbrev pub chars : String → Text
chars String.[] = []
chars (String.◌∷◌ c s) = c ∷ chars s

abbrev pub string : Text → String
string [] = String.[]
string (c ∷ s) = String.◌∷◌ c (string s)

-- `re.sub`: a position inside a match is skipped; the replacement may raise
unfoldable pub sub : (Text → Option (Result RqlExn Text × ℕ)) → ℕ → Text → Result RqlExn Text
sub match skip [] = ok []
sub match (suc skip) (c ∷ s) = sub match skip s
sub match zero (c ∷ s) = elim (match (c ∷ s)) [
  | none ↦ and_then (sub match 0 s) (λ t. ok (c ∷ t))
  | some (r, n) ↦ and_then r (λ x. and_then (sub match (n - 1) s) (λ t. ok (x ++ t)))
]

-- `re.findall`, without the empty matches
unfoldable pub find_all {ℓ} : {A : Type ℓ} → (Text → Option (A × ℕ)) → ℕ → Text → List A
find_all match skip [] = []
find_all match (suc skip) (c ∷ s) = find_all match skip s
find_all match zero (c ∷ s) = elim (match (c ∷ s)) [
  | none ↦ find_all match 0 s
  | some (a, n) ↦ a ∷ find_all match (n - 1) s
]

-- the longest prefix of characters that pass, and what follows it
unfoldable pub run : (Char → Bool) → Text → Text
run p [] = []
run p (c ∷ s) = let rest = run p s in if p c then c ∷ rest else []

unfoldable pub after_run : (Char → Bool) → Text → Text
after_run p [] = []
after_run p (c ∷ s) = let rest = after_run p s in if p c then rest else c ∷ s

abbrev pub is_char : ℕ → Char → Bool
is_char n c = eqb (code c) n

-- `\w`; which characters beyond ASCII it takes is the argument
unfoldable pub is_alnum : (Char → Bool) → Char → Bool
is_alnum other c =
    if leb 128 (code c)
    then other c
    else (leb b'a' (code c) && leb (code c) b'z')
      || (leb b'A' (code c) && leb (code c) b'Z')
      || (leb b'0' (code c) && leb (code c) b'9')
      || is_char b'_' c

-- `[\+\*\$\-:\w%\._]`
unfoldable pub in_word : (Char → Bool) → Char → Bool
unfolding is_alnum
in_word other c =
    is_alnum other c
    || is_char b'+' c
    || is_char b'*' c
    || is_char b'$' c
    || is_char b'-' c
    || is_char b':' c
    || is_char b'%' c
    || is_char b'.' c
