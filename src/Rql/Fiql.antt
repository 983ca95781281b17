-- ===== src/Rql/Fiql.antt =====
-- FIQL comparisons, which become calls of operators (nmoscommon/rql/converters.py, FIQL_REGEX and
-- `convert_from_fiql`). No two ways to match the regular expression from one position end in
-- different places, so that it is read from left to right.
use Prim.Native.Char.{Char}
use nmos_common.Common.{
  ℕ, ◌+◌, Bool, false, ◌&&◌, ◌||◌, Option, none, some, [], ◌∷◌, ◌++◌, length, if◌then◌else◌, ltb,
}
use nmos_common.Common.Dict.{Dict, get}
use nmos_common.Common.Exec.{Result, ok, err}
use nmos_common.Rql.Converters.{RqlExn, conversion_error}
use nmos_common.Rql.Parser.{and_then}
use nmos_common.Rql.Scan.{Text, chars, string, sub, run, after_run, is_char, is_alnum, in_word}

abbrev pub closed : Text → Text → Option (Text × Text)
closed [] _ = none
closed (_ ∷ _) [] = none
closed (x ∷ inside) (c ∷ s) =
    if is_char b')' c then some (chars "(" ++ (x ∷ inside) ++ chars ")", s) else none

abbrev pub starts : ℕ → Text → Bool
starts n [] = false
starts n (c ∷ s) = is_char n c

abbrev pub tail : Text → Text
tail [] = []
tail (c ∷ s) = s

abbrev pub operator_map : Dict Text
operator_map =
    ("=", chars "eq")
    ∷ ("==", chars "eq")
    ∷ (">", chars "gt")
    ∷ (">=", chars "ge")
    ∷ ("<", chars "lt")
    ∷ ("<=", chars "le")
    ∷ ("!=", chars "ne")
    ∷ []

abbrev pub but_last : Text → Text
but_last [] = []
but_last (c ∷ []) = []
but_last (c ∷ d ∷ s) = c ∷ but_last (d ∷ s)

abbrev pub or_illegal : Option Text → Result RqlExn Text
or_illegal none = err conversion_error
or_illegal (some name) = ok name

-- the first half of `substitutor`
unfoldable pub operator_name : Text → Result RqlExn Text
operator_name op =
    if ltb (length op) 3 then or_illegal (get (string op) operator_map) else ok (but_last (tail op))

unfoldable pub substitutor : Text → Text → Text → Result RqlExn Text
substitutor prop op val =
    and_then (operator_name op)
      (λ name. ok (name ++ chars "(" ++ prop ++ chars "," ++ val ++ chars ")"))

-- `(?:[\w]*=)?`
abbrev pub with_name : Text → Text → Text × Text
with_name name [] = ([], name)
with_name name (c ∷ s) = if is_char b'=' c then (name ++ chars "=", s) else ([], name ++ c ∷ s)

module _ (other : Char → Bool) where
  -- `[\+\*\$\-:\w%\._,]`
  abbrev pub in_list : Char → Bool
  in_list c = in_word other c || is_char b',' c

  -- a property or a value, with what follows: a list in parentheses or a word, perhaps empty
  abbrev pub group : Option (Text × Text) → Text → Text × Text
  group (some found) s = found
  group none s = (run (in_word other) s, after_run (in_word other) s)

  unfoldable pub operand : Text → Text × Text
  unfolding run after_run in_word
  operand [] = ([], [])
  operand (c ∷ s) =
      group (if is_char b'(' c then closed (run in_list s) (after_run in_list s) else none) (c ∷ s)

  unfoldable pub name_part : Text → Text × Text
  unfolding run after_run is_alnum
  name_part s = with_name (run (is_alnum other) s) (after_run (is_alnum other) s)

  abbrev pub equals : Text → Text → Text × Text
  equals before s = let (name, rest) = name_part s in (before ++ chars "=" ++ name, rest)

  -- an operator of one character, or of that character and an equals sign
  abbrev pub relation : Text → Text → Option (Text × Text)
  relation op s = if starts b'=' s then some (equals op (tail s)) else some (op, s)

  -- `[<>!]?=(?:[\w]*=)?|>|<`, with what follows
  unfoldable pub operator_at : Text → Option (Text × Text)
  operator_at [] = none
  operator_at (c ∷ s) =
      if is_char b'=' c
      then some (equals [] s)
      else if is_char b'<' c
      then relation (chars "<") s
      else if is_char b'>' c
      then relation (chars ">") s
      else if is_char b'!' c && starts b'=' s
      then some (equals (chars "!") (tail s))
      else none

  abbrev pub comparison : Text → Option (Text × Text) → Option (Result RqlExn Text × ℕ)
  comparison prop none = none
  comparison prop (some (op, s)) =
      let (val, _) = operand s in
      some (substitutor prop op val, length prop + length op + length val)

  -- FIQL_REGEX
  unfoldable pub fiql_at : Text → Option (Result RqlExn Text × ℕ)
  fiql_at s = let (prop, rest) = operand s in comparison prop (operator_at rest)

  unfoldable pub convert_from_fiql : Text → Result RqlExn Text
  convert_from_fiql = sub fiql_at 0
