-- ===== src/Rql/Read.antt =====
-- From the text of a query to its tokens and the parsed term (nmoscommon/rql/parser.py, `parse`
-- with PARSING_REGEX and JSON_QUERY_SUBSTITUTIONS).
use Prim.Native.Char.{Char, code}
use Prim.Native.String.{String}
use nmos_common.Common.{
  ℕ, ◌+◌, Bool, true, false, ◌&&◌, ◌||◌, Option, none, some, List, [], ◌∷◌, ◌++◌, length,
  if◌then◌else◌, any,
}
use nmos_common.Common.Exec.{Result, ok, err}
use nmos_common.Rql.Converters.{RqlExn, Library, index_error}
use nmos_common.Rql.Parser.{and_then, Delim, nothing, comma, amp, bar, Token, Arg, parse}
use nmos_common.Rql.Scan.{Text, chars, string, sub, find_all, run, after_run, is_char, in_word}
use nmos_common.Rql.Fiql.{convert_from_fiql}

-- a literal pattern at the beginning of a text
abbrev pub is_prefix : Text → Text → Bool
is_prefix [] s = true
is_prefix (p ∷ ps) [] = false
is_prefix (p ∷ ps) (c ∷ s) = is_char (code p) c && is_prefix ps s

abbrev pub literal_at : Text → Text → Text → Option (Result RqlExn Text × ℕ)
literal_at pat by s = if is_prefix pat s then some (ok by, length pat) else none

-- one round of the `reduce` over JSON_QUERY_SUBSTITUTIONS
abbrev pub replace : String × String → Result RqlExn Text → Result RqlExn Text
replace (pat, by) r = and_then r (sub (literal_at (chars pat) (chars by)) 0)

unfoldable pub json_substitutions : Text → Result RqlExn Text
unfolding sub
json_substitutions s =
    replace ("/%3E/g", "=gt=")
      (replace ("/%3C/g", "=lt=")
        (replace ("/%3E=/g", "=ge=") (replace ("/%3C=/g", "=le=") (ok s))))

abbrev pub comma_for_slash : Text → Text
comma_for_slash [] = []
comma_for_slash (c ∷ s) = (if is_char b'/' c then chars "," else c ∷ []) ++ comma_for_slash s

abbrev pub delim_of : Char → Delim
delim_of c =
    if is_char b'&' c
    then amp
    else if is_char b'|' c
    then bar
    else if is_char b',' c
    then comma
    else nothing

abbrev pub opens_with : Text → Bool
opens_with [] = false
opens_with (c ∷ s) = is_char b'(' c

-- a word and perhaps an opening parenthesis, behind a delimiter; nothing where all are empty
abbrev pub made : Delim → ℕ → Text → Bool → Option (Token × ℕ)
made nothing n [] false = none
made d n word opens = some (
  record { closes = false; delim = d; word = string word; opens = opens },
  n + length word + (if opens then 1 else 0),
)

abbrev pub without_mark : Text → Result RqlExn Text
without_mark [] = err index_error
without_mark (c ∷ s) = ok (if is_char b'?' c then s else c ∷ s)

module _ (other : Char → Bool) where
  abbrev pub in_path : Char → Bool
  in_path c = in_word other c || is_char b'/' c

  -- a path: a word, a slash, and words and slashes
  abbrev pub path_from : Text → Text → Option (Result RqlExn Text × ℕ)
  path_from word [] = none
  path_from word (c ∷ s) =
      let path = word ++ c ∷ run in_path s in
      if is_char b'/' c
      then some (ok (chars "(" ++ comma_for_slash path ++ chars ")"), length path)
      else none

  unfoldable pub path_at : Text → Option (Result RqlExn Text × ℕ)
  unfolding run after_run in_word
  path_at s = path_from (run (in_word other) s) (after_run (in_word other) s)

  abbrev pub paths : Text → Result RqlExn Text
  paths s = if any (is_char b'/') s then sub path_at 0 s else ok s

  abbrev pub word_at : Delim → ℕ → Text → Option (Token × ℕ)
  word_at d n s = made d n (run (in_word other) s) (opens_with (after_run (in_word other) s))

  abbrev pub after_delim : Delim → Char → Text → Option (Token × ℕ)
  after_delim nothing c s = word_at nothing 0 (c ∷ s)
  after_delim d c s = word_at d 1 s

  -- PARSING_REGEX
  unfoldable pub token_at : Text → Option (Token × ℕ)
  unfolding run after_run in_word
  token_at [] = none
  token_at (c ∷ s) =
      if is_char b')' c
      then some (record { closes = true; delim = nothing; word = ""; opens = false }, 1)
      else after_delim (delim_of c) c s

  unfoldable pub tokens : Text → List Token
  tokens = find_all token_at 0

  -- what is done to the text before it is taken apart
  unfoldable pub prepare : Text → Result RqlExn Text
  prepare s =
      and_then (without_mark s)
        (λ q. and_then (paths q) (λ q'. and_then (json_substitutions q') (convert_from_fiql other)))

  -- `parse` of a text
  unfoldable pub parse_text : Library → Text → Result RqlExn Arg
  parse_text lib s = and_then (prepare s) (λ q. parse lib (tokens q))
