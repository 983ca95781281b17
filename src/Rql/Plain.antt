-- ===== src/Rql/Plain.antt =====
-- Texts that are tokenised as they are written: without a slash, a comparison or a question mark
-- (nmoscommon/rql/parser.py and converters.py).
use Prim.Native.Char.{Char}
use Prim.Native.String.{String}
use nmos_common.Common.{
  ℕ, ◌≡◌, refl, ap, ◌∙◌, Bool, true, false, not, ◌||◌, Option, none, some, [], ◌∷◌, all, any, arith,
  Bool-cases, ◌++◌, inl, inr, if◌then◌else◌, ◌≢◌,
}
use nmos_common.Common.Exec.{Result, ok}
use nmos_common.Rql.Converters.{RqlExn, Library}
use nmos_common.Rql.Parser.{and_then, parse}
use nmos_common.Rql.Scan.{Text, chars, sub, run, after_run, is_char, in_word}
use nmos_common.Rql.Fiql.{
  closed, group, operand, operator_at, comparison, fiql_at, convert_from_fiql, in_list,
}
use nmos_common.Rql.Read.{
  literal_at, replace, json_substitutions, paths, without_mark, prepare, parse_text, tokens,
}

abbrev pub plain : Char → Bool
plain c =
    not (is_char b'/' c || is_char b'=' c || is_char b'<' c || is_char b'>' c || is_char b'?' c)

-- no slash and no question mark
abbrev pub calm : Char → Bool
calm c = not (is_char b'/' c || is_char b'?' c)

pub all-calm : (s : Text) → all plain s ≡ true → all calm s ≡ true
all-calm [] e = refl
all-calm (c ∷ s) e = let rest = all-calm s (ground arith) in ground arith

sub_nothing :
    (q : Char → Bool) (match : Text → Option (Result RqlExn Text × ℕ))
    → ((c : Char) (s : Text) → all q (c ∷ s) ≡ true → match (c ∷ s) ≡ none)
    → (s : Text) → all q s ≡ true
    → sub match 0 s ≡ ok s
unfolding sub
sub_nothing q match h [] e = refl
sub_nothing q match h (c ∷ s) e =
    let rest = sub_nothing q match h s (ground arith) in
    rw (h c s e, sub) (ap (λ r. and_then r (λ t. ok (c ∷ t))) rest)

all-after_run : (p : Char → Bool) (s : Text) → all plain s ≡ true → all plain (after_run p s) ≡ true
unfolding after_run
all-after_run p [] e = refl
all-after_run p (c ∷ s) e = elim (Bool-cases (p c)) [
  | inl h ↦ rw h (all-after_run p s (ground arith))
  | inr h ↦ rw h e
]

closed-plain :
    (xs s : Text) (a b : Text) → all plain s ≡ true → closed xs s ≡ some (a, b) → all plain b ≡ true
closed-plain [] s a b e h = cc
closed-plain (x ∷ xs) [] a b e h = cc
closed-plain (x ∷ xs) (c ∷ s) a b e h = ground arith

group-plain :
    (other : Char → Bool) (o : Option (Text × Text)) (s : Text)
    → all plain s ≡ true
    → ((a b : Text) → o ≡ some (a, b) → all plain b ≡ true)
    → all plain (group other o s).1 ≡ true
group-plain other none s e h = all-after_run (in_word other) s e
group-plain other (some (a, b)) s e h = h a b refl

operand-plain :
    (other : Char → Bool) (s : Text) → all plain s ≡ true → all plain (operand other s).1 ≡ true
unfolding operand
operand-plain other [] e = refl
operand-plain other (c ∷ s) e =
    group-plain other
      (if is_char b'(' c
        then closed (run (in_list other) s) (after_run (in_list other) s)
        else none)
      (c ∷ s) e (λ a b h. if_closed (is_char b'(' c) a b h)
  where
    if_closed :
        (d : Bool) (a b : Text)
        → (if d then closed (run (in_list other) s) (after_run (in_list other) s) else none)
          ≡ some (a, b)
        → all plain b ≡ true
    if_closed true a b h =
        closed-plain (run (in_list other) s) (after_run (in_list other) s) a b
          (all-after_run (in_list other) s (ground arith)) h
    if_closed false a b h = cc

operator_at-plain :
    (other : Char → Bool) (s : Text) → all plain s ≡ true → operator_at other s ≡ none
unfolding operator_at
operator_at-plain other [] e = refl
operator_at-plain other (c ∷ []) e = ground arith
operator_at-plain other (c ∷ d ∷ s) e = ground arith

fiql_at-plain : (other : Char → Bool) (s : Text) → all plain s ≡ true → fiql_at other s ≡ none
unfolding fiql_at
fiql_at-plain other s e =
    ap (comparison other (operand other s).0)
      (operator_at-plain other (operand other s).1 (operand-plain other s e))

no_slash : (s : Text) → all calm s ≡ true → any (is_char b'/') s ≡ false
no_slash [] e = refl
no_slash (c ∷ s) e = let rest = no_slash s (ground arith) in ground arith

paths-calm : (other : Char → Bool) (s : Text) → all calm s ≡ true → paths other s ≡ ok s
paths-calm other s e = rw (no_slash s e) refl

without_mark-calm : (s : Text) → all calm s ≡ true → s ≢ [] → without_mark s ≡ ok s
without_mark-calm [] e h = absurd (h refl)
without_mark-calm (c ∷ s) e h = ground arith

-- no slash
abbrev pub bare : Char → Bool
bare c = not (is_char b'/' c)

all-bare : (s : Text) → all calm s ≡ true → all bare s ≡ true
all-bare [] e = refl
all-bare (c ∷ s) e = let rest = all-bare s (ground arith) in ground arith

literal-bare :
    (pat by s : Text)
    → all bare s ≡ true
    → (e : Text) → pat ≡ chars "/" ++ e
    → literal_at pat by s ≡ none
literal-bare pat by [] h e k = rw k refl
literal-bare pat by (c ∷ s) h e k = rw k (ground arith)

replace-bare :
    (p : String × String) (rest : Text) (r : Result RqlExn Text) (s : Text)
    → chars p.0 ≡ chars "/" ++ rest
    → all bare s ≡ true
    → r ≡ ok s
    → replace p r ≡ ok s
replace-bare (pat, by) rest r s k e h =
    ap (λ x. and_then x (sub (literal_at (chars pat) (chars by)) 0)) h
    ∙ sub_nothing bare (literal_at (chars pat) (chars by))
        (λ c t f. literal-bare (chars pat) (chars by) (c ∷ t) f rest k) s e

pub json_substitutions-bare : (s : Text) → all bare s ≡ true → json_substitutions s ≡ ok s
unfolding json_substitutions
json_substitutions-bare s e =
    replace-bare ("/%3E/g", "=gt=") (chars "%3E/g") _ s refl e
      (replace-bare ("/%3C/g", "=lt=") (chars "%3C/g") _ s refl e
        (replace-bare ("/%3E=/g", "=ge=") (chars "%3E=/g") _ s refl e
          (replace-bare ("/%3C=/g", "=le=") (chars "%3C=/g") _ s refl e refl)))

convert_from_fiql-plain :
    (other : Char → Bool) (s : Text) → all plain s ≡ true → convert_from_fiql other s ≡ ok s
unfolding convert_from_fiql
convert_from_fiql-plain other s e =
    sub_nothing plain (fiql_at other) (λ c t h. fiql_at-plain other (c ∷ t) h) s e

pub then_ok :
    {A B : Type 0} (r : Result RqlExn A) (a : A) (f : A → Result RqlExn B) (q : Result RqlExn B)
    → r ≡ ok a
    → f a ≡ q
    → and_then r f ≡ q
then_ok r a f q h k = ap (λ x. and_then x f) h ∙ k

-- a text without a slash or a question mark is only freed of its comparisons
pub prepare-calm :
    (other : Char → Bool) (s : Text)
    → s ≢ []
    → all calm s ≡ true
    → prepare other s ≡ convert_from_fiql other s
unfolding prepare
prepare-calm other s h e = then_ok _ s _ _ (without_mark-calm s e h) (
    then_ok _ s _ _ (paths-calm other s e)
      (then_ok _ s _ _ (json_substitutions-bare s (all-bare s e)) refl))

prepare-plain :
    (other : Char → Bool) (s : Text) → s ≢ [] → all plain s ≡ true → prepare other s ≡ ok s
prepare-plain other s h e =
    prepare-calm other s h (all-calm s e) ∙ convert_from_fiql-plain other s e

-- a plain text is tokenised as it is
pub parse_text-plain :
    (other : Char → Bool) (lib : Library) (s : Text)
    → s ≢ []
    → all plain s ≡ true
    → parse_text other lib s ≡ parse lib (tokens other s)
unfolding parse_text
parse_text-plain other lib s h e = then_ok (prepare other s) s _ _ (prepare-plain other s h e) refl
