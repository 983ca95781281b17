-- ===== src/Rql/Calls.antt =====
-- What a comparison in a query is converted to (nmoscommon/rql/converters.py, `convert_from_fiql`).
use Prim.Native.Char.{Char}
use nmos_common.Common.{
  ℕ, ◌≡◌, ◌≢◌, refl, sym, ap, ◌∙◌, Bool, true, false, Option, some, [], ◌∷◌, ◌++◌, all, length,
  length-append, append_assoc, append-nil, arith, Bool-cases, inl, inr, ◌+◌,
}
use nmos_common.Common.Dict.{get}
use nmos_common.Common.Exec.{Result, ok}
use nmos_common.Rql.Converters.{RqlExn}
use nmos_common.Rql.Parser.{and_then}
use nmos_common.Rql.Scan.{Text, chars, sub, run, after_run, is_char, is_alnum, in_word}
use nmos_common.Rql.Fiql.{
  with_name, name_part, starts, operator_at, operator_name, substitutor, fiql_at, operand,
  convert_from_fiql,
}
use nmos_common.Rql.Spell.{stops, ends, run-stops, after_run-stops}

-- the operators of OPERATOR_MAP
pub data Relation : Type 0 where
  equal same greater at_least less at_most different : Relation

abbrev pub symbol : Relation → Text
symbol equal = chars "="
symbol same = chars "=="
symbol greater = chars ">"
symbol at_least = chars ">="
symbol less = chars "<"
symbol at_most = chars "<="
symbol different = chars "!="

abbrev pub called : Relation → Text
called equal = chars "eq"
called same = chars "eq"
called greater = chars "gt"
called at_least = chars "ge"
called less = chars "lt"
called at_most = chars "le"
called different = chars "ne"

-- `name(property,value)`
abbrev pub call_text : Relation → Text → Text → Text
call_text k prop val = called k ++ chars "(" ++ prop ++ chars "," ++ val ++ chars ")"

module _ (match : Text → Option (Result RqlExn Text × ℕ)) where
  sub-skip : (x s : Text) → sub match (length x) (x ++ s) ≡ sub match 0 s
  unfolding sub
  sub-skip [] s = refl
  sub-skip (c ∷ x) s = sub-skip x s

  abbrev behind : Text → Result RqlExn Text → Result RqlExn Text
  behind r rest = and_then rest (λ t. ok (r ++ t))

  sub-found :
      (x s : Text) (r : Text) (n : ℕ)
      → x ≢ []
      → match (x ++ s) ≡ some (ok r, n)
      → n ≡ length x
      → sub match 0 (x ++ s) ≡ behind r (sub match 0 s)
  unfolding sub
  sub-found [] s r n h e k = absurd (h refl)
  sub-found (c ∷ x) s r n h e k =
      rw (e, sub) (ap (behind r) (ap (λ m. sub match m (x ++ s)) (omega (arith, k)) ∙ sub-skip x s))

module _ (other : Char → Bool) where
  operand-word :
      (w s : Text)
      → all (in_word other) w ≡ true
      → ends other s ≡ true
      → operand other (w ++ s) ≡ (w, s)
  unfolding operand in_word is_alnum
  operand-word [] [] h e = refl
  operand-word [] (c ∷ s) h e = ground arith
  operand-word (c ∷ w) s h e =
      let apart : is_char b'(' c ≡ false = ground arith in
      let stop : stops (in_word other) s ≡ true = ground arith in
      rw
        (
          apart,
          run-stops (in_word other) (c ∷ w) s h stop,
          after_run-stops (in_word other) (c ∷ w) s h stop,
        )
        refl

  split_run : (p : Char → Bool) (s : Text) → run p s ++ after_run p s ≡ s
  unfolding run after_run
  split_run p [] = refl
  split_run p (c ∷ s) = elim (Bool-cases (p c)) [
    | inl h ↦ rw h (ap (λ t. c ∷ t) (split_run p s))
    | inr h ↦ rw h refl
  ]

  no_equals :
      (v s : Text)
      → all (in_word other) v ≡ true
      → ends other s ≡ true
      → starts b'=' s ≡ false
      → starts b'=' (after_run (is_alnum other) (v ++ s)) ≡ false
  unfolding after_run in_word is_alnum
  no_equals [] [] h e k = refl
  no_equals [] (c ∷ s) h e k = ground arith
  no_equals (c ∷ v) s h e k =
      let rest = no_equals v s (ground arith) e k in
      elim (Bool-cases (is_alnum other c)) [ inl l ↦ rw l rest | inr l ↦ rw l (ground arith) ]

  with_name-none : (name s : Text) → starts b'=' s ≡ false → with_name name s ≡ ([], name ++ s)
  with_name-none name [] h = ap (λ x. ([], x)) (sym (append-nil name))
  with_name-none name (c ∷ s) h = rw h refl

  abbrev Splits : Relation → Text → Type 0
  Splits k t = operator_at other (symbol k ++ t) ≡ some (symbol k, t)

  no_name :
      (t : Text) → starts b'=' (after_run (is_alnum other) t) ≡ false → name_part other t ≡ ([], t)
  unfolding name_part
  no_name t h =
      with_name-none (run (is_alnum other) t) (after_run (is_alnum other) t) h
      ∙ ap (λ x. ([], x)) (split_run (is_alnum other) t)

  two_equals : (t : Text) → Splits same t
  unfolding operator_at name_part is_alnum run after_run
  two_equals t = refl

  operator_at-symbol :
      (k : Relation) (t : Text)
      → starts b'=' t ≡ false
      → starts b'=' (after_run (is_alnum other) t) ≡ false
      → Splits k t
  unfolding operator_at
  operator_at-symbol equal t h e = rw (no_name t e) refl
  operator_at-symbol same t h e = two_equals t
  operator_at-symbol greater t h e = rw h refl
  operator_at-symbol at_least t h e = rw (no_name t e) refl
  operator_at-symbol less t h e = rw h refl
  operator_at-symbol at_most t h e = rw (no_name t e) refl
  operator_at-symbol different t h e = rw (no_name t e) refl

  ends-symbol : (k : Relation) (t : Text) → ends other (symbol k ++ t) ≡ true
  unfolding in_word is_alnum
  ends-symbol equal t = refl
  ends-symbol same t = refl
  ends-symbol greater t = refl
  ends-symbol at_least t = refl
  ends-symbol less t = refl
  ends-symbol at_most t = refl
  ends-symbol different t = refl

  substitutor-symbol :
      (k : Relation) (p v : Text) → substitutor p (symbol k) v ≡ ok (call_text k p v)
  unfolding substitutor operator_name get
  substitutor-symbol equal p v = refl
  substitutor-symbol same p v = refl
  substitutor-symbol greater p v = refl
  substitutor-symbol at_least p v = refl
  substitutor-symbol less p v = refl
  substitutor-symbol at_most p v = refl
  substitutor-symbol different p v = refl

  symbol-filled : (p v : Text) (k : Relation) → p ++ (symbol k ++ v) ≢ []
  symbol-filled (c ∷ p) v k e = cc
  symbol-filled [] v equal e = cc
  symbol-filled [] v same e = cc
  symbol-filled [] v greater e = cc
  symbol-filled [] v at_least e = cc
  symbol-filled [] v less e = cc
  symbol-filled [] v at_most e = cc
  symbol-filled [] v different e = cc

  starts-append :
      (v s : Text)
      → all (in_word other) v ≡ true
      → starts b'=' s ≡ false
      → starts b'=' (v ++ s) ≡ false
  unfolding in_word is_alnum
  starts-append [] s h e = e
  starts-append (c ∷ v) s h e = ground arith

  module _ (p v s : Text) (k : Relation) (hp : all (in_word other) p ≡ true)
      (hv : all (in_word other) v ≡ true) (hs : ends other s ≡ true)
      (he : starts b'=' s ≡ false) where
    written : Text
    written = p ++ (symbol k ++ v)

    regroup : written ++ s ≡ p ++ (symbol k ++ (v ++ s))
    unfolding written
    regroup = append_assoc p (symbol k ++ v) s ∙ ap (λ x. p ++ x) (append_assoc (symbol k) v s)

    fiql_at-written :
        fiql_at other (written ++ s)
        ≡ some (ok (call_text k p v), length p + length (symbol k) + length v)
    unfolding fiql_at
    fiql_at-written =
        ap (fiql_at other) regroup
        ∙ rw
            (
              operand-word p (symbol k ++ (v ++ s)) hp (ends-symbol k (v ++ s)),
              operator_at-symbol k (v ++ s) (starts-append v s hv he) (no_equals v s hv hs he),
              operand-word v s hv hs,
              substitutor-symbol k p v,
            )
            refl

    -- A comparison of two words by an operator of OPERATOR_MAP, wherever it stands, becomes the
    -- call of the operator's name on them, and what follows is converted by itself, if it does not
    -- begin with a word character, a parenthesis or an equals sign.
    pub convert_from_fiql-comparison :
        convert_from_fiql other (p ++ (symbol k ++ v) ++ s)
        ≡ and_then (convert_from_fiql other s) (λ t. ok (call_text k p v ++ t))
    unfolding convert_from_fiql written
    convert_from_fiql-comparison =
        sub-found (fiql_at other) written s (call_text k p v) _ (symbol-filled p v k)
          fiql_at-written
          (omega (arith, length-append p (symbol k ++ v), length-append (symbol k) v))
