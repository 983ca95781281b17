-- ===== src/Rql/Conditions.antt =====
-- Comparisons that are joined by one delimiter, and what their text is converted to
-- (nmoscommon/rql/converters.py, `convert_from_fiql`).
use Prim.Native.Char.{Char}
use Prim.Native.String.{String}
use nmos_common.Common.{
  ◌≡◌, refl, sym, ap, ◌∙◌, Bool, true, false, List, [], ◌∷◌, ◌++◌, all, arith, append_assoc,
}
use nmos_common.Common.Exec.{Result, ok}
use nmos_common.Rql.Converters.{RqlExn, Val}
use nmos_common.Rql.Parser.{
  and_then, Delim, nothing, comma, amp, bar, Arg, value, query, Args, nil, cons,
}
use nmos_common.Rql.Scan.{Text, chars, sub, run, after_run, in_word, is_alnum}
use nmos_common.Rql.Fiql.{convert_from_fiql, fiql_at, operand, operator_at, starts}
use nmos_common.Rql.Plain.{calm, all-calm}
use nmos_common.Rql.Spell.{delim_text, ends, all-plain, filled}
use nmos_common.Rql.Calls.{
  Relation, equal, same, greater, at_least, less, at_most, different, symbol, called, call_text,
  convert_from_fiql-comparison,
}
use nmos_common.Rql.Written.{write_arg, write_all, write_top, parts}

-- a property compared with a value
pub record Condition : Type 0 where
  pub relation : Relation
  pub property : Val
  pub value : Val

abbrev pub name : Relation → String
name equal = "eq"
name same = "eq"
name greater = "gt"
name at_least = "ge"
name less = "lt"
name at_most = "le"
name different = "ne"

-- the term that a condition stands for
abbrev pub term_of : Condition → Arg
term_of c = query (name c.relation) (cons (value c.property) (cons (value c.value) nil))

abbrev pub terms_of : List Condition → Args
terms_of [] = nil
terms_of (c ∷ cs) = cons (term_of c) (terms_of cs)

called-name : (k : Relation) → called k ≡ chars (name k)
called-name equal = refl
called-name same = refl
called-name greater = refl
called-name at_least = refl
called-name less = refl
called-name at_most = refl
called-name different = refl

module _ (word : Val → String) where
  abbrev pub write_condition : Condition → Text → Text
  write_condition c s = chars (word c.property) ++ (symbol c.relation ++ chars (word c.value)) ++ s

  -- each condition behind the delimiter
  abbrev pub write_more : Delim → List Condition → Text
  write_more d [] = []
  write_more d (c ∷ cs) = delim_text d ++ write_condition c (write_more d cs)

  -- two or more conditions with a delimiter between them
  abbrev pub write_conditions : Delim → Condition → Condition → List Condition → Text
  write_conditions d a b l = write_condition a (write_more d (b ∷ l))

shape_value : (v t : Text) → (v ++ chars ")") ++ t ≡ (v ++ []) ++ (chars ")" ++ t)
shape_value [] t = refl
shape_value (c ∷ v) t = ap (λ x. c ∷ x) (shape_value v t)

shape_property :
    (p v t : Text)
    → (p ++ chars "," ++ v ++ chars ")") ++ t
      ≡ (p ++ []) ++ ((chars "," ++ (v ++ [])) ++ (chars ")" ++ t))
shape_property [] v t = ap (λ x. chars "," ++ x) (shape_value v t)
shape_property (c ∷ p) v t = ap (λ x. c ∷ x) (shape_property p v t)

shape :
    (n p v t : Text)
    → (n ++ chars "(" ++ p ++ chars "," ++ v ++ chars ")") ++ t
      ≡ (n ++ chars "(") ++ ((p ++ []) ++ ((chars "," ++ (v ++ [])) ++ (chars ")" ++ t)))
shape [] p v t = ap (λ x. chars "(" ++ x) (shape_property p v t)
shape (c ∷ n) p v t = ap (λ x. c ∷ x) (shape n p v t)

all-append : (x y : Text) → all calm x ≡ true → all calm y ≡ true → all calm (x ++ y) ≡ true
all-append [] y h e = e
all-append (c ∷ x) y h e = let rest = all-append x y (ground arith) e in ground arith

calm-symbol : (k : Relation) → all calm (symbol k) ≡ true
calm-symbol equal = refl
calm-symbol same = refl
calm-symbol greater = refl
calm-symbol at_least = refl
calm-symbol less = refl
calm-symbol at_most = refl
calm-symbol different = refl

calm-delim : (d : Delim) → all calm (delim_text d) ≡ true
calm-delim nothing = refl
calm-delim comma = refl
calm-delim amp = refl
calm-delim bar = refl

module _ (other : Char → Bool) (word : Val → String) where
  delim_arg :
      (d : Delim) (c : Condition) (t : Text)
      → delim_text d ++ (call_text c.relation (chars (word c.property)) (chars (word c.value)) ++ t)
        ≡ write_arg word d (term_of c) t
  unfolding write_arg
  delim_arg d c t =
      let p = chars (word c.property) in
      let v = chars (word c.value) in
      ap (λ n. delim_text d ++ ((n ++ chars "(" ++ p ++ chars "," ++ v ++ chars ")") ++ t))
        (called-name c.relation)
      ∙ ap (λ x. delim_text d ++ x) (shape (chars (name c.relation)) p v t)
      ∙ sym (
          append_assoc (delim_text d) (chars (name c.relation) ++ chars "(")
            ((p ++ []) ++ ((chars "," ++ (v ++ [])) ++ (chars ")" ++ t))))

  -- the words of a condition consist of word characters and are not empty
  abbrev pub IsWord : Val → Type 0
  IsWord v = (all (in_word other) (chars (word v)) ≡ true) × (filled (word v) false ≡ true)

  abbrev pub AreWords : List Condition → Type 0
  AreWords [] = Unit
  AreWords (c ∷ cs) = (IsWord c.property × IsWord c.value) × AreWords cs

  ends-more :
      (d : Delim) (cs : List Condition) → parts d ≡ true → ends other (write_more word d cs) ≡ true
  unfolding in_word is_alnum
  ends-more d [] h = refl
  ends-more nothing (c ∷ cs) h = cc
  ends-more comma (c ∷ cs) h = refl
  ends-more amp (c ∷ cs) h = refl
  ends-more bar (c ∷ cs) h = refl

  starts-more :
      (d : Delim) (cs : List Condition)
      → parts d ≡ true
      → starts b'=' (write_more word d cs) ≡ false
  starts-more d [] h = refl
  starts-more nothing (c ∷ cs) h = cc
  starts-more comma (c ∷ cs) h = refl
  starts-more amp (c ∷ cs) h = refl
  starts-more bar (c ∷ cs) h = refl

  -- a delimiter is kept by the conversion
  convert-delim :
      (d : Delim) (t : Text)
      → parts d ≡ true
      → convert_from_fiql other (delim_text d ++ t)
        ≡ and_then (convert_from_fiql other t) (λ x. ok (delim_text d ++ x))
  unfolding convert_from_fiql sub fiql_at operand operator_at run after_run in_word is_alnum
  convert-delim nothing t h = cc
  convert-delim comma t h = refl
  convert-delim amp t h = refl
  convert-delim bar t h = refl

  convert-condition :
      (c : Condition) (d : Delim) (cs : List Condition) (t : Text)
      → parts d ≡ true
      → AreWords (c ∷ cs)
      → convert_from_fiql other (write_more word d cs) ≡ ok t
      → convert_from_fiql other (write_condition word c (write_more word d cs))
        ≡ ok (call_text c.relation (chars (word c.property)) (chars (word c.value)) ++ t)
  convert-condition c d cs t h (((p, _), (v, _)), _) e =
      convert_from_fiql-comparison other (chars (word c.property)) (chars (word c.value))
        (write_more word d cs) c.relation p v (ends-more d cs h) (starts-more d cs h)
      ∙ ap
          (λ r.
            and_then r (λ x.
              ok (call_text c.relation (chars (word c.property)) (chars (word c.value)) ++ x)))
          e

  convert-more :
      (d : Delim) (cs : List Condition)
      → parts d ≡ true
      → AreWords cs
      → convert_from_fiql other (write_more word d cs) ≡ ok (write_all word d (terms_of cs) [])
  unfolding write_all convert_from_fiql sub
  convert-more d [] h good = refl
  convert-more d (c ∷ cs) h good =
      convert-delim d (write_condition word c (write_more word d cs)) h
      ∙ ap (λ r. and_then r (λ x. ok (delim_text d ++ x)))
          (convert-condition c d cs _ h good (convert-more d cs h good.1))
      ∙ ap done (delim_arg d c (write_all word d (terms_of cs) []))
    where
      done : Text → Result RqlExn Text
      done x = ok x

  pub calm-condition :
      (c : Condition) (s : Text)
      → IsWord c.property × IsWord c.value
      → all calm s ≡ true
      → all calm (write_condition word c s) ≡ true
  calm-condition c s ((p, _), (v, _)) e =
      all-append (chars (word c.property) ++ (symbol c.relation ++ chars (word c.value))) s
        (all-append (chars (word c.property)) (symbol c.relation ++ chars (word c.value))
          (all-calm (chars (word c.property)) (all-plain other (chars (word c.property)) p))
          (all-append (symbol c.relation) (chars (word c.value)) (calm-symbol c.relation)
            (all-calm (chars (word c.value)) (all-plain other (chars (word c.value)) v))))
        e

  pub calm-more :
      (d : Delim) (cs : List Condition) → AreWords cs → all calm (write_more word d cs) ≡ true
  calm-more d [] good = refl
  calm-more d (c ∷ cs) (first, good) =
      all-append (delim_text d) (write_condition word c (write_more word d cs)) (calm-delim d)
        (calm-condition c (write_more word d cs) first (calm-more d cs good))

  pub convert-conditions :
      (d : Delim) (a b : Condition) (l : List Condition)
      → parts d ≡ true
      → AreWords (a ∷ b ∷ l)
      → convert_from_fiql other (write_conditions word d a b l)
        ≡ ok (write_top word d (term_of a) (term_of b) (terms_of l))
  convert-conditions d a b l h (first, good) =
      convert-condition a d (b ∷ l) _ h (first, good) (convert-more d (b ∷ l) h good)
      ∙ ap (λ x. ok x) (delim_arg nothing a (write_all word d (terms_of (b ∷ l)) []))
