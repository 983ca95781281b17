-- ===== src/Rql/Written.antt =====
-- Queries that are written as text and parsed again (nmoscommon/rql/parser.py, `parse`).
use Prim.Native.Char.{Char}
use Prim.Native.String.{String}
use nmos_common.Common.{
  ◌≡◌, refl, sym, ap, ◌∙◌, Bool, true, false, [], ◌∷◌, ◌++◌, all, ◌≢◌, arith, append_assoc,
  append-nil,
}
use nmos_common.Common.Exec.{ok}
use nmos_common.Rql.Converters.{Val, Library}
use nmos_common.Rql.Parser.{
  Delim, nothing, comma, amp, bar, Arg, value, query, items, Args, nil, cons, parse,
}
use nmos_common.Rql.Print.{
  opening, closing, print_arg, print_all, print_args, ArePrintable, operator, parse-print_top,
}
use nmos_common.Rql.Scan.{Text, chars, in_word, is_alnum, find_all}
use nmos_common.Rql.Read.{tokens, parse_text}
use nmos_common.Rql.Plain.{plain, parse_text-plain}
use nmos_common.Rql.Spell.{delim_text, ends, all-plain, filled, tokens-token, tokens-closing}

module _ (word : Val → String) where
  unfoldable mutual
    -- an argument behind a delimiter, and then a text
    pub write_arg : Delim → Arg → Text → Text
    write_arg d (value v) s = delim_text d ++ (chars (word v) ++ []) ++ s
    write_arg d (query name l) s =
        delim_text d ++ (chars name ++ chars "(") ++ write_args l (chars ")" ++ s)
    write_arg d (items l) s =
        delim_text d ++ (chars "" ++ chars "(") ++ write_args l (chars ")" ++ s)

    -- each argument behind the delimiter
    pub write_all : Delim → Args → Text → Text
    write_all d nil s = s
    write_all d (cons a l) s = write_arg d a (write_all d l s)

    -- the arguments of a term, with commas between them
    pub write_args : Args → Text → Text
    write_args nil s = s
    write_args (cons a l) s = write_arg nothing a (write_all comma l s)

  -- two or more arguments of a top term, with one delimiter between them
  abbrev pub write_top : Delim → Arg → Arg → Args → Text
  write_top d a b l = write_arg nothing a (write_all d (cons b l) [])

filled-true : (w : String) → filled w true ≡ true
filled-true String.[] = refl
filled-true (String.◌∷◌ c w) = refl

-- between two arguments stands something
abbrev pub parts : Delim → Bool
parts nothing = false
parts _ = true

module _ (other : Char → Bool) (word : Val → String) where
  unfoldable mutual
    -- the words of values and the names of terms consist of word characters
    pub IsWritable : Arg → Type 0
    IsWritable (value v) =
        (all (in_word other) (chars (word v)) ≡ true) × (filled (word v) false ≡ true)
    IsWritable (query name l) = (all (in_word other) (chars name) ≡ true) × AreWritable l
    IsWritable (items l) = AreWritable l

    pub AreWritable : Args → Type 0
    AreWritable nil = Unit
    AreWritable (cons a l) = IsWritable a × AreWritable l

  ends-write_arg :
      (d : Delim) (a : Arg) (s : Text) → parts d ≡ true → ends other (write_arg word d a s) ≡ true
  unfolding write_arg in_word is_alnum
  ends-write_arg nothing a s h = cc
  ends-write_arg comma (value v) s h = refl
  ends-write_arg comma (query name l) s h = refl
  ends-write_arg comma (items l) s h = refl
  ends-write_arg amp (value v) s h = refl
  ends-write_arg amp (query name l) s h = refl
  ends-write_arg amp (items l) s h = refl
  ends-write_arg bar (value v) s h = refl
  ends-write_arg bar (query name l) s h = refl
  ends-write_arg bar (items l) s h = refl

  ends-write_all :
      (d : Delim) (l : Args) (s : Text)
      → parts d ≡ true
      → ends other s ≡ true
      → ends other (write_all word d l s) ≡ true
  unfolding write_all
  ends-write_all d nil s h e = e
  ends-write_all d (cons a l) s h e = ends-write_arg d a (write_all word d l s) h

  tokens-group :
      (l : Args) (s : Text)
      → tokens other (write_args word l (chars ")" ++ s))
        ≡ print_args word l ++ tokens other (chars ")" ++ s)
      → tokens other (write_args word l (chars ")" ++ s))
        ≡ (print_args word l ++ closing ∷ []) ++ tokens other s
  tokens-group l s h =
      h
      ∙ ap (λ x. print_args word l ++ x) (tokens-closing other s)
      ∙ sym (append_assoc (print_args word l) (closing ∷ []) (tokens other s))

  mutual
    unfolding write_arg print_arg IsWritable in_word is_alnum

    tokens-write_arg :
        (a : Arg) (d : Delim) (s : Text)
        → IsWritable a
        → ends other s ≡ true
        → tokens other (write_arg word d a s) ≡ print_arg word d a ++ tokens other s
    tokens-write_arg (value v) d s (h, f) e = tokens-token other d (word v) false s h f e
    tokens-write_arg (query name l) d s (h, good) e =
        tokens-token other d name true _ h (filled-true name) refl
        ∙ ap (λ x. opening d name ∷ x)
            (tokens-group l s (tokens-write_args l (chars ")" ++ s) good refl))
    tokens-write_arg (items l) d s good e =
        tokens-token other d "" true _ refl refl refl
        ∙ ap (λ x. opening d "" ∷ x)
            (tokens-group l s (tokens-write_args l (chars ")" ++ s) good refl))

    tokens-write_all :
        (l : Args) (d : Delim) (s : Text)
        → parts d ≡ true
        → AreWritable l
        → ends other s ≡ true
        → tokens other (write_all word d l s) ≡ print_all word d l ++ tokens other s
    tokens-write_all nil d s h good e = refl
    tokens-write_all (cons a l) d s h (first, good) e =
        tokens-write_arg a d (write_all word d l s) first (ends-write_all d l s h e)
        ∙ ap (λ x. print_arg word d a ++ x) (tokens-write_all l d s h good e)
        ∙ sym (append_assoc (print_arg word d a) (print_all word d l) (tokens other s))

    tokens-write_args :
        (l : Args) (s : Text)
        → AreWritable l
        → ends other s ≡ true
        → tokens other (write_args word l s) ≡ print_args word l ++ tokens other s
    tokens-write_args nil s good e = refl
    tokens-write_args (cons a l) s (first, good) e =
        tokens-write_arg a nothing (write_all word comma l s) first
          (ends-write_all comma l s refl e)
        ∙ ap (λ x. print_arg word nothing a ++ x) (tokens-write_all l comma s refl good e)
        ∙ sym (append_assoc (print_arg word nothing a) (print_all word comma l) (tokens other s))

  plain-append : (x y : Text) → all plain x ≡ true → all plain y ≡ true → all plain (x ++ y) ≡ true
  plain-append [] y h e = e
  plain-append (c ∷ x) y h e = let rest = plain-append x y (ground arith) e in ground arith

  plain-delim : (d : Delim) (s : Text) → all plain s ≡ true → all plain (delim_text d ++ s) ≡ true
  plain-delim nothing s e = e
  plain-delim comma s e = e
  plain-delim amp s e = e
  plain-delim bar s e = e

  plain-body :
      (d : Delim) (w m s : Text)
      → all plain w ≡ true
      → all plain m ≡ true
      → all plain s ≡ true
      → all plain (delim_text d ++ (w ++ m) ++ s) ≡ true
  plain-body d w m s h k e =
      plain-append (delim_text d ++ (w ++ m)) s (plain-delim d (w ++ m) (plain-append w m h k)) e

  mutual
    unfolding write_arg IsWritable

    plain-write_arg :
        (a : Arg) (d : Delim) (s : Text)
        → IsWritable a
        → all plain s ≡ true
        → all plain (write_arg word d a s) ≡ true
    plain-write_arg (value v) d s (h, f) e =
        plain-body d (chars (word v)) [] s (all-plain other (chars (word v)) h) refl e
    plain-write_arg (query name l) d s (h, good) e =
        plain-body d (chars name) (chars "(") (write_args word l (chars ")" ++ s))
          (all-plain other (chars name) h) refl (plain-write_args l (chars ")" ++ s) good e)
    plain-write_arg (items l) d s good e =
        plain-body d [] (chars "(") (write_args word l (chars ")" ++ s)) refl refl
          (plain-write_args l (chars ")" ++ s) good e)

    plain-write_all :
        (l : Args) (d : Delim) (s : Text)
        → AreWritable l
        → all plain s ≡ true
        → all plain (write_all word d l s) ≡ true
    plain-write_all nil d s good e = e
    plain-write_all (cons a l) d s (first, good) e =
        plain-write_arg a d _ first (plain-write_all l d s good e)

    plain-write_args :
        (l : Args) (s : Text)
        → AreWritable l
        → all plain s ≡ true
        → all plain (write_args word l s) ≡ true
    plain-write_args nil s good e = e
    plain-write_args (cons a l) s (first, good) e =
        plain-write_arg a nothing _ first (plain-write_all l comma s good e)

  pub filled-append : (w s : Text) → w ≢ [] → w ++ s ≢ []
  filled-append [] s h e = h refl
  filled-append (c ∷ w) s h e = cc

  open-filled : (w : Text) → w ++ chars "(" ≢ []
  open-filled [] e = cc
  open-filled (c ∷ w) e = cc

  pub chars-filled : (w : String) → filled w false ≡ true → chars w ++ [] ≢ []
  chars-filled String.[] h e = cc
  chars-filled (String.◌∷◌ c w) h e = cc

  write_arg-filled : (a : Arg) (s : Text) → IsWritable a → write_arg word nothing a s ≢ []
  unfolding write_arg IsWritable
  write_arg-filled (value v) s (h, f) = filled-append _ s (chars-filled (word v) f)
  write_arg-filled (query name l) s good = filled-append _ _ (open-filled (chars name))
  write_arg-filled (items l) s good = filled-append (chars "(") _ (open-filled [])

  pub parse-tokens :
      (lib : Library) (d : Delim) (a b : Arg) (l : Args)
      → parts d ≡ true
      → ArePrintable lib word (cons a (cons b l))
      → AreWritable (cons a (cons b l))
      → parse lib (tokens other (write_top word d a b l))
        ≡ ok (query (operator d) (cons a (cons b l)))
  unfolding IsWritable tokens find_all
  parse-tokens lib d a b l h good (first, rest) =
      ap (parse lib) (
        tokens-write_arg a nothing _ first (ends-write_all d (cons b l) [] h refl)
        ∙ ap (λ x. print_arg word nothing a ++ x)
            (tokens-write_all (cons b l) d [] h rest refl ∙ append-nil _))
      ∙ parse-print_top lib word a b l d good

  -- Two or more arguments, nested to any depth, that are written as text with one delimiter between
  -- them parse to the term `or` of them if it is |, and to `and` if it is & or a comma, provided
  -- that the words of values and the names consist of word characters and are not empty, and that
  -- the words read as their values, none of which is the empty text.
  pub parse_text-write_top :
      (lib : Library) (d : Delim) (a b : Arg) (l : Args)
      → parts d ≡ true
      → ArePrintable lib word (cons a (cons b l))
      → AreWritable (cons a (cons b l))
      → parse_text other lib (write_top word d a b l) ≡ ok (query (operator d) (cons a (cons b l)))
  unfolding IsWritable
  parse_text-write_top lib d a b l h good (first, rest) =
      parse_text-plain other lib (write_top word d a b l) (write_arg-filled a _ first)
        (plain-write_arg a nothing _ first (plain-write_all (cons b l) d [] rest refl))
      ∙ parse-tokens lib d a b l h good (first, rest)
