-- ===== src/Rql/Joined.antt =====
-- Comparisons that are joined by one delimiter, from their text to the parsed term
-- (nmoscommon/rql/parser.py and converters.py).
use Prim.Native.Char.{Char}
use Prim.Native.String.{String}
use nmos_common.Common.{◌≡◌, ◌≢◌, refl, ap, ◌∙◌, Bool, true, false, List, [], ◌∷◌, all, ◌==◌}
use nmos_common.Common.Exec.{ok}
use nmos_common.Rql.Converters.{Val, Library}
use nmos_common.Rql.Parser.{and_then, Delim, value, query, parse}
use nmos_common.Rql.Print.{IsPrintable, ArePrintable, operator}
use nmos_common.Rql.Scan.{chars, in_word, is_alnum}
use nmos_common.Rql.Read.{parse_text, tokens}
use nmos_common.Rql.Plain.{prepare-calm}
use nmos_common.Rql.Spell.{filled}
use nmos_common.Rql.Calls.{Relation, equal, same, greater, at_least, less, at_most, different}
use nmos_common.Rql.Written.{AreWritable, parts, filled-append, parse-tokens}
use nmos_common.Rql.Conditions.{
  Condition, name, term_of, terms_of, write_conditions, write_more, AreWords, calm-condition,
  calm-more, convert-conditions,
}

module _ (other : Char → Bool) (word : Val → String) where
  -- the words of the properties and values read as these, none of which is the empty text
  abbrev pub Reads : Library → List Condition → Type 0
  Reads lib [] = Unit
  Reads lib (c ∷ cs) =
      (IsPrintable lib word (value c.property) × IsPrintable lib word (value c.value))
      × Reads lib cs

  named : (k : Relation) → (name k == "") ≡ false
  named equal = refl
  named same = refl
  named greater = refl
  named at_least = refl
  named less = refl
  named at_most = refl
  named different = refl

  name-chars : (k : Relation) → all (in_word other) (chars (name k)) ≡ true
  unfolding in_word is_alnum
  name-chars equal = refl
  name-chars same = refl
  name-chars greater = refl
  name-chars at_least = refl
  name-chars less = refl
  name-chars at_most = refl
  name-chars different = refl

  terms-ArePrintable :
      (lib : Library) (cs : List Condition) → Reads lib cs → ArePrintable lib word (terms_of cs)
  unfolding ArePrintable
  terms-ArePrintable lib [] good = tt
  terms-ArePrintable lib (c ∷ cs) ((p, v), good) =
      ((named c.relation, (p, (v, tt))), terms-ArePrintable lib cs good)

  terms-AreWritable :
      (cs : List Condition) → AreWords other word cs → AreWritable other word (terms_of cs)
  unfolding AreWritable
  terms-AreWritable [] good = tt
  terms-AreWritable (c ∷ cs) ((p, v), good) =
      ((name-chars c.relation, (p, (v, tt))), terms-AreWritable cs good)

  conditions-filled :
      (d : Delim) (a b : Condition) (l : List Condition)
      → AreWords other word (a ∷ b ∷ l)
      → write_conditions word d a b l ≢ []
  conditions-filled d a b l (((h, f), v), good) =
      filled-append other word _ _ (filled-append other word _ _ (filled_word (word a.property) f))
    where
      filled_word : (w : String) → filled w false ≡ true → chars w ≢ []
      filled_word String.[] e k = cc
      filled_word (String.◌∷◌ c w) e k = cc

  -- Two or more comparisons, written with one delimiter between them, parse to the term `or` of
  -- the comparisons' terms if it is |, and to `and` of them if it is & or a comma, each the name of
  -- its operator with its property and value, provided that their words consist of word characters
  -- and read as them, and that none of them is the empty text.
  pub parse_text-write_conditions :
      (lib : Library) (d : Delim) (a b : Condition) (l : List Condition)
      → parts d ≡ true
      → Reads lib (a ∷ b ∷ l)
      → AreWords other word (a ∷ b ∷ l)
      → parse_text other lib (write_conditions word d a b l)
        ≡ ok (query (operator d) (terms_of (a ∷ b ∷ l)))
  unfolding parse_text
  parse_text-write_conditions lib d a b l h reads good =
      ap (λ r. and_then r (λ q. parse lib (tokens other q)))
        (prepare-calm other (write_conditions word d a b l) (conditions-filled d a b l good) (
            calm-condition other word a (write_more word d (b ∷ l)) good.0
              (calm-more other word d (b ∷ l) good.1))
          ∙ convert-conditions other word d a b l h good)
      ∙ parse-tokens other word lib d (term_of a) (term_of b) (terms_of l) h
          (terms-ArePrintable lib (a ∷ b ∷ l) reads) (terms-AreWritable (a ∷ b ∷ l) good)
