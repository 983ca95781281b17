-- ===== src/Tests/Queried.antt =====
-- Queries at concrete matches (nmoscommon/rql/parser.py).
use Prim.Native.Char.{Char}
use nmos_common.Common.{[], ◌∷◌, Bool, false, codes, String, ◌≡◌, refl, eqb, none}
use nmos_common.Common.Dict.{get}
use nmos_common.Common.Exec.{ok, err}
use nmos_common.Rql.Converters.{
  Library, Val, number, text, value_error, str_to_val, split_colon, converter_auto,
  converter_number, digits, converters,
}
use nmos_common.Common.Unicode.{int_of, isdigit, skip_space, space, value_of, digits as decimal}
use nmos_common.Rql.Dates.{
  iso_format, partial_match_format, partial_match, split_in_two, split_format,
}
use nmos_common.Rql.Parser.{amp, bar, Arg, value, query, items, nil, cons}
use nmos_common.Rql.Print.{ArePrintable, IsPrintable}
use nmos_common.Rql.Scan.{chars, sub, run, after_run, in_word, is_alnum}
use nmos_common.Rql.Fiql.{
  convert_from_fiql, fiql_at, operand, operator_at, name_part, operator_name, substitutor,
}
use nmos_common.Rql.Read.{prepare, path_at, json_substitutions, parse_text}
use nmos_common.Rql.Written.{write_top, write_arg, AreWritable, parse_text-write_top}
use nmos_common.Rql.Prepared.{Stages, prepare-Stages}
use nmos_common.Rql.Calls.{at_most, equal}
use nmos_common.Rql.Conditions.{Condition, write_conditions, AreWords, terms_of}
use nmos_common.Rql.Joined.{Reads, parse_text-write_conditions}

abbrev lib : Library
lib = record {
  unicode = record { digit_value = λ c. none; is_digit = λ c. eqb c 0xb2; is_space = λ c. false };
  unquote = λ s. s;
  lower = λ s. s;
  loads = λ s. err value_error;
  strptime = λ s f. err value_error;
}

-- every value is written by its converter
abbrev word : Val → String
word (text s) = s
word _ = "3"

-- eq(a,3)|in(b,(3,c))
abbrev left : Arg
left = query "eq" (cons (value (text "a")) (cons (value (number 3)) nil))

abbrev right : Arg
right = query "in" (
    cons (value (text "b"))
      (cons (items (cons (value (number 3)) (cons (value (text "c")) nil))) nil))

printable : ArePrintable lib word (cons left (cons right nil))
unfolding ArePrintable str_to_val split_colon converter_auto digits int_of isdigit skip_space space
    value_of decimal get
printable = (
  (refl, ((refl, refl, refl), ((refl, refl, refl), tt))),
  ((refl, ((refl, refl, refl), (((refl, refl, refl), ((refl, refl, refl), tt)), tt))), tt),
)

-- no character beyond ASCII is a word character
abbrev other : Char → Bool
other c = false

writable : AreWritable other word (cons left (cons right nil))
unfolding AreWritable in_word is_alnum
writable = (
  (refl, ((refl, refl), ((refl, refl), tt))),
  ((refl, ((refl, refl), (((refl, refl), ((refl, refl), tt)), tt))), tt),
)

written_pair : write_top word bar left right nil ≡ chars "eq(a,3)|in(b,(3,c))"
unfolding write_arg
written_pair = refl

parse_text-write_top_example :
    parse_text other lib (write_top word bar left right nil)
    ≡ ok (query "or" (cons left (cons right nil)))
parse_text-write_top_example =
    parse_text-write_top other word lib bar left right nil refl printable writable

prepared : prepare other (chars "?a/b=c,d>=3") ≡ ok (chars "eq((a,b),c),ge(d,3)")
unfolding prepare path_at json_substitutions convert_from_fiql fiql_at operand operator_at name_part
    operator_name substitutor sub run after_run in_word is_alnum get
prepared = refl

-- the comparison of a list, and a comparison with a name
prepared_list : prepare other (chars "(a,b)=lt=(c,d)") ≡ ok (chars "lt((a,b),(c,d))")
unfolding prepare path_at json_substitutions convert_from_fiql fiql_at operand operator_at name_part
    operator_name substitutor sub run after_run in_word is_alnum get
prepared_list = refl

-- an encoded comparison is not decoded: the slash is gone before
not_decoded : prepare other (chars "a/%3C=/gb") ≡ ok (chars "eq((a,%3C),(,gb))")
unfolding prepare path_at json_substitutions convert_from_fiql fiql_at operand operator_at name_part
    operator_name substitutor sub run after_run in_word is_alnum get
not_decoded = refl

-- a=b&3<=c
abbrev first : Condition
first = record { relation = equal; property = text "a"; value = text "b" }

abbrev second : Condition
second = record { relation = at_most; property = number 3; value = text "c" }

written_conditions : write_conditions word amp first second [] ≡ chars "a=b&3<=c"
written_conditions = refl

reads : Reads other word lib (first ∷ second ∷ [])
unfolding str_to_val split_colon converter_auto digits int_of isdigit skip_space space value_of
    decimal get IsPrintable
reads = (((refl, refl, refl), (refl, refl, refl)), (((refl, refl, refl), (refl, refl, refl)), tt))

words : AreWords other word (first ∷ second ∷ [])
unfolding in_word is_alnum
words = (((refl, refl), (refl, refl)), (((refl, refl), (refl, refl)), tt))

parse_text-write_conditions_example :
    parse_text other lib (write_conditions word amp first second [])
    ≡ ok (query "and" (terms_of (first ∷ second ∷ [])))
parse_text-write_conditions_example =
    parse_text-write_conditions other word lib amp first second [] refl reads words

prepare-Stages_example : Stages other (chars "?a/%3C=/gb")
prepare-Stages_example = prepare-Stages other (chars "?a/%3C=/gb") (λ e. cc)

reads_number : str_to_val lib "number:-7" ≡ ok (Val.negative 7)
unfolding str_to_val split_colon converters converter_number digits int_of isdigit skip_space space
    value_of decimal get
reads_number = refl

month_only : partial_match_format (codes "2015-01") iso_format ≡ codes "%Y-%m"
unfolding partial_match_format partial_match split_in_two split_format
month_only = refl

no_fraction :
    partial_match_format (codes "2015-01-02T03:04:05") iso_format ≡ codes "%Y-%m-%dT%H:%M:%S"
unfolding partial_match_format partial_match split_in_two split_format
no_fraction = refl

in_full : partial_match_format (codes "2015-01-02T03:04:05.6Z") iso_format ≡ iso_format
unfolding partial_match_format partial_match split_in_two split_format
in_full = refl

-- a digit that is not decimal is a digit to `isdigit`, and `int` raises on it
superscript : str_to_val lib "²" ≡ err value_error
unfolding str_to_val split_colon converter_auto digits int_of isdigit skip_space space value_of
    decimal get
superscript = refl
