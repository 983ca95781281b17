-- ===== src/Rql/Converters.antt =====
-- The values of a query's texts (nmoscommon/rql/converters.py, and `str_to_val` of parser.py).
-- `Library` is what stands outside: characters beyond ASCII, `unquote`, `json.loads` of a text in quotes, compiled patterns,
-- and `datetime.strptime`.
use Prim.Native.Char.{code}
use nmos_common.Common.{
  ℕ, String, Bool, true, false, Option, none, some, List, [], ◌∷◌, ◌==◌, codes, eqb, if◌then◌else◌,
}
use nmos_common.Common.Dict.{Dict, get}
use nmos_common.Common.Exec.{Result, ok, err}
use nmos_common.Common.Unicode.{Unicode, Whole, plus, minus, int_of, isdigit}
use nmos_common.Rql.Dates.{iso_format, partial_match_format}

pub data RqlExn : Type 0 where
  parser_error conversion_error value_error not_implemented index_error : RqlExn

-- `infinite true` is positive infinity; `negative n` is minus n; a date counts milliseconds
pub data Val : Type 0 where
  none_value : Val
  boolean : Bool → Val
  number negative : ℕ → Val
  infinite : Bool → Val
  text : String → Val
  date : ℕ → Val
  pattern : (ignore_case : Bool) → String → Val

pub record Library : Type 0 where
  pub unicode : Unicode
  pub unquote : String → String
  pub lower : String → String
  pub loads : List ℕ → Result RqlExn String
  -- the text, and its format
  pub strptime : List ℕ → List ℕ → Result RqlExn ℕ

-- CONVERT_TYPES
abbrev pub convert_types : Dict Val
convert_types =
    ("true", boolean true)
    ∷ ("false", boolean false)
    ∷ ("none", none_value)
    ∷ ("null", none_value)
    ∷ ("undefined", none_value)
    ∷ ("infinity", infinite true)
    ∷ ("-infinity", infinite false)
    ∷ []

abbrev pub val_of : Whole → Val
val_of (plus n) = number n
val_of (minus n) = negative n

-- `int(string)`
abbrev pub integer : Option Whole → Result RqlExn Val
integer none = err value_error
integer (some n) = ok (val_of n)

-- `int(string)` where `string.isdigit()`, which raises for some digits
unfoldable pub digits : Unicode → List ℕ → Option (Result RqlExn Val)
digits unicode s = if isdigit unicode s then some (integer (int_of unicode s)) else none

-- the text between two quotes, if it stands in quotes: of a lone quote it is empty
abbrev pub before_quote : List ℕ → Option (List ℕ)
before_quote [] = none
before_quote (c ∷ []) = if eqb c b'\'' then some [] else none
before_quote (c ∷ d ∷ s) = elim (before_quote (d ∷ s)) [ none ↦ none | some t ↦ some (c ∷ t) ]

abbrev pub quoted : List ℕ → Option (List ℕ)
quoted [] = none
quoted (c ∷ []) = if eqb c b'\'' then some [] else none
quoted (c ∷ d ∷ s) = if eqb c b'\'' then before_quote (d ∷ s) else none

module _ (lib : Library) where
  abbrev pub loaded : String → Option (List ℕ) → Result RqlExn Val
  loaded ret none = ok (text ret)
  loaded ret (some inside) = elim (lib.loads inside) [ ok s ↦ ok (text s) | err e ↦ err e ]

  abbrev pub auto_number : String → Option (Result RqlExn Val) → Result RqlExn Val
  auto_number string (some r) = r
  auto_number string none = loaded (lib.unquote string) (quoted (codes (lib.unquote string)))

  unfoldable pub converter_auto : String → Result RqlExn Val
  converter_auto string = elim (get (lib.lower string) convert_types) [
    | some v ↦ ok v
    | none ↦ auto_number string (digits lib.unicode (codes string))
  ]

  unfoldable pub converter_number : String → Result RqlExn Val
  converter_number string = integer (int_of lib.unicode (codes string))

  unfoldable pub strptime_partial : String → Result RqlExn ℕ
  strptime_partial x = lib.strptime (codes x) (partial_match_format (codes x) iso_format)

  unfoldable pub converter_epoch : String → Result RqlExn Val
  converter_epoch x = elim (strptime_partial x) [ ok t ↦ ok (number t) | err e ↦ err e ]

  unfoldable pub converter_date : String → Result RqlExn Val
  converter_date x = elim (strptime_partial x) [ ok t ↦ ok (date t) | err e ↦ err e ]

  unfoldable pub converter_boolean : String → Result RqlExn Val
  converter_boolean x =
      let x' = lib.lower x in
      if x' == "true"
      then ok (boolean true)
      else if x' == "false"
      then ok (boolean false)
      else err conversion_error

  unfoldable pub converter_string : String → Result RqlExn Val
  converter_string x = ok (text (lib.unquote x))

  unfoldable pub converter_re : Bool → String → Result RqlExn Val
  converter_re ignore_case x = ok (pattern ignore_case (lib.unquote x))

  unfoldable pub converter_glob : String → Result RqlExn Val
  converter_glob x = err not_implemented

  -- CONVERTERS
  unfoldable pub converters : Dict (String → Result RqlExn Val)
  converters =
      ("auto", converter_auto)
      ∷ ("number", converter_number)
      ∷ ("epoch", converter_epoch)
      ∷ ("isodate", converter_date)
      ∷ ("date", converter_date)
      ∷ ("boolean", converter_boolean)
      ∷ ("string", converter_string)
      ∷ ("re", converter_re true)
      ∷ ("RE", converter_re false)
      ∷ ("glob", converter_glob)
      ∷ []

  -- `string.split(":", 1)`, none where there is no colon
  unfoldable pub split_colon : String → Option (String × String)
  split_colon String.[] = none
  split_colon (String.◌∷◌ c s) =
      let rest = split_colon s in
      if eqb (code c) b':'
      then some (String.[], s)
      else elim rest [ none ↦ none | some (name, value) ↦ some (String.◌∷◌ c name, value) ]

  unfoldable pub str_to_val : String → Result RqlExn Val
  str_to_val string = elim (split_colon string) [
    | none ↦ converter_auto string
    | some (name, rest) ↦ elim (get name converters) [
      | none ↦ err parser_error
      | some converter ↦ converter rest
    ]
  ]
