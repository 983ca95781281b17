-- ===== src/Rql/Parser.antt =====
-- nmoscommon/rql/parser.py: `parse` from the matches of PARSING_REGEX on. A term whose parentheses
-- are open is a frame; the arguments of a term are added to its parent's when it is closed, which is
-- where the code has put the term since it was opened. The cache is left out: `dict` does not show it.
use nmos_common.Common.{
  String, Bool, true, false, ◌||◌, not, List, [], ◌∷◌, ◌++◌, ◌==◌, if◌then◌else◌,
}
use nmos_common.Common.Exec.{Result, ok, err}
use nmos_common.Rql.Converters.{Val, text, Library, RqlExn, parser_error, str_to_val}

-- what follows a step that does not raise
abbrev pub and_then : {A B : Type 0} → Result RqlExn A → (A → Result RqlExn B) → Result RqlExn B
and_then (ok a) f = f a
and_then (err e) f = err e

-- the delimiter of a match
pub data Delim : Type 0 where
  nothing comma amp bar : Delim

-- one match: a closing parenthesis, or a delimiter, a word and perhaps an opening parenthesis
pub record Token : Type 0 where
  pub closes : Bool
  pub delim : Delim
  pub word : String
  pub opens : Bool

-- an argument is a value, a Query, or the list that a group without a name leaves
mutual
  pub data Arg : Type 0 where
    value : Val → Arg
    query : String → Args → Arg
    items : Args → Arg

  pub data Args : Type 0 where
    nil : Args
    cons : Arg → Args → Args

unfoldable pub args_of : List Arg → Args
args_of [] = nil
args_of (a ∷ l) = cons a (args_of l)

abbrev pub Term : Type 0
Term = String × List Arg

-- `current_term` and its parents
pub record State : Type 0 where
  pub name : String
  pub args : List Arg
  pub parents : List Term

abbrev pub begin : State
begin = record { name = ""; args = []; parents = [] }

-- `add_argument`
unfoldable pub add_argument : Arg → State → State
add_argument a s = record s { args = s.args ++ a ∷ [] }

-- `set_conjuction`
unfoldable pub set_conjunction : String → State → Result RqlExn State
set_conjunction operator s =
    if s.name == ""
    then ok (record s { name = operator })
    else if s.name == operator
    then ok s
    else err parser_error

unfoldable pub conjunction_of : Delim → State → Result RqlExn State
conjunction_of amp s = set_conjunction "and" s
conjunction_of bar s = set_conjunction "or" s
conjunction_of _ s = ok s

unfoldable pub open_term : String → State → State
open_term name s = record { name = name; args = []; parents = (s.name, s.args) ∷ s.parents }

-- what is closed: the list of arguments only, without a name
abbrev pub closed_arg : String → Args → Arg
closed_arg name args = if name == "" then items args else query name args

unfoldable pub close_term : State → Result RqlExn State
close_term s = elim s.parents [
  | [] ↦ err parser_error
  | (name, args) ∷ parents ↦ ok (
      add_argument (closed_arg s.name (args_of s.args))
        (record { name = name; args = args; parents = parents }))
]

abbrev pub is_comma : Delim → Bool
is_comma comma = true
is_comma _ = false

-- `val != ''`
abbrev pub is_blank : Val → Bool
is_blank (text s) = s == ""
is_blank _ = false

-- the end of `parse`: a Query shows as its `dict`, except inside a list, where it stays a Query
abbrev pub finish : State → Result RqlExn Arg
finish s = elim s.parents [
  | _ ∷ _ ↦ err parser_error
  | [] ↦ ok (query (if s.name == "" then "and" else s.name) (args_of s.args))
]

module _ (lib : Library) where
  unfoldable pub add_value : String → State → Result RqlExn State
  add_value word s =
      and_then (str_to_val lib word) (λ v. ok (if is_blank v then s else add_argument (value v) s))

  unfoldable pub act : Token → State → Result RqlExn State
  act t s =
      if t.opens
      then ok (open_term t.word s)
      else if t.closes
      then close_term s
      else if not (t.word == "") || is_comma t.delim
      then add_value t.word s
      else ok s

  -- the body of the loop
  unfoldable pub step : Token → State → Result RqlExn State
  step t s = and_then (conjunction_of t.delim s) (act t)

  unfoldable pub steps : List Token → State → Result RqlExn State
  steps [] s = ok s
  steps (t ∷ tokens) s = and_then (step t s) (steps tokens)

  unfoldable pub parse : List Token → Result RqlExn Arg
  parse tokens = and_then (steps tokens begin) finish
