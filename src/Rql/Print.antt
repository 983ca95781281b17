-- ===== src/Rql/Print.antt =====
-- Queries that are printed and parsed again (nmoscommon/rql/parser.py).
use nmos_common.Common.{
  String, ◌≡◌, refl, sym, ap, ◌∙◌, true, false, List, [], ◌∷◌, ◌++◌, append_assoc, append-nil, ◌==◌,
  if◌then◌else◌,
}
use nmos_common.Common.Exec.{Result, ok, err}
use nmos_common.Rql.Converters.{Val, Library, RqlExn, str_to_val}
use nmos_common.Rql.Parser.{
  and_then, Delim, nothing, comma, amp, bar, Token, Arg, value, query, items, Args, nil, cons,
  args_of, State, begin, add_argument, set_conjunction, conjunction_of, open_term, closed_arg,
  close_term, is_blank, add_value, act, step, steps, finish, parse,
}

abbrev pub list_of : Args → List Arg
list_of nil = []
list_of (cons a l) = a ∷ list_of l

args_of-list_of : (l : Args) → args_of (list_of l) ≡ l
unfolding args_of
args_of-list_of nil = refl
args_of-list_of (cons a l) = ap (cons a) (args_of-list_of l)

abbrev pub opening : Delim → String → Token
opening d name = record { closes = false; delim = d; word = name; opens = true }

abbrev pub closing : Token
closing = record { closes = true; delim = nothing; word = ""; opens = false }

module _ (word : Val → String) where
  unfoldable mutual
    -- an argument after a delimiter; arguments that stand each after the same one; those of a term
    pub print_arg : Delim → Arg → List Token
    print_arg d (value v) = record { closes = false; delim = d; word = word v; opens = false } ∷ []
    print_arg d (query name l) = opening d name ∷ print_args l ++ closing ∷ []
    print_arg d (items l) = opening d "" ∷ print_args l ++ closing ∷ []

    pub print_all : Delim → Args → List Token
    print_all d nil = []
    print_all d (cons a l) = print_arg d a ++ print_all d l

    pub print_args : Args → List Token
    print_args nil = []
    print_args (cons a l) = print_arg nothing a ++ print_all comma l

module _ (lib : Library) (word : Val → String) where
  unfoldable mutual
    -- the words of values are theirs, and only groups have an empty name
    pub IsPrintable : Arg → Type 0
    IsPrintable (value v) =
        ((word v == "") ≡ false) × (str_to_val lib (word v) ≡ ok v) × (is_blank v ≡ false)
    IsPrintable (query name l) = ((name == "") ≡ false) × ArePrintable l
    IsPrintable (items l) = ArePrintable l

    pub ArePrintable : Args → Type 0
    ArePrintable nil = Unit
    ArePrintable (cons a l) = IsPrintable a × ArePrintable l

  later :
      {A B C : Type 0} (r : Result RqlExn A) (f : A → Result RqlExn B) (g : B → Result RqlExn C)
      (h : A → Result RqlExn C)
      → ((a : A) → h a ≡ and_then (f a) g)
      → and_then r h ≡ and_then (and_then r f) g
  later (ok a) f g h e = e a
  later (err x) f g h e = refl

  steps-append :
      (xs ys : List Token) (s : State)
      → steps lib (xs ++ ys) s ≡ and_then (steps lib xs s) (steps lib ys)
  unfolding steps
  steps-append [] ys s = refl
  steps-append (x ∷ xs) ys s =
      later (step lib x s) (steps lib xs) (steps lib ys) (steps lib (xs ++ ys)) (steps-append xs ys)

  runs_on :
      (xs ys : List Token) (s t : State)
      → steps lib xs s ≡ ok t
      → steps lib (xs ++ ys) s ≡ steps lib ys t
  runs_on xs ys s t h = steps-append xs ys s ∙ ap (λ r. and_then r (steps lib ys)) h

  abbrev with_args : State → Args → State
  with_args s l = record s { args = s.args ++ list_of l }

  step_value :
      (v : Val) (d : Delim) (s t : State)
      → conjunction_of d s ≡ ok t
      → IsPrintable (value v)
      → steps lib (print_arg word d (value v)) s ≡ ok (add_argument (value v) t)
  unfolding steps step act add_value print_arg IsPrintable
  step_value v d s t h (solid, reads, shows) = rw (h, solid, reads, shows) refl

  step_open :
      (name : String) (rest : List Token) (d : Delim) (s t : State)
      → conjunction_of d s ≡ ok t
      → steps lib (opening d name ∷ rest) s ≡ steps lib rest (open_term name t)
  unfolding steps step act
  step_open name rest d s t h =
      ap (λ r. and_then (and_then r (act lib (opening d name))) (steps lib rest)) h

  step_close :
      (name : String) (l : Args) (t : State)
      → steps lib (closing ∷ []) (with_args (open_term name t) l)
        ≡ ok (add_argument (closed_arg name l) t)
  unfolding steps step act close_term conjunction_of open_term
  step_close name l t = ap (λ x. ok (add_argument (closed_arg name x) t)) (args_of-list_of l)

  abbrev Stays : Delim → State → Type 0
  Stays d s = (l : List Arg) → conjunction_of d (record s { args = l }) ≡ ok (record s { args = l })

  step_group :
      (name : String) (l : Args) (d : Delim) (s t : State)
      → conjunction_of d s ≡ ok t
      → steps lib (print_args word l) (open_term name t) ≡ ok (with_args (open_term name t) l)
      → steps lib (opening d name ∷ print_args word l ++ closing ∷ []) s
        ≡ ok (add_argument (closed_arg name l) t)
  step_group name l d s t h inner =
      step_open name _ d s t h
      ∙ runs_on (print_args word l) (closing ∷ []) _ _ inner
      ∙ step_close name l t

  abbrev done : State → Result RqlExn State
  done s = ok s

  nothing_added : (s : State) → done s ≡ ok (with_args s nil)
  nothing_added s = ap (λ l. ok (record s { args = l })) (sym (append-nil s.args))

  one_more :
      (a : Arg) (l : Args) (s : State)
      → done (with_args (add_argument a s) l) ≡ ok (with_args s (cons a l))
  unfolding add_argument
  one_more a l s = ap (λ x. ok (record s { args = x })) (append_assoc s.args (a ∷ []) (list_of l))

  mutual
    unfolding print_arg IsPrintable conjunction_of add_argument steps

    step_arg :
        (a : Arg) (d : Delim) (s t : State)
        → conjunction_of d s ≡ ok t
        → IsPrintable a
        → steps lib (print_arg word d a) s ≡ ok (add_argument a t)
    step_arg (value v) d s t h good = step_value v d s t h good
    step_arg (query name l) d s t h (named, good) =
        step_group name l d s t h (step_args l (open_term name t) good)
        ∙ ap (λ b. ok (add_argument (if b then items l else query name l) t)) named
    step_arg (items l) d s t h good = step_group "" l d s t h (step_args l (open_term "" t) good)

    step_all :
        (l : Args) (d : Delim) (s : State)
        → Stays d s
        → ArePrintable l
        → steps lib (print_all word d l) s ≡ ok (with_args s l)
    step_all nil d s h good = nothing_added s
    step_all (cons a l) d s h (first, good) =
        runs_on (print_arg word d a) (print_all word d l) s (add_argument a s)
          (step_arg a d s s (h s.args) first)
        ∙ step_all l d (add_argument a s) h good
        ∙ one_more a l s

    step_args :
        (l : Args) (s : State)
        → ArePrintable l
        → steps lib (print_args word l) s ≡ ok (with_args s l)
    step_args nil s good = nothing_added s
    step_args (cons a l) s (first, good) =
        runs_on (print_arg word nothing a) (print_all word comma l) s (add_argument a s)
          (step_arg a nothing s s refl first)
        ∙ step_all l comma (add_argument a s) (λ x. refl) good
        ∙ one_more a l s

abbrev pub operator : Delim → String
operator bar = "or"
operator _ = "and"

-- two or more arguments of a top term, joined by one delimiter
abbrev pub print_top : (Val → String) → Delim → Arg → Arg → Args → List Token
print_top word d a b l = print_arg word nothing a ++ print_all word d (cons b l)

module _ (lib : Library) (word : Val → String) (a b : Arg) (l : Args) where
  abbrev top : String → State
  top name = record { name = name; args = a ∷ []; parents = [] }

  run_top :
      (d : Delim) (name : String)
      → conjunction_of d (top "") ≡ ok (top name)
      → Stays lib word d (top name)
      → ArePrintable lib word (cons a (cons b l))
      → parse lib (print_top word d a b l)
        ≡ ok (query (if name == "" then "and" else name) (cons a (cons b l)))
  unfolding parse print_all ArePrintable add_argument conjunction_of args_of
  run_top d name starts stays (first, (second, rest)) =
      ap (λ r. and_then r finish)
        (runs_on lib word (print_arg word nothing a) _ begin (top "")
            (step_arg lib word a nothing begin begin refl first)
          ∙ runs_on lib word (print_arg word d b) (print_all word d l) (top "") _
              (step_arg lib word b d (top "") (top name) starts second)
          ∙ step_all lib word l d (add_argument b (top name)) stays rest)
      ∙ ap (λ x. ok (query (if name == "" then "and" else name) (cons a (cons b x))))
          (args_of-list_of l)

  -- Two or more arguments, nested to any depth, that are printed with one delimiter between them
  -- parse to the term `or` of them if it is |, and to `and` if it is & or a comma, provided that
  -- the printed words read as their values, no value is the empty text and no name is empty.
  pub parse-print_top :
      (d : Delim)
      → ArePrintable lib word (cons a (cons b l))
      → parse lib (print_top word d a b l) ≡ ok (query (operator d) (cons a (cons b l)))
  unfolding conjunction_of set_conjunction
  parse-print_top nothing good = run_top nothing "" refl (λ x. refl) good
  parse-print_top comma good = run_top comma "" refl (λ x. refl) good
  parse-print_top amp good = run_top amp "and" refl (λ x. refl) good
  parse-print_top bar good = run_top bar "or" refl (λ x. refl) good
