-- ===== src/Auth/Newest.antt =====
-- The choice among several keys (nmoscommon/auth/nmos_auth.py, `findMostRecentJWK`). A key's
-- timestamp stands in its 'kid', behind a prefix; digits other than ASCII's are left out.
use nmos_common.Common.{
  codes, ℕ, ◌+◌, ◌*◌, ◌-◌, Bool, true, false, ◌&&◌, ◌||◌, Option, none, some, List, [], ◌∷◌, all,
  leb, ltb, eqb, if◌then◌else◌, ◌==◌, String,
}
use nmos_common.Common.Json.{Json, str, dict, Items, nil, item, Fields, end, field}
use nmos_common.Auth.Exn.{
  Check, ok, err, type_error, value_error, key_error, attribute_error, ◌>>=◌,
}
use nmos_common.Auth.Token.{is_space, drop_space}

-- a whole number
pub data Stamp : Type 0 where
  plus minus : ℕ → Stamp

-- `a > b`
unfoldable pub is_later : Stamp → Stamp → Bool
is_later (plus a) (plus b) = ltb b a
is_later (plus a) (minus b) = ltb 0 (a + b)
is_later (minus a) (plus b) = false
is_later (minus a) (minus b) = ltb a b

-- `lstrip("x-nmos-")`, which drops all leading characters of that text, in any order
unfoldable pub strip : List ℕ → List ℕ
strip [] = []
strip (c ∷ s) =
    let rest = strip s in
    if eqb c b'x' || eqb c b'-' || eqb c b'n' || eqb c b'm' || eqb c b'o' || eqb c b's'
    then rest
    else c ∷ s

-- the digits of a number, single underscores between them and spaces after them; whether a digit
-- stands before
unfoldable pub digits_of : Bool → ℕ → List ℕ → Option ℕ
unfolding is_space
digits_of after n [] = if after then some n else none
digits_of after n (c ∷ s) =
    let digit = digits_of true (n * 10 + (c - b'0')) s in
    let underscore = digits_of false n s in
    if leb b'0' c && leb c b'9'
    then digit
    else if after && eqb c b'_'
    then underscore
    else if after && all is_space (c ∷ s)
    then some n
    else none

abbrev pub stamped : (ℕ → Stamp) → Option ℕ → Check Stamp
stamped sign none = err value_error
stamped sign (some n) = ok (sign n)

-- `int(text)`
unfoldable pub int_of : List ℕ → Check Stamp
unfolding digits_of
int_of [] = err value_error
int_of (c ∷ s) =
    if eqb c b'-'
    then stamped minus (digits_of false 0 s)
    else if eqb c b'+'
    then stamped plus (digits_of false 0 s)
    else stamped plus (digits_of false 0 (c ∷ s))

unfoldable pub lookup : String → Fields → Option Json
lookup k end = none
lookup k (field name v rest) = let later = lookup k rest in if name == k then some v else later

abbrev pub kid_text : Option Json → Check (List ℕ)
kid_text none = err key_error
kid_text (some (str s)) = ok (codes s)
kid_text (some _) = err attribute_error

abbrev pub fields_of : Json → Check Fields
fields_of (dict d) = ok d
fields_of _ = err type_error

-- `int(key["kid"].lstrip("x-nmos-"))`
unfoldable pub kid_stamp : Json → Check Stamp
unfolding strip int_of drop_space lookup
kid_stamp key =
    fields_of key >>= λ d. kid_text (lookup "kid" d) >>= λ s. int_of (drop_space (strip s))

-- the lambda of `reduce`
unfoldable pub newer : Json → Json → Check Json
newer a b = kid_stamp a >>= λ s. kid_stamp b >>= λ t. ok (if is_later s t then a else b)

unfoldable pub reduce_newer : Json → Items → Check Json
reduce_newer a nil = ok a
reduce_newer a (item b rest) = newer a b >>= λ c. reduce_newer c rest

unfoldable pub find_most_recent : Items → Check Json
find_most_recent nil = err type_error
find_most_recent (item a rest) = reduce_newer a rest
