-- ===== src/Auth/Token.antt =====
-- The token in an authorization header (nmoscommon/auth/auth_middleware.py, the first half of
-- `processAccessToken`), over code points.
use nmos_common.Common.{
  same_text, codes, ℕ, ◌+◌, Bool, ◌&&◌, ◌||◌, List, [], ◌∷◌, map, any, leb, eqb, if◌then◌else◌,
}
use nmos_common.Auth.Exn.{
  Check, ok, err, missing_authorization, unsupported_token_type, value_error, ◌>>=◌,
}

-- white space for `str.split`, in the range of header characters
unfoldable pub is_space : ℕ → Bool
is_space c = (leb 9 c && leb c 13) || (leb 28 c && leb c 32) || eqb c 0x85 || eqb c 0xa0

unfoldable pub drop_space : List ℕ → List ℕ
unfolding is_space
drop_space [] = []
drop_space (c ∷ s) = if is_space c then drop_space s else c ∷ s

unfoldable pub take_word : List ℕ → List ℕ
unfolding is_space
take_word [] = []
take_word (c ∷ s) = if is_space c then [] else c ∷ take_word s

unfoldable pub drop_word : List ℕ → List ℕ
unfolding is_space
drop_word [] = []
drop_word (c ∷ s) = if is_space c then c ∷ s else drop_word s

unfoldable pub lower : ℕ → ℕ
lower c = if leb b'A' c && leb c b'Z' then c + 32 else c

unfoldable pub is_bearer : List ℕ → Bool
unfolding lower
is_bearer word = same_text (map lower word) (codes "bearer")

-- `token_type, token_string = auth_string.split(None, 1)`, which raises unless there are two
unfoldable pub split_once : List ℕ → Check (List ℕ × List ℕ)
unfolding drop_space take_word drop_word
split_once s =
    let word = take_word (drop_space s) in
    let rest = drop_space (drop_word (drop_space s)) in
    elim rest [ [] ↦ err value_error | c ∷ t ↦ ok (word, c ∷ t) ]

unfoldable pub bearer_token : List ℕ × List ℕ → Check (List ℕ)
unfolding is_bearer
bearer_token (token_type, token) =
    if is_bearer token_type then ok token else err unsupported_token_type

unfoldable pub check_token : List ℕ → Check (List ℕ)
check_token token =
    if same_text token (codes "null") || same_text token []
    then err missing_authorization
    else ok token

unfoldable pub token_of : List ℕ → Check (List ℕ)
unfolding split_once bearer_token check_token
token_of auth =
    (if any (λ c. eqb c b' ') auth then split_once auth >>= bearer_token else ok auth)
    >>= check_token
