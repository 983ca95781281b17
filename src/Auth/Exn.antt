-- ===== src/Auth/Exn.antt =====
-- The exceptions that authorisation of a request may end in.
use nmos_common.Common.{ℕ}

-- `rejected` is an error of the token library's decoding or of its own claim checks, `http` is
-- flask's `abort`, `request_error` the requests library's RequestException, `name_error` the use of a
-- variable that is not set, `socket_error` a failure to send
pub data AuthExn : Type 0 where
  missing_authorization unsupported_token_type invalid_claim missing_claim rejected : AuthExn
  type_error value_error key_error attribute_error : AuthExn
  request_error os_error name_error index_error socket_error : AuthExn
  http : ℕ → AuthExn

pub data Check {ℓ} (A : Type ℓ) : Type ℓ where
  ok : A → Check A
  err : AuthExn → Check A

infixl 10 ◌>>=◌
abbrev pub ◌>>=◌ {ℓ κ} : {A : Type ℓ} {B : Type κ} → Check A → (A → Check B) → Check B
ok a >>= f = f a
err e >>= f = err e
