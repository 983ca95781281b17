-- ===== src/Common/Exec.antt =====
-- Methods that change an object and may raise: what was written before a raise stays written.
pub mod Preserves

pub data Result {ℓ κ} (E : Type ℓ) (A : Type κ) : Type (ℓ ⊔ κ) where
  ok : A → Result E A
  err : E → Result E A

abbrev pub Exec {ℓ} : Type ℓ → Type ℓ → Type ℓ → Type ℓ
Exec S E A = S → Result E A × S

module _ {ℓ} {S E A : Type ℓ} where
  pub pure : A → Exec S E A
  pure a s = (ok a, s)

  pub raise : E → Exec S E A
  raise e s = (err e, s)

  pub gets : (S → A) → Exec S E A
  gets f s = (ok (f s), s)

  abbrev pub handle : Result E A → (E → Exec S E A) → Exec S E A
  handle (ok a) f s = (ok a, s)
  handle (err e) f s = f e s

module _ {ℓ} {S E : Type ℓ} where
  pub modify : (S → S) → Exec S E (Unit {ℓ})
  modify f s = (ok tt, f s)

module _ {ℓ} {S E A : Type ℓ} where
  -- `try: m except: f`; the handler sees the exception and the state that it left
  pub try : Exec S E A → (E → Exec S E A) → Exec S E A
  try m f s = let (r, s') = m s in handle r f s'

module _ {ℓ} {S E A B : Type ℓ} where
  abbrev pub continue : Result E A → (A → Exec S E B) → Exec S E B
  continue (ok a) f s = f a s
  continue (err e) f s = (err e, s)

  infixl 10 ◌>>=◌ ◌>>◌
  -- opening this opens the other actions too
  unfoldable pub ◌>>=◌ : Exec S E A → (A → Exec S E B) → Exec S E B
  unfolding pure raise gets modify try
  ◌>>=◌ m f s = let (r, s') = m s in continue r f s'

  abbrev pub ◌>>◌ : Exec S E A → Exec S E B → Exec S E B
  m >> n = m >>= λ _. n
