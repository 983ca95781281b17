-- ===== src/Common/Exec/Preserves.antt =====
-- Invariants of actions: what a composed action keeps, from what its parts keep.
use mathlib.Core.Bool.{Bool, true, false}
use nmos_common.Common.Tests.{if◌then◌else◌}
use nmos_common.Common.Exec.{
  Result, Exec, ok, err, handle, continue, pure, raise, gets, modify, try, ◌>>=◌,
}

-- Both ends of an action, a result and an exception, leave a state where `I` holds if it held.
pub record Preserves {ℓ} {S E A : Type ℓ} (I : S → Type ℓ) (act : Exec S E A) : Type ℓ where
  pub at : (s : S) → I s → I (act s).1

module _ {ℓ} {S E : Type ℓ} {I : S → Type ℓ} where
  pub modify-Preserves :
      (change : S → S) → ((s : S) → I s → I (change s)) → Preserves I (modify {E = E} change)
  unfolding modify
  modify-Preserves change kept = record { at = kept }

module _ {ℓ} {S E A : Type ℓ} {I : S → Type ℓ} where
  -- the three actions that only look at the state
  pub gets-Preserves : (look : S → A) → Preserves I (gets {E = E} look)
  unfolding gets
  gets-Preserves look = record { at = λ _ inv. inv }

  pub raise-Preserves : (exn : E) → Preserves I (raise {A = A} exn)
  unfolding raise
  raise-Preserves exn = record { at = λ _ inv. inv }

  pub pure-Preserves : (value : A) → Preserves I (pure {E = E} value)
  unfolding pure
  pure-Preserves value = record { at = λ _ inv. inv }

  pub if-Preserves :
      (test : Bool) (then_do else_do : Exec S E A)
      → Preserves I then_do
      → Preserves I else_do
      → Preserves I (if test then then_do else else_do)
  if-Preserves true then_do else_do kept_yes kept_no = kept_yes
  if-Preserves false then_do else_do kept_yes kept_no = kept_no

  handle-inv :
      (handler : E → Exec S E A) (result : Result E A) (s : S)
      → ((exn : E) → Preserves I (handler exn))
      → I s
      → I (handle result handler s).1
  handle-inv handler (ok value) s kept inv = inv
  handle-inv handler (err exn) s kept inv = (kept exn).at s inv

  pub try-Preserves :
      (act : Exec S E A) (handler : E → Exec S E A)
      → Preserves I act
      → ((exn : E) → Preserves I (handler exn))
      → Preserves I (try act handler)
  unfolding try
  try-Preserves act handler kept_act kept = record {
    at = λ s inv. handle-inv handler (act s).0 (act s).1 kept (kept_act.at s inv);
  }

module _ {ℓ} {S E A B : Type ℓ} {I : S → Type ℓ} where
  continue-inv :
      (rest : A → Exec S E B) (result : Result E A) (s : S)
      → ((value : A) → Preserves I (rest value))
      → I s
      → I (continue result rest s).1
  continue-inv rest (ok value) s kept inv = (kept value).at s inv
  continue-inv rest (err exn) s kept inv = inv

  pub bind-Preserves :
      (act : Exec S E A) (rest : A → Exec S E B)
      → Preserves I act
      → ((value : A) → Preserves I (rest value))
      → Preserves I (act >>= rest)
  unfolding ◌>>=◌
  bind-Preserves act rest kept_act kept = record {
    at = λ s inv. continue-inv rest (act s).0 (act s).1 kept (kept_act.at s inv);
  }

pub ruleset preserving =
    (bind-Preserves, try-Preserves, if-Preserves, gets-Preserves, raise-Preserves, pure-Preserves)
