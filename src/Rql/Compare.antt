-- ===== src/Rql/Compare.antt =====
-- Comparisons that become calls of operators (nmoscommon/rql/converters.py, `convert_from_fiql`).
use Prim.Native.Char.{Char}
use nmos_common.Common.{
  ℕ, zero, suc, ◌≤◌, ◌⊎◌, Option-cases, ◌-◌, ◌≡◌, refl, sym, ap, ◌∙◌, Bool, ◌&&◌, Option, none,
  some, [], ◌∷◌, ◌++◌, length, length-append, append_assoc, append-nil, arith, Bool-cases, inl, inr,
  subst,
}
use nmos_common.Common.Dict.{get}
use nmos_common.Common.Exec.{Result, ok}
use nmos_common.Rql.Converters.{RqlExn}
use nmos_common.Rql.Parser.{and_then}
use nmos_common.Rql.Scan.{Text, chars, sub, run, after_run, is_char, is_alnum}
use nmos_common.Rql.Fiql.{
  with_name, name_part, equals, starts, tail, relation, operator_at, operator_name, substitutor,
  comparison, fiql_at, operand, convert_from_fiql, but_last,
}

-- the call raises nothing
abbrev pub Fine : {A : Type 0} → Result RqlExn A → Type 0
Fine {A} r = (a : A) × (r ≡ ok a)

pub Fine-and_then :
    {A B : Type 0} (r : Result RqlExn A) (f : A → Result RqlExn B)
    → Fine r
    → ((a : A) → Fine (f a))
    → Fine (and_then r f)
Fine-and_then r f (a, h) k = let (b, e) = k a in (b, ap (λ x. and_then x f) h ∙ e)

pub sub-Fine :
    (match : Text → Option (Result RqlExn Text × ℕ))
    → ((s : Text) (r : Result RqlExn Text) (n : ℕ) → match s ≡ some (r, n) → Fine r)
    → (skip : ℕ) (s : Text) → Fine (sub match skip s)
unfolding sub
sub-Fine match h skip [] = ([], refl)
sub-Fine match h (suc skip) (c ∷ s) = sub-Fine match h skip s
sub-Fine match h zero (c ∷ s) = elim (Option-cases (match (c ∷ s))) [
  | inl e ↦
      rw (e, sub) (Fine-and_then (sub match 0 s) _ (sub-Fine match h 0 s) (λ t. (c ∷ t, refl)))
  | inr ((r, n), e) ↦
      rw (e, sub)
        (Fine-and_then r _ (h (c ∷ s) r n e) (λ x.
          Fine-and_then (sub match (n - 1) s) _ (sub-Fine match h (n - 1) s) (λ t. (x ++ t, refl))))
]

-- the name between two equals signs, with the second
abbrev IsNamed : Text → Type 0
IsNamed name = (name ≡ []) ⊎ ((name ≡ chars "=") ⊎ (2 ≤ length name))

with_name-IsNamed : (name s : Text) → IsNamed (with_name name s).0
with_name-IsNamed name [] = inl refl
with_name-IsNamed name (c ∷ s) = elim (Bool-cases (is_char b'=' c)) [
  | inl h ↦ rw h (closed_name name)
  | inr h ↦ rw h (inl refl)
]
  where
    closed_name : (n : Text) → IsNamed (n ++ chars "=")
    closed_name [] = inr (inl refl)
    closed_name (x ∷ n) = inr (inr (omega (arith, length-append n (chars "="))))

long_name : (op : Text) → 3 ≤ length op → Fine (operator_name op)
unfolding operator_name
long_name op h = (but_last (tail op), ground arith)

equals-Fine :
    (b name : Text)
    → IsNamed name
    → Fine (operator_name (b ++ chars "="))
    → Fine (operator_name (b ++ chars "=="))
    → Fine (operator_name (b ++ chars "=" ++ name))
equals-Fine b name (inl e) one two =
    rw e (subst (λ x. Fine (operator_name x)) (sym (append-nil (b ++ chars "="))) one)
equals-Fine b name (inr (inl e)) one two =
    rw e (subst (λ x. Fine (operator_name x)) (sym (append_assoc b (chars "=") (chars "="))) two)
equals-Fine b name (inr (inr h)) one two =
    long_name (b ++ chars "=" ++ name)
      (omega (arith, length-append (b ++ chars "=") name, length-append b (chars "="), h))

module _ (other : Char → Bool) where
  -- the operator that stands at a position is named
  AllNamed : Option (Text × Text) → Type 0
  AllNamed o = (op rest : Text) → o ≡ some (op, rest) → Fine (operator_name op)

  equals-named :
      (b s op rest : Text)
      → Fine (operator_name (b ++ chars "="))
      → Fine (operator_name (b ++ chars "=="))
      → some (equals other b s) ≡ some (op, rest)
      → Fine (operator_name op)
  unfolding name_part
  equals-named b s op rest one two e =
      let h : (equals other b s).0 ≡ op = cc in
      subst (λ x. Fine (operator_name x)) h
        (equals-Fine b (name_part other s).0
          (with_name-IsNamed (run (is_alnum other) s) (after_run (is_alnum other) s)) one two)

  relation-named :
      (b s op rest : Text)
      → Fine (operator_name b)
      → Fine (operator_name (b ++ chars "="))
      → Fine (operator_name (b ++ chars "=="))
      → relation other b s ≡ some (op, rest)
      → Fine (operator_name op)
  relation-named b s op rest zero_more one two e = elim (Bool-cases (starts b'=' s)) [
    | inl h ↦ equals-named b (tail s) op rest one two (let e₁ = rw h at e in e₁)
    | inr h ↦ subst (λ x. Fine (operator_name x)) (let e₁ = rw h at e in cc) zero_more
  ]

  operator_at-named :
      (s op rest : Text) → operator_at other s ≡ some (op, rest) → Fine (operator_name op)
  unfolding operator_at operator_name get
  operator_at-named [] op rest e = cc
  operator_at-named (c ∷ s) op rest e = elim (Bool-cases (is_char b'=' c)) [
    | inl h ↦ equals-named [] s op rest (_, refl) (_, refl) (let e₁ = rw h at e in e₁)
    | inr h ↦ elim (Bool-cases (is_char b'<' c)) [
      | inl k ↦
          relation-named (chars "<") s op rest (_, refl) (_, refl) (_, refl)
            (let e₁ = rw (h, k) at e in e₁)
      | inr k ↦ elim (Bool-cases (is_char b'>' c)) [
        | inl l ↦
            relation-named (chars ">") s op rest (_, refl) (_, refl) (_, refl)
              (let e₁ = rw (h, k, l) at e in e₁)
        | inr l ↦ elim (Bool-cases (is_char b'!' c && starts b'=' s)) [
          | inl m ↦
              equals-named (chars "!") (tail s) op rest (_, refl) (_, refl)
                (let e₁ = rw (h, k, l, m) at e in e₁)
          | inr m ↦ (let e₁ = rw (h, k, l, m) at e in cc)
        ]
      ]
    ]
  ]

  comparison-Fine :
      (prop : Text) (o : Option (Text × Text)) (r : Result RqlExn Text) (n : ℕ)
      → ((op rest : Text) → o ≡ some (op, rest) → Fine (operator_name op))
      → comparison other prop o ≡ some (r, n)
      → Fine r
  unfolding substitutor
  comparison-Fine prop none r n h e = cc
  comparison-Fine prop (some (op, s)) r n h e =
      let k : substitutor prop op (operand other s).0 ≡ r = cc in
      subst Fine k (Fine-and_then (operator_name op) _ (h op s refl) (λ name. (_, refl)))

  -- The conversion of FIQL comparisons never raises: the error about an illegal operator cannot
  -- occur, since the regular expression matches no other operators than those in OPERATOR_MAP and
  -- those with a name.
  pub convert_from_fiql-ok : (s : Text) → (t : Text) × (convert_from_fiql other s ≡ ok t)
  unfolding convert_from_fiql fiql_at
  convert_from_fiql-ok s =
      sub-Fine (fiql_at other)
        (λ s r n.
          comparison-Fine (operand other s).0 (operator_at other (operand other s).1) r n
            (operator_at-named (operand other s).1))
        0 s
