-- ===== src/Rql/Prepared.antt =====
-- What is done to the text of a query before it is taken apart (nmoscommon/rql/parser.py, `parse`).
use Prim.Native.Char.{Char}
use nmos_common.Common.{
  ℕ, ◌-◌, zero, suc, ◌≡◌, ◌≢◌, refl, sym, ap, subst, Bool, true, false, Option, none, some, [], ◌∷◌,
  ◌++◌, all, any, arith, Bool-cases, Option-cases, inl, inr,
}
use nmos_common.Common.Exec.{Result, ok}
use nmos_common.Rql.Converters.{RqlExn}
use nmos_common.Rql.Parser.{and_then}
use nmos_common.Rql.Scan.{Text, chars, sub, run, after_run, is_char, in_word, is_alnum}
use nmos_common.Rql.Fiql.{convert_from_fiql}
use nmos_common.Rql.Read.{
  comma_for_slash, in_path, path_from, path_at, paths, without_mark, json_substitutions, prepare,
}
use nmos_common.Rql.Plain.{bare, json_substitutions-bare, then_ok}
use nmos_common.Rql.Compare.{convert_from_fiql-ok}

-- a result without a slash
abbrev Bare : Result RqlExn Text → Type 0
Bare r = (t : Text) × (r ≡ ok t) × (all bare t ≡ true)

append-bare : (x y : Text) → all bare x ≡ true → all bare y ≡ true → all bare (x ++ y) ≡ true
append-bare [] y h e = e
append-bare (c ∷ x) y h e = let rest = append-bare x y (ground arith) e in ground arith

Bare-and_then :
    (r : Result RqlExn Text) (x : Text)
    → all bare x ≡ true
    → Bare r
    → Bare (and_then r (λ t. ok (x ++ t)))
Bare-and_then r x h (t, e, k) =
    (x ++ t, ap (λ q. and_then q (λ t. ok (x ++ t))) e, append-bare x t h k)

-- what a match stands for has no slash, and a character that begins no match is none
sub-Bare :
    (match : Text → Option (Result RqlExn Text × ℕ))
    → ((s : Text) (r : Result RqlExn Text) (n : ℕ) → match s ≡ some (r, n) → Bare r)
    → ((c : Char) (s : Text) → match (c ∷ s) ≡ none → bare c ≡ true)
    → (skip : ℕ) (s : Text) → Bare (sub match skip s)
unfolding sub
sub-Bare match h k skip [] = ([], refl, refl)
sub-Bare match h k (suc skip) (c ∷ s) = sub-Bare match h k skip s
sub-Bare match h k zero (c ∷ s) = elim (Option-cases (match (c ∷ s))) [
  | inl e ↦
      let b = k c s e in
      rw (e, sub) (Bare-and_then (sub match 0 s) (c ∷ []) (ground arith) (sub-Bare match h k 0 s))
  | inr ((r, n), e) ↦
      let (x, f, b) = h (c ∷ s) r n e in
      rw (e, sub)
        (subst (λ q. Bare (and_then q (λ x. and_then (sub match (n - 1) s) (λ t. ok (x ++ t)))))
          (sym f) (Bare-and_then (sub match (n - 1) s) x b (sub-Bare match h k (n - 1) s)))
]

comma_for_slash-bare : (s : Text) → all bare (comma_for_slash s) ≡ true
comma_for_slash-bare [] = refl
comma_for_slash-bare (c ∷ s) = elim (Bool-cases (is_char b'/' c)) [
  | inl h ↦ rw h (comma_for_slash-bare s)
  | inr h ↦ let rest = comma_for_slash-bare s in rw h (ground arith)
]

module _ (other : Char → Bool) where
  path_from-Bare :
      (word s : Text) (r : Result RqlExn Text) (n : ℕ)
      → path_from other word s ≡ some (r, n)
      → Bare r
  path_from-Bare word [] r n e = cc
  path_from-Bare word (c ∷ s) r n e = elim (Bool-cases (is_char b'/' c)) [
    | inl h ↦
        let path = word ++ c ∷ run (in_path other) s in
        let e₁ = rw h at e in
        let same : ok (chars "(" ++ comma_for_slash path ++ chars ")") ≡ r = cc in
        subst Bare same (
          _,
          refl,
          append-bare (chars "(" ++ comma_for_slash path) (chars ")")
              (append-bare (chars "(") (comma_for_slash path) refl (comma_for_slash-bare path))
              refl,
        )
    | inr h ↦ (let e₁ = rw h at e in cc)
  ]

  slash_apart : (c : Char) → is_char b'/' c ≡ true → in_word other c ≡ false
  unfolding in_word is_alnum
  slash_apart c h = ground arith

  slash_found : (c : Char) (s : Text) → path_at other (c ∷ s) ≡ none → bare c ≡ true
  unfolding path_at run after_run
  slash_found c s e = elim (Bool-cases (is_char b'/' c)) [
    | inl h ↦ (let e₁ = rw (slash_apart c h, h) at e in cc)
    | inr h ↦ ground arith
  ]

  sub-paths : (s : Text) → Bare (sub (path_at other) 0 s)
  unfolding path_at
  sub-paths s =
      sub-Bare (path_at other)
        (λ s r n. path_from-Bare (run (in_word other) s) (after_run (in_word other) s) r n)
        slash_found 0 s

  without_slash : (s : Text) → any (is_char b'/') s ≡ false → all bare s ≡ true
  without_slash [] e = refl
  without_slash (c ∷ s) e = let rest = without_slash s (ground arith) in ground arith

  paths-Bare : (s : Text) → Bare (paths other s)
  paths-Bare s = elim (Bool-cases (any (is_char b'/') s)) [
    | inl h ↦ rw h (sub-paths s)
    | inr h ↦ rw h (s, refl, without_slash s h)
  ]

  -- the stages of the preparation of a text behind its question mark
  pub record Stages (s : Text) : Type 0 where
    pub query : Text
    pub with_lists : Text
    pub converted : Text
    pub marked : without_mark s ≡ ok query
    pub listed : paths other query ≡ ok with_lists
    pub kept : json_substitutions with_lists ≡ ok with_lists
    pub calls : convert_from_fiql other with_lists ≡ ok converted
    pub prepared : prepare other s ≡ ok converted

  stages : (s q : Text) → without_mark s ≡ ok q → Stages s
  unfolding prepare
  stages s q h =
      let (t, e, b) = paths-Bare q in
      let j = json_substitutions-bare t b in
      let (u, f) = convert_from_fiql-ok other t in
      record {
        query = q;
        with_lists = t;
        converted = u;
        marked = h;
        listed = e;
        kept = j;
        calls = f;
        prepared = then_ok _ q _ _ h (then_ok _ t _ _ e (then_ok _ t _ _ j f));
      }

  -- A text that is not empty is always prepared without an error, and the substitutions of encoded
  -- comparisons leave it as it is: after the paths have become lists no slash is left, which all of
  -- their patterns begin with.
  pub prepare-Stages : (s : Text) → s ≢ [] → Stages s
  prepare-Stages [] h = absurd (h refl)
  prepare-Stages (c ∷ s) h = stages (c ∷ s) _ refl
