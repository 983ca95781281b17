-- ===== src/Rql/Spell.antt =====
-- Tokens that are written as text and found again (nmoscommon/rql/parser.py, PARSING_REGEX).
use Prim.Native.Char.{Char}
use Prim.Native.String.{String}
use nmos_common.Common.{
  ℕ, suc, ◌+◌, ◌≡◌, refl, ap, ◌∙◌, Bool, true, false, not, ◌&&◌, Option, some, [], ◌∷◌, ◌++◌,
  length-append, append_assoc, all, length, arith, if◌then◌else◌,
}
use nmos_common.Rql.Parser.{Delim, nothing, comma, amp, bar, Token}
use nmos_common.Rql.Print.{closing}
use nmos_common.Rql.Scan.{Text, chars, string, find_all, run, after_run, is_char, in_word, is_alnum}
use nmos_common.Rql.Read.{delim_of, opens_with, made, word_at, token_at, tokens}
use nmos_common.Rql.Plain.{plain}

-- how a delimiter is written
abbrev pub delim_text : Delim → Text
delim_text nothing = []
delim_text comma = chars ","
delim_text amp = chars "&"
delim_text bar = chars "|"

abbrev pub token : Delim → String → Bool → Token
token d w opens = record { closes = false; delim = d; word = w; opens = opens }

string-chars : (w : String) → string (chars w) ≡ w
string-chars String.[] = refl
string-chars (String.◌∷◌ c w) = ap (String.◌∷◌ c) (string-chars w)

module _ {ℓ} {A : Type ℓ} (match : Text → Option (A × ℕ)) where
  find_all-skip : (x s : Text) → find_all match (length x) (x ++ s) ≡ find_all match 0 s
  unfolding find_all
  find_all-skip [] s = refl
  find_all-skip (c ∷ x) s = find_all-skip x s

  find_all-found :
      (c : Char) (x s : Text) (a : A) (n : ℕ)
      → match (c ∷ x ++ s) ≡ some (a, n)
      → n ≡ suc (length x)
      → find_all match 0 (c ∷ x ++ s) ≡ a ∷ find_all match 0 s
  unfolding find_all
  find_all-found c x s a n h e =
      rw (h, find_all)
        (ap (λ l. a ∷ l)
          (ap (λ k. find_all match k (x ++ s)) (omega (arith, e)) ∙ find_all-skip x s))

module _ (p : Char → Bool) where
  -- the text does not go on with a character that passes
  abbrev pub stops : Text → Bool
  stops [] = true
  stops (c ∷ s) = not (p c)

  pub run-stops : (w s : Text) → all p w ≡ true → stops s ≡ true → run p (w ++ s) ≡ w
  unfolding run
  run-stops [] [] h e = refl
  run-stops [] (c ∷ s) h e = ground arith
  run-stops (c ∷ w) s h e = let rest = run-stops w s (ground arith) e in ground arith

  pub after_run-stops : (w s : Text) → all p w ≡ true → stops s ≡ true → after_run p (w ++ s) ≡ s
  unfolding after_run
  after_run-stops [] [] h e = refl
  after_run-stops [] (c ∷ s) h e = ground arith
  after_run-stops (c ∷ w) s h e = let rest = after_run-stops w s (ground arith) e in ground arith

-- what stands behind a word
abbrev pub mark : Bool → Text
mark true = chars "("
mark false = []

-- a token without a delimiter is not empty
abbrev pub filled : String → Bool → Bool
filled String.[] opens = opens
filled (String.◌∷◌ c w) opens = true

module _ (other : Char → Bool) where
  -- no word and no parenthesis goes on there
  abbrev pub ends : Text → Bool
  ends s = stops (in_word other) s && not (opens_with s)

  in_word-apart :
      (c : Char)
      → in_word other c ≡ true
      → (is_char b')' c ≡ false) × (delim_of c ≡ nothing) × (plain c ≡ true)
  unfolding in_word is_alnum
  in_word-apart c h = ground arith

  pub all-plain : (w : Text) → all (in_word other) w ≡ true → all plain w ≡ true
  all-plain [] h = refl
  all-plain (c ∷ w) h =
      let rest = all-plain w (ground arith) in
      let (_, _, e) = in_word-apart c (ground arith) in ground arith

  word_at_lem :
      (d : Delim) (n : ℕ) (w : String) (s : Text) (opens : Bool)
      → all (in_word other) (chars w) ≡ true
      → stops (in_word other) s ≡ true
      → opens_with s ≡ opens
      → word_at other d n (chars w ++ s) ≡ made d n (chars w) opens
  word_at_lem d n w s opens h e k =
      rw
        (
          run-stops (in_word other) (chars w) s h e,
          after_run-stops (in_word other) (chars w) s h e,
          k,
        )
        refl

  made_lem :
      (d : Delim) (n : ℕ) (w : String) (opens : Bool)
      → filled w opens ≡ true
      → made d n (chars w) opens
        ≡ some (token d w opens, n + length (chars w) + (if opens then 1 else 0))
  made_lem nothing n String.[] true h = refl
  made_lem nothing n String.[] false h = cc
  made_lem nothing n (String.◌∷◌ c w) opens h =
      ap
        (λ x.
          some
            (token nothing x opens, n + length (chars (String.◌∷◌ c w)) + (if opens then 1 else 0)))
        (string-chars (String.◌∷◌ c w))
  made_lem comma n w opens h =
      ap (λ x. some (token comma x opens, n + length (chars w) + (if opens then 1 else 0)))
        (string-chars w)
  made_lem amp n w opens h =
      ap (λ x. some (token amp x opens, n + length (chars w) + (if opens then 1 else 0)))
        (string-chars w)
  made_lem bar n w opens h =
      ap (λ x. some (token bar x opens, n + length (chars w) + (if opens then 1 else 0)))
        (string-chars w)

  -- what follows a token without a parenthesis ends it
  abbrev pub fits : Bool → Text → Bool
  fits true s = true
  fits false s = ends s

  stops-mark :
      (opens : Bool) (s : Text)
      → fits opens s ≡ true
      → stops (in_word other) (mark opens ++ s) ≡ true
  unfolding in_word is_alnum
  stops-mark true s h = refl
  stops-mark false s h = ground arith

  opens-mark :
      (opens : Bool) (s : Text) → fits opens s ≡ true → opens_with (mark opens ++ s) ≡ opens
  opens-mark true s h = refl
  opens-mark false s h = ground arith

  word_at-some :
      (d : Delim) (n : ℕ) (w : String) (opens : Bool) (s : Text)
      → all (in_word other) (chars w) ≡ true
      → filled w opens ≡ true
      → fits opens s ≡ true
      → word_at other d n ((chars w ++ mark opens) ++ s)
        ≡ some (token d w opens, n + length (chars w) + (if opens then 1 else 0))
  word_at-some d n w opens s h f e =
      ap (word_at other d n) (append_assoc (chars w) (mark opens) s)
      ∙ word_at_lem d n w (mark opens ++ s) opens h (stops-mark opens s e) (opens-mark opens s e)
      ∙ made_lem d n w opens f

  length-body :
      (w : String) (opens : Bool)
      → length (chars w ++ mark opens) ≡ length (chars w) + (if opens then 1 else 0)
  length-body w true = length-append (chars w) (chars "(")
  length-body w false = length-append (chars w) []

  abbrev Reads : Delim → String → Bool → Text → Type 0
  Reads d w opens s =
      tokens other (delim_text d ++ (chars w ++ mark opens) ++ s) ≡ token d w opens ∷ tokens other s

  tokens-delim :
      (d : Delim) (c : Char) (w : String) (opens : Bool) (s : Text)
      → delim_text d ≡ c ∷ []
      → ((x : Text) → token_at other (c ∷ x) ≡ word_at other d 1 x)
      → all (in_word other) (chars w) ≡ true
      → filled w opens ≡ true
      → fits opens s ≡ true
      → Reads d w opens s
  unfolding tokens
  tokens-delim d c w opens s t g h f e =
      ap (λ x. find_all (token_at other) 0 (x ++ (chars w ++ mark opens) ++ s)) t
      ∙ find_all-found (token_at other) c (chars w ++ mark opens) s (token d w opens) _
          (g _ ∙ word_at-some d 1 w opens s h f e) (omega (arith, length-body w opens))

  head_apart :
      (c : Char) (s : Text)
      → in_word other c ≡ true
      → token_at other (c ∷ s) ≡ word_at other nothing 0 (c ∷ s)
  unfolding token_at
  head_apart c s h = let (e, k, _) = in_word-apart c h in rw (e, k) refl

  tokens-nothing :
      (w : String) (opens : Bool) (s : Text)
      → all (in_word other) (chars w) ≡ true
      → filled w opens ≡ true
      → fits opens s ≡ true
      → Reads nothing w opens s
  unfolding tokens token_at
  tokens-nothing String.[] true s h f e =
      find_all-found (token_at other) _ [] s (token nothing "" true) 1
        (word_at-some nothing 0 String.[] true s h f e) refl
  tokens-nothing String.[] false s h f e = cc
  tokens-nothing (String.◌∷◌ c w) opens s h f e =
      find_all-found (token_at other) c (chars w ++ mark opens) s
        (token nothing (String.◌∷◌ c w) opens) _
        (head_apart c ((chars w ++ mark opens) ++ s) (ground arith)
          ∙ word_at-some nothing 0 (String.◌∷◌ c w) opens s h f e)
        (omega (arith, length-body w opens))

  -- a token that is written is found, whatever text follows it
  pub tokens-token :
      (d : Delim) (w : String) (opens : Bool) (s : Text)
      → all (in_word other) (chars w) ≡ true
      → filled w opens ≡ true
      → fits opens s ≡ true
      → Reads d w opens s
  unfolding token_at
  tokens-token nothing w opens s h f e = tokens-nothing w opens s h f e
  tokens-token comma w opens s h f e = tokens-delim comma _ w opens s refl (λ x. refl) h f e
  tokens-token amp w opens s h f e = tokens-delim amp _ w opens s refl (λ x. refl) h f e
  tokens-token bar w opens s h f e = tokens-delim bar _ w opens s refl (λ x. refl) h f e

  pub tokens-closing : (s : Text) → tokens other (chars ")" ++ s) ≡ closing ∷ tokens other s
  unfolding tokens token_at
  tokens-closing s = find_all-found (token_at other) _ [] s closing 1 refl refl
