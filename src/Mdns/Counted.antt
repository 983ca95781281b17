-- ===== src/Mdns/Counted.antt =====
-- How often a client is told of a service, and what one access of a thread does to that
-- (nmoscommon/mdns/mdnsListener.py).
use nmos_common.Common.{
  ℕ, ◌+◌, ◌≤◌, String, ◌≡◌, refl, sym, ap, ◌∙◌, subst, Bool, true, false, ◌&&◌, Option, none, some,
  List, [], ◌∷◌, ◌++◌, ◌==◌, eq_iff, arith, is_some, if◌then◌else◌, All,
}
use nmos_common.Common.Dict.{
  or_empty, get_in, get_in-put, Dict, get, put, remove, get-put, get-remove,
}
use nmos_common.Mdns.Listener.{
  Found, Change, appears, vanishes, Notice, Thread, removing, storing, creating, telling, Listener,
  Records, Advance, update_record, create_type, popped,
}

abbrev pub one_if : Bool → ℕ
one_if true = 1
one_if false = 0

abbrev pub is_change : Change → Change → Bool
is_change appears appears = true
is_change vanishes vanishes = true
is_change _ _ = false

abbrev pub total : {A : Type 0} → (A → ℕ) → List A → ℕ
total w [] = 0
total w (x ∷ xs) = w x + total w xs

pub total-append :
    {A : Type 0} (w : A → ℕ) (xs ys : List A) → total w (xs ++ ys) ≡ total w xs + total w ys
total-append w [] ys = omega arith
total-append w (x ∷ xs) ys = omega (arith, total-append w xs ys)

module _ (t n : String) where
  -- whether a notice is one of this kind, of the service of this type and name
  abbrev pub tells : Change → Notice → ℕ
  tells c h = one_if (is_change c h.change && (h.found.type == t && h.found.name == n))

  -- a thread that is about to tell it
  abbrev pub is_due : Change → Thread → ℕ
  is_due c (telling h) = tells c h
  is_due c _ = 0

  -- how often a client was told of the service, or is going to be told by a thread that runs
  abbrev pub told_or_due : Change → Listener → ℕ
  told_or_due c s = total (tells c) s.heard + total (is_due c) s.threads

  abbrev pub there : Records → ℕ
  there rs = one_if (is_some (get_in t n rs))

abbrev pub IsNamed : Thread → Type 0
IsNamed (storing t n f) = (f.type ≡ t) × (f.name ≡ n)
IsNamed (creating t n f) = (f.type ≡ t) × (f.name ≡ n)
IsNamed _ = Unit

abbrev pub AreNamed : Records → Type 0
AreNamed rs = (t n : String) (f : Found) → get_in t n rs ≡ some f → (f.type ≡ t) × (f.name ≡ n)

-- one access of a thread keeps the names and does not raise the removals above the additions
pub record Keeps (s : Listener) (thread : Thread) (a : Advance) : Type 0 where
  pub records : AreNamed a.1.records
  pub threads : All IsNamed a.0
  pub balance :
      (t n : String)
      → ((total (tells t n vanishes) a.1.heard + total (is_due t n vanishes) a.0)
            + there t n a.1.records)
          + (total (tells t n appears) s.heard + is_due t n appears thread)
        ≤ ((total (tells t n appears) a.1.heard + total (is_due t n appears) a.0)
            + there t n s.records)
          + (total (tells t n vanishes) s.heard + is_due t n vanishes thread)

-- an access that changes neither the records nor what was told
pub idle-Keeps :
    (s : Listener) (queue : List (String × String)) (thread : Thread) (threads : List Thread)
    → AreNamed s.records
    → All IsNamed threads
    → ((t n : String) (c : Change) → is_due t n c thread ≡ 0)
    → ((t n : String) (c : Change) → total (is_due t n c) threads ≡ 0)
    → Keeps s thread (threads, record s { queue = queue })
idle-Keeps s queue thread threads named all quiet silent = record {
  records = named;
  threads = all;
  balance = λ t n.
      omega (arith, quiet t n appears, quiet t n vanishes, silent t n appears, silent t n vanishes);
}

if_stored :
    (c : Bool) (f : Found) (y : Option Found)
    → one_if (is_some (if c then some f else y)) ≤ one_if c + one_if (is_some y)
if_stored true f y = omega arith
if_stored false f y = omega arith

if_popped :
    (c : Bool) (y : Option Found)
    → (c ≡ true → is_some y ≡ true)
    → one_if (is_some (if c then none else y)) + one_if c ≤ one_if (is_some y)
if_popped true y h = omega (arith, ap one_if (h refl))
if_popped false y h = omega arith

if_forgotten :
    (c : Bool) (b : String) (o : Option (Dict Found))
    → one_if (is_some (get b (or_empty (if c then some [] else o))))
      ≤ one_if (is_some (get b (or_empty o)))
unfolding get
if_forgotten true b o = omega arith
if_forgotten false b o = omega arith

none_forgotten :
    (c : Bool) (b : String) (o : Option (Dict Found)) (f : Found)
    → get b (or_empty (if c then some [] else o)) ≡ some f
    → get b (or_empty o) ≡ some f
unfolding get
none_forgotten true b o f e = cc
none_forgotten false b o f e = e

both_true : (x y : Bool) → (x && y) ≡ true → (x ≡ true) × (y ≡ true)
both_true true y h = (refl, h)
both_true false y h = cc

some_there : (o : Option Found) (f : Found) → o ≡ some f → is_some o ≡ true
some_there o f h = ap (λ x. is_some x) h

-- the record of one service is written or taken out, or all those of a type are forgotten
module _ (t n : String) (s : Listener) (named : AreNamed s.records) where
  tested :
      (info : Found)
      → (info.type ≡ t) × (info.name ≡ n)
      → (a b : String) (c c' : Change)
      → one_if (is_change c c' && (info.type == a && info.name == b))
        ≡ one_if (is_change c c' && (t == a && n == b))
  tested info right a b c c' =
      ap (λ x. one_if (is_change c c' && (x == a && info.name == b))) right.0
      ∙ ap (λ x. one_if (is_change c c' && (t == a && x == b))) right.1

  pub store-Keeps :
      (info : Found) (d : Dict Found)
      → get t s.records ≡ some d
      → (info.type ≡ t) × (info.name ≡ n)
      → Keeps s (storing t n info) (update_record t n info (some d) s)
  store-Keeps info d here right =
      let at : (a b : String)
          → get_in a b (put t (put n info d) s.records)
            ≡ (if t == a && n == b then some info else get_in a b s.records) =
        get_in-put t n (some info) (put n info d) s.records (λ b.
          get-put n b info d
          ∙ ap (λ x. if n == b then some info else get b (or_empty x)) (sym here)) in
      record {
        records = λ a b f e.
            let e' = sym (at a b) ∙ e in
            ground (arith, eq_iff t a, eq_iff n b, named a b f, right, e');
        threads = (tt, tt);
        balance = λ a b.
            let bound : there a b (put t (put n info d) s.records)
                ≤ one_if (t == a && n == b) + there a b s.records =
              subst (λ z. one_if (is_some z) ≤ one_if (t == a && n == b) + there a b s.records)
                (sym (at a b)) (if_stored (t == a && n == b) info (get_in a b s.records)) in
            omega (arith, bound, tested info right a b appears appears);
      }

  pub forget-Keeps :
      (info : Found)
      → (info.type ≡ t) × (info.name ≡ n)
      → Keeps s (creating t n info) (create_type t n info s)
  forget-Keeps info right = record {
    records = λ a b f e. named a b f (
        none_forgotten (t == a) b (get a s.records) f
          (ap (λ o. get b (or_empty o)) (sym (get-put t a [] s.records)) ∙ e));
    threads = (right, tt);
    balance = λ a b.
        let bound : there a b (put t [] s.records) ≤ there a b s.records =
          subst (λ o. one_if (is_some (get b (or_empty o))) ≤ there a b s.records)
            (sym (get-put t a [] s.records)) (if_forgotten (t == a) b (get a s.records)) in
        omega (arith, bound);
  }

  module _ (info : Found) (d : Dict Found) (here : get t s.records ≡ some d)
      (found : get n d ≡ some info) where
    popped_at :
        (a b : String)
        → get_in a b (put t (remove n d) s.records)
          ≡ (if t == a && n == b then none else get_in a b s.records)
    popped_at =
        get_in-put t n none (remove n d) s.records
          (λ b. get-remove n b d ∙ ap (λ x. if n == b then none else get b (or_empty x)) (sym here))

    was_there : get_in t n s.records ≡ some info
    was_there = ap (λ x. get n (or_empty x)) here ∙ found

    was_there_at :
        (a b : String) → (t == a && n == b) ≡ true → is_some (get_in a b s.records) ≡ true
    was_there_at a b c =
        let (same_type, same_name) = both_true (t == a) (n == b) c in
        some_there (get_in a b s.records) info (
          subst (λ x. get_in x b s.records ≡ some info) ((eq_iff t a).0 same_type)
            (subst (λ y. get_in t y s.records ≡ some info) ((eq_iff n b).0 same_name) was_there))

    popped_bound :
        (a b : String)
        → there a b (put t (remove n d) s.records) + one_if (t == a && n == b) ≤ there a b s.records
    popped_bound a b =
        subst (λ z. one_if (is_some z) + one_if (t == a && n == b) ≤ there a b s.records)
          (sym (popped_at a b))
          (if_popped (t == a && n == b) (get_in a b s.records) (was_there_at a b))

    popped_named : AreNamed (put t (remove n d) s.records)
    popped_named a b f e =
        let e' = sym (popped_at a b) ∙ e in ground (arith, eq_iff t a, eq_iff n b, named a b f, e')

    pub pop-Keeps :
        (register_only : Bool) → Keeps s (removing t n) (popped register_only t n d (some info) s)
    pop-Keeps true = record {
      records = popped_named;
      threads = tt;
      balance = λ a b. omega (arith, popped_bound a b);
    }
    pop-Keeps false = record {
      records = popped_named;
      threads = (tt, tt);
      balance = λ a b.
          omega
            (arith, popped_bound a b, tested info (named t n info was_there) a b vanishes vanishes);
    }
