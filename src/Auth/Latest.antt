-- ===== src/Auth/Latest.antt =====
-- The key that is chosen among several is a latest one (nmoscommon/auth/nmos_auth.py,
-- `findMostRecentJWK`).
use nmos_common.Common.{◌≡◌, refl, ap, ◌∙◌, true, false, arith, inl, inr, Bool-cases, if◌then◌else◌}
use nmos_common.Common.Json.{Json, Items, nil, item}
use nmos_common.Auth.Exn.{ok}
use nmos_common.Auth.Newest.{
  Stamp, plus, minus, is_later, kid_stamp, newer, reduce_newer, find_most_recent,
}

-- a key of the list
pub data Among (key : Json) : Items → Type 0 where
  here : {rest : Items} → Among key (item key rest)
  there : {other : Json} {rest : Items} → Among key rest → Among key (item other rest)

-- every key has a timestamp
abbrev pub AllStamped : Items → Type 0
AllStamped nil = Unit
AllStamped (item key rest) = ((s : Stamp) × (kid_stamp key ≡ ok s)) × AllStamped rest

is_later_irrefl : (s : Stamp) → is_later s s ≡ false
unfolding is_later
is_later_irrefl (plus a) = ground arith
is_later_irrefl (minus a) = ground arith

is_later_asym : (s t : Stamp) → is_later s t ≡ true → is_later t s ≡ false
unfolding is_later
is_later_asym (plus a) (plus b) h = ground arith
is_later_asym (plus a) (minus b) h = refl
is_later_asym (minus a) (plus b) h = ground arith
is_later_asym (minus a) (minus b) h = ground arith

is_later_trans :
    (s t u : Stamp) → is_later s t ≡ false → is_later t u ≡ false → is_later s u ≡ false
unfolding is_later
is_later_trans (plus a) (plus b) (plus c) h k = ground arith
is_later_trans (plus a) (plus b) (minus c) h k = ground arith
is_later_trans (plus a) (minus b) (plus c) h k = ground arith
is_later_trans (plus a) (minus b) (minus c) h k = ground arith
is_later_trans (minus a) (plus b) (plus c) h k = refl
is_later_trans (minus a) (plus b) (minus c) h k = ground arith
is_later_trans (minus a) (minus b) (plus c) h k = refl
is_later_trans (minus a) (minus b) (minus c) h k = ground arith

-- no key of the list is later
abbrev pub NoneLater : Stamp → Items → Type 0
NoneLater s items =
    (key : Json) → Among key items → (t : Stamp) → kid_stamp key ≡ ok t → is_later t s ≡ false

-- a latest key of the list
pub record Latest (items : Items) : Type 0 where
  pub key : Json
  pub stamp : Stamp
  pub found : find_most_recent items ≡ ok key
  pub among : Among key items
  pub stamped : kid_stamp key ≡ ok stamp
  pub none_later : NoneLater stamp items

record Chosen (a : Json) (s : Stamp) (rest : Items) : Type 0 where
  key : Json
  stamp : Stamp
  found : reduce_newer a rest ≡ ok key
  among : Among key (item a rest)
  stamped : kid_stamp key ≡ ok stamp
  not_before : is_later s stamp ≡ false
  none_later : NoneLater stamp rest

NoneLater-item :
    (u t : Stamp) (b : Json) (rest : Items)
    → kid_stamp b ≡ ok t
    → is_later t u ≡ false
    → NoneLater u rest
    → NoneLater u (item b rest)
NoneLater-item u t b rest h l n key here v e = ground (arith)
NoneLater-item u t b rest h l n key (there x) v e = n key x v e

newer_lem :
    (a b : Json) (s t : Stamp)
    → kid_stamp a ≡ ok s
    → kid_stamp b ≡ ok t
    → newer a b ≡ ok (if is_later s t then a else b)
unfolding newer
newer_lem a b s t h k = rw (h, k) refl

reduce_step :
    (a b c : Json) (rest : Items)
    → newer a b ≡ ok c
    → reduce_newer a (item b rest) ≡ reduce_newer c rest
unfolding reduce_newer
reduce_step a b c rest h = rw h refl

Among-skip :
    (key a b : Json) (rest : Items) → Among key (item a rest) → Among key (item a (item b rest))
Among-skip key a b rest here = here
Among-skip key a b rest (there x) = there (there x)

choose_newer :
    (a : Json) (s : Stamp) (rest : Items) → kid_stamp a ≡ ok s → AllStamped rest → Chosen a s rest
choose_newer a s nil h good =
    unfold reduce_newer in
    record {
      key = a;
      stamp = s;
      found = refl;
      among = here;
      stamped = h;
      not_before = is_later_irrefl s;
      none_later = λ key x. elim x [ ];
    }
choose_newer a s (item b rest) h ((t, k), good) = elim (Bool-cases (is_later s t)) [
  | inl l ↦
      let c = choose_newer a s rest h good in
      record {
        key = c.key;
        stamp = c.stamp;
        found =
            reduce_step a b a rest (newer_lem a b s t h k ∙ ap (λ x. ok (if x then a else b)) l)
            ∙ c.found;
        among = Among-skip c.key a b rest c.among;
        stamped = c.stamped;
        not_before = c.not_before;
        none_later =
            NoneLater-item c.stamp t b rest k
              (is_later_trans t s c.stamp (is_later_asym s t l) c.not_before) c.none_later;
      }
  | inr l ↦
      let c = choose_newer b t rest k good in
      record {
        key = c.key;
        stamp = c.stamp;
        found =
            reduce_step a b b rest (newer_lem a b s t h k ∙ ap (λ x. ok (if x then a else b)) l)
            ∙ c.found;
        among = there c.among;
        stamped = c.stamped;
        not_before = is_later_trans s t c.stamp l c.not_before;
        none_later = NoneLater-item c.stamp t b rest k c.not_before c.none_later;
      }
]

-- Of one or more keys that all have a timestamp `findMostRecentJWK` returns one of them, and none
-- of them has a later timestamp.
pub find_most_recent-Latest :
    (key : Json) (rest : Items) → AllStamped (item key rest) → Latest (item key rest)
find_most_recent-Latest key rest ((s, h), good) =
    unfold find_most_recent in
    let c = choose_newer key s rest h good in
    record {
      key = c.key;
      stamp = c.stamp;
      found = c.found;
      among = c.among;
      stamped = c.stamped;
      none_later = NoneLater-item c.stamp s key rest h c.not_before c.none_later;
    }
