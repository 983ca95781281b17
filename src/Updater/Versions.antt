-- ===== src/Updater/Versions.antt =====
-- The service version counters (nmoscommon/aggregator.py, `_increment_service_version`).
use nmos_common.Common.{
  ℕ, subst, ◌+◌, ◌%◌, ◌≤◌, String, ◌≡◌, inl, inr, Bool-cases, Option-cases, Bool, true, Option,
  none, some, List, [], ◌∷◌, arith, ◌==◌, eq_iff,
}
use nmos_common.Common.Dict.{Dict, get, put, has, get-put}
use nmos_common.Updater.{
  Updater, Txt, zero_versions, init, bump, increment_service_version, update_mdns, enqueue,
  is_action, p2p_txt_recs, inc_p2p_enable_count, enable_p2p, disable_p2p,
}

-- Every mapped name has a counter, and every counter is at most 255.
pub record IsValid (u : Updater) : Type 0 where
  pub counted : (t m : String) → get t u.mappings ≡ some m → has m u.service_versions ≡ true
  pub bounded : (m : String) (v : ℕ) → get m u.service_versions ≡ some v → v ≤ 255

pub bump_lem : (v : ℕ) → v ≤ 255 → bump v ≡ (v + 1) % 256
unfolding bump
bump_lem v h = ground arith

bump-le : (v : ℕ) → bump v ≤ 255
unfolding bump
bump-le v = ground arith

-- what the loop of `__init__` leaves
zero_versions-has :
    (m : String) (ms : Dict String) (vs : Dict ℕ)
    → has m vs ≡ true
    → has m (zero_versions ms vs) ≡ true
unfolding zero_versions
zero_versions-has m [] vs h = h
zero_versions-has m ((t, k) ∷ ms) vs h =
    zero_versions-has m ms (put k 0 vs) (ground (arith, get-put k m 0 vs))

zero_versions-counted :
    (t m : String) (ms : Dict String) (vs : Dict ℕ)
    → get t ms ≡ some m
    → has m (zero_versions ms vs) ≡ true
unfolding zero_versions get
zero_versions-counted t m [] vs e = ground arith
zero_versions-counted t m ((j, k) ∷ ms) vs e = elim (Bool-cases (j == t)) [
  | inl hit ↦ zero_versions-has m ms (put k 0 vs) (ground (arith, get-put k m 0 vs, eq_iff k m))
  | inr miss ↦ zero_versions-counted t m ms (put k 0 vs) (rw miss at e)
]

zero_versions-bounded :
    (m : String) (v : ℕ) (ms : Dict String) (vs : Dict ℕ)
    → ((k : String) (w : ℕ) → get k vs ≡ some w → w ≤ 255)
    → get m (zero_versions ms vs) ≡ some v
    → v ≤ 255
unfolding zero_versions
zero_versions-bounded m v [] vs h e = h m v e
zero_versions-bounded m v ((t, k) ∷ ms) vs h e =
    zero_versions-bounded m v ms (put k 0 vs) (λ j w p. ground (arith, get-put k j 0 vs, h j w)) e

pub init-IsValid :
    (ms : Dict String) (on : Bool) (n : ℕ) (txt_recs : Dict Txt) → IsValid (init ms on n txt_recs)
unfolding init
init-IsValid ms on n txt_recs = record {
  counted = λ t m e. zero_versions-counted t m ms [] e;
  bounded = λ m v e. zero_versions-bounded m v ms [] (λ k w p. unfold get in ground arith) e;
}

-- In a valid updater the counter of a mapped type is found.
counter_of :
    (u : Updater)
    → IsValid u
    → (t m : String) → get t u.mappings ≡ some m
    → (v : ℕ) × (get m u.service_versions ≡ some v) × (v ≤ 255)
counter_of u ok t m e = elim (Option-cases (get m u.service_versions)) [
  | inl absent ↦ absurd (ground (arith, ok.counted t m e))
  | inr (v, found) ↦ (v, found, ok.bounded m v found)
]

increment_lem :
    (u : Updater) (t m : String) (v : ℕ)
    → get t u.mappings ≡ some m
    → get m u.service_versions ≡ some v
    → increment_service_version t u
      ≡ some (record u { service_versions = put m (bump v) u.service_versions })
unfolding increment_service_version
increment_lem u t m v e f = ground arith

put-IsValid :
    (u : Updater) (m : String) (v : ℕ)
    → v ≤ 255
    → IsValid u
    → IsValid (record u { service_versions = put m v u.service_versions })
put-IsValid u m v h ok = record {
  counted = λ t k e. ground (arith, get-put m k v u.service_versions, ok.counted t k e);
  bounded = λ k w e. ground (arith, get-put m k v u.service_versions, ok.bounded k w);
}

announce_lem :
    (u u' : Updater) (t action : String)
    → u.p2p_enable ≡ true
    → is_action action ≡ true
    → increment_service_version t u ≡ some u'
    → update_mdns t action u ≡ some (enqueue (p2p_txt_recs u') u')
unfolding update_mdns
announce_lem u u' t action on act e = ground arith

-- In a valid updater that is on, an announced change of a mapped type is accepted: the type's
-- counter moves on by one, from 255 back to 0, the new versions are queued for mDNS, and nothing
-- else of the state changes.
pub update_mdns_lem :
    (u : Updater) (t m action : String)
    → IsValid u
    → u.p2p_enable ≡ true
    → is_action action ≡ true
    → get t u.mappings ≡ some m
    → (v : ℕ) × (get m u.service_versions ≡ some v)
      × (let u' = record u { service_versions = put m ((v + 1) % 256) u.service_versions } in
          update_mdns t action u ≡ some (enqueue (p2p_txt_recs u') u'))
update_mdns_lem u t m action ok on act e =
    let (v, found, small) = counter_of u ok t m e in
    (
      v,
      found,
      rw (← bump_lem v small) (announce_lem u _ t action on act (increment_lem u t m v e found)),
    )

-- the calls that other threads make
pub data Call : Type 0 where
  inc enable disable : Call
  update : (type action : String) → Call

-- a KeyError leaves the updater as it was
abbrev kept : Option Updater → Updater → Updater
kept none u = u
kept (some u') u = u'

unfoldable pub step : Call → Updater → Updater
step inc u = inc_p2p_enable_count u
step enable u = enable_p2p u
step disable u = disable_p2p u
step (update type action) u = kept (update_mdns type action u) u

unfoldable pub run : List Call → Updater → Updater
run [] u = u
run (c ∷ cs) u = run cs (step c u)

increment-IsValid :
    (u u' : Updater) (t : String) → IsValid u → increment_service_version t u ≡ some u' → IsValid u'
increment-IsValid u u' t ok done = elim (Option-cases (get t u.mappings)) [
  | inl unmapped ↦ unfold increment_service_version in absurd (ground arith)
  | inr (m, e) ↦
      let (v, found, small) = counter_of u ok t m e in
      let same : record u { service_versions = put m (bump v) u.service_versions } ≡ u' =
        cc (increment_lem u t m v e found, done) in
      subst IsValid same (put-IsValid u m (bump v) (bump-le v) ok)
]

-- validity reads two fields only
same-IsValid :
    (u u' : Updater)
    → u'.mappings ≡ u.mappings
    → u'.service_versions ≡ u.service_versions
    → IsValid u
    → IsValid u'
same-IsValid u u' p q ok = record {
  counted = λ t m. rw (p, q) (ok.counted t m);
  bounded = λ m v. rw q (ok.bounded m v);
}

update-IsValid : (u : Updater) (t a : String) → IsValid u → IsValid (kept (update_mdns t a u) u)
unfolding update_mdns
update-IsValid u t a ok = elim (Bool-cases u.p2p_enable) [
  | inl on ↦ elim (Option-cases (increment_service_version t u)) [
    | inl fault ↦ same-IsValid u _ (ground arith) (ground arith) ok
    | inr (u', done) ↦ elim (Bool-cases (is_action a)) [
      | inl act ↦ same-IsValid u' _ (ground arith) (ground arith) (increment-IsValid u u' t ok done)
      | inr other ↦ same-IsValid u _ (ground arith) (ground arith) ok
    ]
  ]
  | inr off ↦ same-IsValid u _ (ground arith) (ground arith) ok
]

step-IsValid : (c : Call) (u : Updater) → IsValid u → IsValid (step c u)
unfolding step inc_p2p_enable_count enable_p2p disable_p2p
step-IsValid inc u ok = same-IsValid u _ (ground arith) (ground arith) ok
step-IsValid enable u ok = same-IsValid u _ (ground arith) (ground arith) ok
step-IsValid disable u ok = same-IsValid u _ (ground arith) (ground arith) ok
step-IsValid (update t a) u ok = update-IsValid u t a ok

run-IsValid : (cs : List Call) (u : Updater) → IsValid u → IsValid (run cs u)
unfolding run
run-IsValid [] u ok = ok
run-IsValid (c ∷ cs) u ok = run-IsValid cs (step c u) (step-IsValid c u ok)

-- Whatever calls are made on a new updater, each mapped name keeps a counter and no counter passes
-- 255.
pub run-init-IsValid :
    (ms : Dict String) (on : Bool) (n : ℕ) (txt_recs : Dict Txt) (cs : List Call)
    → IsValid (run cs (init ms on n txt_recs))
run-init-IsValid ms on n txt_recs cs = run-IsValid cs _ (init-IsValid ms on n txt_recs)
