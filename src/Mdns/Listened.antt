-- ===== src/Mdns/Listened.antt =====
-- What a client is told of the services that a listener has records of, however its threads interleave
-- (nmoscommon/mdns/mdnsListener.py).
use nmos_common.Common.{
  ◌+◌, ◌≤◌, String, ◌≡◌, refl, ap, subst, Bool, true, false, Option, none, some, List, [], ◌∷◌,
  ◌++◌, arith, if◌then◌else◌, All,
}
use nmos_common.Common.Dict.{Dict, get, has}
use nmos_common.Mdns.Listener.{
  Found, Change, appears, vanishes, Notice, Thread, waiting, looking, checking, removing, storing,
  creating, telling, collecting, putting, Listener, new_listener, add_service, call_remove_service,
  call_garbage_collect, Advance, take, looked_up, check_name, update_record, respond_to_client,
  collected, put_names, popped, removed_from, advance, put_back, IsAnswer, Step, adds, removes,
  collects, runs, Reach, new, next,
}
use nmos_common.Mdns.Counted.{
  total, total-append, tells, is_due, told_or_due, there, IsNamed, AreNamed, Keeps, idle-Keeps,
  store-Keeps, forget-Keeps, pop-Keeps,
}

-- every access of a thread, its own lemma where it branches
module _ (s : Listener) (named : AreNamed s.records) where
  take-Keeps : (queue : List (String × String)) → Keeps s waiting (take queue s)
  take-Keeps [] = idle-Keeps s s.queue waiting _ named (tt, tt) (λ t n c. refl) (λ t n c. refl)
  take-Keeps ((t, n) ∷ queue) =
      idle-Keeps s queue waiting _ named (tt, tt) (λ t n c. refl) (λ t n c. refl)

  check_if-Keeps :
      (t n : String) (b : Bool) → Keeps s (checking t n) ((if b then removing t n ∷ [] else []), s)
  check_if-Keeps t n true =
      idle-Keeps s s.queue (checking t n) _ named (tt, tt) (λ t n c. refl) (λ t n c. refl)
  check_if-Keeps t n false =
      idle-Keeps s s.queue (checking t n) _ named tt (λ t n c. refl) (λ t n c. refl)

  check-Keeps :
      (t n : String) (o : Option (Dict Found)) → Keeps s (checking t n) (check_name t n o s)
  check-Keeps t n none =
      idle-Keeps s s.queue (checking t n) _ named tt (λ t n c. refl) (λ t n c. refl)
  check-Keeps t n (some d) = check_if-Keeps t n (has n d)

  look-Keeps :
      (t n : String) (info : Option Found)
      → IsAnswer (looking t n) info
      → Keeps s (looking t n) (looked_up t n info ∷ [], s)
  look-Keeps t n none answer =
      idle-Keeps s s.queue (looking t n) _ named (tt, tt) (λ t n c. refl) (λ t n c. refl)
  look-Keeps t n (some info) answer =
      idle-Keeps s s.queue (looking t n) _ named (answer, tt) (λ t n c. refl) (λ t n c. refl)

  update-Keeps :
      (t n : String) (info : Found) (o : Option (Dict Found))
      → get t s.records ≡ o
      → (info.type ≡ t) × (info.name ≡ n)
      → Keeps s (storing t n info) (update_record t n info o s)
  update-Keeps t n info none here right =
      idle-Keeps s s.queue (storing t n info) _ named (right, tt) (λ t n c. refl) (λ t n c. refl)
  update-Keeps t n info (some d) here right = store-Keeps t n s named info d here right

  remove_name-Keeps :
      (register_only : Bool) (t n : String) (d : Dict Found) (o : Option Found)
      → get t s.records ≡ some d
      → get n d ≡ o
      → Keeps s (removing t n) (popped register_only t n d o s)
  remove_name-Keeps register_only t n d none here found =
      idle-Keeps s s.queue (removing t n) _ named tt (λ t n c. refl) (λ t n c. refl)
  remove_name-Keeps register_only t n d (some info) here found =
      pop-Keeps t n s named info d here found register_only

  remove-Keeps :
      (register_only : Bool) (t n : String) (o : Option (Dict Found))
      → get t s.records ≡ o
      → Keeps s (removing t n) (removed_from register_only t n o s)
  remove-Keeps register_only t n none here =
      idle-Keeps s s.queue (removing t n) _ named tt (λ t n c. refl) (λ t n c. refl)
  remove-Keeps register_only t n (some d) here =
      remove_name-Keeps register_only t n d (get n d) here refl

  tell-Keeps : (notice : Notice) → Keeps s (telling notice) (respond_to_client notice s)
  tell-Keeps notice = record {
    records = named;
    threads = tt;
    balance = λ t n. omega (
      arith,
      total-append (tells t n vanishes) s.heard (notice ∷ []),
      total-append (tells t n appears) s.heard (notice ∷ []),
    );
  }

  collect-Keeps : (t : String) (o : Option (Dict Found)) → Keeps s (collecting t) (collected t o s)
  collect-Keeps t none =
      idle-Keeps s s.queue (collecting t) _ named tt (λ t n c. refl) (λ t n c. refl)
  collect-Keeps t (some d) =
      idle-Keeps s s.queue (collecting t) _ named (tt, tt) (λ t n c. refl) (λ t n c. refl)

  put-Keeps : (t : String) (names : List String) → Keeps s (putting t names) (put_names t names s)
  put-Keeps t [] = idle-Keeps s s.queue (putting t []) _ named tt (λ t n c. refl) (λ t n c. refl)
  put-Keeps t (name ∷ names) =
      idle-Keeps s _ (putting t (name ∷ names)) _ named (tt, (tt, tt)) (λ t n c. refl)
        (λ t n c. refl)

  advance-Keeps :
      (register_only : Bool) (thread : Thread) (info : Option Found)
      → IsNamed thread
      → IsAnswer thread info
      → Keeps s thread (advance register_only thread info s)
  unfolding advance
  advance-Keeps register_only waiting info right answer = take-Keeps s.queue
  advance-Keeps register_only (looking t n) info right answer = look-Keeps t n info answer
  advance-Keeps register_only (checking t n) info right answer = check-Keeps t n (get t s.records)
  advance-Keeps register_only (removing t n) info right answer =
      remove-Keeps register_only t n (get t s.records) refl
  advance-Keeps register_only (storing t n found) info right answer =
      update-Keeps t n found (get t s.records) refl right
  advance-Keeps register_only (creating t n found) info right answer =
      forget-Keeps t n s named found right
  advance-Keeps register_only (telling notice) info right answer = tell-Keeps notice
  advance-Keeps register_only (collecting t) info right answer = collect-Keeps t (get t s.records)
  advance-Keeps register_only (putting t names) info right answer = put-Keeps t names

record IsBalanced (s : Listener) : Type 0 where
  records : AreNamed s.records
  threads : All IsNamed s.threads
  balance :
      (t n : String) → told_or_due t n vanishes s + there t n s.records ≤ told_or_due t n appears s

All-join : (xs ys : List Thread) → All IsNamed xs → All IsNamed ys → All IsNamed (xs ++ ys)
All-join [] ys p q = q
All-join (x ∷ xs) ys (p, ps) q = (p, All-join xs ys ps q)

All-before : (xs ys : List Thread) → All IsNamed (xs ++ ys) → All IsNamed xs
All-before [] ys p = tt
All-before (x ∷ xs) ys (p, ps) = (p, All-before xs ys ps)

All-behind : (xs ys : List Thread) → All IsNamed (xs ++ ys) → All IsNamed ys
All-behind [] ys p = p
All-behind (x ∷ xs) ys (p, ps) = All-behind xs ys ps

put_back-IsBalanced :
    (s : Listener) (before behind : List Thread) (thread : Thread) (a : Advance)
    → s.threads ≡ before ++ thread ∷ behind
    → Keeps s thread a
    → IsBalanced s
    → IsBalanced (put_back before behind a)
put_back-IsBalanced s before behind thread a split keeps it =
    let all = subst (λ l. All IsNamed l) split it.threads in
    let others = All-behind before (thread ∷ behind) all in
    record {
      records = keeps.records;
      threads =
          All-join before (a.0 ++ behind) (All-before before (thread ∷ behind) all)
            (All-join a.0 behind keeps.threads others.1);
      balance = λ t n. omega (
        arith,
        it.balance t n,
        keeps.balance t n,
        ap (total (is_due t n appears)) split,
        ap (total (is_due t n vanishes)) split,
        total-append (is_due t n appears) before (thread ∷ behind),
        total-append (is_due t n vanishes) before (thread ∷ behind),
        total-append (is_due t n appears) before (a.0 ++ behind),
        total-append (is_due t n vanishes) before (a.0 ++ behind),
        total-append (is_due t n appears) a.0 behind,
        total-append (is_due t n vanishes) a.0 behind,
      );
    }

-- a call that starts a thread
start-IsBalanced :
    (s : Listener) (queue : List (String × String)) (thread : Thread)
    → IsNamed thread
    → ((t n : String) (c : Change) → is_due t n c thread ≡ 0)
    → IsBalanced s
    → IsBalanced (record s { queue = queue; threads = thread ∷ s.threads })
start-IsBalanced s queue thread right quiet it = record {
  records = it.records;
  threads = (right, it.threads);
  balance = λ t n. omega (arith, it.balance t n, quiet t n appears, quiet t n vanishes);
}

Step-IsBalanced :
    (register_only : Bool) (s u : Listener) → Step register_only s u → IsBalanced s → IsBalanced u
unfolding add_service call_remove_service call_garbage_collect
Step-IsBalanced register_only s _ (adds t n) it = start-IsBalanced s _ waiting tt (λ t n c. refl) it
Step-IsBalanced register_only s _ (removes t n) it =
    start-IsBalanced s s.queue (removing t n) tt (λ t n c. refl) it
Step-IsBalanced register_only s _ (collects t) it =
    start-IsBalanced s s.queue (collecting t) tt (λ t n c. refl) it
Step-IsBalanced register_only s _ (runs before thread behind info split answer) it =
    let all = subst (λ l. All IsNamed l) split it.threads in
    put_back-IsBalanced s before behind thread _ split
      (advance-Keeps s it.records register_only thread info
        (All-behind before (thread ∷ behind) all).0 answer)
      it

Reach-IsBalanced : (register_only : Bool) (s : Listener) → Reach register_only s → IsBalanced s
unfolding new_listener get
Reach-IsBalanced register_only _ new = record {
  records = λ t n f e. cc;
  threads = tt;
  balance = λ t n. omega arith;
}
Reach-IsBalanced register_only u (next {s = s} r step) =
    Step-IsBalanced register_only s u step (Reach-IsBalanced register_only s r)

-- Whatever zeroconf calls and finds, and however the threads interleave between their accesses to the
-- queue, the records and the client: a client has been told, or is about to be told by a thread, of at
-- least as many additions of a service as removals of it, and of one more while there is a record of
-- it.
pub Reach-told_or_due :
    (register_only : Bool) (s : Listener) (t n : String)
    → Reach register_only s
    → told_or_due t n vanishes s + there t n s.records ≤ told_or_due t n appears s
Reach-told_or_due register_only s t n r = (Reach-IsBalanced register_only s r).balance t n
