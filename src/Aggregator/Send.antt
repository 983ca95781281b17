-- ===== src/Aggregator/Send.antt =====
-- What a call of `_SEND` sends, returns and changes (nmoscommon/aggregator.py).
use nmos_common.Common.{
  ℕ, zero, suc, ◌≤◌, ◌<◌, String, ◌≡◌, refl, sym, ap, subst, ◌∙◌, true, false, Option, none, some,
  List, [], ◌∷◌, ◌++◌, append_assoc, append-nil, arith, length, All, ◌==◌, inl, inr, if_both,
  Bool-cases,
}
use nmos_common.Common.Exec.{Result, ok, err}
use nmos_common.Updater.{Updater, inc_p2p_enable_count}
use nmos_common.Aggregator.{
  Aggregator, World, Resource, Request, Body, Exn, Verdict, returned, refused, unusable,
  no_aggregator, too_many_retries, key_error, type_error, invalid_request, judge, find_aggregator,
  raise_counted, try_send, send, api_path,
}

-- What a result of `_SEND` says of the `n` requests that it made and of all that were made by then:
-- a return value and a refusal are the verdict on the last reply, and it gives up after `tries`
-- requests or for want of an address.
abbrev pub Explains : {H : Type 0} → World H → ℕ → ℕ → List Request → Result Exn Body → Type 0
Explains w tries n sent (ok b) = (0 < n) × (judge w.python3 (w.net sent) ≡ returned b)
Explains w tries n sent (err (invalid_request status)) =
    (0 < n) × (judge w.python3 (w.net sent) ≡ refused status)
Explains w tries n sent (err too_many_retries) = n ≡ tries
Explains w tries n sent (err no_aggregator) = n < tries
Explains w tries n sent (err _) = ⊥

-- only a raise counts towards peer-to-peer mode, and once
abbrev pub count_raise : Result Exn Body → Option Updater → Option Updater
count_raise (ok _) u = u
count_raise (err _) u = elim u [ none ↦ none | some v ↦ some (inc_p2p_enable_count v) ]

-- an attempt at a request goes to some address, and is the request that was asked for
abbrev pub IsAttempt : String → String → Option Resource → Request → Type 0
IsAttempt method path body r =
    (r.method ≡ method) × (r.path ≡ path) × (r.body ≡ body) × ((r.base == "") ≡ false)

-- what a call may leave behind: `rs` are the requests it made
pub record Sends {H : Type 0} (w : World H) (tries : ℕ) (method path : String)
    (body : Option Resource) (s : Aggregator H) (out : Result Exn Body × Aggregator H)
    : Type 0 where
  pub rs : List Request
  pub made : out.1.sent ≡ s.sent ++ rs
  pub few : length rs ≤ tries
  pub attempts : All (IsAttempt method path body) rs
  pub explained : Explains w tries (length rs) out.1.sent out.0
  pub counts : out.1.updater ≡ count_raise out.0 s.updater
  pub node : out.1.node ≡ s.node
  pub registered : out.1.registered ≡ s.registered
  pub entities : out.1.entities ≡ s.entities
  pub running : out.1.running ≡ s.running
  pub queue : out.1.queue ≡ s.queue

module _ {H : Type 0} (w : World H) (method path : String) (body : Option Resource) where
  attempt : Aggregator H → Request
  attempt s = record { method = method; base = s.aggregator; path = path; body = body }

  sending : Aggregator H → Aggregator H
  unfolding attempt
  sending s = record s { sent = s.sent ++ attempt s ∷ [] }

  Sends-zero : (s : Aggregator H) → Sends w 0 method path body s (try_send w 0 method path body s)
  unfolding try_send
  Sends-zero s = record {
    rs = [];
    made = sym (append-nil s.sent);
    few = omega arith;
    attempts = tt;
    explained = refl;
    counts = refl;
    node = refl;
    registered = refl;
    entities = refl;
    running = refl;
    queue = refl;
  }

  -- the one request of a try that ends the loop, with what is returned or raised after it
  Sends-last :
      (n : ℕ) (s : Aggregator H) (r : Result Exn Body) (u : Option Updater)
      → (s.aggregator == "") ≡ false
      → Explains w (suc n) 1 (sending s).sent r
      → u ≡ count_raise r s.updater
      → Sends w (suc n) method path body s (r, record (sending s) { updater = u })
  unfolding sending attempt
  Sends-last n s r u addr ex c = record {
    rs = attempt s ∷ [];
    made = refl;
    few = omega arith;
    attempts = ((refl, refl, refl, addr), tt);
    explained = ex;
    counts = c;
    node = refl;
    registered = refl;
    entities = refl;
    running = refl;
    queue = refl;
  }

  Explains-suc :
      (tries n : ℕ) (sent : List Request) (r : Result Exn Body)
      → Explains w tries n sent r
      → Explains w (suc tries) (suc n) sent r
  Explains-suc tries n sent (ok b) (h, e) = (omega arith, e)
  Explains-suc tries n sent (err (invalid_request c)) (h, e) = (omega arith, e)
  Explains-suc tries n sent (err too_many_retries) e = ap suc e
  Explains-suc tries n sent (err no_aggregator) e = omega arith
  Explains-suc tries n sent (err key_error) e = e
  Explains-suc tries n sent (err type_error) e = e

  -- a try that found no usable reply, and the tries after it
  Sends-again :
      (n : ℕ) (s : Aggregator H) (out : Result Exn Body × Aggregator H)
      → (s.aggregator == "") ≡ false
      → Sends w n method path body (find_aggregator w (sending s)) out
      → Sends w (suc n) method path body s out
  unfolding find_aggregator sending attempt
  Sends-again n s out addr next = record {
    rs = attempt s ∷ next.rs;
    made = next.made ∙ append_assoc s.sent (attempt s ∷ []) next.rs;
    few = omega (arith, next.few);
    attempts = ((refl, refl, refl, addr), next.attempts);
    explained = Explains-suc n (length next.rs) out.1.sent out.0 next.explained;
    counts = next.counts;
    node = next.node;
    registered = next.registered;
    entities = next.entities;
    running = next.running;
    queue = next.queue;
  }

  Sends-stop :
      (n : ℕ) (s : Aggregator H)
      → Sends w (suc n) method path body s (raise_counted no_aggregator s)
  unfolding raise_counted
  Sends-stop n s = record {
    rs = [];
    made = sym (append-nil s.sent);
    few = omega arith;
    attempts = tt;
    explained = omega arith;
    counts = refl;
    node = refl;
    registered = refl;
    entities = refl;
    running = refl;
    queue = refl;
  }

  -- the result of one try, by the verdict on its reply
  decide : ℕ → Aggregator H → Verdict → Result Exn Body × Aggregator H
  unfolding sending raise_counted
  decide n s (returned b) = (ok b, sending s)
  decide n s (refused status) = raise_counted (invalid_request status) (sending s)
  decide n s unusable = try_send w n method path body (find_aggregator w (sending s))

  try_send-suc :
      (n : ℕ) (s : Aggregator H)
      → (s.aggregator == "") ≡ false
      → try_send w (suc n) method path body s
        ≡ decide n s (judge w.python3 (w.net (sending s).sent))
  unfolding try_send decide attempt
  try_send-suc n s addr = ground arith

  decide-Sends :
      (n : ℕ) (s : Aggregator H) (v : Verdict)
      → judge w.python3 (w.net (sending s).sent) ≡ v
      → (s.aggregator == "") ≡ false
      → Sends w n method path body
          (find_aggregator w (sending s))
          (try_send w n method path body (find_aggregator w (sending s)))
      → Sends w (suc n) method path body s (decide n s v)
  unfolding decide
  decide-Sends n s (returned b) e addr next =
      Sends-last n s (ok b) s.updater addr (omega arith, e) refl
  decide-Sends n s (refused status) e addr next =
      unfold raise_counted in
      Sends-last n s (err (invalid_request status)) _ addr (omega arith, e) refl
  decide-Sends n s unusable e addr next = Sends-again n s _ addr next

  try_send-none :
      (n : ℕ) (s : Aggregator H)
      → (s.aggregator == "") ≡ true
      → try_send w (suc n) method path body s ≡ raise_counted no_aggregator s
  unfolding try_send
  try_send-none n s none_known = rw none_known

  pub try_send-Sends :
      (n : ℕ) (s : Aggregator H) → Sends w n method path body s (try_send w n method path body s)
  try_send-Sends zero s = Sends-zero s
  try_send-Sends (suc n) s = elim (Bool-cases (s.aggregator == "")) [
    | inl none_known ↦
        subst (Sends w (suc n) method path body s) (sym (try_send-none n s none_known))
          (Sends-stop n s)
    | inr addr ↦
        subst (Sends w (suc n) method path body s) (sym (try_send-suc n s addr))
          (decide-Sends n s _ refl addr (try_send-Sends n (find_aggregator w (sending s))))
  ]

  -- looking for an address first changes nothing that is described
  Sends-find :
      (n : ℕ) (s : Aggregator H) (out : Result Exn Body × Aggregator H)
      → Sends w n method path body (find_aggregator w s) out
      → Sends w n method path body s out
  unfolding find_aggregator
  Sends-find n s out h = record {
    rs = h.rs;
    made = h.made;
    few = h.few;
    attempts = h.attempts;
    explained = h.explained;
    counts = h.counts;
    node = h.node;
    registered = h.registered;
    entities = h.entities;
    running = h.running;
    queue = h.queue;
  }

-- `_SEND` makes at most three requests, each to some address and each the request asked for. It
-- returns what the last reply holds, raises InvalidRequest with the last reply's status,
-- TooManyRetries after three requests, or NoAggregator before that; only a raise counts towards
-- peer-to-peer mode, once. The mirror, the queue and the flags stay as they were.
pub send-Sends :
    {H : Type 0} (w : World H) (method url : String) (body : Option Resource) (s : Aggregator H)
    → Sends w 3 method (api_path w url) body s (send w method url body s)
unfolding send
send-Sends w method url body s =
    let path = api_path w url in
    if_both (λ t. Sends w 3 method path body s (try_send w 3 method path body t))
      (s.aggregator == "") _ s
      (Sends-find w method path body 3 s _
        (try_send-Sends w method path body 3 (find_aggregator w s)))
      (try_send-Sends w method path body 3 s)
