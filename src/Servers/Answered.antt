-- ===== src/Servers/Answered.antt =====
-- What a worker answers, and when a server can be stopped (nmoscommon/zmqserver.py).
use nmos_common.Common.{
  String, ◌≡◌, refl, sym, ap, ◌∙◌, Bool, true, false, ◌&&◌, ◌||◌, Option, none, some, List, [], ◌∷◌,
  ◌++◌, if◌then◌else◌, append_assoc, append-nil,
}
use nmos_common.Common.Json.{Json}
use nmos_common.Servers.Zmq.{
  Reply, Polled, idle, odd_frames, received, Called, raised, unserialisable, value, Turn, Env,
  Worker, bad_request, send, respond, decoded, handle, stop, run_worker, new_worker,
}

-- what is met until a turn in which the worker is stopped
abbrev pub met : List Turn → List Polled
met [] = []
met (t ∷ turns) = let later = met turns in t.polled ∷ (if t.stops then [] else later)

abbrev pub stopped : List Turn → Bool
stopped [] = false
stopped (t ∷ turns) = t.stops || stopped turns

abbrev pub before_raise : String → Called → List Reply × Bool → List Reply × Bool
before_raise ident raised later = ([], false)
before_raise ident unserialisable later = ([], false)
before_raise ident (value v) (later, all_answered) =
    (record { ident = ident; value = v } ∷ later, all_answered)

module _ {S : Type 0} (env : Env S) where
  -- the value that a message is answered with, if it is
  abbrev pub value_of : Option Json → S → Called × S
  value_of none app = (value bad_request, app)
  value_of (some msg) app = env.callback msg app

  -- the answers to messages one after the other, and whether all of them were answered
  unfoldable pub answers : List Polled → S → List Reply × Bool
  answers [] app = ([], true)
  answers (idle ∷ ps) app = answers ps app
  answers (odd_frames ∷ ps) app = ([], false)
  answers (received m ∷ ps) app =
      let (called, app') = value_of (env.loads m.text) app in
      before_raise m.ident called (answers ps app')

  -- what was sent, and whether the worker has finished
  abbrev pub outcome : Worker S → List Reply × Bool
  outcome w = (w.sent, w.finished)

  abbrev worker : List Reply → S → Worker S
  worker xs app = record { am_running = true; finished = false; died = false; sent = xs; app = app }

  abbrev expected : List Reply → List Reply × Bool → Bool → List Reply × Bool
  expected xs (l, all_answered) stops = (xs ++ l, all_answered && stops)

  run_worker-stop :
      (turns : List Turn) (w : Worker S)
      → run_worker env turns (stop env w) ≡ record (stop env w) { finished = true }
  unfolding run_worker
  run_worker-stop [] w = refl
  run_worker-stop (t ∷ turns) w = refl

  abbrev Holds : List Turn → Type 0
  Holds turns =
      (xs : List Reply) (app : S)
      → outcome (run_worker env turns (worker xs app))
        ≡ expected xs (answers (met turns) app) (stopped turns)

  go_on :
      (b : Bool) (turns : List Turn) (xs : List Reply) (app : S)
      → Holds turns
      → outcome (run_worker env turns (if b then stop env (worker xs app) else worker xs app))
        ≡ expected xs (answers (if b then [] else met turns) app) (b || stopped turns)
  unfolding answers
  go_on true turns xs app h =
      ap outcome (run_worker-stop turns (worker xs app)) ∙ ap (λ l. (l, true)) (sym (append-nil xs))
  go_on false turns xs app h = h xs app

  abbrev after : Bool → List Turn → Worker S → Worker S
  after b turns w = if w.died then w else run_worker env turns (if b then stop env w else w)

  module _ (takes : env.takes_text ≡ true) (b : Bool) (turns : List Turn) (h : Holds turns) where
    -- the worker goes on with what is left of the messages
    abbrev rest : S → List Reply × Bool
    rest app = answers (if b then [] else met turns) app

    Goes : List Reply → Worker S → List Reply × Bool → Type 0
    Goes xs w l = outcome (after b turns w) ≡ expected xs l (b || stopped turns)

    with_reply : Reply → Worker S → Worker S
    with_reply r w = record w { sent = w.sent ++ r ∷ [] }

    send-taken :
        (ident : String) (v : Json) (w : Worker S)
        → send env ident v w ≡ with_reply (record { ident = ident; value = v }) w
    unfolding send with_reply
    send-taken ident v w =
        ap
          (λ d.
            if d
            then with_reply (record { ident = ident; value = v }) w
            else record w { died = true })
          takes

    after_send :
        (ident : String) (v : Json) (xs : List Reply) (app : S)
        → Goes xs (send env ident v (worker xs app)) (before_raise ident (value v) (rest app))
    unfolding Goes with_reply
    after_send ident v xs app =
        let r : Reply = record { ident = ident; value = v } in
        ap (λ w. outcome (after b turns w)) (send-taken ident v (worker xs app))
        ∙ go_on b turns (xs ++ r ∷ []) app h
        ∙ ap (λ l. (l, (rest app).1 && (b || stopped turns)))
            (append_assoc xs (r ∷ []) (rest app).0)

    after_value :
        (ident : String) (called : Called) (xs : List Reply) (app app' : S)
        → Goes xs
            (respond env ident (called, app') (worker xs app))
            (before_raise ident called (rest app'))
    unfolding Goes
    after_value ident raised xs app app' = ap (λ l. (l, false)) (sym (append-nil xs))
    after_value ident unserialisable xs app app' = ap (λ l. (l, false)) (sym (append-nil xs))
    after_value ident (value v) xs app app' = after_send ident v xs app'

    after_decoded :
        (ident : String) (o : Option Json) (xs : List Reply) (app : S)
        → Goes xs
            (decoded env ident o (worker xs app))
            (before_raise ident (value_of o app).0 (rest (value_of o app).1))
    after_decoded ident none xs app = after_send ident bad_request xs app
    after_decoded ident (some msg) xs app =
        after_value ident (env.callback msg app).0 xs app (env.callback msg app).1

    after_handle :
        (p : Polled) (xs : List Reply) (app : S)
        → Goes xs (handle env p (worker xs app)) (answers (p ∷ (if b then [] else met turns)) app)
    unfolding Goes handle answers
    after_handle idle xs app = go_on b turns xs app h
    after_handle odd_frames xs app = ap (λ l. (l, false)) (sym (append-nil xs))
    after_handle (received m) xs app = after_decoded m.ident (env.loads m.text) xs app

  run-Holds : env.takes_text ≡ true → (turns : List Turn) → Holds turns
  unfolding run_worker answers Goes
  run-Holds takes [] xs app = ap (λ l. (l, false)) (sym (append-nil xs))
  run-Holds takes (t ∷ turns) xs app =
      after_handle takes t.stops turns (run-Holds takes turns) t.polled xs app

  -- If its transport takes the replies, a worker sends exactly the answers to the messages that it
  -- meets until it is stopped, one for each and in order, up to the first message that is not made of
  -- two frames, makes the callback raise or gets a response that cannot be serialised; and it has
  -- finished exactly if it is stopped and meets no such message.
  pub run_worker_lem :
      env.takes_text ≡ true
      → (turns : List Turn) (app : S)
      → outcome (run_worker env turns (new_worker app))
        ≡ ((answers (met turns) app).0, (answers (met turns) app).1 && stopped turns)
  run_worker_lem takes turns app = run-Holds takes turns [] app
