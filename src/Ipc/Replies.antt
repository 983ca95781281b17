-- ===== src/Ipc/Replies.antt =====
-- What a host sends for the messages it gets (nmoscommon/ipc.py, Host._run).
use nmos_common.Common.{
  String, ◌≡◌, refl, sym, ap, ◌∙◌, subst, Bool, true, false, Option, none, some, List, [], ◌∷◌,
  ◌++◌, append_assoc, append-nil,
}
use nmos_common.Common.Dict.{Dict, get}
use nmos_common.Common.Exec.{Result, ok, err, ◌>>=◌, continue}
use nmos_common.Common.Json.{Json, null, bool, int, str, list, dict}
use nmos_common.Ipc.{
  Poll, timed_out, undecodable, Reply, empty, exc, Socket, receiving, replying, Fault, bad_json,
  wrong_type, fault, HostExn, Outcome, value, raised, Method, getmethods, registered, Host,
  reply_of, help, recv_json, send_json, invoke, invoke_with, send_reply, call_found, call_named,
  respond_to, respond_without, respond, round, run,
}
use nmos_common.Ipc.Wire.{contains, starred, keyed, entries}

-- what a loop comes to that has ended so; a reply is due then
abbrev pub result : Option Fault → Result HostExn (Unit {0})
result none = ok tt
result (some x) = err (fault x)

abbrev pub turn_after : Option Fault → Socket
turn_after none = receiving
turn_after (some x) = replying

module _ {S : Type 0} (traceback : Json → String) (methods : Dict (Method S)) where
  -- how a call ends and what it does, with neither a socket nor exceptions
  abbrev pub outcome : String → Method S → Option (List Json) → Option (Dict Json) → S → Outcome × S
  outcome trace getmethods (some []) (some []) a = (value (dict (help methods)), a)
  outcome trace (registered doc f) (some args) (some kwargs) a = f args kwargs a
  outcome trace m args kwargs a = (raised trace, a)

  abbrev pub called : String → Option (Method S) → Json → Json → S → Result Fault Reply × S
  called trace none args kwargs a = (ok (exc "AttributeError"), a)
  called trace (some m) args kwargs a =
      let (o, a') = outcome trace m (starred args) (keyed kwargs) a in (reply_of o, a')

  abbrev pub named : String → Json → Json → Json → S → Result Fault Reply × S
  named trace (str name) args kwargs a = called trace (get name methods) args kwargs a
  named trace (list _) args kwargs a = (err wrong_type, a)
  named trace (dict _) args kwargs a = (err wrong_type, a)
  named trace _ args kwargs a = (ok (exc "AttributeError"), a)

  abbrev pub looked_up :
      String → Option Json → Option Json → Option Json → S → Result Fault Reply × S
  looked_up trace (some name) (some args) (some kwargs) a = named trace name args kwargs a
  looked_up trace _ _ _ a = (ok empty, a)

  abbrev pub no_entries : Option Bool → Option Bool → Option Bool → Result Fault Reply
  no_entries (some true) (some true) (some true) = err wrong_type
  no_entries (some _) (some _) (some _) = ok empty
  no_entries _ _ _ = err wrong_type

  -- the reply to a message, or what ends the loop
  abbrev pub answer : Json → S → Result Fault Reply × S
  answer (dict d) a =
      looked_up (traceback (dict d)) (get "function" (entries d)) (get "args" (entries d))
        (get "kwargs" (entries d)) a
  answer v a = (no_entries (contains "function" v) (contains "args" v) (contains "kwargs" v), a)

  -- all replies, the state, and what ended the loop, if anything did
  abbrev pub Answers : Type 0
  Answers = List Reply × S × Option Fault

  abbrev pub before : Result Fault Reply × S → (S → Answers) → Answers
  before (err x, a) later = ([], a, some x)
  before (ok r, a) later = let (rs, a', x) = later a in (r ∷ rs, a', x)

  abbrev pub answers : List Poll → S → Answers
  answers [] a = ([], a, none)
  answers (timed_out ∷ polls) a = answers polls a
  answers (undecodable ∷ polls) a = ([], a, some bad_json)
  answers (Poll.received v ∷ polls) a = before (answer v a) (answers polls)

  module _ (running : Bool) where
    -- a host that has been started, and one that has a message to answer
    abbrev ready : List Reply → S → Host S
    ready sent a = record {
      app = a;
      methods = methods;
      socket = receiving;
      sent = sent;
      stopped = false;
      greenlet = running;
    }

    abbrev busy : List Reply → S → Host S
    busy sent a = record (ready sent a) { socket = replying }

    -- the host after one answer
    abbrev answered : List Reply → Result Fault Reply × S → Result HostExn (Unit {0}) × Host S
    answered sent (ok r, a) = (ok tt, ready (sent ++ r ∷ []) a)
    answered sent (err x, a) = (err (fault x), busy sent a)

    abbrev ended : List Reply → Answers → Result HostExn (Unit {0}) × Host S
    ended sent (rs, a, x) = (result x, record (ready (sent ++ rs) a) { socket = turn_after x })

    send_reply_lem :
        (trace : String) (r : Result Fault Reply) (sent : List Reply) (a : S)
        → send_reply trace r (busy sent a) ≡ answered sent (r, a)
    unfolding ◌>>=◌ send_json
    send_reply_lem trace (ok r) sent a = refl
    send_reply_lem trace (err x) sent a = refl

    invoke_with_lem :
        (trace : String) (m : Method S) (args : Option (List Json)) (kwargs : Option (Dict Json))
        (sent : List Reply) (a : S)
        → invoke_with trace m args kwargs (busy sent a)
          ≡ (ok (outcome trace m args kwargs a).0, busy sent (outcome trace m args kwargs a).1)
    unfolding ◌>>=◌ invoke
    invoke_with_lem trace getmethods none kwargs sent a = refl
    invoke_with_lem trace getmethods (some []) none sent a = refl
    invoke_with_lem trace getmethods (some []) (some []) sent a = refl
    invoke_with_lem trace getmethods (some []) (some (_ ∷ _)) sent a = refl
    invoke_with_lem trace getmethods (some (_ ∷ _)) none sent a = refl
    invoke_with_lem trace getmethods (some (_ ∷ _)) (some _) sent a = refl
    invoke_with_lem trace (registered doc f) none kwargs sent a = refl
    invoke_with_lem trace (registered doc f) (some args) none sent a = refl
    invoke_with_lem trace (registered doc f) (some args) (some kwargs) sent a = refl

    call_found_lem :
        (trace : String) (o : Option (Method S)) (args kwargs : Json) (sent : List Reply) (a : S)
        → call_found trace o args kwargs (busy sent a)
          ≡ answered sent (called trace o args kwargs a)
    unfolding ◌>>=◌ send_json
    call_found_lem trace none args kwargs sent a = refl
    call_found_lem trace (some m) args kwargs sent a =
        let (o, a') = outcome trace m (starred args) (keyed kwargs) a in
        ap (λ x. continue x.0 (λ r. send_reply trace (reply_of r)) x.1)
          (invoke_with_lem trace m (starred args) (keyed kwargs) sent a)
        ∙ send_reply_lem trace (reply_of o) sent a'

    call_named_lem :
        (trace : String) (name args kwargs : Json) (sent : List Reply) (a : S)
        → call_named trace name args kwargs (busy sent a)
          ≡ answered sent (named trace name args kwargs a)
    unfolding ◌>>=◌ send_json
    call_named_lem trace (str name) args kwargs sent a =
        call_found_lem trace (get name methods) args kwargs sent a
    call_named_lem trace null args kwargs sent a = refl
    call_named_lem trace (bool b) args kwargs sent a = refl
    call_named_lem trace (int n) args kwargs sent a = refl
    call_named_lem trace (list l) args kwargs sent a = refl
    call_named_lem trace (dict d) args kwargs sent a = refl

    respond_to_lem :
        (trace : String) (name args kwargs : Option Json) (sent : List Reply) (a : S)
        → respond_to trace name args kwargs (busy sent a)
          ≡ answered sent (looked_up trace name args kwargs a)
    unfolding ◌>>=◌ send_json
    respond_to_lem trace none args kwargs sent a = refl
    respond_to_lem trace (some name) none kwargs sent a = refl
    respond_to_lem trace (some name) (some args) none sent a = refl
    respond_to_lem trace (some name) (some args) (some kwargs) sent a =
        call_named_lem trace name args kwargs sent a

    respond_without_lem :
        (trace : String) (x y z : Option Bool) (sent : List Reply) (a : S)
        → respond_without trace x y z (busy sent a) ≡ answered sent (no_entries x y z, a)
    unfolding ◌>>=◌ send_json
    respond_without_lem trace none y z sent a = refl
    respond_without_lem trace (some true) none z sent a = refl
    respond_without_lem trace (some false) none z sent a = refl
    respond_without_lem trace (some true) (some true) none sent a = refl
    respond_without_lem trace (some true) (some false) none sent a = refl
    respond_without_lem trace (some false) (some y) none sent a = refl
    respond_without_lem trace (some true) (some true) (some true) sent a = refl
    respond_without_lem trace (some true) (some true) (some false) sent a = refl
    respond_without_lem trace (some true) (some false) (some z) sent a = refl
    respond_without_lem trace (some false) (some y) (some z) sent a = refl

    respond_lem :
        (v : Json) (sent : List Reply) (a : S)
        → respond (traceback v) v (busy sent a) ≡ answered sent (answer v a)
    unfolding respond
    respond_lem (dict d) sent a = respond_to_lem (traceback (dict d)) _ _ _ sent a
    respond_lem null sent a = respond_without_lem (traceback null) _ _ _ sent a
    respond_lem (bool b) sent a = respond_without_lem (traceback (bool b)) _ _ _ sent a
    respond_lem (int n) sent a = respond_without_lem (traceback (int n)) _ _ _ sent a
    respond_lem (str s) sent a = respond_without_lem (traceback (str s)) _ _ _ sent a
    respond_lem (list l) sent a = respond_without_lem (traceback (list l)) _ _ _ sent a

    Holds : List Poll → Type 0
    Holds polls =
        (sent : List Reply) (a : S)
        → run traceback polls (ready sent a) ≡ ended sent (answers polls a)

    go_on :
        (o : Result Fault Reply × S) (polls : List Poll) (sent : List Reply)
        → Holds polls
        → continue (answered sent o).0 (λ _. run traceback polls) (answered sent o).1
          ≡ ended sent (before o (answers polls))
    unfolding Holds
    go_on (err x, a) polls sent h = ap (λ l. (err (fault x), busy l a)) (sym (append-nil sent))
    go_on (ok r, a) polls sent h =
        h (sent ++ r ∷ []) a
        ∙ ap
            (λ l. (
              result (answers polls a).2,
              record (ready l (answers polls a).1) { socket = turn_after (answers polls a).2 },
            ))
            (append_assoc sent (r ∷ []) _)

    run_lem : (polls : List Poll) → Holds polls
    unfolding ◌>>=◌ run round recv_json Holds
    run_lem [] sent a = ap (λ l. (ok tt, ready l a)) (sym (append-nil sent))
    run_lem (timed_out ∷ polls) sent a = run_lem polls sent a
    run_lem (undecodable ∷ polls) sent a =
        ap (λ l. (err (fault bad_json), busy l a)) (sym (append-nil sent))
    run_lem (Poll.received v ∷ polls) sent a =
        ap (λ x. continue x.0 (λ _. run traceback polls) x.1) (respond_lem v sent a)
        ∙ go_on (answer v a) polls sent (run_lem polls)

-- A started host whose socket waits for a message answers every message with exactly one reply, in
-- order, and goes on whatever its methods raise, up to the first message that is no JSON, is of a
-- type without the entries, names its function by a list or a dict, or has a result that cannot be
-- serialised: there the loop ends with that exception, and the reply is still due. The replies, and
-- what the methods do, are those of `answers`, and no socket is ever used out of turn.
pub run-answers :
    {S : Type 0} (traceback : Json → String) (h : Host S) (polls : List Poll)
    → h.socket ≡ receiving
    → h.stopped ≡ false
    → let (rs, a, x) = answers traceback h.methods polls h.app in
      run traceback polls h
      ≡ (result x, record h { app = a; sent = h.sent ++ rs; socket = turn_after x })
unfolding Holds
run-answers traceback h polls turn started =
    let (rs, a, x) = answers traceback h.methods polls h.app in
    subst
      (λ k.
        run traceback polls (record h { socket = k })
        ≡ (result x, record h { app = a; sent = h.sent ++ rs; socket = turn_after x }))
      (sym turn)
      (subst
        (λ b. run traceback polls (record h { socket = receiving; stopped = b }) ≡ (
          result x,
          record h { app = a; sent = h.sent ++ rs; socket = turn_after x; stopped = b },
        ))
        (sym started) (run_lem traceback h.methods h.greenlet polls h.sent h.app))
