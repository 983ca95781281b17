-- ===== src/Ipc/Calls.antt =====
-- A call of a proxy whose socket leads to a host (nmoscommon/ipc.py, both classes).
use nmos_common.Common.{
  String, ◌≡◌, refl, ap, ◌∙◌, subst, true, false, Option, some, List, [], ◌∷◌, ◌==◌, eq_refl, All,
}
use nmos_common.Common.Dict.{Dict, get, get-put}
use nmos_common.Common.Exec.{Result, ok, err}
use nmos_common.Common.Json.{Json, null, bool, int, str, list, dict}
use nmos_common.Ipc.{
  received, Reply, empty, ret, exc, Socket, receiving, replying, Fault, fault, HostExn, Outcome,
  value, raised, unserialisable, Function, Method, registered, Host, reply_of, ipcmethod, run,
}
use nmos_common.Ipc.Wire.{
  items_of, fields_of, entries, starred, keyed, values-items_of, entries-fields_of,
}
use nmos_common.Ipc.Proxy.{
  ProxyExn, local_exception, remote_exception, Proxy, close, invoke_named, is_taken, call_message,
  host_peer,
}
use nmos_common.Ipc.Replies.{called, answer, answers, before, result, turn_after, run-answers}

-- one registration: the name, the docstring and the function
abbrev pub Registered : Type 0 → Type 0
Registered S = String × Option String × Function S

abbrev pub ipcmethods : {S : Type 0} → List (Registered S) → Host S → Host S
ipcmethods [] h = h
ipcmethods ((name, doc, f) ∷ more) h = ipcmethods more (ipcmethod name doc f h)

abbrev pub connected : Proxy
connected = record { connected = true }

module _ {S : Type 0} where
  -- later registrations under other names leave a method, and change nothing but the methods
  found_after :
      (others : List (Registered S)) (h : Host S) (name : String) (m : Method S)
      → All (λ o. (o.0 == name) ≡ false) others
      → get name h.methods ≡ some m
      → get name (ipcmethods others h).methods ≡ some m
  unfolding ipcmethod
  found_after [] h name m apart found = found
  found_after ((other, doc, f) ∷ others) h name m (differs, apart) found =
      found_after others (ipcmethod other doc f h) name m apart
        (get-put other name (registered doc f) h.methods ∙ rw differs found)

  same_after :
      (others : List (Registered S)) (h : Host S)
      → ipcmethods others h ≡ record h { methods = (ipcmethods others h).methods }
  unfolding ipcmethod
  same_after [] h = refl
  same_after ((name, doc, f) ∷ others) h = same_after others (ipcmethod name doc f h)

-- what a call's end is to its caller and to the host
abbrev pub remote : Outcome → Result ProxyExn Json
remote (value v) = ok v
remote (raised trace) = err (remote_exception trace)
remote unserialisable = err local_exception

abbrev pub proxy_after : Outcome → Proxy
proxy_after unserialisable = close connected
proxy_after _ = connected

abbrev pub sent_for : Outcome → List Reply
sent_for (value null) = empty ∷ []
sent_for (value v) = ret v ∷ []
sent_for (raised trace) = exc trace ∷ []
sent_for unserialisable = []

abbrev pub turn_for : Outcome → Socket
turn_for unserialisable = replying
turn_for _ = receiving

-- a call of `name` over a proxy, in time and too late, when the method's end and state are given
abbrev pub ComesTo :
    {S : Type 0} → (Json → String) → String → List Json → Dict Json → Host S → Outcome × S → Type 0
ComesTo traceback name args kwargs host (o, a) =
    let end : Host _ = record host { app = a; sent = sent_for o; socket = turn_for o } in
    (invoke_named (host_peer traceback true) name args kwargs (connected, host)
      ≡ (remote o, (proxy_after o, end)))
    × (invoke_named (host_peer traceback false) name args kwargs (connected, host)
        ≡ (err local_exception, (close connected, end)))

module _ {S : Type 0} (traceback : Json → String) (name : String) (f : Function S)
    (doc : Option String) (h : Host S) (args : List Json) (kwargs : Dict Json) where
  abbrev message : Json
  message = call_message name args kwargs

  answer_lem :
      get name h.methods ≡ some (registered doc f)
      → answer traceback h.methods message h.app
        ≡ (reply_of (f args kwargs h.app).0, (f args kwargs h.app).1)
  unfolding call_message entries starred keyed get
  answer_lem found =
      ap
        (λ o.
          called traceback h.methods (traceback message) o (list (items_of args))
            (dict (fields_of kwargs)) h.app)
        found
      ∙ rw (values-items_of args, entries-fields_of kwargs) refl

  -- the host when the call has ended so
  abbrev ran : Result Fault Reply × S → Result HostExn (Unit {0}) × Host S
  ran (ok r, a) = (ok tt, record h { app = a; sent = r ∷ []; socket = receiving })
  ran (err x, a) = (err (fault x), record h { app = a; sent = []; socket = replying })

  abbrev once : Result Fault Reply × S → Result HostExn (Unit {0}) × Host S
  once q =
      let (rs, a, x) = before traceback h.methods q (answers traceback h.methods []) in
      (result x, record h { app = a; sent = rs; socket = turn_after x })

  once-ran : (q : Result Fault Reply × S) → once q ≡ ran q
  once-ran (ok r, a) = refl
  once-ran (err x, a) = refl

  run_lem :
      get name h.methods ≡ some (registered doc f)
      → h.socket ≡ receiving
      → h.stopped ≡ false
      → run traceback (received message ∷ []) (record h { sent = [] })
        ≡ ran (reply_of (f args kwargs h.app).0, (f args kwargs h.app).1)
  run_lem found turn started =
      run-answers traceback (record h { sent = [] }) (received message ∷ []) turn started
      ∙ ap once (answer_lem found)
      ∙ once-ran _

  comes_lem :
      (o : Outcome) (a : S)
      → is_taken kwargs ≡ false
      → run traceback (received message ∷ []) (record h { sent = [] }) ≡ ran (reply_of o, a)
      → ComesTo traceback name args kwargs h (o, a)
  unfolding invoke_named
  comes_lem (value null) a free e = (rw (free, e) refl, rw (free, e) refl)
  comes_lem (value (bool b)) a free e = (rw (free, e) refl, rw (free, e) refl)
  comes_lem (value (int n)) a free e = (rw (free, e) refl, rw (free, e) refl)
  comes_lem (value (str s)) a free e = (rw (free, e) refl, rw (free, e) refl)
  comes_lem (value (list l)) a free e = (rw (free, e) refl, rw (free, e) refl)
  comes_lem (value (dict d)) a free e = (rw (free, e) refl, rw (free, e) refl)
  comes_lem (raised trace) a free e = (rw (free, e) refl, rw (free, e) refl)
  comes_lem unserialisable a free e = (rw (free, e) refl, rw (free, e) refl)

-- A method that is registered at a started host, with any other names registered after it, and then
-- called through a connected proxy with no keyword `name` or `self`, runs once, on the arguments and
-- state as they are: its value is the call's, None included, and its exception becomes a
-- RemoteException with its traceback. If the reply comes too late the method has run all the same, and
-- the proxy is closed by a LocalException; so it is if the value cannot be serialised, and then the
-- host still owes the reply.
pub invoke_named-registered :
    {S : Type 0} (traceback : Json → String) (name : String) (f : Function S) (doc : Option String)
    (others : List (Registered S)) (h : Host S) (args : List Json) (kwargs : Dict Json)
    → All (λ o. (o.0 == name) ≡ false) others
    → is_taken kwargs ≡ false
    → h.socket ≡ receiving
    → h.stopped ≡ false
    → ComesTo traceback name args kwargs
        (ipcmethods others (ipcmethod name doc f h))
        (f args kwargs h.app)
unfolding ipcmethod
invoke_named-registered traceback name f doc others h args kwargs apart free turn started =
    let host : Host _ = ipcmethods others (ipcmethod name doc f h) in
    let same = same_after others (ipcmethod name doc f h) in
    let found =
      found_after others (ipcmethod name doc f h) name (registered doc f) apart
        (get-put name name (registered doc f) h.methods ∙ rw (eq_refl name) refl) in
    let app : host.app ≡ h.app = ap (λ k. k.app) same in
    let ran =
      run_lem traceback name f doc host args kwargs found (ap (λ k. k.socket) same ∙ turn)
        (ap (λ k. k.stopped) same ∙ started) in
    subst (λ a. ComesTo traceback name args kwargs host (f args kwargs a)) app
      (comes_lem traceback name f doc host args kwargs (f args kwargs host.app).0
        (f args kwargs host.app).1 free ran)
