-- ===== src/Ipc.antt =====
-- nmoscommon/ipc.py: a Host answers calls of its methods over a ZeroMQ REP socket, which takes one
-- message and then has to send one reply before it takes the next. `S` is what the methods act on; a
-- method has no access to the host. Python's None is JSON's null.
pub mod Wire
pub mod Proxy
pub mod Replies
pub mod Calls
use nmos_common.Common.{
  String, Bool, true, false, Option, none, some, List, [], ◌∷◌, ◌++◌, if◌then◌else◌,
}
use nmos_common.Common.Dict.{Dict, get, put}
use nmos_common.Common.Exec.{Result, ok, err, Exec, ◌>>=◌, ◌>>◌, pure, raise, gets, modify}
use nmos_common.Common.Json.{Json, Fields, null, str, list, dict, end, field}
use nmos_common.Ipc.Wire.{entries, contains, starred, keyed}

-- what a poll finds: a message may be no JSON
pub data Poll : Type 0 where
  timed_out undecodable : Poll
  received : Json → Poll

pub data Reply : Type 0 where
  empty : Reply
  ret : Json → Reply
  exc : String → Reply

-- whose turn it is on the socket, which raises a ZMQError if it is used out of turn
pub data Socket : Type 0 where
  receiving replying closed : Socket

-- what a message or a result can raise outside the `try`
pub data Fault : Type 0 where
  bad_json wrong_type bad_result : Fault

pub data HostExn : Type 0 where
  zmq_error : HostExn
  fault : Fault → HostExn

-- how a call ends: with a JSON value, with one that cannot be serialised, or with an exception, whose
-- traceback is sent
pub data Outcome : Type 0 where
  value : Json → Outcome
  unserialisable : Outcome
  raised : String → Outcome

abbrev pub Function : Type 0 → Type 0
Function S = List Json → Dict Json → S → Outcome × S

-- the host's own method, or one that was registered, with its docstring
pub data Method (S : Type 0) : Type 0 where
  getmethods : Method S
  registered : (doc : Option String) (call : Function S) → Method S

pub record Host (S : Type 0) : Type 0 where
  pub app : S
  pub methods : Dict (Method S)
  pub socket : Socket
  pub sent : List Reply
  pub stopped : Bool
  pub greenlet : Bool

-- a result that is None is sent as an empty object
abbrev pub reply_of : Outcome → Result Fault Reply
reply_of (value null) = ok empty
reply_of (value v) = ok (ret v)
reply_of unserialisable = err bad_result
reply_of (raised trace) = ok (exc trace)

abbrev pub M : Type 0 → Type 0 → Type 0
M S A = Exec (Host S) HostExn A

module _ {S : Type 0} where
  -- `__init__`
  unfoldable pub new_host : S → Host S
  new_host app = record {
    app = app;
    methods = ("getmethods", getmethods) ∷ [];
    socket = receiving;
    sent = [];
    stopped = true;
    greenlet = false;
  }

  unfoldable pub start : Host S → Host S
  start h = if h.stopped then record h { stopped = false; greenlet = true } else h

  unfoldable pub stop : Host S → Host S
  stop h = record h { stopped = true; greenlet = false; socket = closed }

  -- the decorator `ipcmethod`
  unfoldable pub ipcmethod : String → Option String → Function S → Host S → Host S
  ipcmethod name doc f h = record h { methods = put name (registered doc f) h.methods }

  abbrev pub help_of : Method S → String
  help_of getmethods = "Return a list of all methods available and their help text"
  help_of (registered none f) = ""
  help_of (registered (some doc) f) = doc

  unfoldable pub help : Dict (Method S) → Fields
  help [] = end
  help ((name, m) ∷ methods) = field name (str (help_of m)) (help methods)

  abbrev pub take : Socket → M S (Unit {0})
  take receiving = modify (λ h. record h { socket = replying })
  take _ = raise zmq_error

  abbrev pub replied : Socket → Reply → M S (Unit {0})
  replied replying r = modify (λ h. record h { socket = receiving; sent = h.sent ++ r ∷ [] })
  replied _ r = raise zmq_error

  -- takes the message from the socket; that it is JSON is looked at afterwards
  unfoldable pub recv_json : M S (Unit {0})
  recv_json = do socket ← gets (λ h. h.socket); take socket

  unfoldable pub send_json : Reply → M S (Unit {0})
  send_json r = do socket ← gets (λ h. h.socket); replied socket r

-- `trace` is the traceback of a TypeError that the call's own arguments make
module _ {S : Type 0} (trace : String) where
  -- `self.methods[...](*args, **kwargs)`
  unfoldable pub invoke : Method S → List Json → Dict Json → M S Outcome
  invoke getmethods [] [] h = (ok (value (dict (help h.methods))), h)
  invoke getmethods _ _ h = (ok (raised trace), h)
  invoke (registered doc f) args kwargs h =
      let (r, app) = f args kwargs h.app in (ok r, record h { app = app })

  abbrev pub invoke_with : Method S → Option (List Json) → Option (Dict Json) → M S Outcome
  invoke_with m (some args) (some kwargs) = invoke m args kwargs
  invoke_with m _ _ = pure (raised trace)

  abbrev pub send_reply : Result Fault Reply → M S (Unit {0})
  send_reply (ok r) = send_json r
  send_reply (err x) = raise (fault x)

  abbrev pub call_found : Option (Method S) → Json → Json → M S (Unit {0})
  call_found none args kwargs = send_json (exc "AttributeError")
  call_found (some m) args kwargs = do
    r ← invoke_with m (starred args) (keyed kwargs)
    send_reply (reply_of r)

  -- the look-up of the function's name, which raises where that cannot be hashed
  abbrev pub call_named : Json → Json → Json → M S (Unit {0})
  call_named (str name) args kwargs = do
    methods ← gets (λ h. h.methods)
    call_found (get name methods) args kwargs
  call_named (list _) args kwargs = raise (fault wrong_type)
  call_named (dict _) args kwargs = raise (fault wrong_type)
  call_named _ args kwargs = send_json (exc "AttributeError")

  abbrev pub respond_to : Option Json → Option Json → Option Json → M S (Unit {0})
  respond_to (some name) (some args) (some kwargs) = call_named name args kwargs
  respond_to _ _ _ = send_json empty

  -- a list or a text in which the three names are found has no entries
  abbrev pub respond_without : Option Bool → Option Bool → Option Bool → M S (Unit {0})
  respond_without (some true) (some true) (some true) = raise (fault wrong_type)
  respond_without (some _) (some _) (some _) = send_json empty
  respond_without _ _ _ = raise (fault wrong_type)

  unfoldable pub respond : Json → M S (Unit {0})
  respond (dict d) =
      respond_to (get "function" (entries d)) (get "args" (entries d)) (get "kwargs" (entries d))
  respond v = respond_without (contains "function" v) (contains "args" v) (contains "kwargs" v)

-- `traceback` is the text of such a TypeError for a message
module _ {S : Type 0} (traceback : Json → String) where
  -- one round of `_run`
  unfoldable pub round : Poll → M S (Unit {0})
  round timed_out = pure tt
  round undecodable = do recv_json; raise (fault bad_json)
  round (received v) = do recv_json; respond (traceback v) v

  -- `_run`, for the polls that are made
  unfoldable pub run : List Poll → M S (Unit {0})
  run [] = pure tt
  run (poll ∷ polls) = do
    stopped ← gets (λ h. h.stopped)
    if stopped then pure tt else (do round poll; run polls)
