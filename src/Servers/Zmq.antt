-- ===== src/Servers/Zmq.antt =====
-- nmoscommon/zmqserver.py: the workers that answer messages, and how a server is stopped. What a
-- worker meets is a list of turns of its loop. `json.loads`, the callback and the transport are
-- parameters.
use nmos_common.Common.{
  String, Bool, true, false, ◌&&◌, Option, none, some, List, [], ◌∷◌, ◌++◌, if◌then◌else◌,
}
use nmos_common.Common.Json.{Json, int, list, nil, item}

pub record Message : Type 0 where
  pub ident : String
  pub text : String

pub record Reply : Type 0 where
  pub ident : String
  pub value : Json

-- what a poll finds: a message has two frames, and of other numbers `recv_multipart()` cannot be
-- unpacked
pub data Polled : Type 0 where
  idle odd_frames : Polled
  received : Message → Polled

-- a turn of the loop: what the poll gives, and whether `stop` is called before the next turn
pub record Turn : Type 0 where
  pub polled : Polled
  pub stops : Bool

-- how a callback ends: with an exception, with a value that `json.dumps` refuses, or with another
pub data Called : Type 0 where
  raised unserialisable : Called
  value : Json → Called

-- the callback acts on a state; the transport may refuse a text
pub record Env (S : Type 0) : Type 0 where
  pub loads : String → Option Json
  pub callback : Json → S → Called × S
  pub takes_text : Bool

pub record Worker (S : Type 0) : Type 0 where
  pub am_running : Bool
  pub finished : Bool
  pub died : Bool
  pub sent : List Reply
  pub app : S

abbrev pub bad_request : Json
bad_request = list (item (int 400) nil)

module _ {S : Type 0} (env : Env S) where
  -- `send_multipart`, which may raise
  unfoldable pub send : String → Json → Worker S → Worker S
  send ident v w =
      if env.takes_text
      then (record w { sent = w.sent ++ record { ident = ident; value = v } ∷ [] })
      else record w { died = true }

  abbrev pub respond : String → Called × S → Worker S → Worker S
  respond ident (raised, app) w = record w { app = app; died = true }
  respond ident (unserialisable, app) w = record w { app = app; died = true }
  respond ident (value v, app) w = send ident v (record w { app = app })

  abbrev pub decoded : String → Option Json → Worker S → Worker S
  decoded ident none w = send ident bad_request w
  decoded ident (some msg) w = respond ident (env.callback msg w.app) w

  unfoldable pub handle : Polled → Worker S → Worker S
  handle idle w = w
  handle odd_frames w = record w { died = true }
  handle (received m) w = decoded m.ident (env.loads m.text) w

  -- `stop`
  abbrev pub stop : Worker S → Worker S
  stop w = record w { am_running = false }

  -- the loop of `run`; where the turns are used up, the worker polls on
  unfoldable pub run_worker : List Turn → Worker S → Worker S
  run_worker [] w = if w.am_running then w else record w { finished = true }
  run_worker (t ∷ turns) w =
      let w' = handle t.polled w in
      let next = run_worker turns (if t.stops then stop w' else w') in
      if w.am_running then (if w'.died then w' else next) else record w { finished = true }

  -- `ZmqServer.stop`: whether it returns, for workers with the turns that they still make; a worker
  -- is waited for until it has finished
  unfoldable pub stop_server : List (Worker S × List Turn) → Bool
  stop_server [] = true
  stop_server ((w, turns) ∷ workers) =
      let later = stop_server workers in
      (if w.died then w.finished else (run_worker turns (stop w)).finished) && later

abbrev pub new_worker : {S : Type 0} → S → Worker S
new_worker app = record { am_running = true; finished = false; died = false; sent = []; app = app }
