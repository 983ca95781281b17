-- ===== src/Servers/Http.antt =====
-- nmoscommon/httpserver.py: the thread that makes an API and serves it. What a round of its loop
-- meets is an argument: a list of rounds, whose end leaves the thread in its loop.
use nmos_common.Common.{ℕ, Bool, true, Option, none, some, List, [], ◌∷◌, eqb, if◌then◌else◌}

pub data Exn : Type 0 where
  socket_error : (errno : ℕ) → Exn
  exception : Exn

-- `api_port` is the port of the API, once there is an API and its port was set
pub record HttpServer : Type 0 where
  pub port : ℕ
  pub has_api : Bool
  pub api_port : Option ℕ
  pub started : Bool
  pub failed : Option Exn

-- the port that the system gives, or what `bind` raises
pub data Bound : Type 0 where
  given : ℕ → Bound
  refused : Exn → Bound

-- what raises in a round: making or starting the server, setting the port of the API, serving
pub record Round : Type 0 where
  pub bound : Bound
  pub starting : Option Exn
  pub setting : Option Exn
  pub serving : Option Exn

pub data Ended : Type 0 where
  ended trying : Ended

abbrev set_port : Option Exn → HttpServer → HttpServer
set_port none s = record s { api_port = some s.port }
set_port (some e) s = record s { failed = some e }

-- `__setstarted`
unfoldable pub set_started : Option Exn → HttpServer → HttpServer
set_started setting s =
    let s' = if s.has_api then set_port setting s else s in record s' { started = true }

-- the handler of the whole method
unfoldable pub fail : Option Exn → Exn → HttpServer → HttpServer
fail setting e s =
    let s' : HttpServer = record s { failed = some e } in
    if s.started then s' else set_started setting s'

-- how a round ends: by leaving the loop, by an exception, or by going on with a port
pub data Left : Type 0 where
  broke again : HttpServer → Left
  raised : Exn → HttpServer → Left

-- `except socket.error`; the first argument is the port that the server was made with
unfoldable pub on_error : ℕ → Option Exn → Exn → HttpServer → Left
on_error port setting (socket_error errno) s =
    if eqb errno 48
    then (if eqb port 0 then again (record s { port = port }) else raised (socket_error errno) s)
    else broke (set_started setting (record s { failed = some (socket_error errno) }))
on_error port setting exception s = raised exception s

-- the inner `try`
unfoldable pub serve : ℕ → Round → HttpServer → Left
serve port r s = elim r.starting [
  | some e ↦ on_error port r.setting e s
  | none ↦ elim r.serving [
    | some e ↦ on_error port r.setting e (set_started r.setting s)
    | none ↦ broke (set_started r.setting s)
  ]
]

-- a port that is still 0 is an exception
abbrev pub checked : ℕ → Round → HttpServer → Left
checked port r s = if eqb s.port 0 then raised exception s else serve port r s

abbrev pub bind_port : ℕ → Round → Bound → HttpServer → Left
bind_port port r (given n) s = checked port r (record s { port = n })
bind_port port r (refused e) s = raised e s

unfoldable pub round : ℕ → Round → HttpServer → Left
round port r s = if eqb s.port 0 then bind_port port r r.bound s else checked port r s

abbrev pub leave : Round → Left → (HttpServer → Ended × HttpServer) → Ended × HttpServer
leave r (broke s) next = (ended, s)
leave r (again s) next = next s
leave r (raised e s) next = (ended, fail r.setting e s)

unfoldable pub loop : ℕ → List Round → HttpServer → Ended × HttpServer
loop port [] s = (trying, s)
loop port (r ∷ rounds) s = leave r (round port r s) (loop port rounds)

-- `run`; the first argument is what making the API raises
unfoldable pub run : Option Exn → List Round → HttpServer → Ended × HttpServer
run (some e) rounds s = (ended, fail none e s)
run none rounds s = loop s.port rounds (record s { has_api = true })
