-- ===== src/Tests/Served.antt =====
-- Servers, workers and interfaces at concrete inputs (nmoscommon/httpserver.py, zmqserver.py and
-- interfaceController.py).
use Prim.Native.String.{String}
use nmos_common.Common.{
  ◌≡◌, refl, Bool, true, false, none, some, List, [], ◌∷◌, ◌&&◌, ◌==◌, if◌then◌else◌,
}
use nmos_common.Common.Exec.{ok}
use nmos_common.Common.Json.{str}
use nmos_common.Servers.Http.{
  socket_error, HttpServer, given, Round, ended, trying, run, loop, round, serve, on_error,
  set_started,
}
use nmos_common.Servers.Started.{Settled, run-Settled}
use nmos_common.Servers.Zmq.{
  Message, Turn, Env, idle, received, raised, unserialisable, value, new_worker, run_worker,
  stop_server, handle, send,
}
use nmos_common.Servers.Answered.{answers, met, stopped, outcome, run_worker_lem}
use nmos_common.Servers.Interfaces.{
  Machine, Addresses, unknown, no_inet, inet, missing, names, get_default_interfaces, from_file,
  named, all_interfaces, all_among, from_gateway,
}
use nmos_common.Servers.Socket.{
  new_client, stops, begins, turns as turned, steps, step, begin, turn, stop,
}
use nmos_common.Servers.Usable.{is_unusable, get_default_interfaces-nothing}

abbrev server : HttpServer
server = record { port = 8080; has_api = false; api_port = none; started = false; failed = none }

-- the port is in use: the error has number 98 on Linux
abbrev in_use : Round
in_use = record {
  bound = given 0;
  starting = some (socket_error 98);
  setting = none;
  serving = none;
}

run-Settled_example : Settled (run none (in_use ∷ []) server)
run-Settled_example = run-Settled none (in_use ∷ []) server

fails_at_once : run none (in_use ∷ []) server ≡ (
  ended,
  record server {
    has_api = true;
    api_port = some 8080;
    started = true;
    failed = some (socket_error 98);
  },
)
unfolding run loop round serve on_error set_started
fails_at_once = refl

-- with the number 48 and a port that the system gives, another port is tried
tries_again :
    (run none
      (record { bound = given 9; starting = some (socket_error 48); setting = none; serving = none }
        ∷ [])
      (record server { port = 0 })).0
    ≡ trying
unfolding run loop round serve on_error set_started
tries_again = refl

abbrev message : String → Message
message text = record { ident = "client"; text = text }

-- the callback raises on the text "bad", and "no json" is none
abbrev env : Bool → Env Unit
env takes_text = record {
  loads = λ t. if t == "no json" then none else some (str t);
  callback = λ v s. elim v [
    | str t ↦
        (if t == "bad" then raised else if t == "a set" then unserialisable else value (str t), s)
    | _ ↦ (raised, s)
  ];
  takes_text = takes_text;
}

abbrev turns : List Turn
turns =
    record { polled = received (message "hello"); stops = false }
    ∷ record { polled = idle; stops = false }
    ∷ record { polled = received (message "no json"); stops = true }
    ∷ record { polled = received (message "late"); stops = false }
    ∷ []

run_worker_lem_example : outcome (env true) (run_worker (env true) turns (new_worker tt)) ≡ (
  (answers (env true) (met turns) tt).0,
  (answers (env true) (met turns) tt).1 && stopped turns,
)
run_worker_lem_example = run_worker_lem (env true) refl turns tt

-- a worker whose callback raised is waited for in vain
never_stops :
    stop_server (env true) (
      (
        run_worker
            (env true)
            (record { polled = received (message "bad"); stops = false } ∷ [])
            (new_worker tt),
        [],
      )
      ∷ [])
    ≡ false
unfolding stop_server run_worker handle send
never_stops = refl

-- so is one whose transport takes no text
never_replies : (run_worker (env false) turns (new_worker tt)).finished ≡ false
unfolding run_worker handle send
never_replies = refl

abbrev addresses : String → Addresses
addresses name =
    if name == "lo"
    then inet (some "127.0.0.1" ∷ [])
    else if name == "eth0"
    then no_inet
    else if name == "eth1"
    then inet (some "10.0.0.2" ∷ [])
    else unknown

abbrev machine : Machine
machine = record {
  interfaces = "lo" ∷ "eth0" ∷ [];
  addresses = addresses;
  gateway = none;
  local_ip = none;
  config = missing;
}

nothing_found : get_default_interfaces machine ≡ ok []
unfolding get_default_interfaces from_file all_interfaces all_among from_gateway
nothing_found = refl

get_default_interfaces-nothing_example : is_unusable machine "eth0" ≡ true
get_default_interfaces-nothing_example =
    get_default_interfaces-nothing machine "eth0" nothing_found (1, refl)

-- a configured interface without an address hides those behind it
hidden : from_file (record machine { config = names ("eth0" ∷ "eth1" ∷ []) }) ≡ ok []
unfolding from_file named
hidden = refl

-- a stop before the thread begins to run is lost: the thread connects all the same
lost_stop : (steps (stops ∷ begins ∷ turned ∷ []) new_client).connections ≡ 1
unfolding steps step begin turn stop
lost_stop = refl
