-- ===== src/Tests/Hosts.antt =====
-- A host and a proxy at concrete messages (nmoscommon/ipc.py).
use nmos_common.Common.{String, ◌≡◌, refl, true, none, List, [], ◌∷◌, ◌++◌}
use nmos_common.Common.Dict.{get, put}
use nmos_common.Common.Exec.{err, ◌>>=◌}
use nmos_common.Common.Json.{Json, int, null, str, list, dict, end, field}
use nmos_common.Ipc.{
  Poll, timed_out, undecodable, received, bad_json, Host, Function, value, raised, unserialisable,
  new_host, start, ipcmethod, run, empty, exc, ret, recv_json, send_json, invoke, round, respond,
  fault,
}
use nmos_common.Auth.Claims.{is_inside}
use nmos_common.Ipc.Wire.{contains, entries, starred, keyed, items_of, values}
use nmos_common.Ipc.Proxy.{type_error, invoke_named, host_peer}
use nmos_common.Ipc.Replies.{answers, result, turn_after, run-answers}
use nmos_common.Ipc.Calls.{ComesTo, connected, ipcmethods, invoke_named-registered}

-- a method that keeps its first argument and gives back the one before
abbrev swap : Function Json
swap (x ∷ []) kwargs kept = (value kept, x)
swap _ kwargs kept = (raised "TypeError", kept)

-- a method with a result that is no JSON
abbrev set_of : Function Json
set_of args kwargs kept = (unserialisable, kept)

abbrev no_trace : Json → String
no_trace v = ""

abbrev host : Host Json
host = start (new_host null)

abbrev serving : Host Json
serving = ipcmethod "swap" none swap host

abbrev call : String → List Json → Json
call name args = dict (
    field "function" (str name)
      (field "args" (list (items_of args)) (field "kwargs" (dict end) end)))

abbrev polls : List Poll
polls =
    timed_out
    ∷ received (call "swap" (int 3 ∷ []))
    ∷ received (call "swap" [])
    ∷ received (call "other" [])
    ∷ received (dict (field "function" (str "swap") end))
    ∷ received (str "hello")
    ∷ received (call "swap" (int 4 ∷ []))
    ∷ undecodable
    ∷ received (call "swap" [])
    ∷ []

-- six replies, and an end at the message that is no JSON
six_replies :
    ((run no_trace polls serving).0 ≡ err (fault bad_json))
    × ((run no_trace polls serving).1.sent
        ≡ empty ∷ exc "TypeError" ∷ exc "AttributeError" ∷ empty ∷ empty ∷ ret (int 3) ∷ [])
unfolding get put run round recv_json send_json invoke respond ◌>>=◌ start new_host ipcmethod
    entries starred keyed items_of values contains is_inside
six_replies = (refl, refl)

run-answers_example :
    let (rs, a, x) = answers no_trace serving.methods polls serving.app in
    run no_trace polls serving
    ≡ (result x, record serving { app = a; sent = serving.sent ++ rs; socket = turn_after x })
unfolding start new_host ipcmethod
run-answers_example = run-answers no_trace serving polls refl refl

invoke_named-registered_example :
    ComesTo no_trace "swap"
      (int 3 ∷ [])
      (("depth", int 1) ∷ [])
      (ipcmethods (("other", none, set_of) ∷ []) (ipcmethod "swap" none swap host))
      (value null, int 3)
unfolding start new_host get
invoke_named-registered_example =
    invoke_named-registered no_trace "swap" swap none (("other", none, set_of) ∷ []) host
      (int 3 ∷ []) (("depth", int 1) ∷ []) (refl, tt) refl refl refl

-- the method `hello(name="James")` of `main` cannot be called with its keyword: nothing is sent
name_is_taken :
    invoke_named
      (host_peer no_trace true)
      "hello"
      []
      (("name", str "Ada") ∷ [])
      (connected, serving)
    ≡ (err type_error, (connected, serving))
unfolding invoke_named get
name_is_taken = refl
