-- ===== src/Servers/Started.antt =====
-- A thread that serves an API tells when it has started or failed (nmoscommon/httpserver.py).
use nmos_common.Common.{
  if_both, Option-cases, ℕ, ◌≡◌, refl, true, Option, none, some, List, [], ◌∷◌, eqb, inl, inr,
  arith,
}
use nmos_common.Servers.Http.{
  Exn, socket_error, exception, HttpServer, Bound, given, refused, Round, Ended, ended, trying,
  set_started, fail, Left, broke, again, raised, on_error, serve, checked, bind_port, round, leave,
  loop, run,
}

-- a thread that has ended has set its event
abbrev pub Settled : Ended × HttpServer → Type 0
Settled (trying, s) = Unit
Settled (ended, s) = s.started ≡ true

abbrev HasStarted : Left → Type 0
HasStarted (broke s) = s.started ≡ true
HasStarted (again s) = Unit
HasStarted (raised e s) = Unit

fail-started : (setting : Option Exn) (e : Exn) (s : HttpServer) → (fail setting e s).started ≡ true
unfolding fail set_started
fail-started setting e s = ground arith

on_error-HasStarted :
    (port : ℕ) (setting : Option Exn) (e : Exn) (s : HttpServer)
    → HasStarted (on_error port setting e s)
unfolding on_error set_started
on_error-HasStarted port setting (socket_error n) s =
    if_both HasStarted (eqb n 48) _ _ (if_both HasStarted (eqb port 0) _ _ tt tt) refl
on_error-HasStarted port setting exception s = tt

serve-HasStarted : (port : ℕ) (r : Round) (s : HttpServer) → HasStarted (serve port r s)
unfolding serve set_started
serve-HasStarted port r s = elim (Option-cases r.starting) [
  | inr (e, h) ↦ rw h (on_error-HasStarted port r.setting e s)
  | inl h ↦ elim (Option-cases r.serving) [
    | inr (e, k) ↦ rw (h, k) (on_error-HasStarted port r.setting e (set_started r.setting s))
    | inl k ↦ rw (h, k) refl
  ]
]

checked-HasStarted : (port : ℕ) (r : Round) (s : HttpServer) → HasStarted (checked port r s)
checked-HasStarted port r s = if_both HasStarted (eqb s.port 0) _ _ tt (serve-HasStarted port r s)

bind_port-HasStarted :
    (port : ℕ) (r : Round) (b : Bound) (s : HttpServer) → HasStarted (bind_port port r b s)
bind_port-HasStarted port r (given n) s = checked-HasStarted port r (record s { port = n })
bind_port-HasStarted port r (refused e) s = tt

round-HasStarted : (port : ℕ) (r : Round) (s : HttpServer) → HasStarted (round port r s)
unfolding round
round-HasStarted port r s =
    if_both HasStarted (eqb s.port 0) _ _ (bind_port-HasStarted port r r.bound s)
      (checked-HasStarted port r s)

leave-Settled :
    (r : Round) (l : Left) (next : HttpServer → Ended × HttpServer)
    → HasStarted l
    → ((s : HttpServer) → Settled (next s))
    → Settled (leave r l next)
leave-Settled r (broke s) next h k = h
leave-Settled r (again s) next h k = k s
leave-Settled r (raised e s) next h k = fail-started r.setting e s

loop-Settled : (port : ℕ) (rounds : List Round) (s : HttpServer) → Settled (loop port rounds s)
unfolding loop
loop-Settled port [] s = tt
loop-Settled port (r ∷ rounds) s =
    leave-Settled r (round port r s) (loop port rounds) (round-HasStarted port r s)
      (loop-Settled port rounds)

-- However the thread of an HttpServer ends, by an exception in the making of the API, in binding,
-- starting or serving or without one, it has set its event `started` by then, so that nobody waits
-- for the event for ever.
pub run-Settled :
    (making : Option Exn) (rounds : List Round) (s : HttpServer) → Settled (run making rounds s)
unfolding run
run-Settled (some e) rounds s = fail-started none e s
run-Settled none rounds s = loop-Settled s.port rounds _
