-- ===== src/Web/Sock.antt =====
-- nmoscommon/webapi.py, handle_sock: the loop over the messages of a websocket. `func` tells whether
-- it returns; what it raises ends the loop.
use nmos_common.Common.{
  String, Bool, Option, none, some, List, [], ◌∷◌, not, ◌==◌, keep_if, if◌then◌else◌,
}

-- how the loop stands after what was received: it waits, the socket is closed, or `func` raised
pub data Ended : Type 0 where
  waiting closed_sock raised_sock : Ended

-- the ids of the open websockets, and what `func` acts on
pub record Socks (S : Type 0) : Type 0 where
  pub socks : List String
  pub app : S

module _ {S : Type 0} (func : String → S → Bool × S) (sock_uuid : String) where
  -- `del socks[sock_uuid]`
  unfoldable pub forget : Socks S → Socks S
  forget s = record s { socks = keep_if (λ id. not (id == sock_uuid)) s.socks }

  -- the loop; none is a receive that gives None or raises
  unfoldable pub receive_all : List (Option String) → Socks S → Ended × Socks S
  receive_all [] s = (waiting, s)
  receive_all (none ∷ messages) s = (closed_sock, forget s)
  receive_all (some message ∷ messages) s =
      let (returns, app) = func message s.app in
      let s' : Socks S = record s { app = app } in
      let later = receive_all messages s' in if returns then later else (raised_sock, s')

  unfoldable pub handle_sock : List (Option String) → Socks S → Ended × Socks S
  handle_sock messages s = receive_all messages (record s { socks = sock_uuid ∷ s.socks })
