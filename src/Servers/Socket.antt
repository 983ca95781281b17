-- ===== src/Servers/Socket.antt =====
-- nmoscommon/webSocketClient.py: the thread that keeps a websocket open, and `stop`, which another
-- thread may call at any time. The websocket package is left out: a connection is counted.
use nmos_common.Common.{
  ℕ, ◌+◌, ◌≡◌, refl, ap, ◌∙◌, Bool, true, false, List, [], ◌∷◌, all, arith, if◌then◌else◌,
}

-- `has_ws` tells whether the attribute is there
pub record Client : Type 0 where
  pub started : Bool
  pub keep_running : Bool
  pub has_ws : Bool
  pub connections : ℕ

abbrev pub new_client : Client
new_client = record { started = false; keep_running = false; has_ws = false; connections = 0 }

-- the beginning of `run`
unfoldable pub begin : Client → Client
begin c = record c { keep_running = true; has_ws = true }

-- one test of its loop, with what follows
unfoldable pub turn : Client → Client
turn c = if c.keep_running then record c { started = true; connections = c.connections + 1 } else c

-- `stop`: whether it returns, or raises an AttributeError
unfoldable pub stop : Client → Bool × Client
stop c = (c.has_ws, record c { keep_running = false })

pub data Event : Type 0 where
  begins turns stops : Event

unfoldable pub step : Event → Client → Client
step begins c = begin c
step turns c = turn c
step stops c = (stop c).1

unfoldable pub steps : List Event → Client → Client
steps [] c = c
steps (e ∷ events) c = steps events (step e c)

abbrev pub is_begun : Event → Bool
is_begun begins = false
is_begun _ = true

turn-off : (c : Client) → c.keep_running ≡ false → turn c ≡ c
unfolding turn
turn-off c off =
    ap (λ b. if b then (record c { started = true; connections = c.connections + 1 }) else c) off

steps-off :
    (events : List Event) (c : Client)
    → c.keep_running ≡ false
    → all is_begun events ≡ true
    → (steps events c).connections ≡ c.connections
unfolding steps step stop
steps-off [] c off h = refl
steps-off (begins ∷ events) c off h = ground arith
steps-off (turns ∷ events) c off h =
    ap (λ x. (steps events x).connections) (turn-off c off) ∙ steps-off events c off (ground arith)
steps-off (stops ∷ events) c off h =
    steps-off events (record c { keep_running = false }) refl (ground arith)

-- Once `stop` was called no further connection is made, whatever is called later, unless the thread
-- only then begins to run.
pub steps-stop :
    (events : List Event) (c : Client)
    → all is_begun events ≡ true
    → (steps events (stop c).1).connections ≡ c.connections
unfolding stop
steps-stop events c h = steps-off events (record c { keep_running = false }) refl h
