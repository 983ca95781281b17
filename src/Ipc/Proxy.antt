-- ===== src/Ipc/Proxy.antt =====
-- nmoscommon/ipc.py, class Proxy. What the socket leads to is a peer with a state of its own, which
-- gives a reply in time or does not.
use nmos_common.Common.{
  String, Bool, true, false, Option, none, some, List, [], ◌∷◌, ◌||◌, not, if◌then◌else◌,
}
use nmos_common.Common.Dict.{Dict, has}
use nmos_common.Common.Exec.{Result, ok, err}
use nmos_common.Common.Json.{Json, null, str, list, dict, end, field}
use nmos_common.Ipc.{received, Reply, empty, ret, exc, Host, run}
use nmos_common.Ipc.Wire.{items_of, fields_of}

pub data ProxyExn : Type 0 where
  local_exception again attribute_error type_error : ProxyExn
  remote_exception : String → ProxyExn

pub record Peer (P : Type 0) : Type 0 where
  -- whether `send_json` finds the socket writable
  pub takes : P → Bool
  pub answer : Json → P → Option Reply × P

-- `connected` is false when `self.socket` is None
pub record Proxy : Type 0 where
  pub connected : Bool

unfoldable pub close : Proxy → Proxy
close p = record { connected = false }

abbrev pub result_of : Reply → Result ProxyExn Json
result_of empty = ok null
result_of (ret v) = ok v
result_of (exc text) = err (remote_exception text)

-- after `poll`
abbrev pub polled : {P : Type 0} → Option Reply × P → Proxy → Result ProxyExn Json × (Proxy × P)
polled (none, peer) p = (err local_exception, (close p, peer))
polled (some r, peer) p = (result_of r, (p, peer))

-- the message, for arguments that are JSON
unfoldable pub call_message : String → List Json → Dict Json → Json
call_message name args kwargs = dict (
    field "function" (str name)
      (field "args" (list (items_of args)) (field "kwargs" (dict (fields_of kwargs)) end)))

-- the keywords that are parameters of `invoke_named` itself
abbrev pub is_taken : Dict Json → Bool
is_taken kwargs = has "name" kwargs || has "self" kwargs

-- `invoke_named`, which `__getattr__` calls with the attribute's name
unfoldable pub invoke_named :
    {P : Type 0}
    → Peer P
    → String
    → List Json
    → Dict Json
    → Proxy × P
    → Result ProxyExn Json × (Proxy × P)
invoke_named net name args kwargs (p, peer) =
    if is_taken kwargs
    then (err type_error, (p, peer))
    else if not p.connected
    then (err attribute_error, (p, peer))
    else if net.takes peer
    then polled (net.answer (call_message name args kwargs) peer) p
    else (err again, (p, peer))

-- A host as the peer: it runs one round for the message. `in_time` tells whether its reply comes
-- before the proxy's timeout.
abbrev pub first : List Reply → Option Reply
first [] = none
first (r ∷ _) = some r

abbrev pub host_peer : {S : Type 0} → (Json → String) → Bool → Peer (Host S)
host_peer traceback in_time = record {
  takes = λ h. true;
  answer = λ m h.
      let (_, h') = run traceback (received m ∷ []) (record h { sent = [] }) in
      ((if in_time then first h'.sent else none), h');
}
