-- ===== src/Mdns/Listener.antt =====
-- Listening to multicast DNS (nmoscommon/mdns/mdnsListener.py). Every element that is put into the
-- queue starts a thread that takes one out. A thread is what it has still to do, and between any two
-- of its accesses to the queue, the records or the client other threads may run; what zeroconf finds
-- is an argument.
use nmos_common.Common.{
  ℕ, String, ◌≡◌, Bool, Option, none, some, List, [], ◌∷◌, ◌++◌, if◌then◌else◌,
}
use nmos_common.Common.Dict.{Dict, get, put, remove, has, keys}

-- `zeroconf.ServiceInfo`, the server's name being without its last dot
pub record Found : Type 0 where
  pub type : String
  pub name : String
  pub port : ℕ
  pub server : String
  pub address : String
  pub properties : Dict String

pub data Change : Type 0 where
  appears vanishes : Change

-- what the client's callback gets
pub record Notice : Type 0 where
  pub change : Change
  pub found : Found

abbrev pub Records : Type 0
Records = Dict (Dict Found)

-- where a thread stands: it waits for an element, looks it up, looks whether the service that was not
-- found has a record, writes a record, makes the dict for a type that has none, takes a record out,
-- is about to call the client,
-- or adds the services with a record once more
pub data Thread : Type 0 where
  waiting : Thread
  looking checking removing : (srv_type name : String) → Thread
  storing creating : (srv_type name : String) → Found → Thread
  telling : Notice → Thread
  collecting : String → Thread
  putting : String → List String → Thread

pub record Listener : Type 0 where
  pub records : Records
  pub queue : List (String × String)
  pub threads : List Thread
  pub heard : List Notice

unfoldable pub new_listener : Listener
new_listener = record { records = []; queue = []; threads = []; heard = [] }

unfoldable pub add_service : String → String → Listener → Listener
add_service srv_type name s = record s {
  queue = s.queue ++ (srv_type, name) ∷ [];
  threads = waiting ∷ s.threads;
}

-- a call of `remove_service` by zeroconf, and of `garbageCollect` by the timer of a subscription
unfoldable pub call_remove_service : String → String → Listener → Listener
call_remove_service srv_type name s = record s { threads = removing srv_type name ∷ s.threads }

unfoldable pub call_garbage_collect : String → Listener → Listener
call_garbage_collect srv_type s = record s { threads = collecting srv_type ∷ s.threads }

-- what a thread goes on with; nothing is that it has ended, by a KeyError too
abbrev pub Advance : Type 0
Advance = List Thread × Listener

-- `self._resolve_queue.get()`, which blocks while nothing is there
abbrev pub take : List (String × String) → Listener → Advance
take [] s = (waiting ∷ [], s)
take ((srv_type, name) ∷ queue) s = (looking srv_type name ∷ [], record s { queue = queue })

-- `zeroconf.get_service_info(srv_type, name)` has returned
abbrev pub looked_up : String → String → Option Found → Thread
looked_up srv_type name (some info) = storing srv_type name info
looked_up srv_type name none = checking srv_type name

-- `name in self.records[srv_type]`
abbrev pub check_name : String → String → Option (Dict Found) → Listener → Advance
check_name srv_type name none s = ([], s)
check_name srv_type name (some d) s = ((if has name d then removing srv_type name ∷ [] else []), s)

-- `self.records[srv_type][name] = info` in `_update_record`
abbrev pub update_record : String → String → Found → Option (Dict Found) → Listener → Advance
update_record srv_type name info none s = (creating srv_type name info ∷ [], s)
update_record srv_type name info (some d) s = (
  telling (record { change = appears; found = info }) ∷ [],
  record s { records = put srv_type (put name info d) s.records },
)

-- `self.records[srv_type] = {}`, which forgets what another thread has stored meanwhile
abbrev pub create_type : String → String → Found → Listener → Advance
create_type srv_type name info s =
    (storing srv_type name info ∷ [], record s { records = put srv_type [] s.records })

-- `_respondToClient`
abbrev pub respond_to_client : Notice → Listener → Advance
respond_to_client notice s = ([], record s { heard = s.heard ++ notice ∷ [] })

-- `garbageCollect`: the keys are listed, then put into the queue one by one
abbrev pub collected : String → Option (Dict Found) → Listener → Advance
collected srv_type none s = ([], s)
collected srv_type (some d) s = (putting srv_type (keys d) ∷ [], s)

abbrev pub put_names : String → List String → Listener → Advance
put_names srv_type [] s = ([], s)
put_names srv_type (name ∷ names) s =
    (putting srv_type names ∷ waiting ∷ [], record s { queue = s.queue ++ (srv_type, name) ∷ [] })

module _ (register_only : Bool) where
  -- `self.records[srv_type].pop(name)`
  abbrev pub popped : String → String → Dict Found → Option Found → Listener → Advance
  popped srv_type name d none s = ([], s)
  popped srv_type name d (some info) s = (
    (if register_only then [] else telling (record { change = vanishes; found = info }) ∷ []),
    record s { records = put srv_type (remove name d) s.records },
  )

  abbrev pub removed_from : String → String → Option (Dict Found) → Listener → Advance
  removed_from srv_type name none s = ([], s)
  removed_from srv_type name (some d) s = popped srv_type name d (get name d) s

  -- the next access of a thread; `info` is what zeroconf finds, where it is asked
  unfoldable pub advance : Thread → Option Found → Listener → Advance
  advance waiting info s = take s.queue s
  advance (looking srv_type name) info s = (looked_up srv_type name info ∷ [], s)
  advance (checking srv_type name) info s = check_name srv_type name (get srv_type s.records) s
  advance (removing srv_type name) info s = removed_from srv_type name (get srv_type s.records) s
  advance (storing srv_type name found) info s =
      update_record srv_type name found (get srv_type s.records) s
  advance (creating srv_type name found) info s = create_type srv_type name found s
  advance (telling notice) info s = respond_to_client notice s
  advance (collecting srv_type) info s = collected srv_type (get srv_type s.records) s
  advance (putting srv_type names) info s = put_names srv_type names s

-- a thread among the others
abbrev pub put_back : List Thread → List Thread → Advance → Listener
put_back before behind (threads, s) = record s { threads = before ++ (threads ++ behind) }

-- An info that zeroconf finds is of the type and name that were asked for.
abbrev pub IsAnswer : Thread → Option Found → Type 0
IsAnswer (looking srv_type name) (some info) = (info.type ≡ srv_type) × (info.name ≡ name)
IsAnswer _ info = Unit

-- What zeroconf and the threads do, in any order: a call of zeroconf, or one access of one thread.
pub data Step (register_only : Bool) (s : Listener) : Listener → Type 0 where
  adds : (srv_type name : String) → Step register_only s (add_service srv_type name s)
  removes : (srv_type name : String) → Step register_only s (call_remove_service srv_type name s)
  collects : (srv_type : String) → Step register_only s (call_garbage_collect srv_type s)
  runs :
      (before : List Thread) (thread : Thread) (behind : List Thread) (info : Option Found)
      → s.threads ≡ before ++ thread ∷ behind
      → IsAnswer thread info
      → Step register_only s (put_back before behind (advance register_only thread info s))

pub data Reach (register_only : Bool) : Listener → Type 0 where
  new : Reach register_only new_listener
  next : {s t : Listener} → Reach register_only s → Step register_only s t → Reach register_only t
