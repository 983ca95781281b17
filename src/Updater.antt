-- ===== src/Updater.antt =====
-- nmoscommon/aggregator.py, class MDNSUpdater: the peer-to-peer fallback of a Node, and the mDNS
-- TXT records that announce it. The greenlet of `_modify_mdns` is one round of its loop; the mDNS
-- engine that a round calls is a parameter with a state of its own.
pub mod Count
pub mod Versions
use nmos_common.Common.{
  ℕ, ◌+◌, String, Bool, true, false, not, ◌||◌, Option, none, some, List, [], ◌∷◌, ◌++◌, ltb, leb,
  ◌==◌, if◌then◌else◌,
}
use nmos_common.Common.Dict.{Dict, get, put}

-- a value of a TXT record: the caller's texts, and the version counters
pub data Txt : Type 0 where
  text : String → Txt
  version : ℕ → Txt

pub record Updater : Type 0 where
  pub mappings : Dict String
  pub service_versions : Dict ℕ
  pub txt_rec_base : Dict Txt
  pub p2p_enable : Bool
  pub p2p_enable_count : ℕ
  pub p2p_cut_in_count : ℕ
  pub update_queue : List (Dict Txt)

-- the loop of `__init__` over the values of `mappings`
unfoldable pub zero_versions : Dict String → Dict ℕ → Dict ℕ
zero_versions [] versions = versions
zero_versions ((_, map_value) ∷ mappings) versions =
    zero_versions mappings (put map_value 0 versions)

unfoldable pub init : Dict String → Bool → ℕ → Dict Txt → Updater
init mappings p2p_enable p2p_cut_in_count txt_recs = record {
  mappings = mappings;
  service_versions = zero_versions mappings [];
  txt_rec_base = txt_recs;
  p2p_enable = p2p_enable;
  p2p_enable_count = 0;
  p2p_cut_in_count = p2p_cut_in_count;
  update_queue = [];
}

-- `txt_recs.update(versions)`
unfoldable pub add_versions : Dict ℕ → Dict Txt → Dict Txt
add_versions [] txt_recs = txt_recs
add_versions ((k, v) ∷ versions) txt_recs = add_versions versions (put k (version v) txt_recs)

unfoldable pub p2p_txt_recs : Updater → Dict Txt
p2p_txt_recs u = add_versions u.service_versions u.txt_rec_base

-- `_mdns_update_queue.put`
abbrev pub enqueue : Dict Txt → Updater → Updater
enqueue txt_recs u = record u { update_queue = u.update_queue ++ txt_recs ∷ [] }

unfoldable pub enable_p2p : Updater → Updater
enable_p2p u =
    if not u.p2p_enable
    then (let on = record u { p2p_enable = true } in enqueue (p2p_txt_recs on) on)
    else u

unfoldable pub inc_p2p_enable_count : Updater → Updater
unfolding enable_p2p
inc_p2p_enable_count u =
    if not u.p2p_enable
    then (let counted = record u { p2p_enable_count = u.p2p_enable_count + 1 } in
        if leb counted.p2p_cut_in_count counted.p2p_enable_count
        then enable_p2p counted
        else counted)
    else u

unfoldable pub disable_p2p : Updater → Updater
disable_p2p u =
    if u.p2p_enable
    then enqueue u.txt_rec_base (record u { p2p_enable = false; p2p_enable_count = 0 })
    else record u { p2p_enable_count = 0 }

-- the counter that follows `v`: it is increased, and reset if it passed 255
unfoldable pub bump : ℕ → ℕ
bump v = if ltb 255 (v + 1) then 0 else v + 1

-- `none` is a KeyError: the type has no mapping, or the mapping no counter
unfoldable pub increment_service_version : String → Updater → Option Updater
unfolding bump
increment_service_version type u = elim (get type u.mappings) [
  | none ↦ none
  | some mapped ↦ elim (get mapped u.service_versions) [
    | none ↦ none
    | some v ↦ some (record u { service_versions = put mapped (bump v) u.service_versions })
  ]
]

abbrev pub is_action : String → Bool
is_action action = action == "register" || action == "update" || action == "unregister"

abbrev queue_versions : Option Updater → Option Updater
queue_versions none = none
queue_versions (some u) = some (enqueue (p2p_txt_recs u) u)

unfoldable pub update_mdns : String → String → Updater → Option Updater
update_mdns type action u =
    if u.p2p_enable
    then (if is_action action then queue_versions (increment_service_version type u) else some u)
    else some u

-- One round of `_modify_mdns` for an engine with state `E`: what `mdns.update` does to the engine
-- is the new state, and a ServiceNotFoundException from it, `false`, is logged and dropped.
module _ {E : Type 0} (update : Dict Txt → E → E × Bool) where
  round : List (Dict Txt) → Updater → E → Updater × E
  round [] u engine = (u, engine)
  round (txt_recs ∷ rest) u engine =
      let (engine', _) = update txt_recs engine in (record u { update_queue = rest }, engine')

  unfoldable pub modify_mdns : Updater → E → Updater × E
  unfolding round
  modify_mdns u engine = round u.update_queue u engine
