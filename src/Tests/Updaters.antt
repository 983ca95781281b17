-- ===== src/Tests/Updaters.antt =====
-- The mDNS updater at concrete inputs (nmoscommon/aggregator.py).
use nmos_common.Common.{ℕ, ◌≡◌, refl, ◌+◌, ◌%◌, true, false, some, [], ◌∷◌, String, List}
use nmos_common.Common.Dict.{Dict, get, put}
use nmos_common.Updater.{
  Updater, text, init, enable_p2p, inc_p2p_enable_count, update_mdns, p2p_txt_recs, enqueue,
}
use nmos_common.Updater.Count.{inc_times}
use nmos_common.Updater.Versions.{IsValid, Call, run, step, run-init-IsValid, update_mdns_lem}

abbrev mappings : Dict String
mappings = ("device", "ver_dvc") ∷ ("flow", "ver_flw") ∷ []

abbrev fresh : Updater
fresh = init mappings false 3 (("api_ver", text "v1.2") ∷ [])

abbrev switched_on : Updater
switched_on = run (Call.enable ∷ []) (init mappings true 3 [])

abbrev some_calls : List Call
some_calls =
    Call.enable
    ∷ Call.update "device" "register"
    ∷ Call.update "nothing" "register"
    ∷ Call.disable
    ∷ []

run-init-IsValid_example : IsValid (run some_calls (init mappings false 3 []))
run-init-IsValid_example = run-init-IsValid mappings false 3 [] some_calls

update_mdns_lem_example :
    (v : ℕ) × (get "ver_dvc" switched_on.service_versions ≡ some v)
    × (let u' = record switched_on {
      service_versions = put "ver_dvc" ((v + 1) % 256) switched_on.service_versions;
    } in
        update_mdns "device" "register" switched_on ≡ some (enqueue (p2p_txt_recs u') u'))
unfolding init run step enable_p2p get
update_mdns_lem_example =
    update_mdns_lem switched_on "device" "ver_dvc" "register"
      (run-init-IsValid mappings true 3 [] (Call.enable ∷ [])) refl refl refl

-- the third increment announces the versions
announced : (inc_times 4 fresh).update_queue ≡ p2p_txt_recs fresh ∷ []
unfolding inc_p2p_enable_count init p2p_txt_recs
announced = refl
