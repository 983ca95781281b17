-- ===== src/Tests/Bridges.antt =====
-- The bridge's client at concrete inputs (nmoscommon/mdnsbridge.py).
use nmos_common.Common.{ℕ, ◌≡◌, refl, ◌⊎◌, false, some, none, [], ◌∷◌, arith, String, List}
use nmos_common.Common.Dict.{get, put}
use nmos_common.Bridge.{
  Service, Config, Env, listed, effective, listed_as, refresh, get_href, create_href, in_mode,
  address_of,
}
use nmos_common.Bridge.Href.{get_href_lem, Answers, eligible, fallback}
use nmos_common.Bridge.Mode.{ask-run, mode_protocol, Ask, ask, run, init}

abbrev at_priority : ℕ → String → Service
at_priority n address = record {
  versions = "v1.2" ∷ [];
  protocol = "http";
  priority = n;
  hostname = none;
  address = address;
  port = "80";
}

abbrev found : List Service
found =
    at_priority 20 "10.0.0.1"
    ∷ at_priority 10 "10.0.0.2"
    ∷ at_priority 10 "10.0.0.3"
    ∷ at_priority 100 "10.0.0.4"
    ∷ []

abbrev config : Config
config = record { priority = 0; https_mode = "disabled"; prefer_hostnames = false }

abbrev env : Env
env = record { answer = listed found; local_query = false; pick = λ n. 0 }

abbrev question : Ask
question = record {
  srv_type = "nmos-register";
  given = none;
  api_ver = some "v1.2";
  api_proto = some "http";
  env = env;
}

get_href_lem_example :
    Answers "nmos-register" env config
      (eligible (some "v1.2") (some "http") (effective none (init config)) (
        listed_as "nmos-register" (
          refresh "nmos-register"
            (effective none (init config))
            (some "v1.2")
            (some "http")
            env
            (init config))))
      (get_href "nmos-register" none (some "v1.2") (some "http") env (init config)).0
unfolding init
get_href_lem_example =
    get_href_lem (some "v1.2") (some "http") "nmos-register" none env (init config)
      (λ n. omega arith)

ask-run_example :
    ((s : Service) × (s.protocol ≡ mode_protocol config)
      × ((ask question (run (question ∷ []) (init config))).0 ≡ some (create_href config s)))
    ⊎ ((ask question (run (question ∷ []) (init config))).0 ≡ some (fallback "nmos-register" env))
ask-run_example = ask-run config (question ∷ []) question (λ n. omega arith)

-- the first of the two services of the lowest priority
chosen :
    (get_href "nmos-register" none (some "v1.2") (some "http") env (init config)).0
    ≡ some "http://10.0.0.2:80"
unfolding init get_href create_href get put in_mode address_of
chosen = refl
