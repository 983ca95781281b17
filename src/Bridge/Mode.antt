-- ===== src/Bridge/Mode.antt =====
-- The stored services follow the configured mode (nmoscommon/mdnsbridge.py, `_updateServices`).
use nmos_common.Common.{
  ℕ, String, ◌≡◌, refl, sym, subst, ◌∙◌, ◌⊎◌, inl, inr, Option-cases, Option, some, List, [], ◌∷◌,
  arith, if_both, length, get_elem?, keep_if, All, All-In, get_elem?-keep_if, ◌==◌, eq_iff,
  if◌then◌else◌,
}
use nmos_common.Common.Dict.{get, put, get-put}
use nmos_common.Bridge.{
  Service, Config, Bridge, Env, Choice, direct, candidates, Answer, unreachable, listed, refresh,
  ensure, update_services, in_mode, take_choice, effective, get_href, create_href, listed_as,
  remove_first,
}
use nmos_common.Bridge.Href.{IsPicker, fallback, eligible, get_href_lem, refresh-config}

-- the one protocol of the configured mode
abbrev pub mode_protocol : Config → String
mode_protocol config = if config.https_mode == "enabled" then "https" else "http"

abbrev pub AllInMode : Config → List Service → Type 0
AllInMode config = All (λ s. s.protocol ≡ mode_protocol config)

-- Every stored service has the protocol of the mode.
pub record IsInMode (bridge : Bridge) : Type 0 where
  pub stored : (t : String) → AllInMode bridge.config (listed_as t bridge)

keep_if-AllInMode :
    (config : Config) (l : List Service) → AllInMode config (keep_if (in_mode config) l)
unfolding in_mode
keep_if-AllInMode config [] = tt
keep_if-AllInMode config (s ∷ l) =
    ground (arith, keep_if-AllInMode config l, eq_iff s.protocol "https", eq_iff s.protocol "http")

remove_first-AllInMode :
    (config : Config) (s : Service) (l : List Service)
    → AllInMode config l
    → AllInMode config (remove_first s l)
unfolding remove_first
remove_first-AllInMode config s [] h = h
remove_first-AllInMode config s (t ∷ l) h = ground (arith, remove_first-AllInMode config s l h.1)

listed_as-put :
    (bridge : Bridge) (t j : String) (l : List Service)
    → listed_as j (record bridge { services = put t l bridge.services })
      ≡ (if t == j then l else listed_as j bridge)
listed_as-put bridge t j l = ground (arith, get-put t j l bridge.services)

-- a write of a list in the mode
put-IsInMode :
    (bridge : Bridge) (t : String) (l : List Service)
    → AllInMode bridge.config l
    → IsInMode bridge
    → IsInMode (record bridge { services = put t l bridge.services })
put-IsInMode bridge t l h ok = record {
  stored = λ j.
      subst (AllInMode bridge.config) (sym (listed_as-put bridge t j l))
        (if_both (AllInMode bridge.config) (t == j) l (listed_as j bridge) h (ok.stored j));
}

ensure-IsInMode : (t : String) (bridge : Bridge) → IsInMode bridge → IsInMode (ensure t bridge)
unfolding ensure
ensure-IsInMode t bridge ok = elim (Option-cases (get t bridge.services)) [
  | inl absent ↦ rw (absent, ensure) (put-IsInMode bridge t [] tt ok)
  | inr (l, found) ↦ rw (found, ensure) ok
]

update-IsInMode :
    (t : String) (a : Answer) (bridge : Bridge)
    → IsInMode bridge
    → IsInMode (update_services t a bridge)
unfolding update_services
update-IsInMode t unreachable bridge ok = ok
update-IsInMode t (listed l) bridge ok =
    put-IsInMode bridge t _ (keep_if-AllInMode bridge.config l) ok

module _ (api_ver api_proto : Option String) (t : String) (env : Env) where
  refresh-IsInMode :
      (p : ℕ) (bridge : Bridge)
      → IsInMode bridge
      → IsInMode (refresh t p api_ver api_proto env bridge)
  unfolding refresh
  refresh-IsInMode p bridge ok =
      let known : IsInMode (ensure t bridge) = ensure-IsInMode t bridge ok in
      if_both IsInMode _ _ _ (update-IsInMode t env.answer (ensure t bridge) known) known

  take-IsInMode :
      (c : Choice) (bridge : Bridge) → IsInMode bridge → IsInMode (take_choice t env c bridge).1
  unfolding take_choice
  take-IsInMode (direct s) bridge ok = ok
  take-IsInMode (candidates []) bridge ok = ok
  take-IsInMode (candidates (c ∷ l)) bridge ok =
      elim (Option-cases (get_elem? (c ∷ l) (env.pick (length (c ∷ l))))) [
        | inl out ↦ rw (out, take_choice) ok
        | inr (s, at) ↦
            rw (at, take_choice)
              (put-IsInMode bridge t (remove_first s (listed_as t bridge))
                (remove_first-AllInMode bridge.config s (listed_as t bridge) (ok.stored t)) ok)
      ]

  get_href-IsInMode :
      (given : Option ℕ) (bridge : Bridge)
      → IsInMode bridge
      → IsInMode (get_href t given api_ver api_proto env bridge).1
  unfolding get_href
  get_href-IsInMode given bridge ok =
      take-IsInMode _ _ (refresh-IsInMode (effective given bridge) bridge ok)

  take-config :
      (c : Choice) (bridge : Bridge) → (take_choice t env c bridge).1.config ≡ bridge.config
  unfolding take_choice
  take-config (direct s) bridge = refl
  take-config (candidates []) bridge = refl
  take-config (candidates (c ∷ l)) bridge = ground arith

  get_href-config :
      (given : Option ℕ) (bridge : Bridge)
      → (get_href t given api_ver api_proto env bridge).1.config ≡ bridge.config
  unfolding get_href
  get_href-config given bridge =
      take-config _ _ ∙ refresh-config api_ver api_proto t (effective given bridge) env bridge

  -- One call on a bridge that is in its mode.
  mode_of_href :
      (given : Option ℕ) (bridge : Bridge)
      → IsPicker env
      → IsInMode bridge
      → ((s : Service) × (s.protocol ≡ mode_protocol bridge.config)
          × ((get_href t given api_ver api_proto env bridge).0
              ≡ some (create_href bridge.config s)))
        ⊎ ((get_href t given api_ver api_proto env bridge).0 ≡ some (fallback t env))
  unfolding eligible
  mode_of_href given bridge picker ok =
      elim (get_href_lem api_ver api_proto t given env bridge picker) [
        | inl (s, (i, at), e) ↦
            let bridge' : Bridge =
              refresh t (effective given bridge) api_ver api_proto env bridge in
            let (stored, _) = get_elem?-keep_if _ (listed_as t bridge') i s at in
            inl (
              s,
              rw (refresh-config api_ver api_proto t (effective given bridge) env bridge) at (
                  All-In _ (listed_as t bridge') s
                    ((refresh-IsInMode (effective given bridge) bridge ok).stored t) stored),
              e,
            )
        | inr (none_left, e) ↦ inr e
      ]

-- the arguments of one call, and what its requests would answer
pub record Ask : Type 0 where
  pub srv_type : String
  pub given : Option ℕ
  pub api_ver : Option String
  pub api_proto : Option String
  pub env : Env

unfoldable pub ask : Ask → Bridge → Option String × Bridge
ask a bridge = get_href a.srv_type a.given a.api_ver a.api_proto a.env bridge

unfoldable pub run : List Ask → Bridge → Bridge
unfolding ask
run [] bridge = bridge
run (a ∷ asks) bridge = run asks (ask a bridge).1

unfoldable pub init : Config → Bridge
init config = record { services = []; config = config }

run-IsInMode : (asks : List Ask) (bridge : Bridge) → IsInMode bridge → IsInMode (run asks bridge)
unfolding run
run-IsInMode [] bridge ok = ok
run-IsInMode (a ∷ asks) bridge ok =
    run-IsInMode asks (ask a bridge).1
      (get_href-IsInMode a.api_ver a.api_proto a.srv_type a.env a.given bridge ok)

run-config : (asks : List Ask) (bridge : Bridge) → (run asks bridge).config ≡ bridge.config
unfolding run
run-config [] bridge = refl
run-config (a ∷ asks) bridge =
    run-config asks (ask a bridge).1
    ∙ get_href-config a.api_ver a.api_proto a.srv_type a.env a.given bridge

init-IsInMode : (config : Config) → IsInMode (init config)
unfolding init get
init-IsInMode config = record { stored = λ t. tt }

-- After any calls on a new bridge, a further call returns, if `random.randint` keeps to its range,
-- and gives the address of a service whose protocol is https in https mode and http otherwise, or
-- "", or the local query service.
pub ask-run :
    (config : Config) (asks : List Ask) (a : Ask)
    → IsPicker a.env
    → ((s : Service) × (s.protocol ≡ mode_protocol config)
        × ((ask a (run asks (init config))).0 ≡ some (create_href config s)))
      ⊎ ((ask a (run asks (init config))).0 ≡ some (fallback a.srv_type a.env))
unfolding ask init run
ask-run config asks a picker = rw (run-config asks (init config)) at (
    mode_of_href a.api_ver a.api_proto a.srv_type a.env a.given (run asks (init config)) picker
      (run-IsInMode asks (init config) (init-IsInMode config)))
