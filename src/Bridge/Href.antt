-- ===== src/Bridge/Href.antt =====
-- What `getHref` returns, and what it leaves (nmoscommon/mdnsbridge.py).
use nmos_common.Common.{
  ℕ, suc, ◌<◌, String, ◌≡◌, refl, ◌⊎◌, inl, inr, Bool-cases, ◌&&◌, Option, some, List, [], ◌∷◌,
  arith, leb, keep_if, length, In, get_elem?, get_elem?-lt, ◌==◌, leb→le, if◌then◌else◌,
}
use nmos_common.Bridge.{
  Service, Config, Bridge, Env, candidates, choose, refresh, ensure, update_services, take_choice,
  effective, get_href, create_href, listed_as, local_query_url,
}
use nmos_common.Bridge.Select.{
  head_choice, has_priority, lowest_priority, choose_lowest, choose_exact,
}

-- `random.randint(0, n - 1)` lies below n
abbrev pub IsPicker : Env → Type 0
IsPicker env = (n : ℕ) → env.pick (suc n) < suc n

-- what a call returns when the services to choose from are `chosen`
abbrev pub fallback : String → Env → String
fallback srv_type env = if srv_type == "nmos-query" && env.local_query then local_query_url else ""

abbrev pub Answers : String → Env → Config → List Service → Option String → Type 0
Answers srv_type env config chosen result =
    ((s : Service) × In s chosen × (result ≡ some (create_href config s)))
    ⊎ ((chosen ≡ []) × (result ≡ some (fallback srv_type env)))

module _ (srv_type : String) (env : Env) (bridge : Bridge) where
  head_Answers :
      (l : List Service)
      → Answers srv_type env bridge.config l (take_choice srv_type env (head_choice l) bridge).0
  unfolding take_choice
  head_Answers [] = inr (refl, refl)
  head_Answers (s ∷ l) = inl (s, (0, refl), refl)

  take_at :
      (c s : Service) (l : List Service)
      → get_elem? (c ∷ l) (env.pick (length (c ∷ l))) ≡ some s
      → (take_choice srv_type env (candidates (c ∷ l)) bridge).0
        ≡ some (create_href bridge.config s)
  unfolding take_choice
  take_at c s l at = rw (at, take_choice)

  candidates_Answers :
      (l : List Service)
      → IsPicker env
      → Answers srv_type env bridge.config l (take_choice srv_type env (candidates l) bridge).0
  candidates_Answers [] picker = unfold take_choice in inr (refl, refl)
  candidates_Answers (c ∷ l) picker =
      let (s, at) = get_elem?-lt (c ∷ l) (env.pick (length (c ∷ l))) (picker (length l)) in
      inl (s, (env.pick (length (c ∷ l)), at), take_at c s l at)

module _ (api_ver api_proto : Option String) where
  -- the priority that a chosen service has
  unfoldable pub wanted : ℕ → List Service → ℕ
  wanted priority services =
      if leb 100 priority then priority else lowest_priority api_ver api_proto 99 services

  -- the services that a choice is made from
  unfoldable pub eligible : ℕ → List Service → List Service
  unfolding wanted
  eligible priority services =
      keep_if (has_priority api_ver api_proto (wanted priority services)) services

  take_choice_lem :
      (srv_type : String) (priority : ℕ) (services : List Service) (env : Env) (bridge : Bridge)
      → IsPicker env
      → Answers srv_type env bridge.config
          (eligible priority services)
          (take_choice srv_type env (choose api_ver api_proto priority services) bridge).0
  unfolding eligible
  take_choice_lem srv_type priority services env bridge picker =
      elim (Bool-cases (leb 100 priority)) [
        | inl high ↦
            rw (high, choose_exact api_ver api_proto priority services (leb→le _ _ high))
              (head_Answers srv_type env bridge _)
        | inr low ↦
            rw (low, choose_lowest api_ver api_proto priority services (ground arith))
              (candidates_Answers srv_type env bridge _ picker)
      ]

  pub refresh-config :
      (srv_type : String) (priority : ℕ) (env : Env) (bridge : Bridge)
      → (refresh srv_type priority api_ver api_proto env bridge).config ≡ bridge.config
  unfolding refresh update_services ensure
  refresh-config srv_type priority env bridge = ground arith

  -- `getHref` always returns, if `random.randint` keeps to its range. It gives the address of a
  -- service that is stored for the type after any refresh, is of the version and protocol asked
  -- for and has the wanted priority: the given one from 100 on, and below 100 the lowest among
  -- those that match. Only if there is no such service does it return "", or the local query
  -- service when that answers.
  pub get_href_lem :
      (srv_type : String) (given : Option ℕ) (env : Env) (bridge : Bridge)
      → IsPicker env
      → Answers srv_type env bridge.config
          (eligible (effective given bridge) (
            listed_as srv_type
              (refresh srv_type (effective given bridge) api_ver api_proto env bridge)))
          (get_href srv_type given api_ver api_proto env bridge).0
  unfolding get_href
  get_href_lem srv_type given env bridge picker =
      let priority : ℕ = effective given bridge in
      let bridge' : Bridge = refresh srv_type priority api_ver api_proto env bridge in
      rw (refresh-config srv_type priority env bridge) at
        (take_choice_lem srv_type priority (listed_as srv_type bridge') env bridge' picker)
