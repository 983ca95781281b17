-- ===== src/Dns/Schedule.antt =====
-- Whether a check is followed by another one (nmoscommon/mdns/dnsServiceController.py).
use nmos_common.Common.{
  ℕ, ◌≤◌, ltb, arith, ◌⊎◌, inl, inr, All, In, In-cons, ◌∙◌, Option, none, some, String, ◌≡◌, refl,
  List, [], ◌∷◌, Bool-cases, if_both, if◌then◌else◌,
}
use nmos_common.Common.Dict.{Dict, has}
use nmos_common.Common.Exec.{Result, ok, err, ◌>>=◌, continue, modify}
use nmos_common.Common.Exec.Preserves.{Preserves, bind-Preserves, pure-Preserves}
use nmos_common.Dns.{Resolver, DnsExn}
use nmos_common.Dns.Record.{Service, new_service}
use nmos_common.Dns.Controller.{
  Config, Controller, shortest, refresh_interval, schedule_callback, add_service, populated,
  populate_services, after_search, get_dns_services, check_for_updates,
}

abbrev pub IsIdle : Controller → Type 0
IsIdle c = c.timer ≡ none

-- what the timer is to be after a check: set unless it raised, by the services that are kept then
abbrev pub next_timer : Result DnsExn (Unit {0}) → Controller → Option ℕ
next_timer (err _) c = none
next_timer (ok _) c = some (if c.running then refresh_interval c.services else 2)

-- the least of `bound` and the times to live
abbrev pub IsLeast : ℕ → ℕ → Dict Service → Type 0
IsLeast bound n services =
    (n ≤ bound)
    × All (λ e. n ≤ e.1.ttl) services
    × ((n ≡ bound) ⊎ ((e : String × Service) × In e services × (n ≡ e.1.ttl)))

module _ (cfg : Config) (r : Resolver) where
  populated-IsIdle :
      (out : Result DnsExn (Unit {0}) × Service) → Preserves IsIdle (populated cfg out)
  unfolding add_service
  populated-IsIdle (ok _, s) = record {
    at = λ c idle. if_both IsIdle (has s.name c.services) _ _ idle idle;
  }
  populated-IsIdle (err e, s) = record { at = λ c idle. idle }

  populate_services-IsIdle :
      (names : List String) → Preserves IsIdle (populate_services cfg r names)
  unfolding populate_services
  populate_services-IsIdle [] = pure-Preserves tt
  populate_services-IsIdle (name ∷ names) =
      bind-Preserves _ _ (populated-IsIdle (new_service r name))
        (λ _. populate_services-IsIdle names)

  scheduled :
      (out : Result DnsExn (Unit {0})) (c : Controller)
      → IsIdle c
      → let end = continue out (λ _. modify schedule_callback) c in
        end.1.timer ≡ next_timer end.0 end.1
  unfolding schedule_callback ◌>>=◌
  scheduled (ok _) c idle = refl
  scheduled (err e) c idle = idle

  after_search_timer :
      (out : Result DnsExn (List String)) (c : Controller)
      → IsIdle c
      → (after_search cfg r out c).1.timer
        ≡ next_timer (after_search cfg r out c).0 (after_search cfg r out c).1
  unfolding ◌>>=◌
  after_search_timer (err e) c idle = idle
  after_search_timer (ok names) c idle =
      scheduled (populate_services cfg r names c).0 (populate_services cfg r names c).1
        ((populate_services-IsIdle names).at c idle)

which :
    (ttl bound : ℕ)
    → let next = if ltb ttl bound then ttl else bound in (next ≡ bound) ⊎ (next ≡ ttl)
which ttl bound = elim (Bool-cases (ltb ttl bound)) [
  | inl h ↦ inr (rw h refl)
  | inr h ↦ inl (rw h refl)
]

IsLeast-cons :
    (bound next : ℕ) (e : String × Service) (services : Dict Service)
    → next ≤ bound
    → next ≤ e.1.ttl
    → (next ≡ bound) ⊎ (next ≡ e.1.ttl)
    → (n : ℕ) → IsLeast next n services
    → IsLeast bound n (e ∷ services)
IsLeast-cons bound next e services low lower which n (le, all_le, at) = (
  omega arith,
  (omega arith, all_le),
  elim at [
    | inr (x, there, h) ↦ inr (x, In-cons x e services there, h)
    | inl h ↦ elim which [ inl k ↦ inl (h ∙ k) | inr k ↦ inr (e, (0, refl), h ∙ k) ]
  ],
)

shortest-IsLeast :
    (bound : ℕ) (services : Dict Service) → IsLeast bound (shortest bound services) services
unfolding shortest
shortest-IsLeast bound [] = (omega arith, tt, inl refl)
shortest-IsLeast bound ((k, s) ∷ services) =
    let next = if ltb s.ttl bound then s.ttl else bound in
    IsLeast-cons bound next (k, s) services (ground arith) (ground arith) (which s.ttl bound) _
      (shortest-IsLeast next services)

-- A check for updates sets the timer of the next one exactly if it does not raise: discovery goes on
-- as long as no exception escapes, and one that does ends it. The interval is one second before
-- `start`, and else the least of an hour and half the times to live of the services kept then.
pub check_for_updates_timer :
    (cfg : Config) (r : Resolver) (c : Controller)
    → let end = check_for_updates cfg r c in
      (end.1.timer ≡ next_timer end.0 end.1)
      × IsLeast 7200 (refresh_interval end.1.services) end.1.services
unfolding check_for_updates refresh_interval
check_for_updates_timer cfg r c = (
  after_search_timer cfg r (get_dns_services cfg r) (record c { timer = none }) refl,
  shortest-IsLeast 7200 (check_for_updates cfg r c).1.services,
)
