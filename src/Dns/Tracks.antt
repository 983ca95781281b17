-- ===== src/Dns/Tracks.antt =====
-- What a client has heard gives the services that a controller runs
-- (nmoscommon/mdns/dnsServiceController.py).
use nmos_common.Common.{
  String, ◌≡◌, refl, sym, ◌∙◌, subst, Bool, true, false, none, some, List, [], ◌∷◌, ◌++◌,
  append-nil, ◌==◌, eq_iff, arith, All, inl, inr, Bool-cases, if_both, if◌then◌else◌,
}
use nmos_common.Common.Dict.{
  Dict, get, put, remove, has, get-put, get-remove, All-put, All-remove, All-get,
}
use nmos_common.Common.Exec.{Result, ok, err}
use nmos_common.Common.Exec.Preserves.{Preserves, modify-Preserves, bind-Preserves, pure-Preserves}
use nmos_common.Dns.{Resolver, DnsExn, record_not_found, no_default_domain, other}
use nmos_common.Dns.Record.{
  Service, Heard, add, remove_listener, add_listener, tell, initialise_from_dns, update_service,
  new_service, stop,
}
use nmos_common.Dns.Record
use nmos_common.Dns.Replay.{replay, replay-append, initialise_from_dns-IsSame}
use nmos_common.Dns.Controller.{
  Config, Controller, init, start, schedule_callback, add_service, remove_service, close_services,
  close, populated, populate_services, after_search, get_dns_services, check_for_updates, refreshed,
  ttl_callback, Step, starts, checks, expires, closes, Reach, new, next,
}

abbrev pub knows : List Heard → String → Bool
knows hs n = replay (λ _. false) hs n

-- a service of the name is kept and runs
abbrev pub runs : String → Dict Service → Bool
runs n services = elim (get n services) [ none ↦ false | some s ↦ s.running ]

-- each service is kept under its name
abbrev pub IsNamed : String × Service → Type 0
IsNamed e = e.1.name ≡ e.0

pub record IsTracked (c : Controller) : Type 0 where
  pub named : All IsNamed c.services
  pub heard : (n : String) → knows c.heard n ≡ runs n c.services

module _ (cfg : Config) (all_told : cfg.register_only ≡ false) where
  -- the four ways in which a kept service changes
  put_service :
      (c : Controller) (s : Service) (told : List Heard) (d : Controller)
      → d.services ≡ put s.name s c.services
      → d.heard ≡ c.heard ++ told
      → ((known : String → Bool) (n : String)
          → known n ≡ runs n c.services
          → replay known told n ≡ (if s.name == n then s.running else known n))
      → IsTracked c
      → IsTracked d
  put_service c s told d services heard effect it = record {
    named = rw services (All-put IsNamed s.name s c.services refl it.named);
    heard = λ n.
        rw (heard, services)
          (replay-append c.heard told (λ _. false) n
            ∙ effect (knows c.heard) n (it.heard n)
            ∙ ground (arith, get-put s.name n s c.services, it.heard n));
  }

  drop_service :
      (c : Controller) (s : Service) (d : Controller)
      → d.services ≡ remove s.name c.services
      → d.heard ≡ c.heard ++ remove_listener cfg.type cfg.register_only s
      → IsTracked c
      → IsTracked d
  unfolding remove_listener tell
  drop_service c s d services heard it = record {
    named = rw services (All-remove IsNamed s.name c.services it.named);
    heard = λ n.
        rw (heard, services, all_told)
          (replay-append c.heard _ (λ _. false) n
            ∙ ground (arith, get-remove s.name n c.services, it.heard n));
  }

  kept_service :
      (c d : Controller) → d.services ≡ c.services → d.heard ≡ c.heard → IsTracked c → IsTracked d
  kept_service c d services heard it = record {
    named = rw services it.named;
    heard = λ n. rw (heard, services) (it.heard n);
  }

  add_service-IsTracked :
      (s : Service) (c : Controller) → IsTracked c → IsTracked (add_service cfg s c)
  unfolding add_service Record.start add_listener tell
  add_service-IsTracked s c it =
      let (s', told) = Record.start cfg.type cfg.register_only s in
      if_both IsTracked (has s.name c.services) c _ it
        (put_service c s' told _ refl refl (λ known n e. refl) it)

  -- a service that ran before and is kept unread
  same_known :
      (known : String → Bool) (n : String) (s : Service) (c : Controller)
      → s.running ≡ true
      → runs s.name c.services ≡ true
      → known n ≡ runs n c.services
      → known n ≡ (if s.name == n then s.running else known n)
  same_known known n s c on before e = elim (Bool-cases (s.name == n)) [
    | inl same ↦
        rw (same, on) (e ∙ subst (λ m. runs m c.services ≡ true) ((eq_iff s.name n).0 same) before)
    | inr differs ↦ rw differs refl
  ]

  refreshed-IsTracked :
      (out : Result DnsExn (Unit {0})) (s : Service) (c : Controller)
      → s.running ≡ true
      → runs s.name c.services ≡ true
      → IsTracked c
      → IsTracked (refreshed cfg (out, s) c)
  unfolding remove_service update_service remove_listener add_listener tell Record.close
  refreshed-IsTracked (ok _) s c on before it =
      put_service c (record s { timer = true }) _ _ refl refl
        (λ known n e. rw all_told (ground arith)) it
  refreshed-IsTracked (err record_not_found) s c on before it = drop_service c s _ refl refl it
  refreshed-IsTracked (err no_default_domain) s c on before it =
      put_service c s [] _ refl (sym (append-nil c.heard))
        (λ known n e. same_known known n s c on before e) it
  refreshed-IsTracked (err other) s c on before it =
      put_service c s [] _ refl (sym (append-nil c.heard))
        (λ known n e. same_known known n s c on before e) it

  ttl_callback-IsTracked :
      (r : Resolver) (name : String) (s : Service) (c : Controller)
      → get name c.services ≡ some s
      → s.running ≡ true
      → IsTracked c
      → IsTracked (ttl_callback cfg r s c)
  unfolding ttl_callback
  ttl_callback-IsTracked r name s c found on it =
      let same = initialise_from_dns-IsSame r (record s { timer = false }) in
      let named = All-get IsNamed name c.services s found it.named in
      refreshed-IsTracked _ (initialise_from_dns r (record s { timer = false })).1 c (same.1 ∙ on)
        (subst (λ m. runs m c.services ≡ true) (sym (same.0 ∙ named)) (rw (found, runs) on)) it

  populated-IsTracked :
      (out : Result DnsExn (Unit {0}) × Service) → Preserves IsTracked (populated cfg out)
  populated-IsTracked (ok _, s) = record { at = λ c it. add_service-IsTracked s c it }
  populated-IsTracked (err e, s) = record { at = λ c it. it }

  populate_services-IsTracked :
      (r : Resolver) (names : List String) → Preserves IsTracked (populate_services cfg r names)
  unfolding populate_services
  populate_services-IsTracked r [] = pure-Preserves tt
  populate_services-IsTracked r (name ∷ names) =
      bind-Preserves _ _ (populated-IsTracked (new_service r name))
        (λ _. populate_services-IsTracked r names)

  after_search-IsTracked :
      (r : Resolver) (out : Result DnsExn (List String))
      → Preserves IsTracked (after_search cfg r out)
  unfolding schedule_callback
  after_search-IsTracked r (err e) = record { at = λ c it. it }
  after_search-IsTracked r (ok names) =
      bind-Preserves _ _ (populate_services-IsTracked r names)
        (λ _. modify-Preserves _ (λ c it. kept_service c _ refl refl it))

  -- closing tells the removal of every service, and none runs afterwards
  replay-close :
      (services : Dict Service) (known : String → Bool) (n : String)
      → All IsNamed services
      → replay known (close_services cfg services).1 n ≡ (if has n services then false else known n)
  unfolding close_services Record.close remove_listener tell get
  replay-close [] known n named = refl
  replay-close ((name, s) ∷ services) known n named =
      rw all_told (
        replay-close services _ n named.1 ∙ ground (arith, named.0, eq_iff s.name n, eq_iff name n))

  closed_none :
      (services : Dict Service) (n : String) → runs n (close_services cfg services).0 ≡ false
  unfolding close_services Record.close stop get
  closed_none [] n = refl
  closed_none ((name, s) ∷ services) n = ground (arith, closed_none services n)

  closed_named :
      (services : Dict Service) → All IsNamed services → All IsNamed (close_services cfg services).0
  unfolding close_services Record.close stop
  closed_named [] named = tt
  closed_named ((name, s) ∷ services) named = (named.0, closed_named services named.1)

  close-IsTracked : (c : Controller) → IsTracked c → IsTracked (close cfg c)
  unfolding close
  close-IsTracked c it = record {
    named = closed_named c.services it.named;
    heard = λ n.
        replay-append c.heard (close_services cfg c.services).1 (λ _. false) n
        ∙ replay-close c.services (knows c.heard) n it.named
        ∙ ground (arith, it.heard n)
        ∙ sym (closed_none c.services n);
  }

  Step-IsTracked : (c d : Controller) → Step cfg c d → IsTracked c → IsTracked d
  Step-IsTracked c _ starts it = unfold start schedule_callback in kept_service c _ refl refl it
  Step-IsTracked c _ (checks r interval set) it =
      unfold check_for_updates in
      (after_search-IsTracked r (get_dns_services cfg r)).at (record c { timer = none })
        (kept_service c _ refl refl it)
  Step-IsTracked c _ (expires r name s found on timer) it =
      ttl_callback-IsTracked r name s c found on it
  Step-IsTracked c _ closes it = close-IsTracked c it

  Reach-IsTracked : (c : Controller) → Reach cfg c → IsTracked c
  Reach-IsTracked _ new = unfold init get in record { named = tt; heard = λ n. refl }
  Reach-IsTracked _ (next {c} {d} before st) = Step-IsTracked c d st (Reach-IsTracked c before)

-- For a client that is told of removals: whatever checks, expiries of services and closes have
-- happened, and whatever the resolver answered or raised, what the client heard so far adds up to
-- exactly the services that are kept and run.
pub Reach-knows :
    (cfg : Config) (c : Controller) (n : String)
    → cfg.register_only ≡ false
    → Reach cfg c
    → knows c.heard n ≡ runs n c.services
Reach-knows cfg c n all_told before = (Reach-IsTracked cfg all_told c before).heard n
