-- ===== src/Dns/Replay.antt =====
-- What a client knows from what it heard (nmoscommon/mdns/dnsListener.py), and what the reading of
-- records leaves of a service (nmoscommon/mdns/dnsService.py).
use nmos_common.Common.{
  String, ◌≡◌, refl, Bool, true, false, List, [], ◌∷◌, ◌++◌, ◌==◌, arith, if◌then◌else◌,
}
use nmos_common.Common.Exec.{Result, modify}
use nmos_common.Common.Exec.Preserves.{
  Preserves, modify-Preserves, bind-Preserves, gets-Preserves, pure-Preserves,
}
use nmos_common.Dns.{Resolver, DnsExn}
use nmos_common.Dns.Record.{
  Service, Heard, Action, add, remove, lift, parse_srv_record, initialise_from_dns,
}

abbrev pub is_add : Action → Bool
is_add add = true
is_add remove = false

-- the names of the services that a client knows after the events, if it knew `known` before
abbrev pub replay : (String → Bool) → List Heard → String → Bool
replay known [] n = known n
replay known (h ∷ hs) n = replay (λ m. if h.name == m then is_add h.action else known m) hs n

pub replay-append :
    (hs more : List Heard) (known : String → Bool) (n : String)
    → replay known (hs ++ more) n ≡ replay (replay known hs) more n
replay-append [] more known n = refl
replay-append (h ∷ hs) more known n = replay-append hs more _ n

-- reading the records again keeps the name, and whether the service runs
abbrev pub IsSame : String → Bool → Service → Type 0
IsSame name running s = (s.name ≡ name) × (s.running ≡ running)

module _ (name : String) (running : Bool) where
  lift-IsSame : {A : Type 0} (r : Result DnsExn A) → Preserves (IsSame name running) (lift r)
  unfolding lift
  lift-IsSame r = record { at = λ s h. h }

  set-IsSame :
      (f : Service → Service)
      → ((s : Service) → ((f s).name ≡ s.name) × ((f s).running ≡ s.running))
      → Preserves (IsSame name running) (modify {E = DnsExn} f)
  set-IsSame f same = modify-Preserves f (λ s h. ground (arith, same s))

  parse_srv_record-IsSame :
      (r : Resolver) (values : List String)
      → Preserves (IsSame name running) (parse_srv_record r values)
  unfolding parse_srv_record
  parse_srv_record-IsSame r [] = pure-Preserves tt
  parse_srv_record-IsSame r (value ∷ values) = bind-Preserves _ _ (lift-IsSame _) λ fields.
      bind-Preserves _ _ (set-IsSame _ (λ s. (refl, refl))) λ _.
        bind-Preserves _ _ (lift-IsSame _) λ address.
          bind-Preserves _ _ (set-IsSame _ (λ s. (refl, refl))) λ _.
            bind-Preserves _ _ (lift-IsSame _) λ port.
              bind-Preserves _ _ (set-IsSame _ (λ s. (refl, refl)))
                (λ _. parse_srv_record-IsSame r values)

  initialise-IsSame : (r : Resolver) → Preserves (IsSame name running) (initialise_from_dns r)
  unfolding initialise_from_dns
  initialise-IsSame r = bind-Preserves _ _ (gets-Preserves _) λ name.
      bind-Preserves _ _ (lift-IsSame _) λ srv. bind-Preserves _ _ (lift-IsSame _) λ txt.
        bind-Preserves _ _ (set-IsSame _ (λ s. (refl, refl))) λ _.
          bind-Preserves _ _ (lift-IsSame _) λ d.
            bind-Preserves _ _ (set-IsSame _ (λ s. (refl, refl)))
              (λ _. parse_srv_record-IsSame r (srv.0 ∷ srv.1))

pub initialise_from_dns-IsSame :
    (r : Resolver) (s : Service) → IsSame s.name s.running (initialise_from_dns r s).1
initialise_from_dns-IsSame r s = (initialise-IsSame s.name s.running r).at s (refl, refl)
