-- ===== src/Mdns/Announced.antt =====
-- What is announced for a registration, and what taking it back restores
-- (nmoscommon/mdns/mdnsRegistration.py, mdnsRegistrationController.py).
use nmos_common.Common.{
  String, ◌≡◌, ◌≢◌, refl, sym, ap, ◌∙◌, subst, false, Option, none, some, List, [], ◌∷◌, ◌++◌,
  append_assoc, append-nil, ◌==◌, eq_iff, eq_refl, arith, All, inl, inr, Bool-cases, is_some,
}
use nmos_common.Common.Dict.{or_empty, Dict, get, put, remove, get-put}
use nmos_common.Common.Exec.{ok}
use nmos_common.Mdns.{
  World, Info, Call, register_service, unregister_service, Registration, Registrations, Live,
  Controller, info_for, unique_name, announce, register, withdraw, unregister, is_registered, keep,
  add_registration, tidy, removed, removed_in, removed_from, remove_registration,
}

-- the infos of a registration, one for each interface
abbrev pub infos : Registration → List String → List Info
infos reg [] = []
infos reg (ip ∷ ips) = info_for reg ip ∷ infos reg ips

abbrev pub registering : List Info → List Call
registering [] = []
registering (i ∷ is) = register_service i ∷ registering is

abbrev pub unregistering : List Info → List Call
unregistering [] = []
unregistering (i ∷ is) = unregister_service i ∷ unregistering is

-- the dict `info` after the loop
abbrev pub with_infos : Registration → List String → Dict Info → Dict Info
with_infos reg [] d = d
with_infos reg (ip ∷ ips) d = with_infos reg ips (put ip (info_for reg ip) d)

abbrev at : Registration → Dict Info → List Call → Live
at reg d calls = record { reg = record reg { info = d }; calls = calls }

module _ (w : World) (reg : Registration) where
  goes_on :
      (ip : String) (ips : List String) (d : Dict Info) (calls : List Call)
      → (announce w (ip ∷ ips) (at reg d calls)).0 ≡ ok tt
      → announce w (ip ∷ ips) (at reg d calls)
        ≡ announce w ips
            (at reg (put ip (info_for reg ip) d) (calls ++ register_service (info_for reg ip) ∷ []))
  unfolding announce info_for unique_name
  goes_on ip ips d calls h = ground (arith)

  announce_lem :
      (ips : List String) (d : Dict Info) (calls : List Call)
      → (announce w ips (at reg d calls)).0 ≡ ok tt
      → announce w ips (at reg d calls)
        ≡ (ok tt, at reg (with_infos reg ips d) (calls ++ registering (infos reg ips)))
  unfolding announce
  announce_lem [] d calls h = ap (λ l. (ok tt, at reg d l)) (sym (append-nil calls))
  announce_lem (ip ∷ ips) d calls h =
      let e = goes_on ip ips d calls h in
      e
      ∙ announce_lem ips _ _ (ap (λ x. x.0) (sym e) ∙ h)
      ∙ ap (λ l. (ok tt, at reg (with_infos reg (ip ∷ ips) d) l))
          (append_assoc calls (register_service (info_for reg ip) ∷ []) _)

-- every interface finds its info
kept_info :
    (reg : Registration) (ips : List String) (d : Dict Info) (ip : String)
    → get ip d ≡ some (info_for reg ip)
    → get ip (with_infos reg ips d) ≡ some (info_for reg ip)
kept_info reg [] d ip h = h
kept_info reg (j ∷ ips) d ip h =
    kept_info reg ips (put j (info_for reg j) d) ip (elim (Bool-cases (j == ip)) [
      | inl same ↦
          get-put j ip (info_for reg j) d
          ∙ rw same (ap (λ x. some (info_for reg x)) ((eq_iff j ip).0 same))
      | inr differs ↦ get-put j ip (info_for reg j) d ∙ rw differs h
    ])

all_infos :
    (reg : Registration) (ips : List String) (d : Dict Info)
    → All (λ ip. get ip (with_infos reg ips d) ≡ some (info_for reg ip)) ips
all_infos reg [] d = tt
all_infos reg (ip ∷ ips) d = (
  kept_info reg ips _ ip (get-put ip ip (info_for reg ip) d ∙ rw (eq_refl ip) refl),
  all_infos reg ips _,
)

withdraw_lem :
    (reg : Registration) (ips : List String) (d : Dict Info) (calls : List Call)
    → All (λ ip. get ip d ≡ some (info_for reg ip)) ips
    → withdraw ips (at reg d calls) ≡ (ok tt, at reg d (calls ++ unregistering (infos reg ips)))
unfolding withdraw info_for unique_name
withdraw_lem reg [] d calls h = ap (λ l. (ok tt, at reg d l)) (sym (append-nil calls))
withdraw_lem reg (ip ∷ ips) d calls (h, hs) =
    rw (h, withdraw)
      (withdraw_lem reg ips d (calls ++ unregister_service (info_for reg ip) ∷ []) hs
        ∙ ap (λ l. (ok tt, at reg d l))
            (append_assoc calls (unregister_service (info_for reg ip) ∷ []) _))

-- a new entry that is taken out again
remove-put :
    {V : Type 0} (k : String) (v : V) (d : Dict V) → get k d ≡ none → remove k (put k v d) ≡ d
unfolding get put remove
remove-put k v [] h = ground (arith, eq_refl k)
remove-put k v ((j, w) ∷ d) h = ground (arith, eq_refl k, remove-put k v d)

put_again :
    {V : Type 0} (k : String) (v w : V) (d : Dict V) → get k d ≡ some w → put k w (put k v d) ≡ d
unfolding get put
put_again k v w [] h = ground (arith)
put_again k v w ((j, x) ∷ d) h = ground (arith, eq_refl j, put_again k v w d)

restored :
    (reg : Registration) (rs : Registrations) (o : Option (Dict Registration))
    → get reg.regtype rs ≡ o
    → o ≢ some []
    → get reg.name (or_empty o) ≡ none
    → tidy reg.regtype
        (remove reg.name (put reg.name reg (or_empty o)))
        (put reg.regtype (put reg.name reg (or_empty o)) rs)
      ≡ rs
restored reg rs none found filled new =
    rw (remove-put reg.name reg [] new) (remove-put reg.regtype _ rs found)
restored reg rs (some []) found filled new = absurd (filled refl)
restored reg rs (some (e ∷ d)) found filled new =
    rw (remove-put reg.name reg (e ∷ d) new) (put_again reg.regtype _ _ rs found)

module _ (name regtype : String) (c : Controller) where
  remove_found :
      (d : Dict Registration) (reg : Registration)
      → get regtype c.registrations ≡ some d
      → get name d ≡ some reg
      → remove_registration name regtype c
        ≡ removed regtype
            (remove name d)
            c.registrations
            (unregister (record { reg = reg; calls = c.calls }))
  unfolding remove_registration
  remove_found d reg h k =
      ap (λ o. removed_from name regtype o c) h ∙ ap (λ o. removed_in name regtype d o c) k

none_there : {V : Type 0} (o : Option V) → is_some o ≡ false → o ≡ none
none_there none h = refl
none_there (some v) h = cc

module _ (w : World) (reg : Registration) (c : Controller) where
  -- the registration with its infos, as it is kept
  abbrev pub listed : Registration
  listed = record reg { info = with_infos reg reg.interfaces reg.info }

  -- the controller after a registration that was new and accepted everywhere
  abbrev pub added : Controller
  added = record {
    registrations = keep listed c.registrations;
    calls = c.calls ++ registering (infos reg reg.interfaces);
  }

  add_fresh :
      is_registered reg.name reg.regtype c.registrations ≡ false
      → (add_registration w reg c).0 ≡ (register w (record { reg = reg; calls = c.calls })).0
  unfolding add_registration
  add_fresh new = rw new refl

  pub add_registration_lem :
      is_registered reg.name reg.regtype c.registrations ≡ false
      → (add_registration w reg c).0 ≡ ok tt
      → add_registration w reg c ≡ (ok tt, added)
  unfolding add_registration register
  add_registration_lem new done =
      rw
        (
          new,
          announce_lem w reg reg.interfaces reg.info c.calls
              (subst (λ x. x ≡ ok tt) (add_fresh new) done),
        )
        refl

  abbrev pub kept_dict : Dict Registration
  kept_dict = put reg.name listed (or_empty (get reg.regtype c.registrations))

  pub found_dict : get reg.regtype (keep listed c.registrations) ≡ some kept_dict
  unfolding keep
  found_dict = get-put reg.regtype reg.regtype _ c.registrations ∙ rw (eq_refl reg.regtype) refl

  pub found_reg : get reg.name kept_dict ≡ some listed
  found_reg = get-put reg.name reg.name _ _ ∙ rw (eq_refl reg.name) refl

  withdrawn :
      (calls : List Call)
      → unregister (record { reg = listed; calls = calls }) ≡ (
        ok tt,
        record { reg = listed; calls = calls ++ unregistering (infos reg reg.interfaces) },
      )
  unfolding unregister
  withdrawn calls = withdraw_lem reg reg.interfaces _ calls (all_infos reg reg.interfaces reg.info)

  undone : remove_registration reg.name reg.regtype added ≡ (
    ok tt,
    record {
      registrations = tidy reg.regtype (remove reg.name kept_dict) (keep listed c.registrations);
      calls = added.calls ++ unregistering (infos reg reg.interfaces);
    },
  )
  undone =
      remove_found reg.name reg.regtype added kept_dict listed found_dict found_reg
      ∙ ap (removed reg.regtype (remove reg.name kept_dict) added.registrations)
          (withdrawn added.calls)

  -- A registration that was new and that every interface accepted is announced once on each of its
  -- interfaces; removing it then succeeds, withdraws the same announcements in the same order, and
  -- leaves the registrations as they were before it was added, if no type stood there without any.
  pub remove-add_registration :
      is_registered reg.name reg.regtype c.registrations ≡ false
      → get reg.regtype c.registrations ≢ some []
      → (add_registration w reg c).0 ≡ ok tt
      → remove_registration reg.name reg.regtype (add_registration w reg c).1 ≡ (
        ok tt,
        record {
          registrations = c.registrations;
          calls =
              (c.calls ++ registering (infos reg reg.interfaces))
              ++ unregistering (infos reg reg.interfaces);
        },
      )
  unfolding keep
  remove-add_registration new filled done =
      let rs =
        restored listed c.registrations (get reg.regtype c.registrations) refl filled
          (none_there _ new) in
      rw (add_registration_lem new done) (undone ∙ rw rs refl)
