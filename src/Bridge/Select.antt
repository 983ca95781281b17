-- ===== src/Bridge/Select.antt =====
-- What the selection loop of `getHref` collects (nmoscommon/mdnsbridge.py).
use nmos_common.Common.{
  ℕ, ◌≤◌, String, ◌≡◌, refl, sym, ◌<◌, ◌∙◌, inl, inr, Bool-cases, Bool, true, false, ◌&&◌, Option,
  List, [], ◌∷◌, ◌++◌, append_assoc, append-nil, arith, le→leb, ltb, leb, eqb, keep_if,
  if◌then◌else◌,
}
use nmos_common.Bridge.{Service, Choice, direct, candidates, first_direct, is_match, lowest, choose}

abbrev pub head_choice : List Service → Choice
head_choice [] = candidates []
head_choice (s ∷ _) = direct s

module _ (api_ver api_proto : Option String) where
  -- the lowest priority among the services that match, and `bound` if none is lower
  unfoldable pub lowest_priority : ℕ → List Service → ℕ
  lowest_priority bound [] = bound
  lowest_priority bound (s ∷ services) =
      let rest = lowest_priority bound services in
      if is_match api_ver api_proto s && ltb s.priority rest then s.priority else rest

  unfoldable pub has_priority : ℕ → Service → Bool
  has_priority p s = is_match api_ver api_proto s && eqb s.priority p

  pub lowest_priority-le : (b : ℕ) (l : List Service) → lowest_priority b l ≤ b
  unfolding lowest_priority
  lowest_priority-le b [] = omega arith
  lowest_priority-le b (s ∷ l) = ground (arith, lowest_priority-le b l)

  -- a lower bound can be applied at the end
  lowest_priority-lower :
      (b c : ℕ) (l : List Service)
      → c ≤ b
      → lowest_priority c l ≡ (if ltb c (lowest_priority b l) then c else lowest_priority b l)
  unfolding lowest_priority
  lowest_priority-lower b c [] h = ground arith
  lowest_priority-lower b c (s ∷ l) h = ground (arith, lowest_priority-lower b c l)

  lowest_miss :
      (s : Service) (c : ℕ) (v l : List Service)
      → is_match api_ver api_proto s ≡ false
      → lowest api_ver api_proto c v (s ∷ l) ≡ lowest api_ver api_proto c v l
  unfolding lowest
  lowest_miss s c v l h = ground arith

  lowest_hit :
      (s : Service) (c : ℕ) (v l : List Service)
      → is_match api_ver api_proto s ≡ true
      → lowest api_ver api_proto c v (s ∷ l) ≡ (
          if ltb s.priority c
          then lowest api_ver api_proto s.priority (s ∷ []) l
          else if eqb s.priority c
          then lowest api_ver api_proto c (v ++ s ∷ []) l
          else lowest api_ver api_proto c v l)
  unfolding lowest
  lowest_hit s c v l h = ground arith

  -- what was collected, if the lowest priority at the end is `m`
  collected : ℕ → ℕ → List Service → List Service → List Service
  collected c m v l = (if leb c m then v else []) ++ keep_if (has_priority m) l

  collected_hit :
      (s : Service) (c m : ℕ) (v l : List Service)
      → is_match api_ver api_proto s ≡ true
      → m ≤ c
      → collected c (if ltb s.priority m then s.priority else m) v (s ∷ l) ≡ (
          if ltb s.priority c
          then collected s.priority (if ltb s.priority m then s.priority else m) (s ∷ []) l
          else if eqb s.priority c
          then collected c m (v ++ s ∷ []) l
          else collected c m v l)
  unfolding has_priority collected
  collected_hit s c m v l hit le =
      ground (arith, append_assoc v (s ∷ []) (keep_if (has_priority m) l))

  lowest_priority_cons :
      (s : Service) (c : ℕ) (l : List Service)
      → is_match api_ver api_proto s ≡ true
      → lowest_priority c (s ∷ l)
        ≡ (if ltb s.priority (lowest_priority c l) then s.priority else lowest_priority c l)
  unfolding lowest_priority
  lowest_priority_cons s c l hit = ground arith

  collected_miss :
      (s : Service) (c : ℕ) (v l : List Service)
      → is_match api_ver api_proto s ≡ false
      → collected c (lowest_priority c (s ∷ l)) v (s ∷ l) ≡ collected c (lowest_priority c l) v l
  unfolding lowest_priority has_priority collected
  collected_miss s c v l miss = ground arith

  lowest_lem :
      (c : ℕ) (v l : List Service)
      → lowest api_ver api_proto c v l ≡ collected c (lowest_priority c l) v l
  lowest_lem c v [] = unfold lowest lowest_priority collected in ground (arith, append-nil v)
  lowest_lem c v (s ∷ l) = elim (Bool-cases (is_match api_ver api_proto s)) [
    | inl hit ↦
        rw
          (
            lowest_hit s c v l hit,
            lowest_priority_cons s c l hit,
            collected_hit s c (lowest_priority c l) v l hit (lowest_priority-le c l),
            lowest_lem s.priority (s ∷ []) l,
            lowest_lem c (v ++ s ∷ []) l,
            lowest_lem c v l,
          )
          (elim (Bool-cases (ltb s.priority c)) [
            | inl below ↦ rw (below, lowest_priority-lower c s.priority l (ground arith)) refl
            | inr above ↦ rw above refl
          ])
    | inr miss ↦ lowest_miss s c v l miss ∙ lowest_lem c v l ∙ sym (collected_miss s c v l miss)
  ]

  first_direct_lem :
      (priority : ℕ) (services : List Service)
      → first_direct api_ver api_proto priority services
        ≡ head_choice (keep_if (has_priority priority) services)
  unfolding first_direct has_priority
  first_direct_lem priority [] = refl
  first_direct_lem priority (s ∷ l) = ground (arith, first_direct_lem priority l)

  -- Below 100 the loop of `getHref` collects, in their order, exactly the services that match and
  -- have the lowest priority, where that is the least of 99 and the priorities of all that match.
  pub choose_lowest :
      (priority : ℕ) (services : List Service)
      → priority < 100
      → choose api_ver api_proto priority services
        ≡ candidates (keep_if (has_priority (lowest_priority 99 services)) services)
  unfolding choose collected
  choose_lowest priority services h =
      ground (arith, lowest_lem 99 [] services, lowest_priority-le 99 services)

  -- From 100 on the loop returns the first service that matches and has the given priority.
  pub choose_exact :
      (priority : ℕ) (services : List Service)
      → 100 ≤ priority
      → choose api_ver api_proto priority services
        ≡ head_choice (keep_if (has_priority priority) services)
  unfolding choose
  choose_exact priority services h = rw (le→leb 100 priority h) (first_direct_lem priority services)
