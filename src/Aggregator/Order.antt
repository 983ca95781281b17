-- ===== src/Aggregator/Order.antt =====
-- The order of the requests that a re-registration queues
-- (nmoscommon/aggregator.py, `registration_order`).
use nmos_common.Common.{
  ℕ, suc, ◌≤◌, String, ◌≡◌, refl, false, List, [], ◌∷◌, ◌++◌, arith, append-nil, append_assoc, All,
  All-append, elem, ◌==◌, inl, inr, Bool-cases, if◌then◌else◌,
}
use nmos_common.Common.Dict.{Dict, keys}
use nmos_common.Aggregator.{Resource, Item, Entities}
use nmos_common.Aggregator.Threads.{
  registration_order, posts, keys_of, posts_of_type, other_posts_in, other_posts, requeue,
}

-- the place of a type in a registration order; types that are not listed come last
abbrev pub rank_in : List String → String → ℕ
rank_in [] t = 0
rank_in (r ∷ order) t = if r == t then 0 else suc (rank_in order t)

unfoldable pub rank : Item → ℕ
rank i = rank_in registration_order i.res_type

-- ranks that never fall, from `lo` on
abbrev pub IsRanked : ℕ → List Item → Type 0
IsRanked lo [] = Unit
IsRanked lo (i ∷ l) = (lo ≤ rank i) × IsRanked (rank i) l

IsRanked-append :
    (lo r : ℕ) (xs ys : List Item)
    → lo ≤ r
    → All (λ i. rank i ≡ r) xs
    → IsRanked r ys
    → IsRanked lo (xs ++ ys)
IsRanked-append lo r [] [] h a k = tt
IsRanked-append lo r [] (y ∷ ys) h a k = (omega arith, k.1)
IsRanked-append lo r (x ∷ xs) ys h (e, a) k =
    (omega arith, rw e (IsRanked-append r r xs ys (omega arith) a k))

All-posts :
    (ns t : String) (r : ℕ) (ks : List String)
    → rank_in registration_order t ≡ r
    → All (λ i. rank i ≡ r) (posts ns t ks)
unfolding posts rank
All-posts ns t r [] e = tt
All-posts ns t r (k ∷ ks) e = (e, All-posts ns t r ks e)

All-posts_of_type :
    (t : String) (r : ℕ) (entities : Entities)
    → rank_in registration_order t ≡ r
    → All (λ i. rank i ≡ r) (posts_of_type t entities)
unfolding posts_of_type
All-posts_of_type t r [] e = tt
All-posts_of_type t r ((ns, types) ∷ rest) e =
    All-append _ _ _ (All-posts ns t r (keys_of t types) e) (All-posts_of_type t r rest e)

rank_of_other : (t : String) → elem t registration_order ≡ false → rank_in registration_order t ≡ 5
rank_of_other t h = ground arith

All-other_posts_in :
    (ns : String) (types : Dict (Dict Resource)) → All (λ i. rank i ≡ 5) (other_posts_in ns types)
unfolding other_posts_in
All-other_posts_in ns [] = tt
All-other_posts_in ns ((t, d) ∷ types) =
    All-append _ _ _
      (elim (Bool-cases (elem t registration_order)) [
        | inl listed ↦ rw listed tt
        | inr other ↦ rw other (All-posts ns t 5 (keys d) (rank_of_other t other))
      ])
      (All-other_posts_in ns types)

All-other_posts : (entities : Entities) → All (λ i. rank i ≡ 5) (other_posts entities)
unfolding other_posts
All-other_posts [] = tt
All-other_posts ((ns, types) ∷ rest) =
    All-append _ _ _ (All-other_posts_in ns types) (All-other_posts rest)

other_posts-IsRanked : (entities : Entities) → IsRanked 5 (other_posts entities)
other_posts-IsRanked entities =
    rw append-nil at
      (IsRanked-append 5 5 (other_posts entities) [] (omega arith) (All-other_posts entities) tt)

IsRanked-lower : (lo hi : ℕ) (l : List Item) → lo ≤ hi → IsRanked hi l → IsRanked lo l
IsRanked-lower lo hi [] h k = tt
IsRanked-lower lo hi (i ∷ l) h k = (omega arith, k.1)

-- the requests of one listed type before later ones
block :
    (t : String) (lo r : ℕ) (entities : Entities) (ys : List Item)
    → lo ≤ r
    → rank_in registration_order t ≡ r
    → IsRanked r ys
    → IsRanked lo (posts_of_type t entities ++ ys)
block t lo r entities ys h e k =
    IsRanked-append lo r (posts_of_type t entities) ys h (All-posts_of_type t r entities e) k

-- Devices are registered before sources, these before flows, then senders, then receivers, and
-- resources of any other type after all of these.
pub requeue-IsRanked : (entities : Entities) → IsRanked 0 (requeue entities)
unfolding requeue
requeue-IsRanked entities = simp append_assoc (
    block "device" 0 0 entities _ (omega arith) refl (
      block "source" 0 1 entities _ (omega arith) refl (
        block "flow" 1 2 entities _ (omega arith) refl (
          block "sender" 2 3 entities _ (omega arith) refl (
            block "receiver" 3 4 entities _ (omega arith) refl (
              IsRanked-lower 4 5 (other_posts entities) (omega arith)
                (other_posts-IsRanked entities)))))))
