-- ===== src/Aggregator/Requeue.antt =====
-- What a re-registration queues (nmoscommon/aggregator.py, the end of `_process_reregister`).
use nmos_common.Common.{
  zero, suc, String, ◌≡◌, true, false, some, List, [], ◌∷◌, arith, In, In-cons, In-append_left,
  In-append_right, elem, ◌==◌, eq_iff, inl, inr, Bool-cases, if◌then◌else◌,
}
use nmos_common.Common.Dict.{Dict, get, keys}
use nmos_common.Aggregator.{Resource, Item, Entities}
use nmos_common.Aggregator.Threads.{
  registration_order, post, posts, keys_of, posts_of_type, ordered_posts, other_posts_in,
  other_posts, requeue,
}

In-posts : (ns t k : String) (ks : List String) → In k ks → In (post ns t k) (posts ns t ks)
unfolding posts
In-posts ns t k [] (i, e) = cc
In-posts ns t k (j ∷ ks) (zero, e) = (0, cc)
In-posts ns t k (j ∷ ks) (suc i, e) = In-cons _ _ _ (In-posts ns t k ks (i, e))

module _ (ns t k : String) (types : Dict (Dict Resource)) (d : Dict Resource)
    (found : get t types ≡ some d) (stored : In k (keys d)) where
  In-keys_of : In (post ns t k) (posts ns t (keys_of t types))
  In-keys_of = rw (found, keys_of) (In-posts ns t k (keys d) stored)

  In-posts_of_type :
      (entities : Entities) → In (ns, types) entities → In (post ns t k) (posts_of_type t entities)
  unfolding posts_of_type
  In-posts_of_type [] (i, e) = cc
  In-posts_of_type ((n, ts) ∷ rest) (zero, e) =
      let p : n ≡ ns = cc in
      let q : ts ≡ types = cc in
      rw (p, q) (In-append_left _ (posts ns t (keys_of t types)) _ In-keys_of)
  In-posts_of_type ((n, ts) ∷ rest) (suc i, e) =
      In-append_right _ (posts n t (keys_of t ts)) _ (In-posts_of_type rest (i, e))

  In-ordered_posts :
      (order : List String) (entities : Entities)
      → elem t order ≡ true
      → In (ns, types) entities
      → In (post ns t k) (ordered_posts order entities)
  unfolding ordered_posts
  In-ordered_posts [] entities e m = cc
  In-ordered_posts (r ∷ order) entities e m = elim (Bool-cases (r == t)) [
    | inl hit ↦
        In-append_left _ (posts_of_type r entities) _
          (rw ((eq_iff r t).0 hit) (In-posts_of_type entities m))
    | inr miss ↦
        In-append_right _ (posts_of_type r entities) _
          (In-ordered_posts order entities (rw miss at e) m)
  ]

  other_head : String → Dict Resource → List Item
  other_head r c = if elem r registration_order then [] else posts ns r (keys c)

  In-other_head : elem t registration_order ≡ false → In (post ns t k) (other_head t d)
  unfolding other_head
  In-other_head out = rw out (In-posts ns t k (keys d) stored)

  In-other_posts_in :
      (ts : Dict (Dict Resource))
      → elem t registration_order ≡ false
      → get t ts ≡ some d
      → In (post ns t k) (other_posts_in ns ts)
  unfolding other_posts_in other_head get
  In-other_posts_in [] out e = cc
  In-other_posts_in ((r, c) ∷ ts) out e = elim (Bool-cases (r == t)) [
    | inl hit ↦
        let p : r ≡ t = (eq_iff r t).0 hit in
        let q : c ≡ d = ground (arith, eq_iff r t) in
        rw (p, q) (In-append_left _ (other_head t d) _ (In-other_head out))
    | inr miss ↦ In-append_right _ _ _ (In-other_posts_in ts out (rw miss at e))
  ]

  In-other_posts :
      (entities : Entities)
      → elem t registration_order ≡ false
      → In (ns, types) entities
      → In (post ns t k) (other_posts entities)
  unfolding other_posts
  In-other_posts [] out (i, e) = cc
  In-other_posts ((n, ts) ∷ rest) out (zero, e) =
      let p : n ≡ ns = cc in
      let q : ts ≡ types = cc in
      rw (p, q) (In-append_left _ (other_posts_in ns types) _ (In-other_posts_in types out found))
  In-other_posts ((n, ts) ∷ rest) out (suc i, e) =
      In-append_right _ (other_posts_in n ts) _ (In-other_posts rest out (i, e))

  -- Every resource that the mirror holds in a namespace, under a type and a key, is queued for
  -- registration.
  pub In-requeue :
      (entities : Entities) → In (ns, types) entities → In (post ns t k) (requeue entities)
  unfolding requeue
  In-requeue entities m = elim (Bool-cases (elem t registration_order)) [
    | inl listed ↦ In-append_left _ _ _ (In-ordered_posts registration_order entities listed m)
    | inr other ↦ In-append_right _ _ _ (In-other_posts entities other m)
  ]
