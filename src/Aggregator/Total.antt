-- ===== src/Aggregator/Total.antt =====
-- How many requests a re-registration queues (nmoscommon/aggregator.py).
use nmos_common.Common.{
  ℕ, suc, ◌+◌, String, ◌≡◌, refl, ap, subst, none, List, [], ◌∷◌, ◌++◌, arith, length,
  length-append, append_assoc, All, elem, ◌==◌, eq_iff, inl, inr, Bool-cases, if◌then◌else◌,
}
use nmos_common.Common.Dict.{Dict, IsDict, get, keys}
use nmos_common.Aggregator.{Resource, Item, Entities}
use nmos_common.Aggregator.Threads.{
  registration_order, posts, keys_of, posts_of_type, other_posts_in, other_posts, requeue,
}

-- the resources of the mirror
abbrev pub count_types : Dict (Dict Resource) → ℕ
count_types [] = 0
count_types ((t, d) ∷ types) = length d + count_types types

abbrev pub count_resources : Entities → ℕ
count_resources [] = 0
count_resources ((ns, types) ∷ rest) = count_types types + count_resources rest

length-keys : (d : Dict Resource) → length (keys d) ≡ length d
length-keys [] = refl
length-keys (e ∷ d) = ap suc (length-keys d)

length-posts : (ns t : String) (ks : List String) → length (posts ns t ks) ≡ length ks
unfolding posts
length-posts ns t [] = refl
length-posts ns t (k ∷ ks) = ap suc (length-posts ns t ks)

-- the resources of a type in one namespace, and in all
of_type : String → Dict (Dict Resource) → ℕ
of_type t types = length (keys_of t types)

all_of_type : String → Entities → ℕ
all_of_type t [] = 0
all_of_type t ((ns, types) ∷ rest) = of_type t types + all_of_type t rest

length-posts_of_type :
    (t : String) (entities : Entities) → length (posts_of_type t entities) ≡ all_of_type t entities
unfolding posts_of_type all_of_type of_type
length-posts_of_type t [] = refl
length-posts_of_type t ((ns, types) ∷ rest) = omega (
  arith,
  length-append (posts ns t (keys_of t types)) (posts_of_type t rest),
  length-posts ns t (keys_of t types),
  length-posts_of_type t rest,
)

others : Dict (Dict Resource) → ℕ
others [] = 0
others ((t, d) ∷ types) = (if elem t registration_order then 0 else length d) + others types

length-other_posts_in :
    (ns : String) (types : Dict (Dict Resource)) → length (other_posts_in ns types) ≡ others types
unfolding other_posts_in others
length-other_posts_in ns [] = refl
length-other_posts_in ns ((t, d) ∷ types) = elim (Bool-cases (elem t registration_order)) [
  | inl listed ↦ rw listed (omega (arith, length-other_posts_in ns types))
  | inr other ↦ rw other (
      omega (
        arith,
        length-append (posts ns t (keys d)) (other_posts_in ns types),
        length-posts ns t (keys d),
        length-keys d,
        length-other_posts_in ns types,
      ))
]

of_type-cons :
    (r t : String) (d : Dict Resource) (types : Dict (Dict Resource))
    → get t types ≡ none
    → of_type r ((t, d) ∷ types) ≡ (if r == t then length d else 0) + of_type r types
unfolding of_type get
of_type-cons r t d types fresh = ground (arith, eq_iff t r, eq_iff r t, length-keys d)

-- a resource count `n` of type `t`, put where the passes find it
once : ℕ → String → ℕ
once n t =
    (if "device" == t then n else 0)
    + ((if "source" == t then n else 0)
        + ((if "flow" == t then n else 0)
            + ((if "sender" == t then n else 0)
                + ((if "receiver" == t then n else 0)
                    + (if elem t registration_order then 0 else n)))))

once_lem : (n : ℕ) (t : String) → once n t ≡ n
once_lem n t = elim (Bool-cases ("device" == t)) [
  | inl e ↦ subst (λ x. once n x ≡ n) ((eq_iff "device" t).0 e) (unfold once in omega arith)
  | inr e0 ↦ elim (Bool-cases ("source" == t)) [
    | inl e ↦ subst (λ x. once n x ≡ n) ((eq_iff "source" t).0 e) (unfold once in omega arith)
    | inr e1 ↦ elim (Bool-cases ("flow" == t)) [
      | inl e ↦ subst (λ x. once n x ≡ n) ((eq_iff "flow" t).0 e) (unfold once in omega arith)
      | inr e2 ↦ elim (Bool-cases ("sender" == t)) [
        | inl e ↦ subst (λ x. once n x ≡ n) ((eq_iff "sender" t).0 e) (unfold once in omega arith)
        | inr e3 ↦ elim (Bool-cases ("receiver" == t)) [
          | inl e ↦
              subst (λ x. once n x ≡ n) ((eq_iff "receiver" t).0 e) (unfold once in omega arith)
          | inr e4 ↦ unfold once in rw (e0, e1, e2, e3, e4) (omega arith)
        ]
      ]
    ]
  ]
]

-- With no type twice, the listed types and the others are all types.
split_types :
    (types : Dict (Dict Resource))
    → IsDict types
    → of_type "device" types
        + (of_type "source" types
            + (of_type "flow" types
                + (of_type "sender" types + (of_type "receiver" types + others types))))
      ≡ count_types types
unfolding others once
split_types [] h = unfold of_type get in refl
split_types ((t, d) ∷ types) (fresh, h) =
    rw
      (
        of_type-cons "device" t d types fresh,
        of_type-cons "source" t d types fresh,
        of_type-cons "flow" t d types fresh,
        of_type-cons "sender" t d types fresh,
        of_type-cons "receiver" t d types fresh,
      )
      (omega (arith, split_types types h, once_lem (length d) t))

all_others : Entities → ℕ
all_others [] = 0
all_others ((ns, types) ∷ rest) = others types + all_others rest

length-other_posts : (entities : Entities) → length (other_posts entities) ≡ all_others entities
unfolding other_posts all_others
length-other_posts [] = refl
length-other_posts ((ns, types) ∷ rest) = omega (
  arith,
  length-append (other_posts_in ns types) (other_posts rest),
  length-other_posts_in ns types,
  length-other_posts rest,
)

split_entities :
    (entities : Entities)
    → All (λ e. IsDict e.1) entities
    → all_of_type "device" entities
        + (all_of_type "source" entities
            + (all_of_type "flow" entities
                + (all_of_type "sender" entities
                    + (all_of_type "receiver" entities + all_others entities))))
      ≡ count_resources entities
unfolding all_of_type all_others
split_entities [] h = refl
split_entities ((ns, types) ∷ rest) (h, k) =
    omega (arith, split_types types h, split_entities rest k)

length-block :
    (t : String) (entities : Entities) (ys : List Item)
    → length (posts_of_type t entities ++ ys) ≡ all_of_type t entities + length ys
length-block t entities ys =
    omega (arith, length-append (posts_of_type t entities) ys, length-posts_of_type t entities)

-- As many requests are queued as there are resources in the mirror, if no type stands twice in a
-- namespace.
pub length-requeue :
    (entities : Entities)
    → All (λ e. IsDict e.1) entities
    → length (requeue entities) ≡ count_resources entities
unfolding requeue
length-requeue entities h = simp append_assoc (
    rw
      (
        length-block "device" entities,
        length-block "source" entities,
        length-block "flow" entities,
        length-block "sender" entities,
        length-block "receiver" entities,
      )
      (omega (arith, length-other_posts entities, split_entities entities h)))
