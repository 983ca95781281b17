-- ===== src/Query/Services.antt =====
-- The services that `get_services` finds (nmoscommon/query.py).
use nmos_common.Common.{
  ℕ, zero, suc, String, ◌≡◌, refl, subst, ◌⊎◌, inl, inr, true, Option, some, List, [], ◌∷◌, ◌++◌,
  arith, In, In-cons, get_elem?, get_elem?-keep_if, keep_if, eqb, Bool-cases, if◌then◌else◌,
}
use nmos_common.Query.{
  Service, Node, response, has_type, all_services, found_services, is_node, services_of,
}

In-append : (a : Service) (xs ys : List Service) → In a (xs ++ ys) → In a xs ⊎ In a ys
In-append a [] ys m = inr m
In-append a (x ∷ xs) ys (zero, e) = inl (zero, e)
In-append a (x ∷ xs) ys (suc i, e) = elim (In-append a xs ys (i, e)) [
  | inl m ↦ inl (In-cons a x xs m)
  | inr m ↦ inr m
]

nothing_at : (a : Service) (i : ℕ) → get_elem? [] i ≡ some a → ⊥
nothing_at a i e = cc

-- a node among `nodes` that is asked for offers the service
abbrev pub IsOffered : Option String → List Node → Service → Type 0
IsOffered node_id nodes s =
    (n : Node) × In n nodes × (is_node node_id n ≡ true) × In s (services_of n.services)

all_services-IsOffered :
    (node_id : Option String) (nodes : List Node) (s : Service)
    → In s (all_services node_id nodes)
    → IsOffered node_id nodes s
unfolding all_services
all_services-IsOffered node_id [] s (i, e) = cc
all_services-IsOffered node_id (node ∷ nodes) s m =
    elim (In-append s (if is_node node_id node then services_of node.services else [])
      (all_services node_id nodes) m) [
        | inl here ↦ elim (Bool-cases (is_node node_id node)) [
          | inl yes_node ↦ (node, (zero, refl), yes_node, rw yes_node at here)
          | inr no_node ↦ (let (i, e) = rw no_node at here in absurd (nothing_at s i e))
        ]
        | inr there ↦
            let (n, at, ok, offered) = all_services-IsOffered node_id nodes s there in
            (n, In-cons n node nodes at, ok, offered)
      ]

kept-IsOffered :
    (urn : String) (node_id : Option String) (nodes : List Node) (s : Service)
    → In s (keep_if (has_type urn) (all_services node_id nodes))
    → (has_type urn s ≡ true) × IsOffered node_id nodes s
kept-IsOffered urn node_id nodes s (i, at) =
    let (m, h) = get_elem?-keep_if (has_type urn) (all_services node_id nodes) i s at in
    (h, all_services-IsOffered node_id nodes s m)

found_200 :
    (urn : String) (node_id : Option String) (status : ℕ) (nodes : List Node) (found : List Service)
    → found_services urn node_id (response status nodes) ≡ some found
    → (found ≡ keep_if (has_type urn) (all_services node_id nodes)) ⊎ (found ≡ [])
unfolding found_services
found_200 urn node_id status nodes found e = elim (Bool-cases (eqb status 200)) [
  | inl h ↦ inl (ground arith)
  | inr h ↦ inr (ground arith)
]

-- Every service that is found has the type asked for and is offered by a node of the response, by
-- the one with the given id if an id is given.
pub found_services-IsOffered :
    (urn : String) (node_id : Option String) (status : ℕ) (nodes : List Node) (found : List Service)
    (s : Service)
    → found_services urn node_id (response status nodes) ≡ some found
    → In s found
    → (has_type urn s ≡ true) × IsOffered node_id nodes s
found_services-IsOffered urn node_id status nodes found s e m =
    elim (found_200 urn node_id status nodes found e) [
      | inl h ↦ kept-IsOffered urn node_id nodes s (subst (In s) h m)
      | inr h ↦ (let (i, at) = subst (In s) h m in absurd (nothing_at s i at))
    ]
