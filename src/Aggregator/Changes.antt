-- ===== src/Aggregator/Changes.antt =====
-- What registering and unregistering change (nmoscommon/aggregator.py, `register_into`,
-- `unregister_from`).
use nmos_common.Common.{
  String, ◌≡◌, refl, Bool, true, false, Option, none, some, [], ◌∷◌, ◌++◌, arith, ◌==◌, ◌&&◌,
  eq_iff, inl, inr, Bool-cases, Option-cases, if◌then◌else◌,
}
use nmos_common.Common.Dict.{Dict, get, put, remove, has, get-put, get-remove, get-nil}
use nmos_common.Common.Json.{Json}
use nmos_common.Aggregator.{Aggregator, Resource, Entities}
use nmos_common.Aggregator.Mirror.{
  empty_or, entries, add_mirror_keys, store, is_node, send_obj, queue_request, register_into,
  unregister_from,
}

abbrev same : String → String → String → String → Bool
same ns t ns' t' = ns == ns' && t == t'

entries-store :
    (ns t ns' t' : String) (d : Dict Resource) (e : Entities)
    → entries ns' t' (store ns t d e) ≡ (if same ns t ns' t' then d else entries ns' t' e)
unfolding entries store
entries-store ns t ns' t' d e = ground (
  arith,
  get-put ns ns' (put t d (empty_or (get ns e))) e,
  get-put t t' d (empty_or (get ns e)),
  eq_iff ns ns',
)

entries-add_mirror_keys :
    (ns t ns' t' : String) (e : Entities)
    → entries ns' t' (add_mirror_keys ns t e) ≡ entries ns' t' e
unfolding entries add_mirror_keys
entries-add_mirror_keys ns t ns' t' e = ground (
  arith,
  get-put ns ns' (empty_or (get ns e)) e,
  get-put ns ns' (put t [] (empty_or (get ns e))) e,
  get-put t t' [] (empty_or (get ns e)),
  eq_iff ns ns',
  eq_iff t t',
  get-nil {0} {V = Dict Resource} t',
)

abbrev pub is_at : String → String → String → String → String → String → Bool
is_at ns t k ns' t' k' = ns == ns' && t == t' && k == k'

get-if :
    (b : Bool) (k : String) (d d' : Dict Resource)
    → get k (if b then d else d') ≡ (if b then get k d else get k d')
get-if true k d d' = refl
get-if false k d d' = refl

after_remove :
    (ns t k ns' t' k' : String) (e : Entities)
    → get k' (entries ns' t' (store ns t (remove k (entries ns t e)) e))
      ≡ (if is_at ns t k ns' t' k' then none else get k' (entries ns' t' e))
after_remove ns t k ns' t' k' e =
    rw
      (
        entries-store ns t ns' t' (remove k (entries ns t e)) e,
        get-if (same ns t ns' t') k' (remove k (entries ns t e)) (entries ns' t' e),
        get-remove k k' (entries ns t e),
      )
      (ground (arith, eq_iff ns ns', eq_iff t t', eq_iff k k'))

entries_absent :
    (ns t : String) (types : Dict (Dict Resource)) (e : Entities)
    → get ns e ≡ some types
    → has t types ≡ false
    → entries ns t e ≡ []
unfolding entries
entries_absent ns t types e found absent = ground arith

unchanged :
    (ns t k ns' t' k' : String) (e : Entities)
    → entries ns t e ≡ []
    → get k' (entries ns' t' e)
      ≡ (if is_at ns t k ns' t' k' then none else get k' (entries ns' t' e))
unchanged ns t k ns' t' k' e empty =
    ground (arith, eq_iff ns ns', eq_iff t t', get-nil {0} {V = Resource} k')

module _ {H : Type 0} where
  -- the resource that the mirror holds
  abbrev pub mirrored : String → String → String → Aggregator H → Option Resource
  mirrored ns t k s = get k (entries ns t s.entities)

  -- Registering a resource other than the Node puts it in the mirror at its key and nowhere else,
  -- and queues one POST for it behind the requests that wait; the Node stays as it was.
  pub register_into_lem :
      (ns t k : String) (attrs : Dict Json) (s : Aggregator H) (ns' t' k' : String)
      → is_node ns t ≡ false
      → (mirrored ns' t' k' (register_into ns t k attrs s)
          ≡ (if is_at ns t k ns' t' k' then some (send_obj t k attrs) else mirrored ns' t' k' s))
        × ((register_into ns t k attrs s).queue
            ≡ s.queue ++ record { method = "POST"; namespace = ns; res_type = t; key = k } ∷ [])
        × ((register_into ns t k attrs s).node ≡ s.node)
  unfolding register_into queue_request
  register_into_lem ns t k attrs s ns' t' k' other =
      let e' = add_mirror_keys ns t s.entities in
      let obj = send_obj t k attrs in
      let d = put k obj (entries ns t e') in
      rw other (
        rw
            (
              entries-store ns t ns' t' d e',
              get-if (same ns t ns' t') k' d (entries ns' t' e'),
              get-put k k' obj (entries ns t e'),
              entries-add_mirror_keys ns t ns t s.entities,
              entries-add_mirror_keys ns t ns' t' s.entities,
            )
            (ground (arith, eq_iff ns ns', eq_iff t t', eq_iff k k')),
        refl,
        refl,
      )

  -- Unregistering a resource other than the Node, in a namespace that the mirror knows, takes it
  -- out of the mirror and nothing else, and queues one DELETE behind the requests that wait; the
  -- Node stays as it was.
  pub unregister_from_lem :
      (ns t k : String) (s : Aggregator H)
      → is_node ns t ≡ false
      → has ns s.entities ≡ true
      → (s' : Aggregator H) × (unregister_from ns t k s ≡ some s')
        × ((ns' t' k' : String)
            → mirrored ns' t' k' s'
              ≡ (if is_at ns t k ns' t' k' then none else mirrored ns' t' k' s))
        × (s'.queue
            ≡ s.queue ++ record { method = "DELETE"; namespace = ns; res_type = t; key = k } ∷ [])
        × (s'.node ≡ s.node)
  unfolding unregister_from queue_request
  unregister_from_lem ns t k s other known = elim (Option-cases (get ns s.entities)) [
    | inl unknown ↦ absurd (ground arith)
    | inr (types, found) ↦ elim (Bool-cases (has t types)) [
      | inl present ↦
          let e' = store ns t (remove k (entries ns t s.entities)) s.entities in
          (
            queue_request "DELETE" ns t k (record s { entities = e' }),
            rw (other, found, present) refl,
            λ ns' t' k'. after_remove ns t k ns' t' k' s.entities,
            refl,
            refl,
          )
      | inr absent ↦ (
        queue_request "DELETE" ns t k s,
        rw (other, found, absent) refl,
        λ ns' t' k'.
            unchanged ns t k ns' t' k' s.entities
              (entries_absent ns t types s.entities found absent),
        refl,
        refl,
      )
    ]
  ]
