-- ===== src/Query/Fetches.antt =====
-- What a call of `_get_query` sends and returns (nmoscommon/query.py).
use nmos_common.Common.{
  ℕ, zero, suc, ◌≤◌, ◌<◌, String, ◌≡◌, refl, sym, ap, subst, ◌∙◌, List, [], ◌∷◌, ◌++◌, append_assoc,
  arith, ◌⊎◌, inl, inr, length,
}
use nmos_common.Query.{
  World, QueryService, Node, Fetched, response, not_found, accept, sending, full_url, find_next,
  try_query, get_query,
}

-- `us` are the addresses that a call asked; with `extra` rounds after the first
pub record Fetches {H : Type 0} (w : World H) (extra : ℕ) (s : QueryService H)
    (out : Fetched × QueryService H) : Type 0 where
  pub us : List String
  pub made : out.1.sent ≡ s.sent ++ us
  pub some_sent : 0 < length us
  pub few : length us ≤ suc extra
  pub last_reply : accept (w.net out.1.sent) ≡ out.0
  pub given_up : (out.0 ≡ not_found) → length us ≡ suc extra

Fetched-cases :
    (f : Fetched)
    → (f ≡ not_found) ⊎ ((status : ℕ) × (nodes : List Node) × (f ≡ response status nodes))
Fetched-cases not_found = inl refl
Fetched-cases (response status nodes) = inr (status, nodes, refl)

module _ {H : Type 0} (w : World H) (url : String) where
  once : (s : QueryService H) → Fetches w 0 s (try_query w 0 url s)
  unfolding try_query sending
  once s = record {
    us = full_url w s.query_url url ∷ [];
    made = refl;
    some_sent = omega arith;
    few = omega arith;
    last_reply = refl;
    given_up = λ _. refl;
  }

  stops :
      (n : ℕ) (s : QueryService H) (status : ℕ) (nodes : List Node)
      → accept (w.net (sending w url s).sent) ≡ response status nodes
      → try_query w (suc n) url s ≡ (response status nodes, sending w url s)
  unfolding try_query
  stops n s status nodes h = ground (arith)

  goes_on :
      (n : ℕ) (s : QueryService H)
      → accept (w.net (sending w url s).sent) ≡ not_found
      → try_query w (suc n) url s ≡ try_query w n url (find_next w (sending w url s))
  unfolding try_query
  goes_on n s h = ground (arith)

  stopped :
      (n : ℕ) (s : QueryService H) (status : ℕ) (nodes : List Node)
      → accept (w.net (sending w url s).sent) ≡ response status nodes
      → Fetches w (suc n) s (response status nodes, sending w url s)
  unfolding sending
  stopped n s status nodes h = record {
    us = full_url w s.query_url url ∷ [];
    made = refl;
    some_sent = omega arith;
    few = omega arith;
    last_reply = h;
    given_up = λ e. cc;
  }

  later :
      (n : ℕ) (s : QueryService H) (out : Fetched × QueryService H)
      → Fetches w n (find_next w (sending w url s)) out
      → Fetches w (suc n) s out
  unfolding sending find_next
  later n s out f = record {
    us = full_url w s.query_url url ∷ f.us;
    made = f.made ∙ append_assoc s.sent (full_url w s.query_url url ∷ []) f.us;
    some_sent = omega arith;
    few = omega (arith, f.few);
    last_reply = f.last_reply;
    given_up = λ e. ap suc (f.given_up e);
  }

  try_query-Fetches : (n : ℕ) (s : QueryService H) → Fetches w n s (try_query w n url s)
  try_query-Fetches zero s = once s
  try_query-Fetches (suc n) s =
      let more = try_query-Fetches n (find_next w (sending w url s)) in
      elim (Fetched-cases (accept (w.net (sending w url s).sent))) [
        | inl h ↦ subst (Fetches w (suc n) s) (sym (goes_on n s h)) (later n s _ more)
        | inr (status, nodes, h) ↦
            subst (Fetches w (suc n) s) (sym (stops n s status nodes h))
              (stopped n s status nodes h)
      ]

-- `_get_query` makes one to three requests. Its result is what the last reply comes to: the response
-- if its status is no error, and QueryNotFoundError otherwise, which is raised only after three.
pub get_query-Fetches :
    {H : Type 0} (w : World H) (url : String) (s : QueryService H)
    → Fetches w 2 s (get_query w url s)
unfolding get_query
get_query-Fetches w url s = try_query-Fetches w url 2 s
