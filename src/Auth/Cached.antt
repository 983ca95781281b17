-- ===== src/Auth/Cached.antt =====
-- The age of the key that is used, and failures to fetch one (nmoscommon/auth/auth_middleware.py,
-- `getPublicKey`).
use nmos_common.Common.{
  ◌+◌, ◌≤◌, String, ◌≡◌, refl, false, Option, none, some, arith, inl, inr, Bool-cases, Option-cases,
}
use nmos_common.Auth.Exn.{AuthExn, Check, ok, err}
use nmos_common.Auth.Keys.{
  Network, State, is_stale, get_jwks, get_jwk_url, url_at, get_public_key, refresh_key_interval,
  cached, store_key,
}

pub record SameKey (s t : State) : Type 0 where
  pub same_key : t.public_key ≡ s.public_key
  pub same_time : t.key_last_refreshed ≡ s.key_last_refreshed

module _ (net : Network) (s : State) where
  url_at-SameKey : (o : Option String) → SameKey s (url_at net o s).1
  url_at-SameKey none = record { same_key = refl; same_time = refl }
  url_at-SameKey (some href) = record { same_key = refl; same_time = refl }

  get_jwk_url-SameKey : SameKey s (get_jwk_url net s).1
  unfolding get_jwk_url
  get_jwk_url-SameKey = url_at-SameKey _

  get_jwks-SameKey : SameKey s (get_jwks net s).1
  unfolding get_jwks
  get_jwks-SameKey = get_jwk_url-SameKey

  -- what a call of `get_public_key` may end in
  record IsFresh (r : Check String × State) : Type 0 where
    fetched :
        (key : String)
        → r.0 ≡ ok key
        → (r.1.public_key ≡ some key) × (net.now ≤ r.1.key_last_refreshed + refresh_key_interval)
    failed : (e : AuthExn) → r.0 ≡ err e → SameKey s r.1

  store_key-IsFresh : (c : Check String) (t : State) → SameKey s t → IsFresh (store_key net c t)
  store_key-IsFresh (ok key) t same = record {
    fetched = λ k e. (ground (arith), ground (arith));
    failed = λ x e. cc;
  }
  store_key-IsFresh (err x) t same = record { fetched = λ k e. cc; failed = λ y e. same }

  cached-IsFresh : is_stale net s ≡ false → IsFresh (cached s, s)
  unfolding is_stale
  cached-IsFresh h = elim (Option-cases s.public_key) [
    | inl n ↦ ground (arith)
    | inr (key, n) ↦ record {
      fetched = λ k e. (ground (arith), ground (arith));
      failed = λ x e. record { same_key = refl; same_time = refl };
    }
  ]

  get_public_key-IsFresh : IsFresh (get_public_key net s)
  unfolding get_public_key
  get_public_key-IsFresh = elim (Bool-cases (is_stale net s)) [
    | inl h ↦ rw h (store_key-IsFresh _ (get_jwks net s).1 get_jwks-SameKey)
    | inr h ↦ rw h (cached-IsFresh h)
  ]

  -- A key that `getPublicKey` returns was fetched at most an hour ago, and it is the cached key
  -- afterwards.
  pub get_public_key-ok :
      (key : String)
      → (get_public_key net s).0 ≡ ok key
      → ((get_public_key net s).1.public_key ≡ some key)
        × (net.now ≤ (get_public_key net s).1.key_last_refreshed + refresh_key_interval)
  get_public_key-ok = get_public_key-IsFresh.fetched

  -- A call of `getPublicKey` that raises leaves the cached key and the time of its fetch as they
  -- were.
  pub get_public_key-err :
      (e : AuthExn)
      → (get_public_key net s).0 ≡ err e
      → ((get_public_key net s).1.public_key ≡ s.public_key)
        × ((get_public_key net s).1.key_last_refreshed ≡ s.key_last_refreshed)
  get_public_key-err e h =
      let same = get_public_key-IsFresh.failed e h in (same.same_key, same.same_time)
