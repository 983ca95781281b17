-- ===== src/Auth/Fallback.antt =====
-- When the decorator falls back on the certificate file (nmoscommon/auth/nmos_auth.py,
-- `getPublicKey`): which errors of finding a key are the one that its handler is for.
use nmos_common.Common.{
  String, ◌≡◌, ◌≢◌, refl, sym, ap, ◌∙◌, Bool, true, false, Option, none, some, List, [], ◌∷◌, arith,
  if◌then◌else◌, ℕ,
}
use nmos_common.Common.Json.{Json, null, bool, int, str, list, dict, Items, nil, item}
use nmos_common.Auth.Exn.{Check, ok, err, request_error, ◌>>=◌}
use nmos_common.Auth.Keys as Keys
use nmos_common.Auth.Keys.{State, get_jwk_url, url_at, jwks_uri}
use nmos_common.Auth.Token.{drop_space}
use nmos_common.Auth.Newest.{
  Stamp, strip, lookup, int_of, kid_text, fields_of, stamped, kid_stamp, newer, reduce_newer,
  find_most_recent,
}
use nmos_common.Auth.Decorator.{
  KeyReply, unreachable, no_type, wrong_type, undecodable, document, Loaded, pem, no_jose_key,
  lacks_entry, bad_value, File, Network, keys_of, entry_or, is_stale, update_public_key, cached,
  read_reply, loaded, get_jwks, extract_public_key, or_certificate, get_public_key,
}

-- a RequestException is raised
abbrev raised {ℓ} : {A : Type ℓ} → Check A → Bool
raised (err request_error) = true
raised _ = false

raised-bind :
    {A B : Type 0} (r : Check A) (f : A → Check B)
    → raised r ≡ false
    → ((a : A) → raised (f a) ≡ false)
    → raised (r >>= f) ≡ false
raised-bind (ok a) f h k = k a
raised-bind (err request_error) f h k = cc
raised-bind (err e) f h k = refl

raised-stamped : (sign : ℕ → Stamp) (o : Option ℕ) → raised (stamped sign o) ≡ false
raised-stamped sign none = refl
raised-stamped sign (some n) = refl

raised-int_of : (s : List ℕ) → raised (int_of s) ≡ false
unfolding int_of
raised-int_of [] = refl
raised-int_of (c ∷ s) = grind (arith, raised-stamped)

raised-fields_of : (key : Json) → raised (fields_of key) ≡ false
raised-fields_of null = refl
raised-fields_of (bool b) = refl
raised-fields_of (int n) = refl
raised-fields_of (str t) = refl
raised-fields_of (list l) = refl
raised-fields_of (dict d) = refl

raised-kid_text : (o : Option Json) → raised (kid_text o) ≡ false
raised-kid_text none = refl
raised-kid_text (some null) = refl
raised-kid_text (some (bool b)) = refl
raised-kid_text (some (int n)) = refl
raised-kid_text (some (str t)) = refl
raised-kid_text (some (list l)) = refl
raised-kid_text (some (dict d)) = refl

raised-kid_stamp : (key : Json) → raised (kid_stamp key) ≡ false
unfolding kid_stamp
raised-kid_stamp key = raised-bind (fields_of key) _ (raised-fields_of key) (λ d.
    raised-bind (kid_text (lookup "kid" d)) _ (raised-kid_text _)
      (λ s. raised-int_of (drop_space (strip s))))

raised-newer : (a b : Json) → raised (newer a b) ≡ false
unfolding newer
raised-newer a b =
    raised-bind (kid_stamp a) _ (raised-kid_stamp a)
      (λ s. raised-bind (kid_stamp b) _ (raised-kid_stamp b) (λ t. refl))

raised-reduce_newer : (a : Json) (rest : Items) → raised (reduce_newer a rest) ≡ false
unfolding reduce_newer
raised-reduce_newer a nil = refl
raised-reduce_newer a (item b rest) =
    raised-bind (newer a b) _ (raised-newer a b) (λ c. raised-reduce_newer c rest)

raised-find_most_recent : (l : Items) → raised (find_most_recent l) ≡ false
unfolding find_most_recent
raised-find_most_recent nil = refl
raised-find_most_recent (item a rest) = raised-reduce_newer a rest

raised-loaded : (r : Loaded) → raised (loaded r) ≡ false
unfolding loaded
raised-loaded (pem s) = refl
raised-loaded no_jose_key = refl
raised-loaded lacks_entry = refl
raised-loaded bad_value = refl

raised-entry_or : (v : Json) (o : Option Json) → raised (entry_or v o) ≡ false
raised-entry_or v none = refl
raised-entry_or v (some entry) = refl

raised-keys_of : (v : Json) → raised (keys_of v) ≡ false
unfolding keys_of
raised-keys_of null = refl
raised-keys_of (bool b) = refl
raised-keys_of (int n) = refl
raised-keys_of (str s) = ground arith
raised-keys_of (list l) = ground arith
raised-keys_of (dict d) = raised-entry_or (dict d) (lookup "keys" d)

raised-read_reply : (r : KeyReply) → r ≢ undecodable true → raised (read_reply r) ≡ false
unfolding read_reply
raised-read_reply unreachable h = refl
raised-read_reply no_type h = refl
raised-read_reply wrong_type h = refl
raised-read_reply (undecodable true) h = absurd (h refl)
raised-read_reply (undecodable false) h = refl
raised-read_reply (document v) h = raised-keys_of v

raised-jwks_uri : (o : Option (Option String)) → raised (jwks_uri o) ≡ false
unfolding jwks_uri
raised-jwks_uri none = refl
raised-jwks_uri (some none) = refl
raised-jwks_uri (some (some uri)) = refl

raised-extract_public_key : (net : Network) (v : Json) → raised (extract_public_key net v) ≡ false
unfolding extract_public_key
raised-extract_public_key net null = refl
raised-extract_public_key net (bool b) = refl
raised-extract_public_key net (int n) = refl
raised-extract_public_key net (str s) = raised-loaded _
raised-extract_public_key net (list l) =
    raised-bind (find_most_recent l) _ (raised-find_most_recent l) (λ key. raised-loaded _)
raised-extract_public_key net (dict d) = raised-loaded _

raised-url_at :
    (net : Keys.Network) (o : Option String) (s : State) → raised (url_at net o s).0 ≡ false
raised-url_at net none s = refl
raised-url_at net (some href) s = raised-jwks_uri _

or_certificate-raised :
    (net : Network) (r : Check String) → raised r ≡ false → or_certificate net r ≡ r
unfolding or_certificate
or_certificate-raised net (ok key) h = refl
or_certificate-raised net (err request_error) h = cc
or_certificate-raised net (err e) h = refl

module _ (net : Network) (s : State)
    (decodes : (url : String) → net.keys_at url ≢ undecodable true) where
  raised-get_jwks : raised (get_jwks net s).0 ≡ false
  unfolding get_jwks get_jwk_url
  raised-get_jwks =
      raised-bind (url_at net.server _ s).0 _ (raised-url_at net.server _ s)
        (λ u. raised-read_reply (net.keys_at u) (decodes u))

  no_fallback :
      or_certificate net ((get_jwks net s).0 >>= extract_public_key net)
      ≡ ((get_jwks net s).0 >>= extract_public_key net)
  no_fallback = or_certificate-raised net _ (
      raised-bind (get_jwks net s).0 (extract_public_key net) raised-get_jwks
        (raised-extract_public_key net))

abbrev with_file : File → Network → Network
with_file file net = record net { certificate = file }

-- Unless the key endpoint answers with a text that the requests library itself refuses to decode,
-- `getPublicKey` does not depend on the certificate file: neither when the endpoint or the
-- authorization server cannot be reached, nor on any other failure.
pub get_public_key-file :
    (net : Network) (s : State) (file : File)
    → ((url : String) → net.keys_at url ≢ undecodable true)
    → get_public_key (record net { certificate = file }) s ≡ get_public_key net s
unfolding get_public_key get_jwks extract_public_key is_stale
get_public_key-file net s file decodes =
    ap
      (λ r.
        if is_stale net s
        then update_public_key net.server.now r (get_jwks net s).1
        else (cached s.public_key, s))
      (no_fallback (with_file file net) s decodes ∙ sym (no_fallback net s decodes))
