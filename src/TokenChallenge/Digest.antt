-- ===== src/TokenChallenge/Digest.antt =====
-- The cached digest is the digest.
use privacypass_cpp.Prelude.{◌≡◌, refl, sym, ap, ◌∙◌, Option, none, some}
use privacypass_cpp.Types.{Bytes, Result, ok, err}
use privacypass_cpp.TokenChallenge.{
  TokenChallenge, origin_info_string, serialize, digest_of, keep, digest,
}

serialize-keep :
    (c : TokenChallenge) (o : Option Bytes)
    → serialize (record c { cached_digest_ = o }) ≡ serialize c
unfolding serialize origin_info_string
serialize-keep c o = refl

module _ (sha256 : Bytes → Result Bytes) where
  -- No digest is cached, or the one that is belongs to the fields.
  abbrev pub IsCurrent : TokenChallenge → Type 0
  IsCurrent c = (d : Bytes) → c.cached_digest_ ≡ some d → digest_of sha256 (serialize c) ≡ ok d

  -- The answer is the hash, and the challenge has the same fields and a current cache.
  abbrev Stands : TokenChallenge → Result Bytes × TokenChallenge → Type 0
  Stands c a =
      (a.0 ≡ digest_of sha256 (serialize c))
      × IsCurrent a.1
      × (serialize a.1 ≡ serialize c)
      × (record a.1 { cached_digest_ = c.cached_digest_ } ≡ c)

  keep-Stands :
      (c : TokenChallenge) (m : Result Bytes)
      → IsCurrent c
      → digest_of sha256 (serialize c) ≡ m
      → Stands c (keep sha256 c m)
  keep-Stands c (ok hash) h e =
      let same = serialize-keep c (some hash) in
      (sym e, (λ d k. ap (digest_of sha256) same ∙ (e ∙ cc)), same, refl)
  keep-Stands c (err x) h e = (sym e, h, refl, refl)

  from_cache :
      (c : TokenChallenge) (o : Option Bytes)
      → IsCurrent c
      → c.cached_digest_ ≡ o
      → Stands c
          (elim o [ some d ↦ (ok d, c) | none ↦ keep sha256 c (digest_of sha256 (serialize c)) ])
  from_cache c (some d) h e = (sym (h d e), h, refl, refl)
  from_cache c none h e = keep-Stands c (digest_of sha256 (serialize c)) h refl

  -- While the cached digest belongs to the fields, `digest` answers the hash of the serialisation
  -- or the error of either, and changes none of the other fields, so that the challenge serialises
  -- as before; the cached digest still belongs to them.
  pub digest-IsCurrent :
      (c : TokenChallenge)
      → IsCurrent c
      → ((digest sha256 c).0 ≡ digest_of sha256 (serialize c))
        × IsCurrent (digest sha256 c).1
        × (serialize (digest sha256 c).1 ≡ serialize c)
        × (record (digest sha256 c).1 { cached_digest_ = c.cached_digest_ } ≡ c)
  unfolding digest
  digest-IsCurrent c h = from_cache c c.cached_digest_ h refl
