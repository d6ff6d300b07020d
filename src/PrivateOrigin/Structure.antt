-- ===== src/PrivateOrigin/Structure.antt =====
-- What it takes for a token to pass `validate_structure`, and that a redeemed nonce is known.
use privacypass_cpp.Prelude.{
  ℕ, ◌≡◌, ◌↔◌, refl, ap, ◌∙◌, sym, Bool, true, false, not, ◌==◌, if◌then◌else◌,
}
use privacypass_cpp.Types.{
  Bytes, Error, voprf_p384_sha384, to_u16, Result, ok, err, constant_time_equal,
}
use privacypass_cpp.Types.Compare.{constant_time_equal_iff}
use privacypass_cpp.NonceSet.{contains, contains-insert}
use privacypass_cpp.ReplayCache.{ReplayCache, check_and_add, prune_expired, add, is_known}
use privacypass_cpp.Token.{Token, validate}
use privacypass_cpp.TokenChallenge
use privacypass_cpp.TokenChallenge.{TokenChallenge, digest, digest_of}
use privacypass_cpp.TokenChallenge.Digest.{IsCurrent, digest-IsCurrent}
use privacypass_cpp.PrivateOrigin.{
  PrivateOrigin, would_be_replay, mark_redeemed, compare_digest, check_voprf, check_structure,
  validate_structure,
}

module _ (sha256 : Bytes → Result Bytes) where
  abbrev pub IsStructured : Token → TokenChallenge → Type 0
  IsStructured token challenge =
      (validate token ≡ ok tt)
      × ((to_u16 token.token_type == to_u16 voprf_p384_sha384) ≡ true)
      × (digest_of sha256 (TokenChallenge.serialize challenge) ≡ ok token.challenge_digest)

  compare_digest-true :
      (token : Token) (m : Result Bytes)
      → compare_digest sha256 token m ≡ ok true
      → m ≡ ok token.challenge_digest
  compare_digest-true token (err e) h = absurd cc
  compare_digest-true token (ok d) h = go (constant_time_equal token.challenge_digest d) _ refl h
    where
      go :
          (p : Bool) (e : Error)
          → constant_time_equal token.challenge_digest d ≡ p
          → (if not p then err e else ok true) ≡ ok true
          → ◌≡◌ {A = Result Bytes} (ok d) (ok token.challenge_digest)
      go true x e h = ap ok (sym ((constant_time_equal_iff _ _).0 e))
      go false x e h = absurd cc

  check_voprf-true :
      (token : Token) (challenge : TokenChallenge) (p : Bool)
      → (check_voprf sha256 token challenge p).0 ≡ ok true
      → (p ≡ true) × ((digest sha256 challenge).0 ≡ ok token.challenge_digest)
  check_voprf-true token challenge true h = (refl, compare_digest-true token _ h)
  check_voprf-true token challenge false h = absurd cc

  check_structure-true :
      (token : Token) (challenge : TokenChallenge) (m : Result (Unit {0}))
      → IsCurrent sha256 challenge
      → validate token ≡ m
      → (check_structure sha256 token challenge m).0 ≡ ok true
      → IsStructured token challenge
  check_structure-true token challenge (ok u) c e h =
      let (t, d) = check_voprf-true token challenge _ h in
      (e, t, sym (digest-IsCurrent sha256 challenge c).0 ∙ d)
  check_structure-true token challenge (err x) c e h = absurd cc

  structured :
      (token : Token) (challenge : TokenChallenge)
      → IsCurrent sha256 challenge
      → IsStructured token challenge
      → (validate_structure sha256 token challenge).0 ≡ ok true
  unfolding validate_structure
  structured token challenge c (v, t, d) =
      let same = (constant_time_equal_iff token.challenge_digest token.challenge_digest).1 refl in
      rw (v, t, (digest-IsCurrent sha256 challenge c).0, d, same) refl

  -- For an expected challenge that has no cached digest but its own, `validate_structure` answers
  -- true exactly for a token whose structure is valid, whose type is VOPRF over P-384, and whose
  -- digest is that of the challenge.
  pub validate_structure-true_iff :
      (token : Token) (challenge : TokenChallenge)
      → IsCurrent sha256 challenge
      → ((validate_structure sha256 token challenge).0 ≡ ok true) ↔ IsStructured token challenge
  unfolding validate_structure
  validate_structure-true_iff token challenge c =
      (check_structure-true token challenge (validate token) c refl, structured token challenge c)

check_and_add-is_known :
    (c : ReplayCache) (token : Token) (tick : ℕ)
    → is_known token.nonce (check_and_add token.nonce tick c).1 ≡ true
unfolding check_and_add add
check_and_add-is_known c token tick =
    go (contains token.nonce (prune_expired tick c).all_nonces) refl
  where
    go :
        (p : Bool)
        → contains token.nonce (prune_expired tick c).all_nonces ≡ p
        → is_known token.nonce (check_and_add token.nonce tick c).1 ≡ true
    go true e = rw (check_and_add, e) e
    go false e =
        rw (check_and_add, e) (contains-insert token.nonce (prune_expired tick c).all_nonces)

-- Whatever the cache held, right after `mark_redeemed` the token would be a replay.
pub mark_redeemed-would_be_replay :
    {Key : Type 0} (o : PrivateOrigin Key) (token : Token) (tick : ℕ)
    → would_be_replay token (mark_redeemed token tick o) ≡ true
unfolding would_be_replay mark_redeemed
mark_redeemed-would_be_replay o token tick = check_and_add-is_known o.replay_cache token tick
