-- ===== src/TokenAuthenticator/Validate.antt =====
-- What `validate` accepts.
use privacypass_cpp.Prelude.{
  ◌≡◌, ◌↔◌, refl, sym, ap, ◌∙◌, Bool, true, false, Option, none, some, arith,
}
use privacypass_cpp.Types.{Bytes, Result, ok, err, constant_time_equal}
use privacypass_cpp.Types.Compare.{constant_time_equal_iff}
use privacypass_cpp.Token
use privacypass_cpp.Token.{Token}
use privacypass_cpp.TokenChallenge
use privacypass_cpp.TokenChallenge.{TokenChallenge, digest, digest_of}
use privacypass_cpp.TokenChallenge.Digest.{IsCurrent, digest-IsCurrent}
use privacypass_cpp.PublicOrigin.{PublicOrigin, RsaCrypto}
use privacypass_cpp.PublicOrigin.Verify.{IsAccepted}
use privacypass_cpp.Origin
use privacypass_cpp.Origin.Verify.{verify_token-true_iff}
use privacypass_cpp.TokenAuthenticator.{
  TokenAuthenticator, success, failure, Verdict, refused, passed, check_signature, check_digest,
  check_valid, checks, answer, validate,
}

answer-success :
    (v : Option Verdict) (d : Bytes) → answer v ≡ some (success d) → v ≡ some (passed d)
unfolding success failure
answer-success none d h = absurd cc
answer-success (some (refused code message)) d h = absurd (ground arith)
answer-success (some (passed e)) d h = ground arith

check_signature-passed :
    (e d : Bytes) (m : Option (Result Bool))
    → check_signature e m ≡ some (passed d)
    → (e ≡ d) × (m ≡ some (ok true))
check_signature-passed e d none h = absurd cc
check_signature-passed e d (some (err x)) h = absurd cc
check_signature-passed e d (some (ok false)) h = absurd cc
check_signature-passed e d (some (ok true)) h = (cc, refl)

module _ {Rsa : Type 0} (crypto : RsaCrypto Rsa) where
  -- An origin accepts a token for a challenge as for the challenge with its digest cached.
  IsAccepted-digest :
      (token : Token) (challenge challenge' : TokenChallenge) (p : PublicOrigin Rsa)
      → TokenChallenge.serialize challenge' ≡ TokenChallenge.serialize challenge
      → IsAccepted crypto token challenge' p
      → IsAccepted crypto token challenge p
  IsAccepted-digest token challenge challenge' p same (v, t, d, s) =
      (v, t, ap (digest_of crypto.sha256) (sym same) ∙ d, s)

module _ {Rsa Voprf : Type 0} (crypto : RsaCrypto Rsa) where
  -- The digest that is compared, and the signature, where the checks pass.
  check_digest-passed :
      (token : Token) (a : TokenAuthenticator Rsa Voprf) (r : Result Bytes) (c : TokenChallenge)
      (d : Bytes)
      → (check_digest crypto token a (r, c)).0 ≡ some (passed d)
      → (r ≡ ok d)
        × (token.challenge_digest ≡ d)
        × ((Origin.verify crypto token c a.origin).0 ≡ some (ok true))
  check_digest-passed token a (err x) c d h = absurd cc
  check_digest-passed token a (ok e) c d h =
      go (constant_time_equal token.challenge_digest e) refl h
    where
      go :
          (p : Bool)
          → constant_time_equal token.challenge_digest e ≡ p
          → (check_digest crypto token a (ok e, c)).0 ≡ some (passed d)
          → (◌≡◌ {A = Result Bytes} (ok e) (ok d))
            × (token.challenge_digest ≡ d)
            × ((Origin.verify crypto token c a.origin).0 ≡ some (ok true))
      go true q k =
          let (same, verified) = check_signature-passed e d _ (rw (q, check_digest) at k) in
          (ap ok same, (constant_time_equal_iff token.challenge_digest e).0 q ∙ same, verified)
      go false q k = absurd (ground (arith, rw (q, check_digest) at k))

  checks-passed :
      (token : Token) (challenge : TokenChallenge) (a : TokenAuthenticator Rsa Voprf) (d : Bytes)
      → (checks crypto token challenge a).0 ≡ some (passed d)
      → (Token.validate token ≡ ok tt)
        × ((digest crypto.sha256 challenge).0 ≡ ok d)
        × (token.challenge_digest ≡ d)
        × ((Origin.verify crypto token (digest crypto.sha256 challenge).1 a.origin).0
            ≡ some (ok true))
  unfolding checks
  checks-passed token challenge a d h = go (Token.validate token) refl h
    where
      go :
          (m : Result (Unit {0}))
          → Token.validate token ≡ m
          → (check_valid crypto token challenge a m).0 ≡ some (passed d)
          → (Token.validate token ≡ ok tt)
            × ((digest crypto.sha256 challenge).0 ≡ ok d)
            × (token.challenge_digest ≡ d)
            × ((Origin.verify crypto token (digest crypto.sha256 challenge).1 a.origin).0
                ≡ some (ok true))
      go (err x) e k = absurd cc
      go (ok u) e k =
          let (r, same, verified) = check_digest-passed token a _ _ d k in (e, r, same, verified)

  passed-checks :
      (token : Token) (challenge : TokenChallenge) (a : TokenAuthenticator Rsa Voprf)
      → Token.validate token ≡ ok tt
      → (digest crypto.sha256 challenge).0 ≡ ok token.challenge_digest
      → (Origin.verify crypto token (digest crypto.sha256 challenge).1 a.origin).0 ≡ some (ok true)
      → (checks crypto token challenge a).0 ≡ some (passed token.challenge_digest)
  unfolding checks
  passed-checks token challenge a e r verified =
      let same = (constant_time_equal_iff token.challenge_digest token.challenge_digest).1 refl in
      rw (e, checks, r, same, verified) refl

  -- While no cached digest but its own is in the challenge, `validate` answers success, with the
  -- digest `d`, exactly if the origin has RSA keys whose `PublicOrigin` accepts the token: it is
  -- well-formed, of an RSA type, for the digest of the challenge, and signed under the held key that
  -- it names; and `d` is that digest.
  pub validate-success_iff :
      (token : Token) (challenge : TokenChallenge) (a : TokenAuthenticator Rsa Voprf) (d : Bytes)
      → IsCurrent crypto.sha256 challenge
      → ((validate crypto token challenge a).0 ≡ some (success d)) ↔ (
          (token.challenge_digest ≡ d)
          × (public : PublicOrigin Rsa) × (a.origin.public_origin ≡ some public)
          × IsAccepted crypto token challenge public)
  unfolding validate
  validate-success_iff token challenge a d c =
      let challenge' = (digest crypto.sha256 challenge).1 in
      let (answered, current, same, _) = digest-IsCurrent crypto.sha256 challenge c in
      let (f, g) = verify_token-true_iff crypto token challenge' a.origin current in
      (
        λ h.
            let (_, r, e, verified) = checks-passed token challenge a d (answer-success _ d h) in
            let (public, k, accepted) = f verified in
            (
              e,
              public,
              k,
              IsAccepted-digest crypto token challenge challenge' public same accepted,
            ),
        λ (e, public, k, accepted).
            let (v, _, q, _) = accepted in
            let verified = g (
              public,
              k,
              IsAccepted-digest crypto token challenge' challenge public (sym same) accepted,
            ) in
            ap answer (passed-checks token challenge a v (answered ∙ q) verified)
            ∙ ap (λ x. some (success x)) e,
      )
