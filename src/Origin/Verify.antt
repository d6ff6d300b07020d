-- ===== src/Origin/Verify.antt =====
-- What it takes for a token to pass `Origin::verify`.
use privacypass_cpp.Prelude.{
  ◌≡◌, ◌≢◌, ◌↔◌, refl, sym, ◌∙◌, Bool, true, false, Option, none, some, ◌==◌,
}
use privacypass_cpp.Types.{
  voprf_p384_sha384, to_u16, Error, unsupported_token_type, Result, ok, err,
}
use privacypass_cpp.Token.{Token}
use privacypass_cpp.TokenChallenge.{TokenChallenge}
use privacypass_cpp.TokenChallenge.Digest.{IsCurrent}
use privacypass_cpp.PublicOrigin.{PublicOrigin, RsaCrypto, is_rsa}
use privacypass_cpp.PublicOrigin.Verify.{IsAccepted}
use privacypass_cpp.PublicOrigin.Verify
use privacypass_cpp.Origin.{Origin, verify_rsa, verify, error}

module _ {Rsa : Type 0} (crypto : RsaCrypto Rsa) where
  verify_rsa-true_iff :
      (token : Token) (challenge : TokenChallenge) (m : Option (PublicOrigin Rsa))
      → IsCurrent crypto.sha256 challenge
      → ((verify_rsa crypto token challenge m).0 ≡ some (ok true)) ↔ (
          (public : PublicOrigin Rsa) × (m ≡ some public)
          × IsAccepted crypto token challenge public)
  verify_rsa-true_iff token challenge none c = (λ h. absurd cc, λ (p, e, _). absurd cc)
  verify_rsa-true_iff token challenge (some public) c =
      let (f, g) = Verify.verify-true_iff crypto token challenge public c in
      (λ h. (public, refl, f h), λ (p, e, a). let q : p ≡ public = cc in g (rw q at a))

  apart : (x : Error) → ◌≢◌ {A = Option (Result Bool)} (some (err x)) (some (ok true))
  apart x p = cc

  false-ne-true : false ≢ true
  false-ne-true p = cc

  abbrev other_error : Bool → Error
  other_error true =
      error unsupported_token_type "VOPRF tokens require issuer private-key verification"
  other_error false = error unsupported_token_type "Unsupported token type"

  -- A token of another type is refused.
  other_type :
      {Voprf : Type 0} (token : Token) (challenge : TokenChallenge) (o : Origin Rsa Voprf)
      → is_rsa token.token_type ≡ false
      → (verify crypto token challenge o).0
        ≡ some (err (other_error (to_u16 token.token_type == to_u16 voprf_p384_sha384)))
  unfolding verify
  other_type token challenge o e = go (to_u16 token.token_type == to_u16 voprf_p384_sha384) refl
    where
      go :
          (p : Bool)
          → (to_u16 token.token_type == to_u16 voprf_p384_sha384) ≡ p
          → (verify crypto token challenge o).0
            ≡ some (err (other_error (to_u16 token.token_type == to_u16 voprf_p384_sha384)))
      go true q = rw (e, q, verify) refl
      go false q = rw (e, q, verify) refl

  rsa_type :
      {Voprf : Type 0} (token : Token) (challenge : TokenChallenge) (o : Origin Rsa Voprf)
      → is_rsa token.token_type ≡ true
      → (verify crypto token challenge o).0 ≡ (verify_rsa crypto token challenge o.public_origin).0
  unfolding verify
  rsa_type token challenge o e = rw (e, verify) refl

  -- While no cached digest but its own is in the challenge, a token passes exactly if the origin has
  -- RSA keys and the `PublicOrigin` of these accepts it.
  pub verify_token-true_iff :
      {Voprf : Type 0} (token : Token) (challenge : TokenChallenge) (o : Origin Rsa Voprf)
      → IsCurrent crypto.sha256 challenge
      → ((verify crypto token challenge o).0 ≡ some (ok true)) ↔ (
          (public : PublicOrigin Rsa) × (o.public_origin ≡ some public)
          × IsAccepted crypto token challenge public)
  verify_token-true_iff token challenge o c = go (is_rsa token.token_type) refl
    where
      go :
          (p : Bool)
          → is_rsa token.token_type ≡ p
          → ((verify crypto token challenge o).0 ≡ some (ok true)) ↔ (
              (public : PublicOrigin Rsa) × (o.public_origin ≡ some public)
              × IsAccepted crypto token challenge public)
      go true e =
          let (f, g) = verify_rsa-true_iff token challenge o.public_origin c in
          let same = rsa_type token challenge o e in (λ h. f (sym same ∙ h), λ k. same ∙ g k)
      go false e = (
        λ h. absurd (apart _ (sym (other_type token challenge o e) ∙ h)),
        λ (p, k, a). absurd (false-ne-true (sym e ∙ a.1)),
      )
