-- ===== src/TokenAuthenticator/Trust.antt =====
-- Who is trusted, and whose tokens are accepted.
use privacypass_cpp.Prelude.{◌≡◌, refl, Bool, true, false, ◌||◌, List, [], ◌∷◌, ◌++◌, if◌then◌else◌}
use privacypass_cpp.Types.{Bytes}
use privacypass_cpp.NonceSet.{same, same_self}
use privacypass_cpp.Token.{Token}
use privacypass_cpp.TokenChallenge.{TokenChallenge}
use privacypass_cpp.PublicOrigin.{RsaCrypto}
use privacypass_cpp.Origin.{KeyCodec}
use privacypass_cpp.TokenAuthenticator.{
  TokenAuthenticator, TrustedKeys, has_issuer, push_key, erase_issuer, add_trusted_rsa_key,
  add_trusted_voprf_key, remove_trusted_issuer, is_trusted, checks, validate,
}

module _ {Key : Type 0} where
  has_issuer-erase_issuer :
      (name : Bytes) (es : List (TrustedKeys Key)) → has_issuer name (erase_issuer name es) ≡ false
  unfolding has_issuer erase_issuer
  has_issuer-erase_issuer name [] = refl
  has_issuer-erase_issuer name (e ∷ es) =
      go (same name e.issuer_name) refl (has_issuer-erase_issuer name es)
    where
      go :
          (p : Bool)
          → same name e.issuer_name ≡ p
          → has_issuer name (erase_issuer name es) ≡ false
          → has_issuer name (if p then erase_issuer name es else e ∷ erase_issuer name es) ≡ false
      go true q ih = ih
      go false q ih = rw (q, has_issuer) ih

  has_issuer-push_key :
      (name : Bytes) (key : Key) (es : List (TrustedKeys Key))
      → has_issuer name (push_key name key es) ≡ true
  unfolding has_issuer push_key
  has_issuer-push_key name key [] = rw (same_self name) refl
  has_issuer-push_key name key (e ∷ es) =
      go (same name e.issuer_name) refl (has_issuer-push_key name key es)
    where
      go :
          (p : Bool)
          → same name e.issuer_name ≡ p
          → has_issuer name (push_key name key es) ≡ true
          → has_issuer name
              (if p then record e { keys = e.keys ++ key ∷ [] } ∷ es else e ∷ push_key name key es)
            ≡ true
      go true q ih = rw (q, has_issuer) refl
      go false q ih = rw (q, has_issuer) ih

or_true : (p q : Bool) → q ≡ true → (p || q) ≡ true
or_true true q h = refl
or_true false q h = h

module _ {Rsa Voprf : Type 0} (crypto : RsaCrypto Rsa) where
  -- An issuer is trusted after a key of either kind has been added for it.
  pub add_trusted_key-is_trusted :
      (rsa_codec : KeyCodec Rsa) (voprf_codec : KeyCodec Voprf) (name : Bytes) (rsa : Rsa)
      (voprf : Voprf) (a : TokenAuthenticator Rsa Voprf)
      → (is_trusted name (add_trusted_rsa_key crypto rsa_codec name rsa a) ≡ true)
        × (is_trusted name (add_trusted_voprf_key voprf_codec name voprf a) ≡ true)
  unfolding is_trusted add_trusted_rsa_key add_trusted_voprf_key
  add_trusted_key-is_trusted rsa_codec voprf_codec name rsa voprf a = (
    rw (has_issuer-push_key name rsa a.rsa_keys) refl,
    or_true _ _ (has_issuer-push_key name voprf a.voprf_keys),
  )

  -- After `remove_trusted_issuer` the issuer is not trusted any more; but `validate` answers for every
  -- token and challenge as it did before, those of the removed issuer included.
  pub remove_trusted_issuer-validate :
      (name : Bytes) (token : Token) (challenge : TokenChallenge) (a : TokenAuthenticator Rsa Voprf)
      → (is_trusted name (remove_trusted_issuer name a) ≡ false)
        × (validate crypto token challenge (remove_trusted_issuer name a)
            ≡ validate crypto token challenge a)
  unfolding is_trusted remove_trusted_issuer validate checks
  remove_trusted_issuer-validate name token challenge a = (
    rw (has_issuer-erase_issuer name a.rsa_keys, has_issuer-erase_issuer name a.voprf_keys) refl,
    refl,
  )
