-- ===== src/PublicOrigin/Verify.antt =====
-- What it takes for a token to pass `verify`.
use privacypass_cpp.Prelude.{
  ℕ, zero, suc, ◌<◌, ◌≡◌, ◌≢◌, ◌↔◌, refl, ap, ◌∙◌, sym, Bool, true, false, not, Option, none, some,
  List, [], ◌∷◌, if◌then◌else◌, length, arith,
}
use privacypass_cpp.Types.{Bytes, Error, Result, ok, err, >>=-eq-ok, constant_time_equal}
use privacypass_cpp.Types.Compare.{constant_time_equal_iff}
use privacypass_cpp.AuthenticatorInput
use privacypass_cpp.Token.{Token, validate, authenticator_input}
use privacypass_cpp.TokenChallenge
use privacypass_cpp.TokenChallenge.{TokenChallenge, digest, digest_of}
use privacypass_cpp.TokenChallenge.Digest.{IsCurrent, digest-IsCurrent}
use privacypass_cpp.PublicOrigin.{
  find_index, PublicOrigin, RsaCrypto, is_rsa, key_at, remove_issuer_key, check_key, check_index,
  check_digest, check_type, check_valid, verify,
}
use privacypass_cpp.PublicOrigin.Keys.{IsIndexed, find_index-IsBelow, find_index-remove_issuer_key}

key_at-below :
    {Key : Type 0} (ks : List Key) (i : ℕ) → i < length ks → (k : Key) × (key_at ks i ≡ some k)
key_at-below [] i h = absurd (omega arith)
key_at-below (k ∷ ks) zero h = (k, refl)
key_at-below (k ∷ ks) (suc i) h = key_at-below ks i (omega arith)

module _ {Key : Type 0} (crypto : RsaCrypto Key) where
  -- The key that the token names is the origin's, and its signature stands under that key.
  abbrev pub IsSigned : Token → PublicOrigin Key → Type 0
  IsSigned token o =
      (index : ℕ) × (key : Key) × (bytes : Bytes) × (find_index token.token_key_id
          o.key_index_by_full_id
        ≡ some index)
      × (key_at o.issuer_keys index ≡ some key)
      × (AuthenticatorInput.serialize (authenticator_input token) ≡ ok bytes)
      × (crypto.verify key bytes token.authenticator ≡ ok true)

  abbrev pub IsAccepted : Token → TokenChallenge → PublicOrigin Key → Type 0
  IsAccepted token challenge o =
      (validate token ≡ ok tt)
      × (is_rsa token.token_type ≡ true)
      × (digest_of crypto.sha256 (TokenChallenge.serialize challenge) ≡ ok token.challenge_digest)
      × IsSigned token o

  some_ok : (m : Result Bool) → some m ≡ some (ok true) → m ≡ ok true
  some_ok m h = cc

  check_key-true :
      (token : Token) (m : Option Key)
      → check_key crypto token m ≡ some (ok true)
      → (key : Key) × (bytes : Bytes) × (m ≡ some key)
        × (AuthenticatorInput.serialize (authenticator_input token) ≡ ok bytes)
        × (crypto.verify key bytes token.authenticator ≡ ok true)
  check_key-true token none h = absurd cc
  check_key-true token (some key) h =
      let (bytes, e, v) = >>=-eq-ok _ _ (some_ok _ h) in (key, bytes, refl, e, v)

  check_index-true :
      (token : Token) (o : PublicOrigin Key) (m : Option ℕ)
      → find_index token.token_key_id o.key_index_by_full_id ≡ m
      → check_index crypto token o.issuer_keys m ≡ some (ok true)
      → IsSigned token o
  check_index-true token o none e h = absurd cc
  check_index-true token o (some index) e h =
      let (key, bytes, at, s, v) = check_key-true token (key_at o.issuer_keys index) h in
      (index, key, bytes, e, at, s, v)

  check_digest-true :
      (token : Token) (o : PublicOrigin Key) (m : Result Bytes)
      → check_digest crypto token o m ≡ some (ok true)
      → (m ≡ ok token.challenge_digest) × IsSigned token o
  check_digest-true token o (err e) h = absurd cc
  check_digest-true token o (ok d) h = go (constant_time_equal token.challenge_digest d) _ refl h
    where
      go :
          (p : Bool) (e : Error)
          → constant_time_equal token.challenge_digest d ≡ p
          → (if not p
              then some (err e)
              else check_index crypto token o.issuer_keys
                  (find_index token.token_key_id o.key_index_by_full_id))
            ≡ some (ok true)
          → ((Result.ok d) ≡ ok token.challenge_digest) × IsSigned token o
      go true x e h = (
        ap ok (sym ((constant_time_equal_iff _ _).0 e)),
        check_index-true token o (find_index token.token_key_id o.key_index_by_full_id) refl h,
      )
      go false x e h = absurd cc

  check_type-true :
      (token : Token) (challenge : TokenChallenge) (o : PublicOrigin Key) (p : Bool)
      → (check_type crypto token challenge o p).0 ≡ some (ok true)
      → (p ≡ true)
        × (check_digest crypto token o (digest crypto.sha256 challenge).0 ≡ some (ok true))
  check_type-true token challenge o true h = (refl, h)
  check_type-true token challenge o false h = absurd cc

  check_valid-true :
      (token : Token) (challenge : TokenChallenge) (o : PublicOrigin Key) (m : Result (Unit {0}))
      → (check_valid crypto token challenge o m).0 ≡ some (ok true)
      → (m ≡ ok tt)
        × (is_rsa token.token_type ≡ true)
        × (check_digest crypto token o (digest crypto.sha256 challenge).0 ≡ some (ok true))
  check_valid-true token challenge o (ok u) h =
      let (t, d) = check_type-true token challenge o (is_rsa token.token_type) h in (refl, t, d)
  check_valid-true token challenge o (err e) h = absurd cc

  verify-accepts :
      (token : Token) (challenge : TokenChallenge) (o : PublicOrigin Key)
      → IsCurrent crypto.sha256 challenge
      → (verify crypto token challenge o).0 ≡ some (ok true)
      → IsAccepted token challenge o
  unfolding verify
  verify-accepts token challenge o c h =
      let (v, t, k) = check_valid-true token challenge o (validate token) h in
      let (d, signed) = check_digest-true token o (digest crypto.sha256 challenge).0 k in
      (v, t, sym (digest-IsCurrent crypto.sha256 challenge c).0 ∙ d, signed)

  pub accepts-verify :
      (token : Token) (challenge : TokenChallenge) (o : PublicOrigin Key)
      → IsCurrent crypto.sha256 challenge
      → IsAccepted token challenge o
      → (verify crypto token challenge o).0 ≡ some (ok true)
  unfolding verify
  accepts-verify token challenge o c (v, t, d, (index, key, bytes, found, at, s, signed)) =
      let same = (constant_time_equal_iff token.challenge_digest token.challenge_digest).1 refl in
      rw (v, t, (digest-IsCurrent crypto.sha256 challenge c).0, d, same, found, at, s, signed) refl

  -- For an expected challenge that has no cached digest but its own, `verify` answers true exactly
  -- for a token whose structure is valid, whose type is one of the two RSA types, whose digest is
  -- that of the challenge, and whose authenticator is a signature of its input under the key that
  -- the origin holds for its key id.
  pub verify-true_iff :
      (token : Token) (challenge : TokenChallenge) (o : PublicOrigin Key)
      → IsCurrent crypto.sha256 challenge
      → ((verify crypto token challenge o).0 ≡ some (ok true)) ↔ IsAccepted token challenge o
  verify-true_iff token challenge o c =
      (verify-accepts token challenge o c, accepts-verify token challenge o c)

  -- After `remove_issuer_key` no token with that key id passes, for any expected challenge that has
  -- no cached digest but its own.
  pub remove_issuer_key-verify :
      (token : Token) (challenge : TokenChallenge) (o : PublicOrigin Key)
      → IsCurrent crypto.sha256 challenge
      → (verify crypto token challenge (remove_issuer_key crypto token.token_key_id o)).0
        ≢ some (ok true)
  remove_issuer_key-verify token challenge o c h =
      let (_, _, _, (index, _, _, found, _, _, _)) =
        verify-accepts token challenge (remove_issuer_key crypto token.token_key_id o) c h in
      cc (find_index-remove_issuer_key crypto token.token_key_id o)

  check_index-ne-none :
      (token : Token) (o : PublicOrigin Key) (m : Option ℕ)
      → IsIndexed o
      → find_index token.token_key_id o.key_index_by_full_id ≡ m
      → check_index crypto token o.issuer_keys m ≢ none
  check_index-ne-none token o none h e p = cc
  check_index-ne-none token o (some index) h e p =
      let lt = find_index-IsBelow _ token.token_key_id o.key_index_by_full_id index h e in
      let (key, at) = key_at-below o.issuer_keys index lt in
      some-ne-none _ (ap (check_key crypto token) (sym at) ∙ p)
    where
      some-ne-none : (m : Result Bool) → some m ≢ none
      some-ne-none m p = cc

  check_digest-ne-none :
      (token : Token) (o : PublicOrigin Key) (m : Result Bytes)
      → IsIndexed o
      → check_digest crypto token o m ≢ none
  check_digest-ne-none token o (err e) h = λ p. cc
  check_digest-ne-none token o (ok d) h = go (constant_time_equal token.challenge_digest d) _
    where
      go :
          (p : Bool) (e : Error)
          → (if not p
              then some (err e)
              else check_index crypto token o.issuer_keys
                  (find_index token.token_key_id o.key_index_by_full_id))
            ≢ none
      go true e = check_index-ne-none token o _ h refl
      go false e = λ p. cc

  -- Where every index is that of a key, `verify` never reads past the end of `issuer_keys`.
  pub verify-ne-none :
      (token : Token) (challenge : TokenChallenge) (o : PublicOrigin Key)
      → IsIndexed o
      → (verify crypto token challenge o).0 ≢ none
  unfolding verify
  verify-ne-none token challenge o h = go (validate token)
    where
      typed : (p : Bool) → (check_type crypto token challenge o p).0 ≢ none
      typed true = check_digest-ne-none token o (digest crypto.sha256 challenge).0 h
      typed false = λ p. cc

      go : (m : Result (Unit {0})) → (check_valid crypto token challenge o m).0 ≢ none
      go (ok u) = typed (is_rsa token.token_type)
      go (err e) = λ q. cc
