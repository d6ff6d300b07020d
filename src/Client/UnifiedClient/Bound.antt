-- ===== src/Client/UnifiedClient/Bound.antt =====
-- A token belongs to the challenge and the nonce of its request, whatever the issuer answers.
use privacypass_cpp.Prelude.{
  ◌≡◌, refl, sym, ap, ◌∙◌, Bool, true, false, not, Option, none, some, ◌==◌, if◌then◌else◌, subst,
}
use privacypass_cpp.Types.{
  Bytes, voprf_p384_sha384, to_u16, PublicKey, unsupported_token_type, error, Result, ok, err,
  ◌>>=◌, >>=-eq-ok,
}
use privacypass_cpp.AuthenticatorInput
use privacypass_cpp.Token
use privacypass_cpp.Token.{Token}
use privacypass_cpp.TokenChallenge
use privacypass_cpp.TokenChallenge.{TokenChallenge, digest, digest_of}
use privacypass_cpp.TokenChallenge.Digest.{IsCurrent, digest-IsCurrent}
use privacypass_cpp.TokenRequest
use privacypass_cpp.TokenResponse.{TokenResponse, BlindRsaTokenResponse, VoprfTokenResponse}
use privacypass_cpp.PublicOrigin.{is_rsa}
use privacypass_cpp.Client.{
  BlindingData, VoprfFinalizationData, FinalizationData, TokenRequestResult, token_of, kept_input,
  auth_input, request_result, blinding, voprf_data, ClientData,
}
use privacypass_cpp.Client.PublicClient
use privacypass_cpp.Client.PublicClient.{BlindRsaKeys}
use privacypass_cpp.Client.PrivateClient
use privacypass_cpp.Client.PrivateClient.{VoprfKeys}
use privacypass_cpp.Client.UnifiedClient.{
  create_token_request, finalize, request_rsa, request_voprf,
}

-- What is kept for the response is of the challenge, with its digest, and so is the request.
record IsFor (sha256 : Bytes → Result Bytes) (challenge : TokenChallenge) (nonce : Bytes)
    (made : TokenRequestResult) : Type 0 where
  type : made.finalization_data.token_type ≡ challenge.token_type
  nonces : made.finalization_data.nonce ≡ nonce
  digests :
      digest_of sha256 (TokenChallenge.serialize challenge)
      ≡ ok made.finalization_data.challenge_digest

-- The token has the fields of the data that were kept.
abbrev IsOf : FinalizationData → Token → Type 0
IsOf kept token =
    (token.token_type ≡ kept.token_type)
    × (token.nonce ≡ kept.nonce)
    × (token.challenge_digest ≡ kept.challenge_digest)
    × (token.token_key_id ≡ kept.token_key_id)

token_of-IsOf :
    (kept : FinalizationData) (sig : Bytes) (token : Token)
    → ◌≡◌ {A = Result Token} (ok (token_of kept sig)) (ok token)
    → IsOf kept token
unfolding Token.create
token_of-IsOf kept sig token h =
    let e : token_of kept sig ≡ token = cc in subst (IsOf kept) e (refl, refl, refl, refl)

request_result-IsFor :
    (sha256 : Bytes → Result Bytes) (challenge : TokenChallenge) (nonce d id blinded : Bytes)
    (kept : ClientData) (made : TokenRequestResult)
    → digest_of sha256 (TokenChallenge.serialize challenge) ≡ ok d
    → ◌≡◌ {A = Result TokenRequestResult}
        (ok (request_result challenge nonce d id blinded kept))
        (ok made)
    → IsFor sha256 challenge nonce made
unfolding TokenRequest.create
request_result-IsFor sha256 challenge nonce d id blinded kept made e h =
    let same : request_result challenge nonce d id blinded kept ≡ made = cc in
    subst (IsFor sha256 challenge nonce) same (record { type = refl; nonces = refl; digests = e })

module _ {Rsa : Type 0} (keys : BlindRsaKeys Rsa) where
  finalize_rsa-IsOf :
      (response : TokenResponse) (kept : FinalizationData) (key : Rsa) (token : Token)
      → PublicClient.finalize keys response kept key ≡ ok token
      → IsOf kept token
  unfolding PublicClient.finalize
  finalize_rsa-IsOf response kept key token h = go _ _ h
    where
      go :
          (r : Option BlindRsaTokenResponse) (b : Option BlindingData)
          → PublicClient.finalize_with keys r b kept key ≡ ok token
          → IsOf kept token
      go none b k = absurd cc
      go (some r) none k = absurd cc
      go (some r) (some b) k =
          let (bytes, _, k₁) = >>=-eq-ok (AuthenticatorInput.serialize (kept_input kept)) _ k in
          let (sig, _, k₂) = >>=-eq-ok (keys.finalize key r.blind_sig b bytes) _ k₁ in
          token_of-IsOf kept sig token k₂

  request_rsa-IsFor :
      (sha256 : Bytes → Result Bytes) (nonce random : Bytes) (challenge : TokenChallenge)
      (key : Rsa) (made : TokenRequestResult)
      → IsCurrent sha256 challenge
      → (PublicClient.create_token_request sha256 keys (ok nonce) random challenge key).0 ≡ ok made
      → IsFor sha256 challenge nonce made
  unfolding PublicClient.create_token_request
  request_rsa-IsFor sha256 nonce random challenge key made current h =
      let (d, e, k₁) = >>=-eq-ok (digest sha256 challenge).0 _ h in
      let (id, _, k₂) = >>=-eq-ok (keys.key_id key) _ k₁ in
      let (bytes, _, k₃) =
        >>=-eq-ok (AuthenticatorInput.serialize (auth_input challenge nonce d id)) _ k₂ in
      let (kept, _, k₄) = >>=-eq-ok (keys.blind random key bytes) _ k₃ in
      request_result-IsFor sha256 challenge nonce d id kept.blinded_msg (blinding kept) made
        (sym (digest-IsCurrent sha256 challenge current).0 ∙ e) k₄

module _ {Voprf : Type 0} (keys : VoprfKeys Voprf) where
  finalize_voprf-IsOf :
      (response : TokenResponse) (kept : FinalizationData) (key : Voprf) (token : Token)
      → PrivateClient.finalize keys response kept key ≡ ok token
      → IsOf kept token
  unfolding PrivateClient.finalize
  finalize_voprf-IsOf response kept key token h = go _ _ h
    where
      go :
          (r : Option VoprfTokenResponse) (b : Option VoprfFinalizationData)
          → PrivateClient.finalize_with keys r b kept key ≡ ok token
          → IsOf kept token
      go none b k = absurd cc
      go (some r) none k = absurd cc
      go (some r) (some b) k =
          let (key_bytes, _, k₁) = >>=-eq-ok (keys.to_bytes key) _ k in
          let (key_copy, _, k₂) = >>=-eq-ok (keys.from_bytes key_bytes) _ k₁ in
          let (sig, _, k₃) = >>=-eq-ok (keys.finalize key_copy b _) _ k₂ in
          token_of-IsOf kept sig token k₃

  request_voprf-IsFor :
      (sha256 : Bytes → Result Bytes) (nonce random : Bytes) (challenge : TokenChallenge)
      (key : Voprf) (made : TokenRequestResult)
      → IsCurrent sha256 challenge
      → (PrivateClient.create_token_request sha256 keys (ok nonce) random challenge key).0 ≡ ok made
      → IsFor sha256 challenge nonce made
  unfolding PrivateClient.create_token_request
  request_voprf-IsFor sha256 nonce random challenge key made current h =
      let (d, e, k₁) = >>=-eq-ok (digest sha256 challenge).0 _ h in
      let (id, _, k₂) = >>=-eq-ok (keys.key_id key) _ k₁ in
      let (bytes, _, k₃) =
        >>=-eq-ok (AuthenticatorInput.serialize (auth_input challenge nonce d id)) _ k₂ in
      let (key_bytes, _, k₄) = >>=-eq-ok (keys.to_bytes key) _ k₃ in
      let (key_copy, _, k₅) = >>=-eq-ok (keys.from_bytes key_bytes) _ k₄ in
      let (kept, _, k₆) = >>=-eq-ok (keys.blind random key_copy bytes) _ k₅ in
      request_result-IsFor sha256 challenge nonce d id kept.blinded_element (voprf_data kept) made
        (sym (digest-IsCurrent sha256 challenge current).0 ∙ e) k₆

module _ {Rsa Voprf : Type 0} (rsa_keys : BlindRsaKeys Rsa) (from_spki : Bytes → Result Rsa)
    (voprf_keys : VoprfKeys Voprf) where
  finalize-IsOf :
      (response : TokenResponse) (kept : FinalizationData) (issuer_key : PublicKey) (token : Token)
      → finalize rsa_keys from_spki voprf_keys response kept issuer_key ≡ ok token
      → IsOf kept token
  unfolding finalize
  finalize-IsOf response kept issuer_key token h =
      go (is_rsa kept.token_type) (to_u16 kept.token_type == to_u16 voprf_p384_sha384) h
    where
      go :
          (p q : Bool)
          → (if p
              then from_spki issuer_key.key_data >>= PublicClient.finalize rsa_keys response kept
              else if q
              then voprf_keys.from_bytes issuer_key.key_data
                >>= PrivateClient.finalize voprf_keys response kept
              else err (error unsupported_token_type "Unsupported token type"))
            ≡ ok token
          → IsOf kept token
      go true q k =
          let (key, _, k₁) = >>=-eq-ok (from_spki issuer_key.key_data) _ k in
          finalize_rsa-IsOf rsa_keys response kept key token k₁
      go false true k =
          let (key, _, k₁) = >>=-eq-ok (voprf_keys.from_bytes issuer_key.key_data) _ k in
          finalize_voprf-IsOf voprf_keys response kept key token k₁
      go false false k = absurd cc

  request-IsFor :
      (sha256 : Bytes → Result Bytes) (nonce random : Bytes) (challenge : TokenChallenge)
      (issuer_key : PublicKey) (made : TokenRequestResult)
      → IsCurrent sha256 challenge
      → (create_token_request sha256 rsa_keys from_spki voprf_keys
          (ok nonce)
          random
          challenge
          issuer_key).0
        ≡ ok made
      → IsFor sha256 challenge nonce made
  unfolding create_token_request
  request-IsFor sha256 nonce random challenge issuer_key made current h =
      go (to_u16 challenge.token_type == to_u16 issuer_key.type) (is_rsa challenge.token_type)
        (to_u16 challenge.token_type == to_u16 voprf_p384_sha384) h
    where
      with_rsa :
          (m : Result Rsa)
          → (request_rsa sha256 rsa_keys from_spki voprf_keys (ok nonce) random challenge m).0
            ≡ ok made
          → IsFor sha256 challenge nonce made
      with_rsa (ok key) k =
          request_rsa-IsFor rsa_keys sha256 nonce random challenge key made current k
      with_rsa (err e) k = absurd cc

      with_voprf :
          (m : Result Voprf)
          → (request_voprf sha256 rsa_keys from_spki voprf_keys (ok nonce) random challenge m).0
            ≡ ok made
          → IsFor sha256 challenge nonce made
      with_voprf (ok key) k =
          request_voprf-IsFor voprf_keys sha256 nonce random challenge key made current k
      with_voprf (err e) k = absurd cc

      go :
          (p q r : Bool)
          → (if not p
              then (
                err (error unsupported_token_type "Token type mismatch between challenge and key"),
                challenge,
              )
              else if q
              then request_rsa sha256 rsa_keys from_spki voprf_keys
                  (ok nonce)
                  random
                  challenge
                  (from_spki issuer_key.key_data)
              else if r
              then request_voprf sha256 rsa_keys from_spki voprf_keys
                  (ok nonce)
                  random
                  challenge
                  (voprf_keys.from_bytes issuer_key.key_data)
              else (err (error unsupported_token_type "Unsupported token type"), challenge)).0
            ≡ ok made
          → IsFor sha256 challenge nonce made
      go false q r k = absurd cc
      go true true r k = with_rsa _ k
      go true false true k = with_voprf _ k
      go true false false k = absurd cc

  -- While no cached digest but its own is in the challenge: a token that `finalize` makes of any
  -- response, for a request that `create_token_request` made, is of the challenge's type, for the
  -- digest of the challenge, and has the nonce of the request.
  pub finalize-create_token_request :
      (sha256 : Bytes → Result Bytes) (nonce random : Bytes) (challenge : TokenChallenge)
      (issuer_key issuer_key' : PublicKey) (made : TokenRequestResult) (response : TokenResponse)
      (token : Token)
      → IsCurrent sha256 challenge
      → (create_token_request sha256 rsa_keys from_spki voprf_keys
          (ok nonce)
          random
          challenge
          issuer_key).0
        ≡ ok made
      → finalize rsa_keys from_spki voprf_keys response made.finalization_data issuer_key'
        ≡ ok token
      → (token.token_type ≡ challenge.token_type)
        × (token.nonce ≡ nonce)
        × (digest_of sha256 (TokenChallenge.serialize challenge) ≡ ok token.challenge_digest)
  finalize-create_token_request sha256 nonce random challenge key key' made response token current h
        k =
      let for_challenge = request-IsFor sha256 nonce random challenge key made current h in
      let (type, n, d, _) = finalize-IsOf response made.finalization_data key' token k in
      (
        type ∙ for_challenge.type,
        n ∙ for_challenge.nonces,
        for_challenge.digests ∙ ap (λ x. ok x) (sym d),
      )
