-- ===== src/Client/PrivateClient.antt =====
-- `PrivateClient` of src/core/client.cpp. The methods of `VoprfPublicKey` and of `VoprfClient`, which
-- holds a copy of the key, and the hash are parameters.
use privacypass_cpp.Prelude.{Option, none, some}
use privacypass_cpp.Types.{Bytes, token_malformed, error, Result, ok, err, ◌>>=◌}
use privacypass_cpp.AuthenticatorInput
use privacypass_cpp.Token.{Token}
use privacypass_cpp.TokenChallenge.{TokenChallenge, digest}
use privacypass_cpp.TokenResponse
use privacypass_cpp.TokenResponse.{TokenResponse, VoprfTokenResponse}
use privacypass_cpp.Client.{
  VoprfFinalizationData, ClientData, blinding, voprf_data, FinalizationData, TokenRequestResult,
  auth_input, request_result, token_of,
}

pub record VoprfEvaluation : Type 0 where
  pub evaluated_element : Bytes
  pub proof : Bytes

-- `blind` gets its randomness first.
pub record VoprfKeys (Key : Type 0) : Type 0 where
  pub key_id : Key → Result Bytes
  pub to_bytes : Key → Result Bytes
  pub from_bytes : Bytes → Result Key
  pub blind : Bytes → Key → Bytes → Result VoprfFinalizationData
  pub finalize : Key → VoprfFinalizationData → VoprfEvaluation → Result Bytes

abbrev pub get_voprf_data : ClientData → Option VoprfFinalizationData
get_voprf_data (blinding blinded) = none
get_voprf_data (voprf_data blinded) = some blinded

module _ {Key : Type 0} (sha256 : Bytes → Result Bytes) (keys : VoprfKeys Key) where
  -- From the digest on.
  abbrev pub request_from : Bytes → Bytes → TokenChallenge → Key → Bytes → Result TokenRequestResult
  request_from random nonce challenge issuer_key digest = do
    key_id ← keys.key_id issuer_key
    bytes ← AuthenticatorInput.serialize (auth_input challenge nonce digest key_id)
    key_bytes ← keys.to_bytes issuer_key
    key_copy ← keys.from_bytes key_bytes
    blinded ← keys.blind random key_copy bytes
    ok (request_result challenge nonce digest key_id blinded.blinded_element (voprf_data blinded))

  unfoldable pub create_token_request :
      Result Bytes → Bytes → TokenChallenge → Key → Result TokenRequestResult × TokenChallenge
  create_token_request (err e) random challenge issuer_key = (err e, challenge)
  create_token_request (ok nonce) random challenge issuer_key =
      let (digest_result, challenge') = digest sha256 challenge in
      (digest_result >>= request_from random nonce challenge issuer_key, challenge')

module _ {Key : Type 0} (keys : VoprfKeys Key) where
  abbrev pub finalize_with :
      Option VoprfTokenResponse
      → Option VoprfFinalizationData
      → FinalizationData
      → Key
      → Result Token
  finalize_with none kept final issuer_key = err (error token_malformed "Expected VOPRF response")
  finalize_with (some response) none final issuer_key =
      err (error token_malformed "Invalid finalization data")
  finalize_with (some response) (some kept) final issuer_key = do
    key_bytes ← keys.to_bytes issuer_key
    key_copy ← keys.from_bytes key_bytes
    authenticator ←
        keys.finalize key_copy kept
          (record { evaluated_element = response.evaluate_msg; proof = response.evaluate_proof })
    ok (token_of final authenticator)

  unfoldable pub finalize : TokenResponse → FinalizationData → Key → Result Token
  finalize response final issuer_key =
      finalize_with (TokenResponse.as_voprf response) (get_voprf_data final.client_data) final
        issuer_key
