-- ===== src/Client/PublicClient.antt =====
-- `PublicClient` of src/core/client.cpp. The methods of `BlindRsaPublicKey` and the hash are
-- parameters, and what the calls of the random generator give is an argument.
use privacypass_cpp.Prelude.{Option, none, some}
use privacypass_cpp.Types.{Bytes, token_malformed, error, Result, ok, err, ◌>>=◌}
use privacypass_cpp.AuthenticatorInput
use privacypass_cpp.Token.{Token}
use privacypass_cpp.TokenChallenge.{TokenChallenge, digest}
use privacypass_cpp.TokenResponse
use privacypass_cpp.TokenResponse.{TokenResponse, BlindRsaTokenResponse}
use privacypass_cpp.Client.{
  BlindingData, ClientData, blinding, voprf_data, FinalizationData, TokenRequestResult, auth_input,
  kept_input, request_result, token_of,
}

-- `blind` gets its randomness first.
pub record BlindRsaKeys (Key : Type 0) : Type 0 where
  pub key_id : Key → Result Bytes
  pub blind : Bytes → Key → Bytes → Result BlindingData
  pub finalize : Key → Bytes → BlindingData → Bytes → Result Bytes

abbrev pub get_blinding : ClientData → Option BlindingData
get_blinding (blinding blinded) = some blinded
get_blinding (voprf_data blinded) = none

module _ {Key : Type 0} (sha256 : Bytes → Result Bytes) (keys : BlindRsaKeys Key) where
  -- From the digest on.
  abbrev pub request_from : Bytes → Bytes → TokenChallenge → Key → Bytes → Result TokenRequestResult
  request_from random nonce challenge issuer_key digest = do
    key_id ← keys.key_id issuer_key
    bytes ← AuthenticatorInput.serialize (auth_input challenge nonce digest key_id)
    blinded ← keys.blind random issuer_key bytes
    ok (request_result challenge nonce digest key_id blinded.blinded_msg (blinding blinded))

  -- The challenge is answered too, for its cached digest.
  unfoldable pub create_token_request :
      Result Bytes → Bytes → TokenChallenge → Key → Result TokenRequestResult × TokenChallenge
  create_token_request (err e) random challenge issuer_key = (err e, challenge)
  create_token_request (ok nonce) random challenge issuer_key =
      let (digest_result, challenge') = digest sha256 challenge in
      (digest_result >>= request_from random nonce challenge issuer_key, challenge')

module _ {Key : Type 0} (keys : BlindRsaKeys Key) where
  abbrev pub finalize_with :
      Option BlindRsaTokenResponse → Option BlindingData → FinalizationData → Key → Result Token
  finalize_with none kept final issuer_key =
      err (error token_malformed "Expected Blind RSA response")
  finalize_with (some response) none final issuer_key =
      err (error token_malformed "Invalid finalization data")
  finalize_with (some response) (some kept) final issuer_key = do
    bytes ← AuthenticatorInput.serialize (kept_input final)
    authenticator ← keys.finalize issuer_key response.blind_sig kept bytes
    ok (token_of final authenticator)

  unfoldable pub finalize : TokenResponse → FinalizationData → Key → Result Token
  finalize response final issuer_key =
      finalize_with (TokenResponse.as_blind_rsa response) (get_blinding final.client_data) final
        issuer_key
