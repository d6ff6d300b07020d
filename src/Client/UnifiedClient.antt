-- ===== src/Client/UnifiedClient.antt =====
-- `Client` of src/core/client.cpp, which calls the client for the type of the challenge or of the data
-- that were kept.
pub mod Bound
use privacypass_cpp.Prelude.{ℕ, Bool, true, false, not, ◌==◌, if◌then◌else◌}
use privacypass_cpp.Types.{
  Bytes, TokenType, voprf_p384_sha384, to_u16, PublicKey, unsupported_token_type, error, Result, ok,
  err, ◌>>=◌,
}
use privacypass_cpp.Token.{Token}
use privacypass_cpp.TokenChallenge.{TokenChallenge}
use privacypass_cpp.TokenResponse.{TokenResponse}
use privacypass_cpp.PublicOrigin.{is_rsa}
use privacypass_cpp.Client.{FinalizationData, TokenRequestResult}
use privacypass_cpp.Client.PublicClient
use privacypass_cpp.Client.PublicClient.{BlindRsaKeys}
use privacypass_cpp.Client.PrivateClient
use privacypass_cpp.Client.PrivateClient.{VoprfKeys}

module _ {Rsa Voprf : Type 0} (sha256 : Bytes → Result Bytes) (rsa_keys : BlindRsaKeys Rsa)
    (from_spki : Bytes → Result Rsa) (voprf_keys : VoprfKeys Voprf) where
  abbrev pub request_rsa :
      Result Bytes
      → Bytes
      → TokenChallenge
      → Result Rsa
      → Result TokenRequestResult × TokenChallenge
  request_rsa nonce random challenge (err e) = (err e, challenge)
  request_rsa nonce random challenge (ok key) =
      PublicClient.create_token_request sha256 rsa_keys nonce random challenge key

  abbrev pub request_voprf :
      Result Bytes
      → Bytes
      → TokenChallenge
      → Result Voprf
      → Result TokenRequestResult × TokenChallenge
  request_voprf nonce random challenge (err e) = (err e, challenge)
  request_voprf nonce random challenge (ok key) =
      PrivateClient.create_token_request sha256 voprf_keys nonce random challenge key

  unfoldable pub create_token_request :
      Result Bytes → Bytes → TokenChallenge → PublicKey → Result TokenRequestResult × TokenChallenge
  create_token_request nonce random challenge issuer_key =
      if not (to_u16 challenge.token_type == to_u16 issuer_key.type)
      then (
        err (error unsupported_token_type "Token type mismatch between challenge and key"),
        challenge,
      )
      else if is_rsa challenge.token_type
      then request_rsa nonce random challenge (from_spki issuer_key.key_data)
      else if to_u16 challenge.token_type == to_u16 voprf_p384_sha384
      then request_voprf nonce random challenge (voprf_keys.from_bytes issuer_key.key_data)
      else (err (error unsupported_token_type "Unsupported token type"), challenge)

module _ {Rsa Voprf : Type 0} (rsa_keys : BlindRsaKeys Rsa) (from_spki : Bytes → Result Rsa)
    (voprf_keys : VoprfKeys Voprf) where
  unfoldable pub finalize : TokenResponse → FinalizationData → PublicKey → Result Token
  finalize response kept issuer_key =
      if is_rsa kept.token_type
      then from_spki issuer_key.key_data >>= PublicClient.finalize rsa_keys response kept
      else if to_u16 kept.token_type == to_u16 voprf_p384_sha384
      then voprf_keys.from_bytes issuer_key.key_data
        >>= PrivateClient.finalize voprf_keys response kept
      else err (error unsupported_token_type "Unsupported token type")
