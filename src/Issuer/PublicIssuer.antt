-- ===== src/Issuer/PublicIssuer.antt =====
-- `PublicIssuer` of src/core/issuer.cpp. The private key's methods are parameters.
use privacypass_cpp.Prelude.{ℕ, not, List, [], ◌∷◌, ◌==◌, if◌then◌else◌, replicate, get_or}
use privacypass_cpp.Types.{
  Bytes, unsupported_token_type, issuer_unknown, error, Result, ok, err, ◌>>=◌,
}
use privacypass_cpp.TokenRequest.{TokenRequest}
use privacypass_cpp.TokenResponse.{TokenResponse, create_blind_rsa}
use privacypass_cpp.OptionalTokenResponse.{OptionalTokenResponse}
use privacypass_cpp.BatchedTokenRequest.{BatchedTokenRequest}
use privacypass_cpp.BatchedTokenResponse.{BatchedTokenResponse}
use privacypass_cpp.PublicOrigin.{is_rsa}
use privacypass_cpp.Issuer.{optional_response}

-- The methods of `BlindRsaPrivateKey`, and the key id of its public key.
pub record BlindRsaSigner (Private : Type 0) (Public : Type 0) : Type 0 where
  pub public_key : Private → Result Public
  pub key_id : Public → Result Bytes
  pub blind_sign : Private → Bytes → Result Bytes

-- The public key that `Impl` keeps beside these is not read.
pub record PublicIssuer (Private : Type 0) : Type 0 where
  pub private_key : Private
  pub key_id : Bytes
  pub truncated_key_id : ℕ

-- Where the key id is not to be had, `Impl` stays zero as `make_unique<Impl>()` made it.
abbrev pub issuer_with : {Private : Type 0} → Private → Result Bytes → PublicIssuer Private
issuer_with key (err e) = record {
  private_key = key;
  key_id = replicate 32 0;
  truncated_key_id = 0;
}
issuer_with key (ok id) = record {
  private_key = key;
  key_id = id;
  truncated_key_id = get_or id 31 0;
}

module _ {Private Public : Type 0} (signer : BlindRsaSigner Private Public) where
  unfoldable pub create : Private → PublicIssuer Private
  create private_key = issuer_with private_key (signer.public_key private_key >>= signer.key_id)

  -- From what the generation of a key pair answers.
  pub generate : Result Private → Result (PublicIssuer Private)
  unfolding create
  generate keypair = keypair >>= λ private_key. ok (create private_key)

  unfoldable pub issue : TokenRequest → PublicIssuer Private → Result TokenResponse
  issue request issuer =
      if not (is_rsa request.token_type)
      then err (error unsupported_token_type "PublicIssuer only supports Blind RSA")
      else if not (request.truncated_token_key_id == issuer.truncated_key_id)
      then err (error issuer_unknown "Unknown key ID")
      else signer.blind_sign issuer.private_key request.blinded_msg >>= λ blind_sig.
          ok (create_blind_rsa blind_sig)

  abbrev pub issue_each : List TokenRequest → PublicIssuer Private → List OptionalTokenResponse
  unfolding issue
  issue_each [] issuer = []
  issue_each (request ∷ requests) issuer =
      optional_response (issue request issuer) ∷ issue_each requests issuer

  pub issue_batch : BatchedTokenRequest → PublicIssuer Private → Result BatchedTokenResponse
  issue_batch batch issuer = ok (record { responses = issue_each batch.requests issuer })
