-- ===== src/Issuer/PrivateIssuer.antt =====
-- `PrivateIssuer` of src/core/issuer.cpp. The methods of `VoprfPrivateKey` and of `VoprfServer`, which
-- is a copy of the key, are parameters; the randomness of a proof is an argument.
use privacypass_cpp.Prelude.{
  ℕ, suc, Bool, not, Option, none, some, List, [], ◌∷◌, ◌==◌, if◌then◌else◌, get_or,
}
use privacypass_cpp.Types.{
  Bytes, voprf_p384_sha384, to_u16, unsupported_token_type, issuer_unknown, crypto_error, error,
  Result, ok, err, ◌>>=◌,
}
use privacypass_cpp.AuthenticatorInput
use privacypass_cpp.Token.{Token, authenticator_input}
use privacypass_cpp.TokenRequest.{TokenRequest}
use privacypass_cpp.TokenResponse.{TokenResponse, create_voprf}
use privacypass_cpp.OptionalTokenResponse.{OptionalTokenResponse}
use privacypass_cpp.BatchedTokenRequest.{BatchedTokenRequest}
use privacypass_cpp.BatchedTokenResponse.{BatchedTokenResponse}
use privacypass_cpp.Origin.{copied}
use privacypass_cpp.Client.PrivateClient.{VoprfEvaluation}
use privacypass_cpp.Issuer.{optional_response}

pub record VoprfSigner (Private : Type 0) (Public : Type 0) : Type 0 where
  pub to_bytes : Private → Result Bytes
  pub from_bytes : Bytes → Result Private
  pub public_key : Private → Result Public
  pub key_id : Public → Result Bytes
  pub blind_evaluate : Bytes → Private → Bytes → Result VoprfEvaluation
  pub verify_finalize : Private → Bytes → Bytes → Result Bool

pub record PrivateIssuer (Private : Type 0) : Type 0 where
  pub private_key : Private
  pub server : Option Private
  pub key_id : Bytes
  pub truncated_key_id : ℕ

-- `Impl`'s constructor leaves both ids as the memory `held` them where the key id is not to be had.
abbrev pub issuer_with :
    {Private : Type 0} → Bytes × ℕ → Private → Option Private → Result Bytes → PrivateIssuer Private
issuer_with held key server (err e) = record {
  private_key = key;
  server = server;
  key_id = held.0;
  truncated_key_id = held.1;
}
issuer_with held key server (ok id) = record {
  private_key = key;
  server = server;
  key_id = id;
  truncated_key_id = get_or id 31 0;
}

module _ {Private Public : Type 0} (signer : VoprfSigner Private Public) where
  unfoldable pub create : Bytes × ℕ → Private → PrivateIssuer Private
  create held private_key =
      issuer_with held private_key (copied (signer.to_bytes private_key >>= signer.from_bytes))
        (signer.public_key private_key >>= signer.key_id)

  -- From what the generation of a key pair answers.
  pub generate : Bytes × ℕ → Result Private → Result (PrivateIssuer Private)
  unfolding create
  generate held keypair = keypair >>= λ private_key. ok (create held private_key)

  abbrev pub evaluate : Bytes → Bytes → Option Private → Result TokenResponse
  evaluate random message none = err (error crypto_error "VOPRF server not initialized")
  evaluate random message (some server) =
      signer.blind_evaluate random server message >>= λ evaluation.
      ok (create_voprf evaluation.evaluated_element evaluation.proof)

  unfoldable pub issue : Bytes → TokenRequest → PrivateIssuer Private → Result TokenResponse
  issue random request issuer =
      if not (to_u16 request.token_type == to_u16 voprf_p384_sha384)
      then err (error unsupported_token_type "PrivateIssuer only supports VOPRF")
      else if not (request.truncated_token_key_id == issuer.truncated_key_id)
      then err (error issuer_unknown "Unknown key ID")
      else evaluate random request.blinded_msg issuer.server

  -- The randomness of the request at each place is given.
  pub issue_each :
      (ℕ → Bytes) → ℕ → List TokenRequest → PrivateIssuer Private → List OptionalTokenResponse
  unfolding issue
  issue_each random place [] issuer = []
  issue_each random place (request ∷ requests) issuer =
      optional_response (issue (random place) request issuer)
      ∷ issue_each random (suc place) requests issuer

  pub issue_batch :
      (ℕ → Bytes) → BatchedTokenRequest → PrivateIssuer Private → Result BatchedTokenResponse
  unfolding issue_each
  issue_batch random batch issuer =
      ok (record { responses = issue_each random 0 batch.requests issuer })

  abbrev pub verify_with : Bytes → Bytes → Option Private → Result Bool
  verify_with bytes authenticator none = err (error crypto_error "VOPRF server not initialized")
  verify_with bytes authenticator (some server) = signer.verify_finalize server bytes authenticator

  unfoldable pub verify : Token → PrivateIssuer Private → Result Bool
  verify token issuer =
      if not (to_u16 token.token_type == to_u16 voprf_p384_sha384)
      then err (error unsupported_token_type "Can only verify VOPRF tokens")
      else AuthenticatorInput.serialize (authenticator_input token) >>= λ bytes.
          verify_with bytes token.authenticator issuer.server
