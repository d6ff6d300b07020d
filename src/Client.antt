-- ===== src/Client.antt =====
-- include/privacy_pass/core/client.hpp and src/core/client.cpp: what a client keeps between its
-- request and the issuer's response.
pub mod PublicClient
pub mod PrivateClient
pub mod UnifiedClient
use privacypass_cpp.Types.{Bytes, TokenType}
use privacypass_cpp.TokenChallenge.{TokenChallenge}
use privacypass_cpp.TokenRequest
use privacypass_cpp.TokenRequest.{TokenRequest}
use privacypass_cpp.AuthenticatorInput.{AuthenticatorInput}
use privacypass_cpp.Token
use privacypass_cpp.Token.{Token}
use privacypass_cpp.Prelude.{get_or}

pub record BlindingData : Type 0 where
  pub inverse : Bytes
  pub blinded_msg : Bytes

pub record VoprfFinalizationData : Type 0 where
  pub blind_scalar : Bytes
  pub blinded_element : Bytes
  pub input : Bytes

-- `std::variant<BlindingData, VoprfFinalizationData>`
pub data ClientData : Type 0 where
  blinding : BlindingData → ClientData
  voprf_data : VoprfFinalizationData → ClientData

pub record FinalizationData : Type 0 where
  pub token_type : TokenType
  pub nonce : Bytes
  pub challenge_digest : Bytes
  pub token_key_id : Bytes
  pub client_data : ClientData

pub record TokenRequestResult : Type 0 where
  pub request : TokenRequest
  pub finalization_data : FinalizationData

-- The input that the request blinds.
abbrev pub auth_input : TokenChallenge → Bytes → Bytes → Bytes → AuthenticatorInput
auth_input challenge nonce digest key_id = record {
  token_type = challenge.token_type;
  nonce = nonce;
  challenge_digest = digest;
  token_key_id = key_id;
}

-- The same input, of the data that were kept.
abbrev pub kept_input : FinalizationData → AuthenticatorInput
kept_input kept = record {
  token_type = kept.token_type;
  nonce = kept.nonce;
  challenge_digest = kept.challenge_digest;
  token_key_id = kept.token_key_id;
}

-- The request with the blinded message, and what is kept for the response.
abbrev pub request_result :
    TokenChallenge → Bytes → Bytes → Bytes → Bytes → ClientData → TokenRequestResult
request_result challenge nonce digest key_id blinded kept = record {
  request = TokenRequest.create challenge.token_type (get_or key_id 31 0) blinded;
  finalization_data = record {
    token_type = challenge.token_type;
    nonce = nonce;
    challenge_digest = digest;
    token_key_id = key_id;
    client_data = kept;
  };
}

abbrev pub token_of : FinalizationData → Bytes → Token
token_of kept authenticator =
    Token.create kept.token_type kept.nonce kept.challenge_digest kept.token_key_id authenticator
