-- ===== src/Tests/Issuance.antt =====
-- Issuance at concrete values. Stand-ins: a key is its own id and its own text, a blinded message is
-- 32 zeros, and 256 zeros are the signature of every message.
use privacypass_cpp.Prelude.{◌≡◌, refl, true}
use privacypass_cpp.Types.{Bytes, PublicKey, blind_rsa, ok, to_u16, constant_time_equal}
use privacypass_cpp.NonceSet.{same}
use privacypass_cpp.AuthenticatorInput
use privacypass_cpp.Token
use privacypass_cpp.Token.{Token}
use privacypass_cpp.TokenChallenge
use privacypass_cpp.TokenChallenge.{TokenChallenge, digest_of}
use privacypass_cpp.TokenRequest
use privacypass_cpp.TokenRequest.{TokenRequest}
use privacypass_cpp.TokenResponse.{TokenResponse, create_blind_rsa}
use privacypass_cpp.PublicOrigin.{find_index, is_rsa}
use privacypass_cpp.Client.PublicClient
use privacypass_cpp.Client.PublicClient.{BlindRsaKeys}
use privacypass_cpp.Client.PrivateClient.{VoprfKeys}
use privacypass_cpp.Client.UnifiedClient
use privacypass_cpp.Client.{TokenRequestResult, blinding}
use privacypass_cpp.Client.UnifiedClient.Bound.{finalize-create_token_request}
use privacypass_cpp.Issuer.PublicIssuer.{BlindRsaSigner}
use privacypass_cpp.Issuer.PrivateIssuer.{VoprfSigner}
use privacypass_cpp.Issuer.MultiKeyIssuer.{
  MultiKeyIssuer, create, add_blind_rsa_key, remove_key, issue,
}
use privacypass_cpp.Issuer.MultiKeyIssuer.Issue.{refusal, issue-remove_key, issue-add_blind_rsa_key}
use privacypass_cpp.Protocol.{IsKeyPair, Holds, Obtained, obtain, obtain-verify}
use privacypass_cpp.Tests.Origins.{
  zeros, zero_signature, stand_in, key_a, one_key, challenge, challenge-IsCurrent,
}

abbrev rsa_keys : BlindRsaKeys Bytes
rsa_keys = record {
  key_id = λ key. ok key;
  blind = λ random key message. ok (record { inverse = random; blinded_msg = zeros });
  finalize = λ key blind_sig kept message. ok blind_sig;
}

abbrev rsa_signer : BlindRsaSigner Bytes Bytes
rsa_signer = record {
  public_key = λ key. ok key;
  key_id = λ key. ok key;
  blind_sign = λ key message. ok zero_signature;
}

abbrev voprf_keys : VoprfKeys Bytes
voprf_keys = record {
  key_id = λ key. ok key;
  to_bytes = λ key. ok key;
  from_bytes = λ bytes. ok bytes;
  blind = λ random key message.
      ok (record { blind_scalar = random; blinded_element = message; input = message });
  finalize = λ key kept evaluation. ok kept.input;
}

abbrev voprf_signer : VoprfSigner Bytes Bytes
voprf_signer = record {
  to_bytes = λ key. ok key;
  from_bytes = λ bytes. ok bytes;
  public_key = λ key. ok key;
  key_id = λ key. ok key;
  blind_evaluate =
      λ random key message. ok (record { evaluated_element = message; proof = random });
  verify_finalize = λ key message output. ok true;
}

abbrev nonce : Bytes
nonce = zeros

key_a-IsKeyPair : IsKeyPair stand_in rsa_keys rsa_signer key_a key_a key_a zeros
unfolding constant_time_equal
key_a-IsKeyPair = record {
  public = refl;
  issuer_id = refl;
  client_id = refl;
  unblinds = λ message. (
    record { inverse = zeros; blinded_msg = zeros },
    zero_signature,
    zero_signature,
    refl,
    refl,
    refl,
    refl,
    refl,
  );
}

one_key-Holds : Holds stand_in rsa_keys rsa_signer key_a key_a key_a one_key
unfolding find_index same
one_key-Holds = (0, refl, refl)

challenge-hashed : digest_of stand_in.sha256 (TokenChallenge.serialize challenge) ≡ ok zeros
unfolding TokenChallenge.create TokenChallenge.serialize TokenChallenge.origin_info_string
    TokenChallenge.join
challenge-hashed = refl

obtain-verify_example :
    Obtained stand_in rsa_keys rsa_signer key_a key_a nonce zeros
      (obtain stand_in rsa_keys rsa_signer key_a key_a nonce zeros challenge)
      one_key
unfolding TokenChallenge.create
obtain-verify_example =
    obtain-verify stand_in rsa_keys rsa_signer key_a key_a key_a nonce zeros challenge zeros one_key
      key_a-IsKeyPair one_key-Holds refl challenge-IsCurrent challenge-hashed

abbrev public_key_a : PublicKey
public_key_a = record { type = blind_rsa; key_data = key_a; key_id = key_a }

abbrev made : TokenRequestResult
made = record {
  request = record { token_type = blind_rsa; truncated_token_key_id = 7; blinded_msg = zeros };
  finalization_data = record {
    token_type = blind_rsa;
    nonce = nonce;
    challenge_digest = zeros;
    token_key_id = key_a;
    client_data = blinding (record { inverse = zeros; blinded_msg = zeros });
  };
}

abbrev finished : Token
finished = record {
  token_type = blind_rsa;
  nonce = nonce;
  challenge_digest = zeros;
  token_key_id = key_a;
  authenticator = zero_signature;
}

asked :
    (UnifiedClient.create_token_request stand_in.sha256 rsa_keys
      (λ bytes. ok bytes)
      voprf_keys
      (ok nonce)
      zeros
      challenge
      public_key_a).0
    ≡ ok made
unfolding UnifiedClient.create_token_request PublicClient.create_token_request is_rsa to_u16
    TokenChallenge.digest TokenChallenge.create TokenChallenge.serialize
    TokenChallenge.origin_info_string TokenChallenge.join AuthenticatorInput.serialize
    TokenRequest.create
asked = refl

finished-answer :
    UnifiedClient.finalize rsa_keys
      (λ bytes. ok bytes)
      voprf_keys
      (create_blind_rsa zero_signature)
      made.finalization_data
      public_key_a
    ≡ ok finished
unfolding UnifiedClient.finalize PublicClient.finalize is_rsa to_u16 AuthenticatorInput.serialize
    Token.create
finished-answer = refl

finalize-create_token_request_example :
    (finished.token_type ≡ challenge.token_type)
    × (finished.nonce ≡ nonce)
    × (digest_of stand_in.sha256 (TokenChallenge.serialize challenge)
        ≡ ok finished.challenge_digest)
finalize-create_token_request_example =
    finalize-create_token_request rsa_keys (λ bytes. ok bytes) voprf_keys stand_in.sha256 nonce
      zeros challenge public_key_a public_key_a made (create_blind_rsa zero_signature) finished
      challenge-IsCurrent asked finished-answer

abbrev request : TokenRequest
request = record { token_type = blind_rsa; truncated_token_key_id = 7; blinded_msg = zeros }

abbrev no_keys : MultiKeyIssuer Bytes Bytes
no_keys = create

issue-remove_key_example :
    issue rsa_signer voprf_signer
      (λ id. zeros)
      request
      (remove_key 7 (add_blind_rsa_key rsa_signer key_a no_keys).1)
    ≡ refusal blind_rsa
issue-remove_key_example =
    issue-remove_key rsa_signer voprf_signer (λ id. zeros) request
      (add_blind_rsa_key rsa_signer key_a no_keys).1

issue-add_blind_rsa_key_example :
    (response : TokenResponse) × (issue rsa_signer voprf_signer
        (λ id. zeros)
        request
        (add_blind_rsa_key rsa_signer key_a no_keys).1
      ≡ ok response)
unfolding is_rsa to_u16
issue-add_blind_rsa_key_example =
    issue-add_blind_rsa_key rsa_signer voprf_signer (λ id. zeros) request key_a key_a key_a
      zero_signature no_keys refl refl refl refl refl
