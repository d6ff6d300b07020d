-- ===== src/TokenResponse.antt =====
-- `BlindRsaTokenResponse`, `VoprfTokenResponse` and `TokenResponse` of
-- include/privacy_pass/core/token_response.hpp and src/core/token_response.cpp.
pub mod RoundTrip
use privacypass_cpp.Prelude.{
  ℕ, ◌+◌, not, Option, none, some, ◌++◌, ◌==◌, if◌then◌else◌, length, take, drop,
}
use privacypass_cpp.Types.{
  Bytes, TokenType, voprf_p384_sha384, blind_rsa, voprf_ristretto255_sha512, partially_blind_rsa,
  arc_p256, unnamed, invalid_length, unsupported_token_type, error, Result, ok, err, ◌>>=◌,
}

pub record BlindRsaTokenResponse : Type 0 where
  pub blind_sig : Bytes

pub record VoprfTokenResponse : Type 0 where
  pub evaluate_msg : Bytes
  pub evaluate_proof : Bytes

-- `std::variant<BlindRsaTokenResponse, VoprfTokenResponse>`
pub data TokenResponseVariant : Type 0 where
  rsa : BlindRsaTokenResponse → TokenResponseVariant
  voprf : VoprfTokenResponse → TokenResponseVariant

pub record TokenResponse : Type 0 where
  pub token_type : TokenType
  pub response : TokenResponseVariant

serialize_rsa : BlindRsaTokenResponse → Result Bytes
serialize_rsa r = ok r.blind_sig

deserialize_rsa : Bytes → Result BlindRsaTokenResponse
deserialize_rsa bytes =
    if not (length bytes == 256)
    then err (error invalid_length "Blind RSA signature must be 256 bytes")
    else ok (record { blind_sig = bytes })

serialize_voprf : VoprfTokenResponse → Result Bytes
serialize_voprf r = ok (r.evaluate_msg ++ r.evaluate_proof)

deserialize_voprf : Bytes → Result VoprfTokenResponse
deserialize_voprf bytes =
    if not (length bytes == 49 + 96)
    then err (error invalid_length "VOPRF response must be 145 bytes")
    else ok (record { evaluate_msg = take 49 bytes; evaluate_proof = drop 49 bytes })

abbrev pub create_blind_rsa : Bytes → TokenResponse
create_blind_rsa sig = record {
  token_type = blind_rsa;
  response = rsa (record { blind_sig = sig });
}

abbrev pub create_voprf : Bytes → Bytes → TokenResponse
create_voprf msg proof = record {
  token_type = voprf_p384_sha384;
  response = voprf (record { evaluate_msg = msg; evaluate_proof = proof });
}

size_of : TokenResponseVariant → ℕ
size_of (rsa r) = length r.blind_sig
size_of (voprf r) = length r.evaluate_msg + length r.evaluate_proof

unfoldable pub serialized_size : TokenResponse → ℕ
unfolding size_of
serialized_size t = size_of t.response

-- `std::visit([](const auto& r) { return r.serialize(); }, response)`
serialize_variant : TokenResponseVariant → Result Bytes
serialize_variant (rsa r) = serialize_rsa r
serialize_variant (voprf r) = serialize_voprf r

unfoldable pub serialize : TokenResponse → Result Bytes
unfolding serialize_variant serialize_rsa serialize_voprf
serialize t = serialize_variant t.response

-- `std::get_if<BlindRsaTokenResponse>(&response)`
abbrev as_rsa : TokenResponseVariant → Option BlindRsaTokenResponse
as_rsa (rsa r) = some r
as_rsa (voprf r) = none

abbrev pub as_blind_rsa : TokenResponse → Option BlindRsaTokenResponse
as_blind_rsa t = as_rsa t.response

abbrev as_other : TokenResponseVariant → Option VoprfTokenResponse
as_other (rsa r) = none
as_other (voprf r) = some r

abbrev pub as_voprf : TokenResponse → Option VoprfTokenResponse
as_voprf t = as_other t.response

of_rsa : TokenType → Bytes → Result TokenResponse
of_rsa type bytes =
    deserialize_rsa bytes >>= λ r. ok (record { token_type = type; response = rsa r })

unfoldable pub deserialize : TokenType → Bytes → Result TokenResponse
unfolding of_rsa deserialize_rsa deserialize_voprf
deserialize blind_rsa bytes = of_rsa blind_rsa bytes
deserialize partially_blind_rsa bytes = of_rsa partially_blind_rsa bytes
deserialize voprf_p384_sha384 bytes = deserialize_voprf bytes >>= λ r.
    ok (record { token_type = voprf_p384_sha384; response = voprf r })
deserialize type bytes = err (error unsupported_token_type "Unsupported token type")
