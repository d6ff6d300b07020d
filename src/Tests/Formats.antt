-- ===== src/Tests/Formats.antt =====
-- The wire formats at concrete values.
use privacypass_cpp.Prelude.{
  ℕ, ◌≡◌, ◌≢◌, ◌^◌, ◌%◌, ◌↔◌, refl, Bool, true, false, ltb, if◌then◌else◌, some, none, [], ◌∷◌,
  ◌++◌, arith, replicate, length, inl,
}
use privacypass_cpp.Types.{
  Bytes, IsBytes, blind_rsa, voprf_p384_sha384, to_u16, of_u16, for_type, Result, ok, text,
  constant_time_equal,
}
use privacypass_cpp.Types.Compare.{constant_time_equal_iff}
use privacypass_cpp.Text.{to_string}
use privacypass_cpp.Serialization.Reader.{ByteReader, reader, read_varint, remaining_data}
use privacypass_cpp.Serialization.Varint.{varint_size}
use privacypass_cpp.Serialization.Varint.Decode.{written, read_varint-write_varint}
use privacypass_cpp.Base64Url.{encode, encode_padded, decode}
use privacypass_cpp.Base64Url.RoundTrip.{decode-encode}
use privacypass_cpp.Token
use privacypass_cpp.Token.{Token, validate}
use privacypass_cpp.Token.RoundTrip.{deserialize_token-eq-ok_iff}
use privacypass_cpp.TokenChallenge
use privacypass_cpp.TokenChallenge.{TokenChallenge}
use privacypass_cpp.TokenChallenge.Digest.{IsCurrent, digest-IsCurrent}
use privacypass_cpp.TokenChallenge.RoundTrip.{deserialize_challenge-serialize}
use privacypass_cpp.TokenRequest
use privacypass_cpp.TokenRequest.{TokenRequest}
use privacypass_cpp.TokenRequest.RoundTrip.{deserialize_request-eq-ok_iff}
use privacypass_cpp.TokenResponse
use privacypass_cpp.TokenResponse.{TokenResponse, rsa}
use privacypass_cpp.TokenResponse.RoundTrip.{deserialize_response-eq-ok_iff}
use privacypass_cpp.OptionalTokenResponse.{absent, present_response}
use privacypass_cpp.BatchedTokenRequest
use privacypass_cpp.BatchedTokenRequest.{BatchedTokenRequest, sum_sizes}
use privacypass_cpp.BatchedTokenRequest.Parse.RoundTrip.{
  IsSized, deserialize_requests-serialize, deserialize_requests-ne-none,
}
use privacypass_cpp.BatchedTokenResponse
use privacypass_cpp.BatchedTokenResponse.{BatchedTokenResponse}
use privacypass_cpp.BatchedTokenResponse.Parse.RoundTrip.{deserialize_responses-serialize}

to_string_64250 : to_string 64250 ≡ text "64250"
unfolding to_string text
to_string_64250 = refl

-- A decision of `IsBytes`, for long lists.
unfoldable pub all_bytes : Bytes → Bool
all_bytes [] = true
all_bytes (x ∷ xs) = if ltb x 256 then all_bytes xs else false

pub all_bytes-IsBytes : (xs : Bytes) → all_bytes xs ≡ true → IsBytes xs
unfolding all_bytes
all_bytes-IsBytes [] h = tt
all_bytes-IsBytes (x ∷ xs) h = (ground arith, all_bytes-IsBytes xs (ground arith))

abbrev zeros : ℕ → Bytes
zeros n = replicate n 0

-- Type 2, three arrays of 32 zeros, and 256 zeros.
abbrev pub token_bytes : Bytes
token_bytes = 0 ∷ 2 ∷ zeros 352

abbrev pub token : Token
token = record {
  token_type = blind_rsa;
  nonce = zeros 32;
  challenge_digest = zeros 32;
  token_key_id = zeros 32;
  authenticator = zeros 256;
}

pub token_bytes-IsBytes : IsBytes token_bytes
unfolding all_bytes
token_bytes-IsBytes = all_bytes-IsBytes token_bytes refl

deserialize_token-eq-ok_iff_example :
    (Token.deserialize token_bytes ≡ ok token)
    ↔ ((Token.serialize token ≡ ok token_bytes) × Token.RoundTrip.IsValid token)
deserialize_token-eq-ok_iff_example =
    deserialize_token-eq-ok_iff token_bytes token token_bytes-IsBytes

abbrev request : TokenRequest
request = record {
  token_type = voprf_p384_sha384;
  truncated_token_key_id = 7;
  blinded_msg = zeros 49;
}

abbrev request_bytes : Bytes
request_bytes = 0 ∷ 1 ∷ 7 ∷ zeros 49

request_bytes-IsBytes : IsBytes request_bytes
unfolding all_bytes
request_bytes-IsBytes = all_bytes-IsBytes request_bytes refl

deserialize_request-eq-ok_iff_example :
    (TokenRequest.deserialize request_bytes ≡ ok request)
    ↔ ((TokenRequest.serialize request ≡ ok request_bytes) × TokenRequest.RoundTrip.IsValid request)
deserialize_request-eq-ok_iff_example =
    deserialize_request-eq-ok_iff request_bytes request request_bytes-IsBytes

request-IsSized : IsSized request
unfolding to_u16 of_u16 for_type
request-IsSized = record {
  valid = record { type = (omega arith, refl); blinded = refl };
  sized = λ p. omega (arith, p);
}

abbrev two_requests : BatchedTokenRequest
two_requests = record { requests = request ∷ request ∷ [] }

deserialize_requests-serialize_example :
    (bytes : Bytes) × (BatchedTokenRequest.serialize two_requests ≡ ok bytes)
    × (length bytes ≡ BatchedTokenRequest.serialized_size two_requests)
    × (BatchedTokenRequest.Parse.deserialize bytes ≡ some (ok two_requests))
unfolding sum_sizes TokenRequest.serialized_size
deserialize_requests-serialize_example =
    deserialize_requests-serialize two_requests (request-IsSized, (request-IsSized, tt))
      (omega arith)

deserialize_requests-ne-none_example : BatchedTokenRequest.Parse.deserialize (2 ∷ 0 ∷ 1 ∷ []) ≢ none
deserialize_requests-ne-none_example = deserialize_requests-ne-none (2 ∷ 0 ∷ 1 ∷ [])

abbrev response : TokenResponse
response = record { token_type = blind_rsa; response = rsa (record { blind_sig = zeros 256 }) }

deserialize_response-eq-ok_iff_example :
    (TokenResponse.deserialize blind_rsa (zeros 256) ≡ ok response) ↔ (
      (TokenResponse.serialize response ≡ ok (zeros 256))
      × TokenResponse.RoundTrip.IsValid response
      × (response.token_type ≡ blind_rsa))
deserialize_response-eq-ok_iff_example =
    deserialize_response-eq-ok_iff blind_rsa (zeros 256) response

abbrev two_responses : BatchedTokenResponse
two_responses = record { responses = absent ∷ present_response response ∷ [] }

deserialize_responses-serialize_example :
    (bytes : Bytes) × (BatchedTokenResponse.serialize two_responses ≡ ok bytes)
    × (BatchedTokenResponse.Parse.deserialize bytes ≡ some (ok two_responses))
deserialize_responses-serialize_example =
    deserialize_responses-serialize two_responses (tt, ((inl refl, refl), tt)) (omega arith)
      (omega arith)

abbrev pub challenge : TokenChallenge
challenge = record {
  token_type = blind_rsa;
  issuer_name = 105 ∷ [];
  redemption_context = some (zeros 32);
  origin_info = (97 ∷ []) ∷ (98 ∷ 99 ∷ []) ∷ [];
  cached_digest_ = none;
}

pub challenge-IsValid : TokenChallenge.RoundTrip.IsValid challenge
unfolding to_u16 of_u16 TokenChallenge.join TokenChallenge.join_rest
challenge-IsValid = record {
  type = (omega arith, refl);
  issuer = (omega arith, omega arith);
  context = refl;
  origins = (
    (omega arith, ((λ p. omega (arith, p)), tt)),
    ((omega arith, ((λ p. omega (arith, p)), ((λ p. omega (arith, p)), tt))), tt),
  );
  few = omega arith;
  short = omega arith;
  fresh = refl;
}

deserialize_challenge-serialize_example :
    (bytes : Bytes) × (TokenChallenge.serialize challenge ≡ ok bytes)
    × (length bytes ≡ TokenChallenge.serialized_size challenge)
    × (TokenChallenge.deserialize bytes ≡ ok challenge)
deserialize_challenge-serialize_example =
    deserialize_challenge-serialize challenge challenge-IsValid

abbrev zero_hash : Bytes → Result Bytes
zero_hash bytes = ok (zeros 32)

challenge-IsCurrent : IsCurrent zero_hash challenge
challenge-IsCurrent d h = cc

digest-IsCurrent_example :
    ((TokenChallenge.digest zero_hash challenge).0
      ≡ TokenChallenge.digest_of zero_hash (TokenChallenge.serialize challenge))
    × IsCurrent zero_hash (TokenChallenge.digest zero_hash challenge).1
    × (TokenChallenge.serialize (TokenChallenge.digest zero_hash challenge).1
        ≡ TokenChallenge.serialize challenge)
    × (record (TokenChallenge.digest zero_hash challenge).1 {
      cached_digest_ = challenge.cached_digest_;
    }
        ≡ challenge)
digest-IsCurrent_example = digest-IsCurrent zero_hash challenge challenge-IsCurrent

decode-encode_example :
    (decode (encode (104 ∷ 255 ∷ [])) ≡ ok (104 ∷ 255 ∷ []))
    × (decode (encode_padded (104 ∷ 255 ∷ [])) ≡ ok (104 ∷ 255 ∷ []))
decode-encode_example = decode-encode (104 ∷ 255 ∷ []) (omega arith, (omega arith, tt))

read_varint-write_varint_example :
    (length (written 16384) ≡ varint_size 16384)
    × (r : ByteReader) × (read_varint (reader (written 16384 ++ 5 ∷ []))
        ≡ (some (16384 % 2 ^ 62), r))
    × (remaining_data r ≡ 5 ∷ [])
read_varint-write_varint_example = read_varint-write_varint 16384 (5 ∷ []) (omega arith)

abbrev one_two : Bytes
one_two = 1 ∷ 2 ∷ []

abbrev one_three : Bytes
one_three = 1 ∷ 3 ∷ []

constant_time_equal_iff_example :
    (constant_time_equal one_two one_three ≡ true) ↔ (one_two ≡ one_three)
constant_time_equal_iff_example = constant_time_equal_iff one_two one_three
