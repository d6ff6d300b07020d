-- ===== src/BatchedTokenResponse.antt =====
-- `BatchedTokenResponse` of include/privacy_pass/core/token_response.hpp and
-- src/core/token_response.cpp.
pub mod Parse
use privacypass_cpp.Prelude.{ℕ, ◌+◌, ◌-◌, ◌^◌, List, [], ◌∷◌, ◌++◌, ltb, if◌then◌else◌, length}
use privacypass_cpp.Types.{Bytes, Result, ok, err, error, invalid_length, ◌>>=◌}
use privacypass_cpp.Serialization.Writer.{
  ByteWriter, writer, write_varint, write_bytes, take_data, ◌▷◌,
}
use privacypass_cpp.OptionalTokenResponse
use privacypass_cpp.OptionalTokenResponse.{OptionalTokenResponse}

pub record BatchedTokenResponse : Type 0 where
  pub responses : List OptionalTokenResponse

-- The first loop: `payload_size` and `serialized_responses`.
pub serialize_all : ℕ → List Bytes → List OptionalTokenResponse → Result (ℕ × List Bytes)
serialize_all payload_size done [] = ok (payload_size, done)
serialize_all payload_size done (resp ∷ rest) =
    OptionalTokenResponse.serialize resp >>= λ serialized.
    if ltb (2 ^ 64 - 1 - length serialized) payload_size
    then err (error invalid_length "Batch payload size overflow")
    else serialize_all (payload_size + length serialized) (done ++ serialized ∷ []) rest

pub write_all : List Bytes → ByteWriter → ByteWriter
write_all [] w = w
write_all (serialized ∷ rest) w = write_all rest (w ▷ write_bytes serialized)

unfoldable pub serialize : BatchedTokenResponse → Result Bytes
serialize b = serialize_all 0 [] b.responses >>= λ (payload_size, serialized_responses).
    ok (take_data (write_all serialized_responses (writer ▷ write_varint payload_size)))

abbrev pub max_response_batch_size : ℕ
max_response_batch_size = 10000

abbrev pub max_response_batch_payload_size : ℕ
max_response_batch_payload_size = 65535
