-- ===== src/BatchedTokenRequest.antt =====
-- `BatchedTokenRequest` of include/privacy_pass/core/token_request.hpp and
-- src/core/token_request.cpp.
pub mod Parse
use privacypass_cpp.Prelude.{ℕ, ◌+◌, List, [], ◌∷◌}
use privacypass_cpp.Types.{Bytes, Result, ok, ◌>>=◌}
use privacypass_cpp.Serialization.Writer.{
  ByteWriter, writer, write_varint, write_bytes, take_data, ◌▷◌,
}
use privacypass_cpp.Serialization.Varint.{varint_size}
use privacypass_cpp.TokenRequest
use privacypass_cpp.TokenRequest.{TokenRequest}

pub record BatchedTokenRequest : Type 0 where
  pub requests : List TokenRequest

-- `for (const auto& req : requests) payload_size += req.serialized_size();`
unfoldable pub sum_sizes : ℕ → List TokenRequest → ℕ
sum_sizes payload_size [] = payload_size
sum_sizes payload_size (req ∷ rest) =
    sum_sizes (payload_size + TokenRequest.serialized_size req) rest

unfoldable pub serialized_size : BatchedTokenRequest → ℕ
unfolding sum_sizes
serialized_size b =
    let payload_size = sum_sizes 0 b.requests in varint_size payload_size + payload_size

pub write_requests : List TokenRequest → ByteWriter → Result ByteWriter
write_requests [] w = ok w
write_requests (req ∷ rest) w =
    TokenRequest.serialize req >>= λ serialized. write_requests rest (w ▷ write_bytes serialized)

unfoldable pub serialize : BatchedTokenRequest → Result Bytes
unfolding sum_sizes write_requests
serialize b = write_requests b.requests (writer ▷ write_varint (sum_sizes 0 b.requests)) >>= λ w.
    ok (take_data w)

abbrev pub max_batch_size : ℕ
max_batch_size = 10000

abbrev pub max_batch_payload_size : ℕ
max_batch_payload_size = 65535
