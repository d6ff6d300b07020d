-- ===== src/BatchedTokenRequest/Parse.antt =====
-- `BatchedTokenRequest::deserialize`.
pub mod RoundTrip
use mathlib.Core.Option
use privacypass_cpp.Prelude.{
  ℕ, suc, ◌+◌, ◌*◌, ◌^◌, Option, some, List, [], bit_or, ◌==◌, ltb, length, get_or,
}
use privacypass_cpp.Types.{
  Bytes, of_u16, for_type, unexpected_end, malformed_data, unsupported_token_type, error, Result,
  ok, err,
}
use privacypass_cpp.Serialization.Reader.{reader, read_varint, read_bytes}
use privacypass_cpp.Serialization.Parser.{
  Parser, or_fail, pure, run, refuse_if, expect_end, lift, ahead, ◌>>=◌, ◌>>◌,
}
use privacypass_cpp.Serialization.Collect.{collect}
use privacypass_cpp.TokenRequest
use privacypass_cpp.TokenRequest.{TokenRequest}
use privacypass_cpp.BatchedTokenRequest.{
  BatchedTokenRequest, max_batch_size, max_batch_payload_size,
}

-- The size prefix, the payload, and nothing after it.
pub payload_from : Parser Bytes
payload_from = do
  size ← or_fail read_varint (error unexpected_end "Failed to read batch size")
  refuse_if (ltb max_batch_payload_size size) (error malformed_data "Batch payload too large")
  payload ← or_fail (read_bytes size) (error unexpected_end "Failed to read batch payload")
  expect_end (error malformed_data "Trailing BatchedTokenRequest data")
  pure payload

-- One round of the loop: the type tells the request's size.
pub next_request : Parser TokenRequest
next_request = ahead λ rest. do
  refuse_if (ltb (length rest) 3) (error unexpected_end "Failed to read request header")
  let type = of_u16 (bit_or (get_or rest 0 0 * 2 ^ 8) (get_or rest 1 0))
  let size = (for_type type).blinded_element_size
  refuse_if (size == 0) (error unsupported_token_type "Unsupported batched request token type")
  bytes ← or_fail (read_bytes (2 + 1 + size)) (error unexpected_end "Failed to read request")
  lift (TokenRequest.deserialize bytes)

pub batch_of : Option (Result (List TokenRequest)) → Option (Result BatchedTokenRequest)
batch_of =
    Option.map λ m. elim m [ ok requests ↦ ok (record { requests = requests }) | err e ↦ err e ]

-- `none` stands for a loop that did not end within its fuel.
unfoldable pub deserialize : Bytes → Option (Result BatchedTokenRequest)
unfolding payload_from next_request batch_of
deserialize bytes = elim (run payload_from bytes) [
  | ok payload ↦ batch_of (
      collect next_request max_batch_size (error malformed_data "Batch size exceeds maximum")
        (suc (length payload)) (reader payload) [])
  | err e ↦ some (err e)
]
