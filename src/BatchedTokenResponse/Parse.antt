-- ===== src/BatchedTokenResponse/Parse.antt =====
-- `BatchedTokenResponse::deserialize`.
pub mod RoundTrip
pub mod Ends
use mathlib.Core.Option
use privacypass_cpp.Prelude.{
  ℕ, suc, ◌+◌, ◌*◌, ◌^◌, Bool, not, Option, some, List, [], bit_or, ◌==◌, ltb, if◌then◌else◌,
  length, get_or,
}
use privacypass_cpp.Types.{
  Bytes, TokenType, voprf_p384_sha384, to_u16, of_u16, for_type, unexpected_end, malformed_data,
  unsupported_token_type, error, Result, ok, err,
}
use privacypass_cpp.Serialization.Reader.{reader, read_varint, read_bytes}
use privacypass_cpp.Serialization.Parser.{
  Parser, or_fail, pure, run, refuse_if, expect_end, lift, ahead, ◌>>=◌, ◌>>◌,
}
use privacypass_cpp.Serialization.Collect.{collect}
use privacypass_cpp.OptionalTokenResponse
use privacypass_cpp.OptionalTokenResponse.{OptionalTokenResponse}
use privacypass_cpp.BatchedTokenResponse.{
  BatchedTokenResponse, max_response_batch_size, max_response_batch_payload_size,
}

-- The size prefix, the payload, and nothing after it.
unfoldable pub payload_from : Parser Bytes
payload_from = do
  size ← or_fail read_varint (error unexpected_end "Failed to read response batch size")
  refuse_if (ltb max_response_batch_payload_size size)
      (error malformed_data "Response batch payload too large")
  payload ← or_fail (read_bytes size) (error unexpected_end "Failed to read response batch payload")
  expect_end (error malformed_data "Trailing BatchedTokenResponse data")
  pure payload

-- `type == TokenType::VOPRF_P384_SHA384 ? 145 : info.authenticator_size`
pub response_payload_size : TokenType → ℕ
response_payload_size type =
    if to_u16 type == to_u16 voprf_p384_sha384 then 145 else (for_type type).authenticator_size

-- `response_size` of a present response, from its type.
pub present_size : TokenType → Result ℕ
present_size type =
    if (for_type type).authenticator_size == 0
    then err (error unsupported_token_type "Unsupported batched response token type")
    else ok (1 + (2 + response_payload_size type))

-- `response_size`, from the status and the type.
pub response_size : Bytes → Result ℕ
response_size remaining =
    if get_or remaining 0 0 == 0x01
    then (if ltb (length remaining) 3
        then err (error unexpected_end "Failed to read response type")
        else present_size (of_u16 (bit_or (get_or remaining 1 0 * 2 ^ 8) (get_or remaining 2 0))))
    else if not (get_or remaining 0 0 == 0x00)
    then err (error malformed_data "Invalid response status")
    else ok 1

-- One round of the loop.
pub next_response : Parser OptionalTokenResponse
next_response = ahead λ remaining. do
  refuse_if (length remaining == 0) (error unexpected_end "Failed to read response status")
  size ← lift (response_size remaining)
  bytes ← or_fail (read_bytes size) (error unexpected_end "Failed to read response")
  lift (OptionalTokenResponse.deserialize bytes)

abbrev pub batch_of :
    Option (Result (List OptionalTokenResponse)) → Option (Result BatchedTokenResponse)
batch_of =
    Option.map λ m. elim m [ ok responses ↦ ok (record { responses = responses }) | err e ↦ err e ]

-- `none` stands for a loop that did not end within its fuel.
unfoldable pub deserialize : Bytes → Option (Result BatchedTokenResponse)
deserialize bytes = elim (run payload_from bytes) [
  | ok payload ↦ batch_of (
      collect next_response max_response_batch_size
        (error malformed_data "Response batch size exceeds maximum") (suc (length payload))
        (reader payload) [])
  | err e ↦ some (err e)
]
