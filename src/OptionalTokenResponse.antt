-- ===== src/OptionalTokenResponse.antt =====
-- `OptionalTokenResponse` of include/privacy_pass/core/token_response.hpp and
-- src/core/token_response.cpp.
pub mod RoundTrip
use privacypass_cpp.Prelude.{
  ℕ, Bool, true, false, not, ◌&&◌, Option, none, some, ◌==◌, if◌then◌else◌,
}
use privacypass_cpp.Types.{
  Bytes, TokenType, to_u16, of_u16, unexpected_end, malformed_data, error, Result, ok, err,
}
use privacypass_cpp.Serialization.Reader.{read_u8, read_u16}
use privacypass_cpp.Serialization.Writer.{writer, write_u8, write_u16, write_bytes, take_data, ◌▷◌}
use privacypass_cpp.Serialization.Parser.{
  Parser, or_fail, pure, run, refuse_if, expect_end, lift, ahead, ◌>>=◌, ◌>>◌,
}
use privacypass_cpp.TokenResponse
use privacypass_cpp.TokenResponse.{TokenResponse}

pub record OptionalTokenResponse : Type 0 where
  pub present : Bool
  pub response : Option TokenResponse

abbrev pub absent : OptionalTokenResponse
absent = record { present = false; response = none }

abbrev pub present_response : TokenResponse → OptionalTokenResponse
present_response r = record { present = true; response = some r }

abbrev pub present_bytes : TokenResponse → Result Bytes → Result Bytes
present_bytes r (ok resp_bytes) =
    ok (
      take_data (writer ▷ write_u8 0x01 ▷ write_u16 (to_u16 r.token_type) ▷ write_bytes resp_bytes))
present_bytes r (err e) = err e

-- `!present || !response` decides what is written.
abbrev serialize_parts : Bool → Option TokenResponse → Result Bytes
serialize_parts true (some r) = present_bytes r (TokenResponse.serialize r)
serialize_parts present response = ok (take_data (writer ▷ write_u8 0x00))

unfoldable pub serialize : OptionalTokenResponse → Result Bytes
serialize o = serialize_parts o.present o.response

-- `if (result.present) { … } else if (!reader.empty()) { … }`
pub response_from : Bool → Parser OptionalTokenResponse
response_from true = do
  type ← or_fail read_u16 (error unexpected_end "Failed to read token_type")
  resp ← ahead λ rest. lift (TokenResponse.deserialize (of_u16 type) rest)
  pure (present_response resp)
response_from false = do
  expect_end (error malformed_data "Trailing absent response data")
  pure absent

unfoldable pub deserialize_from : Parser OptionalTokenResponse
deserialize_from = do
  status ← or_fail read_u8 (error unexpected_end "Failed to read status")
  refuse_if (not (status == 0x00) && not (status == 0x01))
      (error malformed_data "Invalid response status")
  response_from (status == 0x01)

unfoldable pub deserialize : Bytes → Result OptionalTokenResponse
deserialize bytes = run deserialize_from bytes
