-- ===== src/TokenRequest.antt =====
-- `TokenRequest` of include/privacy_pass/core/token_request.hpp and src/core/token_request.cpp.
pub mod RoundTrip
use privacypass_cpp.Prelude.{ℕ, ◌+◌, length}
use privacypass_cpp.Types.{
  Bytes, TokenType, to_u16, of_u16, for_type, unexpected_end, malformed_data, error, Result, ok,
}
use privacypass_cpp.Serialization.Reader.{read_u8, read_u16, read_bytes}
use privacypass_cpp.Serialization.Writer.{writer, write_u8, write_u16, write_bytes, take_data, ◌▷◌}
use privacypass_cpp.Serialization.Parser.{
  Parser, or_fail, pure, run, expect_left, expect_end, ◌>>=◌, ◌>>◌,
}

pub record TokenRequest : Type 0 where
  pub token_type : TokenType
  pub truncated_token_key_id : ℕ
  pub blinded_msg : Bytes

unfoldable pub create : TokenType → ℕ → Bytes → TokenRequest
create type truncated_key_id blinded_message = record {
  token_type = type;
  truncated_token_key_id = truncated_key_id;
  blinded_msg = blinded_message;
}

unfoldable pub serialized_size : TokenRequest → ℕ
serialized_size t = 2 + 1 + length t.blinded_msg

unfoldable pub serialize : TokenRequest → Result Bytes
serialize t = ok (
    take_data (
      writer
      ▷ write_u16 (to_u16 t.token_type)
      ▷ write_u8 t.truncated_token_key_id
      ▷ write_bytes t.blinded_msg))

deserialize_from : Parser TokenRequest
deserialize_from = do
  type ← or_fail read_u16 (error unexpected_end "Failed to read token_type")
  key_id ← or_fail read_u8 (error unexpected_end "Failed to read key_id")
  let blinded_size = (for_type (of_u16 type)).blinded_element_size
  expect_left blinded_size (error unexpected_end "Insufficient data for blinded_msg")
  blinded ← or_fail (read_bytes blinded_size) (error unexpected_end "Failed to read blinded_msg")
  expect_end (error malformed_data "Trailing TokenRequest data")
  pure (record { token_type = of_u16 type; truncated_token_key_id = key_id; blinded_msg = blinded })

unfoldable pub deserialize : Bytes → Result TokenRequest
unfolding deserialize_from
deserialize bytes = run deserialize_from bytes
