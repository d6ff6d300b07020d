-- ===== src/AuthenticatorInput.antt =====
-- `AuthenticatorInput` of include/privacy_pass/core/token.hpp and src/core/token.cpp: what the
-- client blinds and the issuer signs.
pub mod RoundTrip
use privacypass_cpp.Prelude.{ℕ, ◌+◌}
use privacypass_cpp.Types.{Bytes, TokenType, to_u16, of_u16, unexpected_end, error, Result, ok}
use privacypass_cpp.Serialization.Reader.{read_u16, read_array}
use privacypass_cpp.Serialization.Writer.{writer, write_u16, write_array, take_data, ◌▷◌}
use privacypass_cpp.Serialization.Parser.{Parser, or_fail, pure, run, ◌>>=◌}

pub record AuthenticatorInput : Type 0 where
  pub token_type : TokenType
  pub nonce : Bytes
  pub challenge_digest : Bytes
  pub token_key_id : Bytes

unfoldable pub serialized_size : AuthenticatorInput → ℕ
serialized_size i = 2 + 32 + 32 + 32

unfoldable pub serialize : AuthenticatorInput → Result Bytes
serialize i = ok (
    take_data (
      writer
      ▷ write_u16 (to_u16 i.token_type)
      ▷ write_array i.nonce
      ▷ write_array i.challenge_digest
      ▷ write_array i.token_key_id))

deserialize_from : Parser AuthenticatorInput
deserialize_from = do
  type ← or_fail read_u16 (error unexpected_end "Failed to read token_type")
  nonce ← or_fail (read_array 32) (error unexpected_end "Failed to read nonce")
  digest ← or_fail (read_array 32) (error unexpected_end "Failed to read challenge_digest")
  key_id ← or_fail (read_array 32) (error unexpected_end "Failed to read token_key_id")
  pure (record {
    token_type = of_u16 type;
    nonce = nonce;
    challenge_digest = digest;
    token_key_id = key_id;
  })

unfoldable pub deserialize : Bytes → Result AuthenticatorInput
unfolding deserialize_from
deserialize bytes = run deserialize_from bytes
