-- ===== src/Token.antt =====
-- `Token` of include/privacy_pass/core/token.hpp and src/core/token.cpp.
pub mod RoundTrip
use privacypass_cpp.Prelude.{ℕ, ◌+◌, Bool, true, false, not, ◌++◌, ◌==◌, if◌then◌else◌, length}
use privacypass_cpp.Types.{
  Bytes, text, TokenType, voprf_p384_sha384, blind_rsa, voprf_ristretto255_sha512,
  partially_blind_rsa, arc_p256, unnamed, to_u16, of_u16, for_type, unexpected_end,
  unsupported_token_type, malformed_data, token_malformed, error, Result, ok, err,
}
use privacypass_cpp.Text.{to_string}
use privacypass_cpp.Serialization.Reader.{read_u16, read_bytes, read_array}
use privacypass_cpp.Serialization.Writer.{
  writer, write_u16, write_array, write_bytes, take_data, ◌▷◌,
}
use privacypass_cpp.Serialization.Parser.{
  Parser, or_fail, pure, run, refuse_if, expect_left, expect_end, ◌>>=◌, ◌>>◌,
}
use privacypass_cpp.AuthenticatorInput.{AuthenticatorInput}

pub record Token : Type 0 where
  pub token_type : TokenType
  pub nonce : Bytes
  pub challenge_digest : Bytes
  pub token_key_id : Bytes
  pub authenticator : Bytes

unfoldable pub create : TokenType → Bytes → Bytes → Bytes → Bytes → Token
create type nonce digest key_id auth = record {
  token_type = type;
  nonce = nonce;
  challenge_digest = digest;
  token_key_id = key_id;
  authenticator = auth;
}

unfoldable pub serialized_size : Token → ℕ
serialized_size t = 2 + 32 + 32 + 32 + length t.authenticator

unfoldable pub serialize : Token → Result Bytes
serialize t = ok (
    take_data (
      writer
      ▷ write_u16 (to_u16 t.token_type)
      ▷ write_array t.nonce
      ▷ write_array t.challenge_digest
      ▷ write_array t.token_key_id
      ▷ write_bytes t.authenticator))

is_named : TokenType → Bool
is_named voprf_p384_sha384 = true
is_named blind_rsa = true
is_named voprf_ristretto255_sha512 = true
is_named partially_blind_rsa = true
is_named arc_p256 = true
is_named (unnamed v) = false

pub is_valid_token_type : ℕ → Bool
unfolding is_named
is_valid_token_type type = is_named (of_u16 type)

deserialize_from : Parser Token
deserialize_from = do
  type ← or_fail read_u16 (error unexpected_end "Failed to read token_type")
  refuse_if (not (is_valid_token_type type)) (record {
    code = unsupported_token_type;
    message = text "Unknown token type: " ++ to_string type;
  })
  nonce ← or_fail (read_array 32) (error unexpected_end "Failed to read nonce")
  digest ← or_fail (read_array 32) (error unexpected_end "Failed to read challenge_digest")
  key_id ← or_fail (read_array 32) (error unexpected_end "Failed to read token_key_id")
  let size = (for_type (of_u16 type)).authenticator_size
  refuse_if (size == 0)
      (error unsupported_token_type "Token type has no authenticator size defined")
  expect_left size (error unexpected_end "Insufficient data for authenticator")
  auth ← or_fail (read_bytes size) (error unexpected_end "Failed to read authenticator")
  expect_end (error malformed_data "Trailing Token data")
  pure (record {
    token_type = of_u16 type;
    nonce = nonce;
    challenge_digest = digest;
    token_key_id = key_id;
    authenticator = auth;
  })

unfoldable pub deserialize : Bytes → Result Token
unfolding deserialize_from
deserialize bytes = run deserialize_from bytes

abbrev pub authenticator_input : Token → AuthenticatorInput
authenticator_input t = record {
  token_type = t.token_type;
  nonce = t.nonce;
  challenge_digest = t.challenge_digest;
  token_key_id = t.token_key_id;
}

unfoldable pub validate : Token → Result (Unit {0})
validate t =
    let size = (for_type t.token_type).authenticator_size in
    if size == 0
    then err (error unsupported_token_type "Unknown token type")
    else if not (length t.authenticator == size)
    then err (error token_malformed "Invalid authenticator size")
    else ok tt
