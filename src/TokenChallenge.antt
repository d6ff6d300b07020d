-- ===== src/TokenChallenge.antt =====
-- `TokenChallenge` of include/privacy_pass/core/token_challenge.hpp and
-- src/core/token_challenge.cpp. A `std::string` is its bytes.
pub mod Origins
pub mod RoundTrip
pub mod Digest
use privacypass_cpp.Prelude.{
  ℕ, ◌+◌, Bool, true, false, not, ◌&&◌, ◌||◌, Option, none, some, List, [], ◌∷◌, ◌++◌, ◌==◌, ltb,
  leb, if◌then◌else◌, length,
}
use privacypass_cpp.Types.{
  Bytes, TokenType, to_u16, of_u16, unexpected_end, invalid_length, malformed_data, error, Result,
  ok, err,
}
use privacypass_cpp.Serialization.Reader.{read_u8, read_u16, read_bytes, read_array}
use privacypass_cpp.Serialization.Writer.{
  ByteWriter, writer, write_u8, write_u16, write_array, write_bytes, take_data, ◌▷◌,
}
use privacypass_cpp.Serialization.Parser.{
  Parser, or_fail, pure, run, refuse_if, expect_end, lift, ◌>>=◌, ◌>>◌,
}

pub record TokenChallenge : Type 0 where
  pub token_type : TokenType
  pub issuer_name : Bytes
  pub redemption_context : Option Bytes
  pub origin_info : List Bytes
  pub cached_digest_ : Option Bytes

unfoldable pub create : TokenType → Bytes → Option Bytes → List Bytes → TokenChallenge
create type issuer context origins = record {
  token_type = type;
  issuer_name = issuer;
  redemption_context = context;
  origin_info = origins;
  cached_digest_ = none;
}

-- The entries of `origin_info` after the first, each behind a comma.
unfoldable pub join_rest : List Bytes → Bytes
join_rest [] = []
join_rest (x ∷ xs) = 44 ∷ x ++ join_rest xs

unfoldable pub join : List Bytes → Bytes
join [] = []
join (x ∷ xs) = x ++ join_rest xs

unfoldable pub origin_info_string : TokenChallenge → Bytes
origin_info_string c = join c.origin_info

pub join_rest_size : List Bytes → ℕ
join_rest_size [] = 0
join_rest_size (x ∷ xs) = 1 + length x + join_rest_size xs

pub join_size : List Bytes → ℕ
join_size [] = 0
join_size (x ∷ xs) = length x + join_rest_size xs

abbrev pub context_size : Option Bytes → ℕ
context_size none = 0
context_size (some context) = 32

unfoldable pub serialized_size : TokenChallenge → ℕ
serialized_size c =
    2
    + (2 + length c.issuer_name)
    + 1
    + context_size c.redemption_context
    + (2 + join_size c.origin_info)

abbrev pub write_context : Option Bytes → ByteWriter → ByteWriter
write_context none w = w ▷ write_u8 0
write_context (some context) w = w ▷ write_u8 32 ▷ write_array context

-- `if (!origin_str.empty()) writer.write_bytes(…);`
abbrev pub write_origins : Bytes → ByteWriter → ByteWriter
write_origins [] w = w
write_origins (b ∷ bytes) w = w ▷ write_bytes (b ∷ bytes)

unfoldable pub serialize : TokenChallenge → Result Bytes
serialize c =
    if length c.issuer_name == 0 || ltb 0xFFFF (length c.issuer_name)
    then err (error invalid_length "issuer_name length must be 1..65535")
    else let origin_str = origin_info_string c in
      if ltb 0xFFFF (length origin_str)
      then err (error invalid_length "origin_info length must be <= 65535")
      else ok (
          take_data (
            write_origins origin_str (
              write_context c.redemption_context (
                writer
                ▷ write_u16 (to_u16 c.token_type)
                ▷ write_u16 (length c.issuer_name)
                ▷ write_bytes c.issuer_name)
              ▷ write_u16 (length origin_str))))

abbrev prepend : ℕ → List Bytes → List Bytes
prepend x [] = (x ∷ []) ∷ []
prepend x (s ∷ ss) = (x ∷ s) ∷ ss

-- The substrings of `origin_str` that the loop visits: each runs to the next comma, or to the end,
-- and the loop stops where `pos` is the size.
pub segments : Bytes → List Bytes
segments [] = []
segments (x ∷ xs) = if x == 44 then [] ∷ segments xs else prepend x (segments xs)

abbrev max_origin_entries : ℕ
max_origin_entries = 100

abbrev push_entry : Bytes → List Bytes → List Bytes
push_entry [] entries = entries
push_entry (b ∷ bytes) entries = entries ++ (b ∷ bytes) ∷ []

-- The loop over them, with `challenge.origin_info` so far.
pub collect_origins : List Bytes → List Bytes → Result (List Bytes)
collect_origins origin_info [] = ok origin_info
collect_origins origin_info (entry ∷ rest) =
    if leb max_origin_entries (length origin_info)
    then err (error malformed_data "Too many origin_info entries (max 100)")
    else collect_origins (push_entry entry origin_info) rest

pub context_from : ℕ → Parser (Option Bytes)
context_from len =
    if len == 32
    then (or_fail (read_array 32) (error unexpected_end "Failed to read redemption_context")
        >>= λ context. pure (some context))
    else pure none

pub origins_from : ℕ → Parser (List Bytes)
origins_from len =
    if ltb 0 len
    then (or_fail (read_bytes len) (error unexpected_end "Failed to read origin_info") >>= λ bytes.
        lift (collect_origins [] (segments bytes)))
    else pure []

unfoldable pub deserialize_from : Parser TokenChallenge
deserialize_from = do
  type ← or_fail read_u16 (error unexpected_end "Failed to read token_type")
  issuer_len ← or_fail read_u16 (error unexpected_end "Failed to read issuer_name length")
  issuer ← or_fail (read_bytes issuer_len) (error unexpected_end "Failed to read issuer_name")
  refuse_if (issuer_len == 0) (error invalid_length "issuer_name must not be empty")
  context_len ← or_fail read_u8 (error unexpected_end "Failed to read redemption_context length")
  refuse_if (not (context_len == 0) && not (context_len == 32))
      (error invalid_length "redemption_context length must be 0 or 32")
  context ← context_from context_len
  origin_len ← or_fail read_u16 (error unexpected_end "Failed to read origin_info length")
  origins ← origins_from origin_len
  expect_end (error malformed_data "Trailing TokenChallenge data")
  pure (create (of_u16 type) issuer context origins)

unfoldable pub deserialize : Bytes → Result TokenChallenge
deserialize bytes = run deserialize_from bytes

-- The hash is a parameter. A digest that was computed is kept in the challenge.
module _ (sha256 : Bytes → Result Bytes) where
  abbrev pub digest_of : Result Bytes → Result Bytes
  digest_of (ok bytes) = sha256 bytes
  digest_of (err e) = err e

  abbrev pub keep : TokenChallenge → Result Bytes → Result Bytes × TokenChallenge
  keep c (ok hash) = (ok hash, record c { cached_digest_ = some hash })
  keep c (err e) = (err e, c)

  unfoldable pub digest : TokenChallenge → Result Bytes × TokenChallenge
  digest c = elim c.cached_digest_ [
    | some cached ↦ (ok cached, c)
    | none ↦ keep c (digest_of (serialize c))
  ]
