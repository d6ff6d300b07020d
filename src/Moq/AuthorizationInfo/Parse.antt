-- ===== src/Moq/AuthorizationInfo/Parse.antt =====
-- `AuthorizationInfo::deserialize` and `decode_from_origin_info`.
pub mod RoundTrip
use privacypass_cpp.Prelude.{[]}
use privacypass_cpp.Types.{Bytes, unexpected_end, error, Result, ok, err}
use privacypass_cpp.Base64Url
use privacypass_cpp.Serialization.Reader.{read_u8, read_u16, read_bytes}
use privacypass_cpp.Serialization.Parser.{Parser, or_fail, pure, run, lift, ◌>>=◌}
use privacypass_cpp.Serialization.Counted.{times}
use privacypass_cpp.Moq.AuthScope.{AuthScope}
use privacypass_cpp.Moq.AuthScope.Parse
use privacypass_cpp.Moq.AuthorizationInfo.{AuthorizationInfo}

-- One round of the loop.
pub next_scope : Parser AuthScope
next_scope = do
  scope_len ← or_fail read_u16 (error unexpected_end "Failed to read scope length")
  scope_data ← or_fail (read_bytes scope_len) (error unexpected_end "Failed to read scope data")
  lift (Parse.deserialize scope_data)

pub deserialize_from : Parser AuthorizationInfo
deserialize_from = do
  scope_count ← or_fail read_u8 (error unexpected_end "Failed to read scope count")
  scopes ← times scope_count next_scope []
  pure (record { scopes = scopes })

unfoldable pub deserialize : Bytes → Result AuthorizationInfo
unfolding deserialize_from
deserialize bytes = run deserialize_from bytes

pub decode_from_origin_info : Bytes → Result AuthorizationInfo
decode_from_origin_info origin_info = elim (Base64Url.decode origin_info) [
  | ok decoded ↦ deserialize decoded
  | err e ↦ err e
]
