-- ===== src/Moq/AuthScope/Parse.antt =====
-- `AuthScope::deserialize`. It does not look at what follows the scope.
pub mod RoundTrip
use privacypass_cpp.Prelude.{ℕ, Bool, not, List, [], ◌∷◌, ◌++◌, ◌==◌, ltb, if◌then◌else◌}
use privacypass_cpp.Types.{Bytes, text, unexpected_end, malformed_data, Error, error, Result}
use privacypass_cpp.Text.{to_string}
use privacypass_cpp.Serialization.Reader.{read_u8, read_u16, read_bytes}
use privacypass_cpp.Serialization.Parser.{Parser, or_fail, pure, run, refuse_if, ◌>>=◌, ◌>>◌}
use privacypass_cpp.Serialization.Counted.{times}
use privacypass_cpp.Moq.{Action, action_of, is_named_action, match_of, is_named_match}
use privacypass_cpp.Moq.AuthScope.{
  NamespaceMatch, namespace_rule, any_namespace, TrackNameMatch, track_rule, any_track, AuthScope,
}

-- `static bool is_valid_action(uint8_t value)`
pub is_valid_action : ℕ → Bool
is_valid_action value = is_named_action (action_of value)

-- `static bool is_valid_match_type(uint8_t value)`
pub is_valid_match_type : ℕ → Bool
is_valid_match_type value = is_named_match (match_of value)

-- `"… value: " + std::to_string(value)`
abbrev invalid_value : Bytes → ℕ → Error
invalid_value what value = record { code = malformed_data; message = what ++ to_string value }

abbrev max_element_size : ℕ
max_element_size = 65535

pub next_action : Parser Action
next_action = do
  action ← or_fail read_u8 (error unexpected_end "Failed to read action")
  refuse_if (not (is_valid_action action)) (invalid_value (text "Invalid action value: ") action)
  pure (action_of action)

pub next_element : Parser Bytes
next_element = do
  elem_len ← or_fail read_u16 (error unexpected_end "Failed to read element length")
  refuse_if (ltb max_element_size elem_len) (error malformed_data "Element too large")
  or_fail (read_bytes elem_len) (error unexpected_end "Failed to read element")

pub namespace_match_from : ℕ → Parser NamespaceMatch
namespace_match_from ns_type = if ns_type == 0xFF then pure any_namespace else (do
  refuse_if (not (is_valid_match_type ns_type))
      (invalid_value (text "Invalid namespace match type: ") ns_type)
  ns_count ← or_fail read_u8 (error unexpected_end "Failed to read namespace count")
  pattern ← times ns_count next_element []
  pure (namespace_rule (record { match_type = match_of ns_type; pattern = pattern })))

pub track_match_from : ℕ → Parser TrackNameMatch
track_match_from track_type = if track_type == 0xFF then pure any_track else (do
  refuse_if (not (is_valid_match_type track_type))
      (invalid_value (text "Invalid track match type: ") track_type)
  track_len ← or_fail read_u16 (error unexpected_end "Failed to read track length")
  refuse_if (ltb max_element_size track_len) (error malformed_data "Track pattern too large")
  pattern ← or_fail (read_bytes track_len) (error unexpected_end "Failed to read track pattern")
  pure (track_rule (record { match_type = match_of track_type; pattern = pattern })))

unfoldable pub deserialize_from : Parser AuthScope
deserialize_from = do
  actions_count ← or_fail read_u8 (error unexpected_end "Failed to read actions count")
  actions ← times actions_count next_action []
  ns_type ← or_fail read_u8 (error unexpected_end "Failed to read namespace match type")
  ns_match ← namespace_match_from ns_type
  track_type ← or_fail read_u8 (error unexpected_end "Failed to read track match type")
  track_match ← track_match_from track_type
  pure (record { actions = actions; namespace_match = ns_match; track_name_match = track_match })

unfoldable pub deserialize : Bytes → Result AuthScope
deserialize bytes = run deserialize_from bytes
