-- ===== src/Moq/AuthScope.antt =====
-- `AuthScope` with its `Builder`, `authorizes` and `serialize`, of
-- extensions/moq/include/privacy_pass/extensions/moq/auth_scope.hpp and
-- extensions/moq/src/auth_scope.cpp.
pub mod Authorizes
pub mod Parse
use privacypass_cpp.Prelude.{
  ℕ, ◌+◌, ◌%◌, ◌^◌, Bool, true, false, not, List, [], ◌∷◌, ◌++◌, ◌==◌, if◌then◌else◌, length,
}
use privacypass_cpp.Types.{Bytes, Result, ok}
use privacypass_cpp.Serialization.Writer.{
  ByteWriter, writer, write_u8, write_u16, write_bytes, take_data, ◌▷◌,
}
use privacypass_cpp.Moq.{
  Action, action_code, match_exact, match_prefix, match_suffix, match_contains, match_code,
  Namespace, TrackName,
}
use privacypass_cpp.Moq.Match.{
  NamespaceMatchRule, TrackNameMatchRule, matches_namespace, matches_track,
}

-- `std::variant<NamespaceMatchRule, WildcardMatch>`
pub data NamespaceMatch : Type 0 where
  namespace_rule : NamespaceMatchRule → NamespaceMatch
  any_namespace : NamespaceMatch

pub data TrackNameMatch : Type 0 where
  track_rule : TrackNameMatchRule → TrackNameMatch
  any_track : TrackNameMatch

pub record AuthScope : Type 0 where
  pub actions : List Action
  pub namespace_match : NamespaceMatch
  pub track_name_match : TrackNameMatch

-- The `Builder` has the same three members, and `build()` copies them.
pub record Builder : Type 0 where
  pub actions_ : List Action
  pub namespace_match_ : NamespaceMatch
  pub track_name_match_ : TrackNameMatch

abbrev pub builder : Builder
builder = record { actions_ = []; namespace_match_ = any_namespace; track_name_match_ = any_track }

pub allow_action : Action → Builder → Builder
allow_action action b = record b { actions_ = b.actions_ ++ action ∷ [] }

unfoldable pub allow_actions : List Action → Builder → Builder
unfolding allow_action
allow_actions [] b = b
allow_actions (action ∷ actions) b = allow_actions actions (allow_action action b)

abbrev pub for_namespace_exact : Namespace → Builder → Builder
for_namespace_exact ns b = record b {
  namespace_match_ = namespace_rule (record { match_type = match_exact; pattern = ns });
}

abbrev for_namespace_prefix : Namespace → Builder → Builder
for_namespace_prefix prefix b = record b {
  namespace_match_ = namespace_rule (record { match_type = match_prefix; pattern = prefix });
}

abbrev for_namespace_suffix : Namespace → Builder → Builder
for_namespace_suffix suffix b = record b {
  namespace_match_ = namespace_rule (record { match_type = match_suffix; pattern = suffix });
}

abbrev for_namespace_containing : Namespace → Builder → Builder
for_namespace_containing part b = record b {
  namespace_match_ = namespace_rule (record { match_type = match_contains; pattern = part });
}

abbrev pub for_any_namespace : Builder → Builder
for_any_namespace b = record b { namespace_match_ = any_namespace }

abbrev pub for_track_exact : TrackName → Builder → Builder
for_track_exact name b = record b {
  track_name_match_ = track_rule (record { match_type = match_exact; pattern = name });
}

abbrev for_track_prefix : TrackName → Builder → Builder
for_track_prefix prefix b = record b {
  track_name_match_ = track_rule (record { match_type = match_prefix; pattern = prefix });
}

abbrev for_track_suffix : TrackName → Builder → Builder
for_track_suffix suffix b = record b {
  track_name_match_ = track_rule (record { match_type = match_suffix; pattern = suffix });
}

abbrev for_track_containing : TrackName → Builder → Builder
for_track_containing part b = record b {
  track_name_match_ = track_rule (record { match_type = match_contains; pattern = part });
}

abbrev pub for_any_track : Builder → Builder
for_any_track b = record b { track_name_match_ = any_track }

abbrev pub build : Builder → AuthScope
build b = record {
  actions = b.actions_;
  namespace_match = b.namespace_match_;
  track_name_match = b.track_name_match_;
}

-- `std::find(actions.begin(), actions.end(), action) != actions.end()`
pub has_action : Action → List Action → Bool
has_action action [] = false
has_action action (a ∷ actions) =
    if action_code a == action_code action then true else has_action action actions

-- `std::visit` on the two variants.
pub visit_namespace : Namespace → NamespaceMatch → Bool
visit_namespace ns any_namespace = true
visit_namespace ns (namespace_rule rule) = matches_namespace rule ns

pub visit_track : TrackName → TrackNameMatch → Bool
visit_track track any_track = true
visit_track track (track_rule rule) = matches_track rule track

unfoldable pub authorizes : AuthScope → Action → Namespace → TrackName → Bool
unfolding has_action visit_namespace visit_track
authorizes scope action ns track =
    if not (has_action action scope.actions)
    then false
    else if not (visit_namespace ns scope.namespace_match)
    then false
    else visit_track track scope.track_name_match

pub write_actions : List Action → ByteWriter → ByteWriter
write_actions [] w = w
write_actions (action ∷ actions) w = write_actions actions (w ▷ write_u8 (action_code action))

pub write_elements : Namespace → ByteWriter → ByteWriter
write_elements [] w = w
write_elements (elem ∷ pattern) w =
    write_elements pattern (w ▷ write_u16 (length elem % 2 ^ 16) ▷ write_bytes elem)

pub write_namespace_match : NamespaceMatch → ByteWriter → ByteWriter
unfolding write_elements
write_namespace_match any_namespace w = w ▷ write_u8 0xFF
write_namespace_match (namespace_rule rule) w =
    write_elements rule.pattern
      (w ▷ write_u8 (match_code rule.match_type) ▷ write_u8 (length rule.pattern % 2 ^ 8))

pub write_track_match : TrackNameMatch → ByteWriter → ByteWriter
write_track_match any_track w = w ▷ write_u8 0xFF
write_track_match (track_rule rule) w =
    w
    ▷ write_u8 (match_code rule.match_type)
    ▷ write_u16 (length rule.pattern % 2 ^ 16)
    ▷ write_bytes rule.pattern

unfoldable pub serialize : AuthScope → Result Bytes
unfolding write_actions write_namespace_match write_track_match
serialize scope =
    let counted = writer ▷ write_u8 (length scope.actions % 2 ^ 8) in
    ok (
      take_data (
        write_track_match scope.track_name_match
          (write_namespace_match scope.namespace_match (write_actions scope.actions counted))))
