-- ===== src/Moq.antt =====
-- extensions/moq/include/privacy_pass/extensions/moq/types.hpp: actions and match types of Media
-- over QUIC, with their codes.
pub mod Match
pub mod AuthScope
pub mod AuthorizationInfo
use privacypass_cpp.Prelude.{ℕ, Bool, true, false, ◌≡◌, refl, ◌==◌, if◌then◌else◌, List}
use privacypass_cpp.Types.{Bytes}

-- `enum class Action : uint8_t`. A cast also makes values that no enumerator names.
pub data Action : Type 0 where
  client_setup server_setup publish_namespace subscribe_namespace subscribe : Action
  request_update publish fetch track_status : Action
  unnamed_action : ℕ → Action

-- `static_cast<uint8_t>(action)`
unfoldable pub action_code : Action → ℕ
action_code client_setup = 0
action_code server_setup = 1
action_code publish_namespace = 2
action_code subscribe_namespace = 3
action_code subscribe = 4
action_code request_update = 5
action_code publish = 6
action_code fetch = 7
action_code track_status = 8
action_code (unnamed_action v) = v

-- `static_cast<Action>(value)`
pub action_of : ℕ → Action
action_of v =
    if v == 0
    then client_setup
    else if v == 1
    then server_setup
    else if v == 2
    then publish_namespace
    else if v == 3
    then subscribe_namespace
    else if v == 4
    then subscribe
    else if v == 5
    then request_update
    else if v == 6
    then publish
    else if v == 7
    then fetch
    else if v == 8
    then track_status
    else unnamed_action v

-- `switch (action)` over the enumerators, with its `default`.
unfoldable pub is_named_action : Action → Bool
is_named_action (unnamed_action v) = false
is_named_action _ = true

-- `enum class MatchType : uint8_t`
pub data MatchType : Type 0 where
  match_exact match_prefix match_suffix match_contains : MatchType
  unnamed_match : ℕ → MatchType

-- `static_cast<uint8_t>(match_type)`
unfoldable pub match_code : MatchType → ℕ
match_code match_exact = 0
match_code match_prefix = 1
match_code match_suffix = 2
match_code match_contains = 3
match_code (unnamed_match v) = v

-- `static_cast<MatchType>(value)`
pub match_of : ℕ → MatchType
match_of v =
    if v == 0
    then match_exact
    else if v == 1
    then match_prefix
    else if v == 2
    then match_suffix
    else if v == 3
    then match_contains
    else unnamed_match v

unfoldable pub is_named_match : MatchType → Bool
is_named_match (unnamed_match v) = false
is_named_match _ = true

abbrev pub Namespace : Type 0
Namespace = List Bytes

abbrev pub TrackName : Type 0
TrackName = Bytes

-- A named enumerator is the cast of its code, and no code is the wildcard marker 0xFF.
pub action_of-action_code : (a : Action) → is_named_action a ≡ true → action_of (action_code a) ≡ a
unfolding action_of action_code is_named_action
action_of-action_code (unnamed_action v) h = absurd cc
action_of-action_code _ h = refl

pub match_of-match_code :
    (t : MatchType)
    → is_named_match t ≡ true
    → (match_of (match_code t) ≡ t) × ((match_code t == 0xFF) ≡ false)
unfolding match_of match_code is_named_match
match_of-match_code (unnamed_match v) h = absurd cc
match_of-match_code _ h = (refl, refl)
