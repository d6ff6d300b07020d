-- ===== src/Moq/AuthScope/Parse/RoundTrip.antt =====
-- A scope within the limits of the format comes back, whatever bytes follow it.
use privacypass_cpp.Prelude.{
  ◌%◌, ◌^◌, ◌≤◌, ◌≡◌, refl, ap, ◌∙◌, true, List, [], ◌∷◌, ◌++◌, length, append_assoc, append-nil,
  All, arith,
}
use privacypass_cpp.Types.{Bytes, ok, Error}
use privacypass_cpp.Serialization.Parser.{Parser, or_fail, ◌>>=◌}
use privacypass_cpp.Serialization.Reader.Window.{
  u16_bytes, read_u8-Takes, read_u16-Takes, read_bytes-Takes,
}
use privacypass_cpp.Serialization.Writer.{write_u16, write_bytes, ◌▷◌}
use privacypass_cpp.Serialization.Writer.Own.{
  holding, push_u8, own_writes, writer-holding, take_data-holding,
}
use privacypass_cpp.Serialization.Parser.Rules.{
  Reads, pure-Reads, run-Reads, or_fail-Reads, read-Reads, >>=-Reads, refuse_if->>-Reads,
}
use privacypass_cpp.Serialization.Collect.{encodings}
use privacypass_cpp.Serialization.Counted.{times-encodings}
use privacypass_cpp.Moq.{
  Action, action_code, is_named_action, action_of-action_code, match_code, is_named_match,
  match_of-match_code, Namespace,
}
use privacypass_cpp.Moq.AuthScope.{
  NamespaceMatch, namespace_rule, any_namespace, TrackNameMatch, track_rule, any_track, AuthScope,
  write_actions, write_elements, write_namespace_match, write_track_match, serialize,
}
use privacypass_cpp.Moq.AuthScope.Parse.{
  is_valid_action, is_valid_match_type, next_action, next_element, namespace_match_from,
  track_match_from, deserialize_from, deserialize, read_u8,
}

abbrev action_wire : Action → Bytes
action_wire action = action_code action ∷ []

abbrev element_wire : Bytes → Bytes
element_wire elem = u16_bytes (length elem) ++ elem

abbrev namespace_wire : NamespaceMatch → Bytes
namespace_wire any_namespace = 0xFF ∷ []
namespace_wire (namespace_rule rule) =
    match_code rule.match_type ∷ length rule.pattern ∷ encodings element_wire rule.pattern

abbrev track_wire : TrackNameMatch → Bytes
track_wire any_track = 0xFF ∷ []
track_wire (track_rule rule) = match_code rule.match_type ∷ element_wire rule.pattern

abbrev pub wire : AuthScope → Bytes
wire s =
    length s.actions ∷ encodings action_wire s.actions
    ++ (namespace_wire s.namespace_match ++ track_wire s.track_name_match)

abbrev FitsNamespace : NamespaceMatch → Type 0
FitsNamespace any_namespace = Unit
FitsNamespace (namespace_rule rule) =
    (is_named_match rule.match_type ≡ true)
    × (length rule.pattern ≤ 255)
    × All (λ elem. length elem ≤ 65535) rule.pattern

abbrev FitsTrack : TrackNameMatch → Type 0
FitsTrack any_track = Unit
FitsTrack (track_rule rule) =
    (is_named_match rule.match_type ≡ true) × (length rule.pattern ≤ 65535)

-- Named actions and match types, at most 255 actions and elements, and texts of at most 65535 bytes.
pub record Fits (s : AuthScope) : Type 0 where
  pub few : length s.actions ≤ 255
  pub named : All (λ a. is_named_action a ≡ true) s.actions
  pub in_namespace : FitsNamespace s.namespace_match
  pub in_track : FitsTrack s.track_name_match

write_actions-holding :
    (actions : List Action) (xs : Bytes)
    → write_actions actions (holding xs) ≡ holding (xs ++ encodings action_wire actions)
unfolding write_actions
write_actions-holding [] xs = rw append-nil
write_actions-holding (a ∷ actions) xs =
    rw (push_u8 xs (action_code a)) (write_actions-holding actions (xs ++ action_wire a))
    ∙ ap holding (append_assoc xs (action_wire a) (encodings action_wire actions))

write_elements-holding :
    (pattern : Namespace) (xs : Bytes)
    → All (λ elem. length elem ≤ 65535) pattern
    → write_elements pattern (holding xs) ≡ holding (xs ++ encodings element_wire pattern)
unfolding write_elements
write_elements-holding [] xs h = rw append-nil
write_elements-holding (elem ∷ pattern) xs (h, hs) =
    let e : length elem % 2 ^ 16 ≡ length elem = omega arith in
    let step : (holding xs ▷ write_u16 (length elem % 2 ^ 16) ▷ write_bytes elem)
        ≡ holding (xs ++ element_wire elem) =
      rw e (simp own_writes) in
    rw step (write_elements-holding pattern (xs ++ element_wire elem) hs)
    ∙ ap holding (append_assoc xs (element_wire elem) (encodings element_wire pattern))

write_namespace-holding :
    (m : NamespaceMatch) (xs : Bytes)
    → FitsNamespace m
    → write_namespace_match m (holding xs) ≡ holding (xs ++ namespace_wire m)
unfolding write_namespace_match
write_namespace-holding any_namespace xs h = push_u8 xs 0xFF
write_namespace-holding (namespace_rule rule) xs (named, few, short) =
    let e : length rule.pattern % 2 ^ 8 ≡ length rule.pattern = omega arith in
    rw (e, push_u8 xs (match_code rule.match_type))
      (rw (push_u8 (xs ++ match_code rule.match_type ∷ []) (length rule.pattern))
        (write_elements-holding rule.pattern _ short ∙ simp append_assoc))

write_track-holding :
    (m : TrackNameMatch) (xs : Bytes)
    → FitsTrack m
    → write_track_match m (holding xs) ≡ holding (xs ++ track_wire m)
unfolding write_track_match
write_track-holding any_track xs h = push_u8 xs 0xFF
write_track-holding (track_rule rule) xs (named, short) =
    let e : length rule.pattern % 2 ^ 16 ≡ length rule.pattern = omega arith in
    rw e (simp own_writes)

pub serialize-wire : (s : AuthScope) → Fits s → serialize s ≡ ok (wire s)
unfolding serialize
serialize-wire s fits =
    let e : length s.actions % 2 ^ 8 ≡ length s.actions = omega (arith, fits.few) in
    let counted : Bytes = length s.actions ∷ encodings action_wire s.actions in
    rw (e, writer-holding, push_u8 [] (length s.actions))
      (rw
        (
          write_actions-holding s.actions (length s.actions ∷ []),
          write_namespace-holding s.namespace_match counted fits.in_namespace,
          write_track-holding s.track_name_match (counted ++ namespace_wire s.namespace_match)
              fits.in_track,
          take_data-holding,
        )
        (ap ok (
          append_assoc counted (namespace_wire s.namespace_match) (track_wire s.track_name_match))))

next_action-Reads :
    (a : Action) (w : Bytes) → is_named_action a ≡ true → Reads next_action (action_wire a ++ w) a w
unfolding next_action is_valid_action
next_action-Reads a w h =
    let e = action_of-action_code a h in
    read-Reads _ _ _ _ _ _ _ _ (read_u8-Takes (action_code a) w)
      (rw e (refuse_if->>-Reads _ _ _ _ _ _ (rw h) (pure-Reads a w)))

next_element-Reads :
    (elem w : Bytes) → length elem ≤ 65535 → Reads next_element (element_wire elem ++ w) elem w
unfolding next_element
next_element-Reads elem w h =
    read-Reads _ _ _ _ _ _ _ _ (read_u16-Takes (length elem) (elem ++ w) (omega arith)) (
      refuse_if->>-Reads _ _ _ _ _ _ (ground arith)
        (or_fail-Reads _ _ _ _ _ (read_bytes-Takes _ elem w refl)))

actions-Reads :
    (actions : List Action)
    → All (λ a. is_named_action a ≡ true) actions
    → All (λ a. (w : Bytes) → Reads next_action (action_wire a ++ w) a w) actions
actions-Reads [] h = tt
actions-Reads (a ∷ actions) (h, hs) = (λ w. next_action-Reads a w h, actions-Reads actions hs)

elements-Reads :
    (pattern : Namespace)
    → All (λ elem. length elem ≤ 65535) pattern
    → All (λ elem. (w : Bytes) → Reads next_element (element_wire elem ++ w) elem w) pattern
elements-Reads [] h = tt
elements-Reads (elem ∷ pattern) (h, hs) =
    (λ w. next_element-Reads elem w h, elements-Reads pattern hs)

module _ {B : Type 0} (w : Bytes) (b : B) (w' : Bytes) (e : Error) where
  -- The byte that tells the kind of match, and the match.
  namespace-Reads :
      (m : NamespaceMatch) (next : NamespaceMatch → Parser B)
      → FitsNamespace m
      → Reads (next m) w b w'
      → Reads
          (or_fail read_u8 e >>= λ t. (namespace_match_from t >>= next))
          (namespace_wire m ++ w)
          b
          w'
  unfolding namespace_match_from is_valid_match_type
  namespace-Reads any_namespace next fits after =
      read-Reads _ _ _ _ _ _ _ _ (read_u8-Takes 0xFF w)
        (>>=-Reads _ next _ _ _ _ _ (pure-Reads any_namespace w) after)
  namespace-Reads (namespace_rule rule) next (named, few, short) after =
      let (same, other) = match_of-match_code rule.match_type named in
      read-Reads _ _ _ _ _ _ _ _ (read_u8-Takes (match_code rule.match_type) _) (
        rw (other, same)
          (>>=-Reads _ next _ _ _ _ _
            (refuse_if->>-Reads _ _ _ _ _ _ (rw named) (
              read-Reads _ _ _ _ _ _ _ _ (read_u8-Takes (length rule.pattern) _) (
                >>=-Reads _ _ _ _ _ _ _
                  (times-encodings next_element element_wire [] rule.pattern w
                    (elements-Reads rule.pattern short))
                  (pure-Reads (namespace_rule rule) w))))
            after))

  track-Reads :
      (m : TrackNameMatch) (next : TrackNameMatch → Parser B)
      → FitsTrack m
      → Reads (next m) w b w'
      → Reads (or_fail read_u8 e >>= λ t. (track_match_from t >>= next)) (track_wire m ++ w) b w'
  unfolding track_match_from is_valid_match_type
  track-Reads any_track next fits after =
      read-Reads _ _ _ _ _ _ _ _ (read_u8-Takes 0xFF w)
        (>>=-Reads _ next _ _ _ _ _ (pure-Reads any_track w) after)
  track-Reads (track_rule rule) next (named, short) after =
      let (same, other) = match_of-match_code rule.match_type named in
      read-Reads _ _ _ _ _ _ _ _ (read_u8-Takes (match_code rule.match_type) _) (
        rw (other, same)
          (>>=-Reads _ next _ _ _ _ _
            (refuse_if->>-Reads _ _ _ _ _ _ (rw named) (
              read-Reads _ _ _ _ _ _ _ _ (read_u16-Takes (length rule.pattern) _ (omega arith)) (
                refuse_if->>-Reads _ _ _ _ _ _ (ground arith) (
                  read-Reads _ _ _ _ _ _ _ _ (read_bytes-Takes _ rule.pattern w refl)
                    (pure-Reads (track_rule rule) w)))))
            after))

deserialize_from-Reads :
    (s : AuthScope) (w : Bytes) → Fits s → Reads deserialize_from (wire s ++ w) s w
unfolding deserialize_from
deserialize_from-Reads s w fits =
    let after : Bytes = namespace_wire s.namespace_match ++ (track_wire s.track_name_match ++ w) in
    let regroup : wire s ++ w ≡ length s.actions ∷ encodings action_wire s.actions ++ after =
      simp append_assoc in
    rw regroup (
      read-Reads _ _ _ _ _ _ _ _ (read_u8-Takes (length s.actions) _) (
        >>=-Reads _ _ _ _ _ _ _
          (times-encodings next_action action_wire [] s.actions after
            (actions-Reads s.actions fits.named))
          (namespace-Reads _ _ _ _ s.namespace_match _ fits.in_namespace
            (track-Reads _ _ _ _ s.track_name_match _ fits.in_track (pure-Reads s w)))))

-- A scope of named actions and match types, within the format's limits, serialises, and
-- `deserialize` reads it back from these bytes, whatever follows them.
pub deserialize_scope-serialize :
    (s : AuthScope) (rest : Bytes)
    → Fits s
    → (bytes : Bytes) × (serialize s ≡ ok bytes) × (deserialize (bytes ++ rest) ≡ ok s)
unfolding deserialize
deserialize_scope-serialize s rest fits =
    (wire s, serialize-wire s fits, run-Reads _ _ s rest (deserialize_from-Reads s rest fits))

pub deserialize-wire : (s : AuthScope) → Fits s → deserialize (wire s) ≡ ok s
unfolding deserialize
deserialize-wire s fits =
    run-Reads _ _ s [] (rw (append-nil (wire s)) at (deserialize_from-Reads s [] fits))
