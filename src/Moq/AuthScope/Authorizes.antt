-- ===== src/Moq/AuthScope/Authorizes.antt =====
-- What a scope authorizes.
use privacypass_cpp.Prelude.{
  ◌≡◌, ◌⊎◌, ◌↔◌, inl, inr, refl, Bool, true, false, not, List, [], ◌∷◌, ◌==◌, ==_iff, if◌then◌else◌,
  arith,
}
use privacypass_cpp.Moq.{Action, action_code, Namespace, TrackName}
use privacypass_cpp.Moq.Match.Laws.{Stands, matches_namespace-true_iff}
use privacypass_cpp.Moq.Match.Track.{StandsTrack, matches_track-true_iff}
use privacypass_cpp.Moq.AuthScope.{
  NamespaceMatch, namespace_rule, any_namespace, TrackNameMatch, track_rule, any_track, AuthScope,
  has_action, visit_namespace, visit_track, authorizes,
}

-- An action of the list has the code of the one that is asked for.
abbrev pub Listed : Action → List Action → Type 0
Listed action [] = ⊥
Listed action (a ∷ actions) = (action_code a ≡ action_code action) ⊎ Listed action actions

abbrev pub NamespaceFits : NamespaceMatch → Namespace → Type 0
NamespaceFits any_namespace ns = Unit
NamespaceFits (namespace_rule rule) ns = Stands rule.match_type rule.pattern ns

abbrev pub TrackFits : TrackNameMatch → TrackName → Type 0
TrackFits any_track track = Unit
TrackFits (track_rule rule) track = StandsTrack rule.match_type rule.pattern track

-- What a scope is for, with no order of tests in it.
pub record Grants (scope : AuthScope) (action : Action) (ns : Namespace) (track : TrackName)
    : Type 0 where
  pub listed : Listed action scope.actions
  pub in_namespace : NamespaceFits scope.namespace_match ns
  pub in_track : TrackFits scope.track_name_match track

has_action-true_iff :
    (action : Action) (actions : List Action)
    → (has_action action actions ≡ true) ↔ Listed action actions
unfolding has_action
has_action-true_iff action [] = (λ h. absurd cc, λ h. absurd h)
has_action-true_iff action (a ∷ actions) =
    let (f, g) = has_action-true_iff action actions in
    go (action_code a == action_code action) refl f g
  where
    go :
        (p : Bool)
        → (action_code a == action_code action) ≡ p
        → (has_action action actions ≡ true → Listed action actions)
        → (Listed action actions → has_action action actions ≡ true)
        → ((if p then true else has_action action actions) ≡ true)
          ↔ ((action_code a ≡ action_code action) ⊎ Listed action actions)
    go true e f g = (λ _. inl ((==_iff _ _).0 e), λ _. refl)
    go false e f g =
        (λ h. inr (f h), λ h. elim h [ inl q ↦ absurd (ground arith) | inr later ↦ g later ])

visit_namespace-true_iff :
    (m : NamespaceMatch) (ns : Namespace) → (visit_namespace ns m ≡ true) ↔ NamespaceFits m ns
unfolding visit_namespace
visit_namespace-true_iff any_namespace ns = (λ _. tt, λ _. refl)
visit_namespace-true_iff (namespace_rule rule) ns = matches_namespace-true_iff rule ns

visit_track-true_iff :
    (m : TrackNameMatch) (track : TrackName) → (visit_track track m ≡ true) ↔ TrackFits m track
unfolding visit_track
visit_track-true_iff any_track track = (λ _. tt, λ _. refl)
visit_track-true_iff (track_rule rule) track = matches_track-true_iff rule track

-- The early returns make a conjunction.
all_three :
    (p q r : Bool)
    → ((if not p then false else if not q then false else r) ≡ true)
      ↔ ((p ≡ true) × (q ≡ true) × (r ≡ true))
all_three true true r = (λ h. (refl, refl, h), λ (_, _, h). h)
all_three true false r = (λ h. absurd cc, λ (_, h, _). absurd cc)
all_three false q r = (λ h. absurd cc, λ (h, _, _). absurd cc)

-- A scope authorizes an action on a track exactly if the action is listed, and the patterns of the
-- namespace and of the track, where they are not wildcards, stand at their places: as the whole, at
-- the front, at the end or anywhere, where "anywhere" never holds of an empty track name.
pub authorizes-true_iff :
    (scope : AuthScope) (action : Action) (ns : Namespace) (track : TrackName)
    → (authorizes scope action ns track ≡ true) ↔ Grants scope action ns track
unfolding authorizes
authorizes-true_iff scope action ns track =
    let (f, g) =
      all_three (has_action action scope.actions) (visit_namespace ns scope.namespace_match)
        (visit_track track scope.track_name_match) in
    let (f₁, g₁) = has_action-true_iff action scope.actions in
    let (f₂, g₂) = visit_namespace-true_iff scope.namespace_match ns in
    let (f₃, g₃) = visit_track-true_iff scope.track_name_match track in
    (
      λ h. let (p, q, r) = f h in record { listed = f₁ p; in_namespace = f₂ q; in_track = f₃ r },
      λ k. g (g₁ k.listed, g₂ k.in_namespace, g₃ k.in_track),
    )
