-- ===== src/Moq/AuthorizationInfo/Presets.antt =====
-- `AuthorizationInfo::for_subscriber`, `for_publisher` and `for_relay`.
use privacypass_cpp.Prelude.{◌≡◌, ◌↔◌, inl, inr, true, List, [], ◌∷◌}
use privacypass_cpp.Moq.{
  Action, client_setup, server_setup, publish_namespace, subscribe_namespace, subscribe,
  request_update, publish, fetch, track_status, Namespace, TrackName,
}
use privacypass_cpp.Moq.AuthScope.{
  AuthScope, builder, allow_actions, for_namespace_exact, for_any_namespace, for_track_exact,
  for_any_track, build,
}
use privacypass_cpp.Moq.AuthScope.Authorizes.{Listed, Grants}
use privacypass_cpp.Moq.AuthorizationInfo.Authorizes.{any_authorizes-true_iff}
use privacypass_cpp.Moq.AuthorizationInfo.{
  AuthorizationInfo, add_scope, build_info, any_authorizes, authorizes,
}

abbrev subscriber_actions : List Action
subscriber_actions = client_setup ∷ subscribe ∷ fetch ∷ track_status ∷ []

pub for_subscriber : Namespace → TrackName → AuthorizationInfo
unfolding allow_actions
for_subscriber ns track = build_info (
    add_scope
      (build
        (for_track_exact track (for_namespace_exact ns (allow_actions subscriber_actions builder))))
      [])

abbrev publisher_actions : List Action
publisher_actions = client_setup ∷ publish_namespace ∷ publish ∷ []

pub for_publisher : Namespace → AuthorizationInfo
unfolding allow_actions
for_publisher ns = build_info (
    add_scope
      (build (for_any_track (for_namespace_exact ns (allow_actions publisher_actions builder)))) [])

abbrev relay_actions : List Action
relay_actions =
    client_setup ∷ server_setup ∷ publish_namespace ∷ subscribe_namespace ∷ subscribe
    ∷ request_update ∷ publish ∷ fetch ∷ track_status ∷ []

pub for_relay : AuthorizationInfo
unfolding allow_actions
for_relay =
    build_info (
      add_scope (build (for_any_track (for_any_namespace (allow_actions relay_actions builder))))
        [])

one_scope :
    (scope : AuthScope) (action : Action) (ns : Namespace) (track : TrackName)
    → (any_authorizes (scope ∷ []) action ns track ≡ true) ↔ Grants scope action ns track
one_scope scope action ns track =
    let (f, g) = any_authorizes-true_iff (scope ∷ []) action ns track in
    (λ h. elim (f h) [ inl granted ↦ granted | inr none ↦ absurd none ], λ k. g (inl k))

-- A subscriber may do its four actions on the one track of the one namespace, and nothing else.
pub for_subscriber-authorizes_iff :
    (ns ns' : Namespace) (track track' : TrackName) (action : Action)
    → (authorizes (for_subscriber ns track) action ns' track' ≡ true)
      ↔ (Listed action subscriber_actions × (ns' ≡ ns) × (track' ≡ track))
unfolding authorizes for_subscriber
for_subscriber-authorizes_iff ns ns' track track' action =
    let (f, g) = one_scope _ action ns' track' in
    (
      λ h. let k = f h in (k.listed, k.in_namespace, k.in_track),
      λ (l, n, t). g (record { listed = l; in_namespace = n; in_track = t }),
    )

-- A publisher may do its three actions on every track of the one namespace, and a relay every named
-- action everywhere; neither may do anything else.
pub publisher_relay-authorizes_iff :
    (ns ns' : Namespace) (track' : TrackName) (action : Action)
    → ((authorizes (for_publisher ns) action ns' track' ≡ true)
        ↔ (Listed action publisher_actions × (ns' ≡ ns)))
      × ((authorizes for_relay action ns' track' ≡ true) ↔ Listed action relay_actions)
unfolding authorizes for_publisher for_relay
publisher_relay-authorizes_iff ns ns' track' action =
    let (f, g) = one_scope _ action ns' track' in
    let (f', g') = one_scope _ action ns' track' in
    (
      (
        λ h. let k = f h in (k.listed, k.in_namespace),
        λ (l, n). g (record { listed = l; in_namespace = n; in_track = tt }),
      ),
      (λ h. (f' h).listed, λ l. g' (record { listed = l; in_namespace = tt; in_track = tt })),
    )
