-- ===== src/Moq/AuthorizationInfo/Authorizes.antt =====
-- An information authorizes what one of its scopes does.
use privacypass_cpp.Prelude.{
  ◌≡◌, ◌⊎◌, ◌↔◌, refl, inl, inr, Bool, true, false, not, List, [], ◌∷◌, if◌then◌else◌, All, arith,
}
use privacypass_cpp.Moq.{Action, Namespace, TrackName}
use privacypass_cpp.Moq.AuthScope
use privacypass_cpp.Moq.AuthScope.{AuthScope}
use privacypass_cpp.Moq.AuthScope.Authorizes.{Grants, authorizes-true_iff}
use privacypass_cpp.Moq.AuthorizationInfo.{
  AuthorizationInfo, any_authorizes, authorizes, authorizes_all,
}

abbrev pub SomeGrants : List AuthScope → Action → Namespace → TrackName → Type 0
SomeGrants [] action ns track = ⊥
SomeGrants (scope ∷ scopes) action ns track =
    Grants scope action ns track ⊎ SomeGrants scopes action ns track

pub any_authorizes-true_iff :
    (scopes : List AuthScope) (action : Action) (ns : Namespace) (track : TrackName)
    → (any_authorizes scopes action ns track ≡ true) ↔ SomeGrants scopes action ns track
unfolding any_authorizes
any_authorizes-true_iff [] action ns track = (λ h. absurd cc, λ h. absurd h)
any_authorizes-true_iff (scope ∷ scopes) action ns track =
    let (f, g) = authorizes-true_iff scope action ns track in
    let (f', g') = any_authorizes-true_iff scopes action ns track in
    go (AuthScope.authorizes scope action ns track) _ f g f' g'
  where
    go :
        {P Q : Type 0} (b c : Bool)
        → (b ≡ true → P)
        → (P → b ≡ true)
        → (c ≡ true → Q)
        → (Q → c ≡ true)
        → ((if b then true else c) ≡ true) ↔ (P ⊎ Q)
    go true c f g f' g' = (λ _. inl (f refl), λ _. refl)
    go false c f g f' g' =
        (λ h. inr (f' h), λ h. elim h [ inl p ↦ absurd (ground (arith, g p)) | inr q ↦ g' q ])

-- All of the actions are authorized exactly if each is granted by one of the scopes, which need not
-- be the same for all.
pub authorizes_all-true_iff :
    (info : AuthorizationInfo) (actions : List Action) (ns : Namespace) (track : TrackName)
    → (authorizes_all info actions ns track ≡ true)
      ↔ All (λ action. SomeGrants info.scopes action ns track) actions
unfolding authorizes_all authorizes
authorizes_all-true_iff info [] ns track = (λ _. tt, λ _. refl)
authorizes_all-true_iff info (action ∷ actions) ns track =
    let (f, g) = any_authorizes-true_iff info.scopes action ns track in
    let (f', g') = authorizes_all-true_iff info actions ns track in
    go (any_authorizes info.scopes action ns track) _ f g f' g'
  where
    go :
        {P Q : Type 0} (b c : Bool)
        → (b ≡ true → P)
        → (P → b ≡ true)
        → (c ≡ true → Q)
        → (Q → c ≡ true)
        → ((if not b then false else c) ≡ true) ↔ (P × Q)
    go true c f g f' g' = (λ h. (f refl, f' h), λ (_, q). g' q)
    go false c f g f' g' = (λ h. absurd cc, λ (p, _). absurd (ground (arith, g p)))
