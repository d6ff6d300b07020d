-- ===== src/Moq/Match/Track.antt =====
-- What a track name rule matches, without the loops of the standard library's algorithms.
use mathlib.Core.List.{reverse, reverse-append, reverse-reverse}
use privacypass_cpp.Prelude.{
  suc, ◌≤◌, ◌<◌, ◌≡◌, ◌≢◌, ◌↔◌, refl, sym, ap, ◌∙◌, Bool, true, false, [], ◌∷◌, ◌++◌, ltb,
  if◌then◌else◌, length, length-append, length-reverse, arith,
}
use privacypass_cpp.Types.{Bytes}
use privacypass_cpp.Text.{starts_with, starts_with-true_iff}
use privacypass_cpp.NonceSet.{same_self, same-eq}
use privacypass_cpp.Moq.{
  MatchType, match_exact, match_prefix, match_suffix, match_contains, unnamed_match, TrackName,
}
use privacypass_cpp.Moq.Match.{TrackNameMatchRule, first_position, matches_track_as, matches_track}
use privacypass_cpp.Moq.Match.Laws.{Stands}

starts_with-nil : (pattern name : Bytes) → length pattern ≡ 0 → starts_with pattern name ≡ true
unfolding starts_with
starts_with-nil [] name h = refl
starts_with-nil (p ∷ pattern) name h = absurd (omega arith)

-- A pattern that is shorter than the name or as long is compared with its front.
guarded_iff :
    (pattern name : Bytes)
    → ((if ltb (length name) (length pattern) then false else starts_with pattern name) ≡ true)
      ↔ ((rest : Bytes) × (name ≡ pattern ++ rest))
guarded_iff pattern name = go (ltb (length name) (length pattern)) refl
  where
    go :
        (b : Bool)
        → ltb (length name) (length pattern) ≡ b
        → ((if b then false else starts_with pattern name) ≡ true)
          ↔ ((rest : Bytes) × (name ≡ pattern ++ rest))
    go true e = (
      λ h. absurd cc,
      λ (rest, k). absurd (ground (arith, ap length k, length-append pattern rest)),
    )
    go false e = starts_with-true_iff pattern name

-- The search ends before the end of a name that is not empty exactly where the pattern stands.
first_position-lt_iff :
    (pattern name : Bytes)
    → (first_position pattern name < length name)
      ↔ ((name ≢ []) × Stands match_contains pattern name)
unfolding first_position
first_position-lt_iff pattern [] = (λ h. absurd (omega arith), λ (ne, _). absurd (ne refl))
first_position-lt_iff pattern (c ∷ name) =
    let (f, g) = first_position-lt_iff pattern name in
    go (starts_with pattern (c ∷ name)) refl (λ h. (f h).1) (λ ne h. g (ne, h))
  where
    further :
        starts_with pattern (c ∷ name) ≡ false
        → Stands match_contains pattern (c ∷ name)
        → (name ≢ []) × Stands match_contains pattern name
    further e ([], rest, k) =
        absurd (ground (arith, (starts_with-true_iff pattern (c ∷ name)).1 (rest, k)))
    further e (x ∷ before, rest, k) =
        let q : name ≡ before ++ (pattern ++ rest) = cc in
        let l = length-append before (pattern ++ rest) in
        let l' = length-append pattern rest in
        (
          λ nil.
              let few : length pattern ≡ 0 = omega (arith, l, l', ap length q, ap length nil) in
              absurd (ground (arith, starts_with-nil pattern (c ∷ name) few)),
          (before, rest, q),
        )

    go :
        (b : Bool)
        → starts_with pattern (c ∷ name) ≡ b
        → (first_position pattern name < length name → Stands match_contains pattern name)
        → (name ≢ []
            → Stands match_contains pattern name
            → first_position pattern name < length name)
        → ((if b then 0 else suc (first_position pattern name)) < suc (length name))
          ↔ ((c ∷ name ≢ []) × Stands match_contains pattern (c ∷ name))
    go true e f g = (
      λ _.
          let (rest, k) = (starts_with-true_iff pattern (c ∷ name)).0 e in (λ q. cc, ([], rest, k)),
      λ _. omega arith,
    )
    go false e f g = (
      λ h.
          let (before, rest, k) = f (omega arith) in
          (λ q. cc, (c ∷ before, rest, ap (λ l. c ∷ l) k)),
      λ (_, h). let (ne, h') = further e h in omega (arith, g ne h'),
    )

first_position-le : (pattern name : Bytes) → first_position pattern name ≤ length name
unfolding first_position
first_position-le pattern [] = omega arith
first_position-le pattern (c ∷ name) = ground (arith, first_position-le pattern name)

backwards_iff :
    (pattern name : Bytes)
    → ((rest : Bytes) × (reverse name ≡ reverse pattern ++ rest))
      ↔ ((before : Bytes) × (name ≡ before ++ pattern))
backwards_iff pattern name = (
  λ (rest, k). (
    reverse rest,
    sym (reverse-reverse name)
        ∙ ap reverse k
        ∙ reverse-append (reverse pattern) rest
        ∙ ap (λ l. reverse rest ++ l) (reverse-reverse pattern),
  ),
  λ (before, k). (reverse before, ap reverse k ∙ reverse-append before pattern),
)

-- What the match type asks for. A name that is empty contains no pattern, not even the empty one.
abbrev pub StandsTrack : MatchType → TrackName → TrackName → Type 0
StandsTrack match_contains pattern name = (name ≢ []) × Stands match_contains pattern name
StandsTrack type pattern name = Stands type pattern name

matches_track_as-true_iff :
    (type : MatchType) (pattern name : TrackName)
    → (matches_track_as type pattern name ≡ true) ↔ StandsTrack type pattern name
unfolding matches_track_as
matches_track_as-true_iff match_exact pattern name =
    (λ h. same-eq name pattern h, λ k. rw k (same_self pattern))
matches_track_as-true_iff match_prefix pattern name = guarded_iff pattern name
matches_track_as-true_iff match_suffix pattern name =
    let (f, g) : ((if ltb (length name) (length pattern)
            then false
            else starts_with (reverse pattern) (reverse name))
          ≡ true)
        ↔ ((rest : Bytes) × (reverse name ≡ reverse pattern ++ rest)) =
      rw (← length-reverse name, ← length-reverse pattern)
        (guarded_iff (reverse pattern) (reverse name)) in
    let (f', g') = backwards_iff pattern name in (λ h. f' (f h), λ h. g (g' h))
matches_track_as-true_iff match_contains pattern name =
    let le = first_position-le pattern name in
    let (f, g) = first_position-lt_iff pattern name in
    (λ h. f (ground arith), λ h. ground (arith, g h))
matches_track_as-true_iff (unnamed_match v) pattern name = (λ h. absurd cc, λ h. absurd h)

-- A track name rule matches exactly the names in which its pattern stands: as the whole, at the
-- front, at the end or, in a name that is not empty, anywhere, as the match type says. A value of
-- that type that no enumerator names matches none.
pub matches_track-true_iff :
    (rule : TrackNameMatchRule) (name : TrackName)
    → (matches_track rule name ≡ true) ↔ StandsTrack rule.match_type rule.pattern name
unfolding matches_track
matches_track-true_iff rule name = matches_track_as-true_iff rule.match_type rule.pattern name
