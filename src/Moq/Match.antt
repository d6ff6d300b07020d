-- ===== src/Moq/Match.antt =====
-- `NamespaceMatchRule::matches` and `TrackNameMatchRule::matches` of
-- extensions/moq/src/auth_scope.cpp.
pub mod Laws
pub mod Track
use mathlib.Core.List.{reverse}
use privacypass_cpp.Prelude.{
  ℕ, zero, suc, ◌+◌, ◌-◌, Bool, true, false, not, List, [], ◌∷◌, ◌==◌, ltb, leb, if◌then◌else◌,
  length, get_or,
}
use privacypass_cpp.Types.{Bytes}
use privacypass_cpp.Text.{starts_with}
use privacypass_cpp.NonceSet.{same}
use privacypass_cpp.Moq.{
  MatchType, match_exact, match_prefix, match_suffix, match_contains, unnamed_match, Namespace,
  TrackName,
}

pub record NamespaceMatchRule : Type 0 where
  pub match_type : MatchType
  pub pattern : Namespace

pub record TrackNameMatchRule : Type 0 where
  pub match_type : MatchType
  pub pattern : TrackName

-- `for (; i < n; ++i) if (ns[offset + i] != pattern[i]) return false; return true;`, with the rounds
-- that are left. Every caller has tested that the indices are in range.
pub same_at : Namespace → ℕ → Namespace → ℕ → ℕ → Bool
same_at ns offset pattern zero i = true
same_at ns offset pattern (suc rounds) i =
    if not (same (get_or ns (offset + i) []) (get_or pattern i []))
    then false
    else same_at ns offset pattern rounds (i + 1)

-- `for (start; start + pattern.size() <= ns.size(); ++start)`; a round for each element of `ns` and
-- one more are enough, since the test then fails.
pub found_from : Namespace → Namespace → ℕ → ℕ → Bool
found_from ns pattern zero start = false
found_from ns pattern (suc fuel) start =
    let next = found_from ns pattern fuel (start + 1) in
    if leb (start + length pattern) (length ns)
    then (if same_at ns start pattern (length pattern) 0 then true else next)
    else false

-- The `switch` on `match_type`.
pub matches_namespace_as : MatchType → Namespace → Namespace → Bool
matches_namespace_as match_exact pattern ns =
    if not (length ns == length pattern) then false else same_at ns 0 pattern (length ns) 0
matches_namespace_as match_prefix pattern ns =
    if ltb (length ns) (length pattern) then false else same_at ns 0 pattern (length pattern) 0
matches_namespace_as match_suffix pattern ns =
    if ltb (length ns) (length pattern)
    then false
    else same_at ns (length ns - length pattern) pattern (length pattern) 0
matches_namespace_as match_contains pattern ns = found_from ns pattern (suc (length ns)) 0
matches_namespace_as (unnamed_match v) pattern ns = false

pub matches_namespace : NamespaceMatchRule → Namespace → Bool
unfolding matches_namespace_as
matches_namespace rule ns = matches_namespace_as rule.match_type rule.pattern ns

-- `std::equal` of a pattern and the front of a name that is long enough is `starts_with`.
-- `std::search`: the first position at which the pattern stands, or the end.
pub first_position : Bytes → Bytes → ℕ
first_position pattern [] = 0
first_position pattern (c ∷ name) =
    if starts_with pattern (c ∷ name) then 0 else suc (first_position pattern name)

pub matches_track_as : MatchType → TrackName → TrackName → Bool
matches_track_as match_exact pattern name = same name pattern
matches_track_as match_prefix pattern name =
    if ltb (length name) (length pattern) then false else starts_with pattern name
matches_track_as match_suffix pattern name =
    if ltb (length name) (length pattern)
    then false
    else starts_with (reverse pattern) (reverse name)
matches_track_as match_contains pattern name = not (first_position pattern name == length name)
matches_track_as (unnamed_match v) pattern name = false

pub matches_track : TrackNameMatchRule → TrackName → Bool
unfolding matches_track_as
matches_track rule name = matches_track_as rule.match_type rule.pattern name
