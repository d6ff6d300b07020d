-- ===== src/AuthScheme/Split.antt =====
-- `split_private_token_challenges`.
pub mod Laws
use privacypass_cpp.Prelude.{
  ℕ, zero, suc, ◌+◌, ◌-◌, Bool, true, false, not, ◌&&◌, ◌||◌, List, [], ◌∷◌, ◌++◌, ◌==◌,
  if◌then◌else◌, length, take, drop,
}
use privacypass_cpp.Types.{Bytes, text}
use privacypass_cpp.Text.{starts_with}
use privacypass_cpp.AuthScheme.{is_ows, skip_ows}

abbrev pub scheme : Bytes
scheme = text "PrivateToken "

-- The variables of the loop, besides `i`.
pub record Scan : Type 0 where
  pub challenges : List Bytes
  pub in_quote : Bool
  pub escaped : Bool
  pub start : ℕ

-- `while (next < header.size() && …) ++next;` over the text behind the comma.
unfoldable pub ows_count : Bytes → ℕ
unfolding is_ows
ows_count [] = 0
ows_count (c ∷ cs) = if is_ows c then suc (ows_count cs) else 0

-- At a comma, where `behind` is `header.substr(i + 1)`.
pub at_comma : Bytes → ℕ → Bytes → Scan → Scan
unfolding ows_count
at_comma header i behind s =
    let next = i + 1 + ows_count behind in
    if starts_with scheme (drop (ows_count behind) behind)
    then record s {
      challenges = s.challenges ++ take (i - s.start) (drop s.start header) ∷ [];
      start = next;
    }
    else s

-- The body of the loop, with `c` for `header[i]`.
pub scan_step : Bytes → ℕ → ℕ → Bytes → Scan → Scan
unfolding at_comma
scan_step header i c behind s =
    if s.escaped
    then record s { escaped = false }
    else if s.in_quote && c == 92
    then record s { escaped = true }
    else if c == b'"'
    then record s { in_quote = not s.in_quote }
    else if s.in_quote || not (c == b',')
    then s
    else at_comma header i behind s

pub scan : Bytes → ℕ → Bytes → Scan → Scan
unfolding scan_step
scan header i [] s = s
scan header i (c ∷ behind) s = scan header (i + 1) behind (scan_step header i c behind s)

abbrev pub start_scan : Scan
start_scan = record { challenges = []; in_quote = false; escaped = false; start = 0 }

unfoldable pub split_private_token_challenges : Bytes → List Bytes
unfolding scan
split_private_token_challenges header =
    let s = scan header 0 header start_scan in s.challenges ++ drop s.start header ∷ []
