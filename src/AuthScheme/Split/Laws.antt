-- ===== src/AuthScheme/Split/Laws.antt =====
-- Pieces of a header that the scan passes without a cut.
use privacypass_cpp.Prelude.{
  ℕ, ◌+◌, ◌-◌, ◌≡◌, ◌≢◌, refl, ap, ◌∙◌, true, false, List, [], ◌∷◌, ◌++◌, ◌==◌, length, take, drop,
  All, arith,
}
use privacypass_cpp.Types.{Bytes}
use privacypass_cpp.Text.{starts_with}
use privacypass_cpp.AuthScheme.Params.{IsPlain}
use privacypass_cpp.AuthScheme.Split.{scheme, Scan, ows_count, at_comma, scan_step, scan}

-- Outside a quoted string, and inside one.
abbrev pub outside : List Bytes → ℕ → Scan
outside challenges start = record {
  challenges = challenges;
  in_quote = false;
  escaped = false;
  start = start;
}

abbrev inside : List Bytes → ℕ → Scan
inside challenges start = record {
  challenges = challenges;
  in_quote = true;
  escaped = false;
  start = start;
}

-- Neither a quote nor a comma.
abbrev pub IsCalm : Bytes → Type 0
IsCalm = All (λ c. (c ≢ 34) × (c ≢ 44))

pub scan-nil : (header : Bytes) (i : ℕ) (s : Scan) → scan header i [] s ≡ s
unfolding scan
scan-nil header i s = refl

module _ (header : Bytes) (cs : List Bytes) (start : ℕ) where
  step-calm :
      (i x : ℕ) (behind : Bytes)
      → x ≢ 34
      → x ≢ 44
      → scan_step header i x behind (outside cs start) ≡ outside cs start
  unfolding scan_step
  step-calm i x behind q c =
      let e : (x == 34) ≡ false = ground arith in
      let e' : (x == 44) ≡ false = ground arith in rw (e, e') refl

  step-plain :
      (i x : ℕ) (behind : Bytes)
      → x ≢ 34
      → x ≢ 92
      → scan_step header i x behind (inside cs start) ≡ inside cs start
  unfolding scan_step
  step-plain i x behind q b =
      let e : (x == 34) ≡ false = ground arith in
      let e' : (x == 92) ≡ false = ground arith in rw (e, e') refl

  pub scan-IsCalm :
      (i : ℕ) (xs ys : Bytes)
      → IsCalm xs
      → scan header i (xs ++ ys) (outside cs start)
        ≡ scan header (i + length xs) ys (outside cs start)
  unfolding scan
  scan-IsCalm i [] ys h = ap (λ j. scan header j ys (outside cs start)) (omega arith)
  scan-IsCalm i (x ∷ xs) ys ((q, c), h) =
      ap (scan header (i + 1) (xs ++ ys)) (step-calm i x (xs ++ ys) q c)
      ∙ scan-IsCalm (i + 1) xs ys h
      ∙ ap (λ j. scan header j ys (outside cs start)) (omega arith)

  scan-inside :
      (i : ℕ) (xs ys : Bytes)
      → IsPlain xs
      → scan header i (xs ++ 34 ∷ ys) (inside cs start)
        ≡ scan header (i + length xs + 1) ys (outside cs start)
  unfolding scan
  scan-inside i [] ys h = ap (λ j. scan header j ys (outside cs start)) (omega arith)
  scan-inside i (x ∷ xs) ys ((q, b), h) =
      ap (scan header (i + 1) (xs ++ 34 ∷ ys)) (step-plain i x (xs ++ 34 ∷ ys) q b)
      ∙ scan-inside (i + 1) xs ys h
      ∙ ap (λ j. scan header j ys (outside cs start)) (omega arith)

  -- A quoted string.
  pub scan-IsPlain :
      (i : ℕ) (xs ys : Bytes)
      → IsPlain xs
      → scan header i (34 ∷ xs ++ 34 ∷ ys) (outside cs start)
        ≡ scan header (i + (length xs + 2)) ys (outside cs start)
  unfolding scan scan_step
  scan-IsPlain i xs ys h =
      scan-inside (i + 1) xs ys h ∙ ap (λ j. scan header j ys (outside cs start)) (omega arith)

  -- A comma behind which no challenge begins.
  pub scan-comma :
      (i : ℕ) (ys : Bytes)
      → starts_with scheme (drop (ows_count ys) ys) ≡ false
      → scan header i (44 ∷ ys) (outside cs start) ≡ scan header (i + 1) ys (outside cs start)
  unfolding scan scan_step at_comma
  scan-comma i ys h = rw h refl

  -- A comma behind which one does.
  pub scan-cut :
      (i : ℕ) (ys : Bytes)
      → starts_with scheme (drop (ows_count ys) ys) ≡ true
      → scan header i (44 ∷ ys) (outside cs start)
        ≡ scan header
            (i + 1)
            ys
            (outside (cs ++ take (i - start) (drop start header) ∷ []) (i + 1 + ows_count ys))
  unfolding scan scan_step at_comma
  scan-cut i ys h = rw h refl
