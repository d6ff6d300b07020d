-- ===== src/AuthScheme/Challenge/Carried.antt =====
-- Challenges that a header can carry, and how the scan passes their text.
use privacypass_cpp.Prelude.{
  ℕ, ◌+◌, ◌^◌, ◌<◌, ◌≡◌, refl, ap, ◌∙◌, Option, none, some, List, [], ◌∷◌, ◌++◌, length,
  length-append, append_assoc, arith,
}
use privacypass_cpp.Types.{Bytes, text}
use privacypass_cpp.Text.{to_string, starts_with}
use privacypass_cpp.Text.Decimal.{IsDigits, to_string-IsDigits}
use privacypass_cpp.AuthScheme.Params.{IsPlain}
use privacypass_cpp.AuthScheme.Split.{scan, ows_count}
use privacypass_cpp.AuthScheme.Split.Laws.{outside, IsCalm, scan-IsCalm, scan-IsPlain, scan-comma}
use privacypass_cpp.AuthScheme.Challenge.{ChallengeHeader, format, token_key_text, max_age_text}

abbrev pub IsPlainKey : Option Bytes → Type 0
IsPlainKey none = Unit
IsPlainKey (some key) = IsPlain key

abbrev pub IsAge : Option ℕ → Type 0
IsAge none = Unit
IsAge (some age) = age < 2 ^ 32

-- Texts without a quote or a backslash, a challenge that is not empty, and an age of 32 bits.
pub record IsCarried (h : ChallengeHeader) : Type 0 where
  pub plain : IsPlain h.challenge
  pub present : 0 < length h.challenge
  pub key : IsPlainKey h.token_key
  pub age : IsAge h.max_age

IsDigits-IsCalm : (xs : Bytes) → IsDigits xs → IsCalm xs
IsDigits-IsCalm [] h = tt
IsDigits-IsCalm (x ∷ xs) (d, h) = ((omega arith, omega arith), IsDigits-IsCalm xs h)

module _ (header : Bytes) (cs : List Bytes) (start : ℕ) where
  -- The scan passes `xs` and is outside of quotes again.
  abbrev Passes : ℕ → Bytes → Bytes → Type 0
  Passes i xs ys =
      scan header i (xs ++ ys) (outside cs start)
      ≡ scan header (i + length xs) ys (outside cs start)

  at_index :
      (i j : ℕ) (ys : Bytes)
      → i ≡ j
      → scan header i ys (outside cs start) ≡ scan header j ys (outside cs start)
  at_index i j ys e = ap (λ k. scan header k ys (outside cs start)) e

  scan-key : (o : Option Bytes) (i : ℕ) (ys : Bytes) → IsPlainKey o → Passes i (token_key_text o) ys
  unfolding text starts_with ows_count
  scan-key none i ys h = at_index i (i + 0) ys (omega arith)
  scan-key (some key) i ys h = rw (append_assoc key (34 ∷ []) ys) (
      scan-comma header cs start i (text " token-key=" ++ 34 ∷ key ++ 34 ∷ ys) refl
      ∙ scan-IsCalm header cs start (i + 1) (text " token-key=") (34 ∷ key ++ 34 ∷ ys) (omega arith)
      ∙ scan-IsPlain header cs start (i + 1 + 11) key ys h
      ∙ at_index _ _ ys (omega (arith, length-append key (34 ∷ []))))

  scan-age : (o : Option ℕ) (i : ℕ) (ys : Bytes) → Passes i (max_age_text o) ys
  unfolding text starts_with ows_count
  scan-age none i ys = at_index i (i + 0) ys (omega arith)
  scan-age (some age) i ys =
      scan-comma header cs start i (text " max-age=" ++ (to_string age ++ ys)) refl
      ∙ scan-IsCalm header cs start (i + 1) (text " max-age=") (to_string age ++ ys) (omega arith)
      ∙ scan-IsCalm header cs start (i + 1 + 9) (to_string age) ys
          (IsDigits-IsCalm _ (to_string-IsDigits age).0)
      ∙ at_index _ _ ys (omega arith)

  pub scan-format :
      (h : ChallengeHeader) (i : ℕ) (ys : Bytes) → IsCarried h → Passes i (format h) ys
  unfolding format text
  scan-format h i ys c =
      let key = token_key_text h.token_key in
      let age = max_age_text h.max_age in
      let regroup : format h ++ ys
          ≡ text "PrivateToken challenge=" ++ 34 ∷ (h.challenge ++ 34 ∷ (key ++ (age ++ ys))) =
        simp append_assoc in
      ap (λ l. scan header i l (outside cs start)) regroup
      ∙ scan-IsCalm header cs start i (text "PrivateToken challenge=")
          (34 ∷ (h.challenge ++ 34 ∷ (key ++ (age ++ ys)))) (omega arith)
      ∙ scan-IsPlain header cs start (i + 23) h.challenge (key ++ (age ++ ys)) c.plain
      ∙ scan-key h.token_key _ (age ++ ys) c.key
      ∙ scan-age h.max_age _ ys
      ∙ at_index _ _ ys
          (omega (arith, length-append h.challenge (34 ∷ key ++ age), length-append key age))
