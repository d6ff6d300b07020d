-- ===== src/AuthScheme/Challenge/Fields.antt =====
-- The parameters of a formatted challenge, and the challenge made of them.
use privacypass_cpp.Prelude.{
  ℕ, ◌-◌, ◌^◌, ◌<◌, ◌≡◌, refl, ap, ◌∙◌, true, false, Option, none, some, List, [], ◌∷◌, ◌++◌, ◌==◌,
  leb, length, append_assoc, arith,
}
use privacypass_cpp.Types.{Bytes, text, ok}
use privacypass_cpp.Text.{to_string, starts_with}
use privacypass_cpp.Text.Decimal.{IsDigits, stoul-to_string, to_string-IsDigits}
use privacypass_cpp.NonceSet.{same}
use privacypass_cpp.AuthScheme.{Param, all_params, parse_auth_param, skip_separator, drop}
use privacypass_cpp.AuthScheme.Params.{
  IsPlain, quoted-IsPlain, IsWord, value_from-IsWord, all_params-cons, all_params-nil,
  skip_separator-nil,
}
use privacypass_cpp.AuthScheme.Split.{scheme}
use privacypass_cpp.AuthScheme.Challenge.{
  ChallengeHeader, format, token_key_text, max_age_text, assign, assign_all, no_header, parse_one,
}
use privacypass_cpp.AuthScheme.Challenge.Carried.{IsPlainKey, IsAge, IsCarried}

challenge_param :
    (value rest : Bytes)
    → IsPlain value
    → parse_auth_param (text "challenge=\"" ++ (value ++ 34 ∷ rest))
      ≡ some ((text "challenge", value), skip_separator rest)
unfolding parse_auth_param text
challenge_param value rest plain = rw (quoted-IsPlain [] value rest plain) refl

key_param :
    (value rest : Bytes)
    → IsPlain value
    → parse_auth_param (text "token-key=\"" ++ (value ++ 34 ∷ rest))
      ≡ some ((text "token-key", value), skip_separator rest)
unfolding parse_auth_param text
key_param value rest plain = rw (quoted-IsPlain [] value rest plain) refl

IsDigits-IsWord : (s : Bytes) → IsDigits s → IsWord s
IsDigits-IsWord [] h = tt
IsDigits-IsWord (c ∷ s) (d, h) = ((omega arith, omega arith, omega arith), IsDigits-IsWord s h)

age_param :
    (value : Bytes)
    → IsDigits value
    → 0 < length value
    → parse_auth_param (text "max-age=" ++ value) ≡ some ((text "max-age", value), [])
unfolding parse_auth_param text
age_param [] h long = absurd (omega arith)
age_param (c ∷ value) (d, h) long =
    rw (value_from-IsWord c value (IsDigits-IsWord (c ∷ value) (d, h)) (omega arith)) refl

-- The parameters that stand for an optional field.
abbrev key_params : Option Bytes → List Param
key_params none = []
key_params (some key) = (text "token-key", key) ∷ []

abbrev age_params : Option ℕ → List Param
age_params none = []
age_params (some age) = (text "max-age", to_string age) ∷ []

skip-age : (age : ℕ) → skip_separator (max_age_text (some age)) ≡ text "max-age=" ++ to_string age
unfolding skip_separator text
skip-age age = refl

skip-key :
    (key rest : Bytes)
    → skip_separator (token_key_text (some key) ++ rest) ≡ text "token-key=\"" ++ (key ++ 34 ∷ rest)
unfolding skip_separator text
skip-key key rest = ap (λ l. text "token-key=\"" ++ l) (append_assoc key (34 ∷ []) rest)

all_params-age : (o : Option ℕ) → all_params (skip_separator (max_age_text o)) ≡ age_params o
unfolding text
all_params-age none = ap all_params skip_separator-nil ∙ all_params-nil
all_params-age (some age) =
    let (digits, long) = to_string-IsDigits age in
    ap all_params (skip-age age)
    ∙ all_params-cons _ _ (text "max-age", to_string age) [] (age_param (to_string age) digits long)
    ∙ ap (λ l. (text "max-age", to_string age) ∷ l) all_params-nil

all_params-key :
    (o : Option Bytes) (age : Option ℕ)
    → IsPlainKey o
    → all_params (skip_separator (token_key_text o ++ max_age_text age))
      ≡ key_params o ++ age_params age
unfolding text
all_params-key none age h = all_params-age age
all_params-key (some key) age h =
    ap all_params (skip-key key (max_age_text age))
    ∙ all_params-cons _ _ (text "token-key", key) _ (key_param key (max_age_text age) h)
    ∙ ap (λ l. (text "token-key", key) ∷ l) (all_params-age age)

made : Bytes → Option Bytes → Option ℕ → ChallengeHeader
made challenge key age = record { challenge = challenge; token_key = key; max_age = age }

-- The rounds of the loop on these parameters.
assign-fields :
    (challenge : Bytes) (o : Option Bytes) (age : Option ℕ)
    → IsAge age
    → assign_all ((text "challenge", challenge) ∷ key_params o ++ age_params age) no_header
      ≡ made challenge o age
unfolding assign_all assign text same made
assign-fields challenge none none lt = refl
assign-fields challenge (some key) none lt = refl
assign-fields challenge none (some age) lt =
    let e : leb age (2 ^ 32 - 1) ≡ true = ground arith in
    rw (stoul-to_string age (omega arith)) (rw e refl)
assign-fields challenge (some key) (some age) lt =
    let e : leb age (2 ^ 32 - 1) ≡ true = ground arith in
    rw (stoul-to_string age (omega arith)) (rw e refl)

all_params-format :
    (h : ChallengeHeader)
    → IsCarried h
    → all_params (drop 13 (format h))
      ≡ (text "challenge", h.challenge) ∷ key_params h.token_key ++ age_params h.max_age
unfolding format text
all_params-format h c =
    let rest = token_key_text h.token_key ++ max_age_text h.max_age in
    all_params-cons _ _ (text "challenge", h.challenge) _ (challenge_param h.challenge rest c.plain)
    ∙ ap (λ l. (text "challenge", h.challenge) ∷ l) (all_params-key h.token_key h.max_age c.key)

parse_one_lem :
    (challenge : Bytes) (h : ChallengeHeader)
    → starts_with scheme challenge ≡ true
    → assign_all (all_params (drop 13 challenge)) no_header ≡ h
    → 0 < length h.challenge
    → parse_one challenge ≡ ok h
unfolding parse_one
parse_one_lem challenge h e e' long =
    let q : (length h.challenge == 0) ≡ false = ground arith in rw (e, e') (rw q refl)

-- A challenge that a header can carry is read back from its text.
pub parse_one-format : (h : ChallengeHeader) → IsCarried h → parse_one (format h) ≡ ok h
unfolding format text starts_with made
parse_one-format h c =
    parse_one_lem (format h) h refl
      (ap (λ l. assign_all l no_header) (all_params-format h c)
        ∙ assign-fields h.challenge h.token_key h.max_age c.age)
      c.present
