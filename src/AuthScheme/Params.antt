-- ===== src/AuthScheme/Params.antt =====
-- What `parse_auth_param` reads of the parameters that the headers are made of, and that the loop
-- over the parameters ends.
use mathlib.Core.Option
use privacypass_cpp.Prelude.{
  ℕ, zero, suc, ◌+◌, ◌≤◌, ◌≡◌, ◌≢◌, refl, sym, ap, ap₂, ◌∙◌, Bool, true, false, Option, none, some,
  List, [], ◌∷◌, ◌++◌, ◌==◌, if◌then◌else◌, length, take, drop, append_assoc, append-nil,
  length-drop, take-length, drop-all, All, arith,
}
use privacypass_cpp.Types.{Bytes}
use privacypass_cpp.AuthScheme.{
  is_ows, skip_ows, find_char, quoted, token_end, value_from, skip_comma, skip_separator, Param,
  finish, param_from, key_and_value, parse_auth_param, params, all_params, has_separator, trim_end,
}

-- A text that a quoted string can carry as it is.
abbrev pub IsPlain : Bytes → Type 0
IsPlain = All (λ c. (c ≢ 34) × (c ≢ 92))

pub quoted-IsPlain :
    (acc value rest : Bytes)
    → IsPlain value
    → quoted false acc (value ++ 34 ∷ rest) ≡ some (acc ++ value, rest)
unfolding quoted
quoted-IsPlain acc [] rest h = rw append-nil
quoted-IsPlain acc (c ∷ value) rest ((q, b), h) =
    let e : (c == 34) ≡ false = ground arith in
    let e' : (c == 92) ≡ false = ground arith in
    rw (e', e)
      (quoted-IsPlain (acc ++ c ∷ []) value rest h
        ∙ ap (λ l. some (l, rest)) (append_assoc acc (c ∷ []) value))

-- A text without a comma, a space or a tab is one token.
abbrev pub IsWord : Bytes → Type 0
IsWord = All (λ c. (c ≢ 44) × (c ≢ 32) × (c ≢ 9))

pub token_end-IsWord : (value : Bytes) → IsWord value → token_end value ≡ length value
unfolding token_end
token_end-IsWord [] h = refl
token_end-IsWord (c ∷ value) (w, h) = ground (arith, token_end-IsWord value h)

-- A value without quotes, to the end of the text.
pub value_from-IsWord :
    (c : ℕ) (value : Bytes)
    → IsWord (c ∷ value)
    → c ≢ 34
    → value_from (skip_ows (c ∷ value)) ≡ some (c ∷ value, [])
unfolding value_from skip_ows
value_from-IsWord c value ((w₁, w₂, w₃), h) q =
    let e : is_ows c ≡ false = ground arith in
    let e' : (c == 34) ≡ false = ground arith in
    let n = token_end-IsWord (c ∷ value) ((w₁, w₂, w₃), h) in
    rw e (
      rw (e', n)
        (ap₂ (λ l m. some (l, m)) (take-length (c ∷ value))
          (drop-all (suc (length value)) (c ∷ value) (omega arith))))

length-skip_ows-le : (view : Bytes) → length (skip_ows view) ≤ length view
unfolding skip_ows
length-skip_ows-le [] = omega arith
length-skip_ows-le (c ∷ view) = ground (arith, length-skip_ows-le view)

length-skip_comma-le : (view : Bytes) → length (skip_comma view) ≤ length view
length-skip_comma-le [] = omega arith
length-skip_comma-le (c ∷ view) = ground arith

length-skip_separator-le : (view : Bytes) → length (skip_separator view) ≤ length view
unfolding skip_separator
length-skip_separator-le view = omega (
  arith,
  length-skip_ows-le (skip_comma (skip_ows view)),
  length-skip_comma-le (skip_ows view),
  length-skip_ows-le view,
)

pub skip_separator-nil : skip_separator [] ≡ []
unfolding skip_separator
skip_separator-nil = refl

-- A `none`, or an answer that leaves at most `n` bytes.
abbrev Leaves : {A : Type 0} → ℕ → Option (A × Bytes) → Type 0
Leaves n none = Unit
Leaves n (some (a, rest)) = length rest ≤ n

Leaves-more : {A : Type 0} (n : ℕ) (o : Option (A × Bytes)) → Leaves n o → Leaves (suc n) o
Leaves-more n none h = tt
Leaves-more n (some (a, rest)) h = omega arith

Leaves-if :
    {A : Type 0} (n : ℕ) (b : Bool) (o o' : Option (A × Bytes))
    → Leaves n o
    → Leaves n o'
    → Leaves n (if b then o else o')
Leaves-if n true o o' h h' = h
Leaves-if n false o o' h h' = h'

quoted-Leaves :
    (escaped : Bool) (value view : Bytes) → Leaves (length view) (quoted escaped value view)
unfolding quoted
quoted-Leaves escaped value [] = tt
quoted-Leaves escaped value (c ∷ view) =
    let n = length view in
    let pushed = Leaves-more n _ (quoted-Leaves false (value ++ c ∷ []) view) in
    let escaping = Leaves-more n _ (quoted-Leaves true value view) in
    Leaves-if (suc n) escaped _ _ pushed (
      Leaves-if (suc n) (c == 92) _ _ escaping
        (Leaves-if (suc n) (c == b'"') _ _ (omega arith) pushed))

value_from-Leaves : (view : Bytes) → Leaves (length view) (value_from view)
unfolding value_from
value_from-Leaves [] = tt
value_from-Leaves (c ∷ view) =
    Leaves-if _ (c == b'"') _ _ (Leaves-more _ _ (quoted-Leaves false [] view))
      (omega (arith, length-drop (token_end (c ∷ view)) (c ∷ view)))

finish-Leaves :
    (key : Bytes) (n : ℕ) (o : Option (Bytes × Bytes))
    → Leaves n o
    → Leaves n (Option.map (finish key) o)
finish-Leaves key n none h = tt
finish-Leaves key n (some (value, rest)) h = omega (arith, length-skip_separator-le rest)

Leaves-le : {A : Type 0} (m n : ℕ) (o : Option (A × Bytes)) → m ≤ n → Leaves m o → Leaves n o
Leaves-le m n none le h = tt
Leaves-le m n (some (a, rest)) le h = omega arith

param_from-Leaves : (key view : Bytes) → Leaves (length view) (param_from key view)
unfolding param_from
param_from-Leaves key view = Leaves-if _ (has_separator key) _ _ tt (
    Leaves-if _ (length key == 0) _ _ tt (
      finish-Leaves key _ _
        (Leaves-le _ _ _ (length-skip_ows-le view) (value_from-Leaves (skip_ows view)))))

key_and_value-Leaves :
    (o : Option ℕ) (c : ℕ) (view : Bytes) → Leaves (length view) (key_and_value o (c ∷ view))
unfolding key_and_value
key_and_value-Leaves none c view = tt
key_and_value-Leaves (some zero) c view = tt
key_and_value-Leaves (some (suc n)) c view =
    let rest = drop (suc n + 1) (c ∷ view) in
    Leaves-le (length rest) _ _ (omega (arith, length-drop (suc n + 1) (c ∷ view)))
      (param_from-Leaves (trim_end (take (suc n) (c ∷ view))) rest)

-- A parameter is at least the `=` long.
parse_auth_param-Leaves :
    (c : ℕ) (view : Bytes) → Leaves (length view) (parse_auth_param (c ∷ view))
unfolding parse_auth_param
parse_auth_param-Leaves c view = go (skip_ows (c ∷ view)) (length-skip_ows-le (c ∷ view))
  where
    go :
        (input : Bytes)
        → length input ≤ suc (length view)
        → Leaves (length view) (key_and_value (find_char b'=' input) input)
    go [] h = tt
    go (x ∷ input) h = Leaves-le _ _ _ (omega arith) (key_and_value-Leaves _ x input)

-- One round, where two ways to go on agree on what is left.
same_round :
    (c : ℕ) (view : Bytes) (f g : Bytes → List Param)
    → ((rest : Bytes) → length rest ≤ length view → f rest ≡ g rest)
    → ◌≡◌ {A = List Param}
        (elim (parse_auth_param (c ∷ view)) [ some (param, rest) ↦ param ∷ f rest | none ↦ [] ])
        (elim (parse_auth_param (c ∷ view)) [ some (param, rest) ↦ param ∷ g rest | none ↦ [] ])
same_round c view f g agree = go (parse_auth_param (c ∷ view)) (parse_auth_param-Leaves c view)
  where
    go :
        (o : Option (Param × Bytes))
        → Leaves (length view) o
        → ◌≡◌ {A = List Param}
            (elim o [ some (param, rest) ↦ param ∷ f rest | none ↦ [] ])
            (elim o [ some (param, rest) ↦ param ∷ g rest | none ↦ [] ])
    go none le = refl
    go (some (param, rest)) le = ap (λ l. param ∷ l) (agree rest le)

-- The rounds by which the loop is bounded do not matter, once there is one for each byte.
params_stable :
    (m n : ℕ) (view : Bytes) → length view ≤ m → length view ≤ n → params m view ≡ params n view
unfolding params
params_stable m n [] h k = ground arith
params_stable zero n (c ∷ view) h k = absurd (omega arith)
params_stable (suc m) zero (c ∷ view) h k = absurd (omega arith)
params_stable (suc m) (suc n) (c ∷ view) h k =
    same_round c view (params m) (params n)
      (λ rest le. params_stable m n rest (omega arith) (omega arith))

-- The loop as the source has it: a round reads a parameter, and goes on behind it.
abbrev pub one_round : Bytes → List Param
one_round [] = []
one_round (c ∷ view) = elim (parse_auth_param (c ∷ view)) [
  | some (param, rest) ↦ param ∷ all_params rest
  | none ↦ []
]

all_params_lem : (view : Bytes) → params (length view) view ≡ all_params view
unfolding all_params
all_params_lem view = refl

-- The loop over the parameters of a header ends: with a round for each byte, or more, the bounded
-- loop gives what one round of the loop without a bound gives.
pub params-round :
    (view : Bytes) (rounds : ℕ) → length view ≤ rounds → params rounds view ≡ one_round view
unfolding params
params-round [] rounds h = ground arith
params-round (c ∷ view) zero h = absurd (omega arith)
params-round (c ∷ view) (suc rounds) h = same_round c view (params rounds) all_params (λ rest le.
    params_stable rounds (length rest) rest (omega arith) (omega arith) ∙ all_params_lem rest)

all_params-round : (view : Bytes) → all_params view ≡ one_round view
all_params-round view = sym (all_params_lem view) ∙ params-round view (length view) (omega arith)

-- A parameter that is read, and those behind it.
pub all_params-cons :
    (c : ℕ) (view : Bytes) (param : Param) (rest : Bytes)
    → parse_auth_param (c ∷ view) ≡ some (param, rest)
    → all_params (c ∷ view) ≡ param ∷ all_params rest
all_params-cons c view param rest e = all_params-round (c ∷ view) ∙ rw (e, one_round) refl

pub all_params-nil : all_params [] ≡ []
all_params-nil = all_params-round []
