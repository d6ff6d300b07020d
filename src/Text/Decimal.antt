-- ===== src/Text/Decimal.antt =====
-- `std::stoul` reads back what `std::to_string` writes.
use privacypass_cpp.Prelude.{
  ℕ, zero, suc, ◌+◌, ◌-◌, ◌*◌, ◌/◌, ◌%◌, ◌^◌, ◌≤◌, ◌<◌, ◌≡◌, refl, ap, ◌∙◌, true, false, some, [],
  ◌∷◌, ◌==◌, length, All, arith, Bool-cases, inl, inr,
}
use privacypass_cpp.Types.{Bytes}
use privacypass_cpp.Text.{
  decimal, to_string, is_space, is_digit, skip_space, digits_value, unsigned_long, signed_long,
  stoul,
}

abbrev pub IsDigits : Bytes → Type 0
IsDigits = All (λ c. (48 ≤ c) × (c ≤ 57))

decimal-IsDigits : (f n : ℕ) (acc : Bytes) → IsDigits acc → IsDigits (decimal f n acc)
unfolding decimal
decimal-IsDigits zero n acc h = h
decimal-IsDigits (suc f) n acc h =
    let longer : IsDigits ((48 + n % 10) ∷ acc) = (omega arith, h) in
    ground (arith, decimal-IsDigits f (n / 10) ((48 + n % 10) ∷ acc) longer)

length-decimal-le : (f n : ℕ) (acc : Bytes) → length acc ≤ length (decimal f n acc)
unfolding decimal
length-decimal-le zero n acc = omega arith
length-decimal-le (suc f) n acc = ground (arith, length-decimal-le f (n / 10) ((48 + n % 10) ∷ acc))

is_digit-true : (c : ℕ) → (48 ≤ c) × (c ≤ 57) → is_digit c ≡ true
unfolding is_digit
is_digit-true c h = ground arith

digits_value-digit :
    (m d : ℕ) (acc : Bytes)
    → d < 10
    → digits_value m ((48 + d) ∷ acc) ≡ digits_value (m * 10 + d) acc
unfolding digits_value
digits_value-digit m d acc h =
    let e : is_digit (48 + d) ≡ true = is_digit-true (48 + d) (omega arith, omega arith) in
    let v : m * 10 + (48 + d - 48) ≡ m * 10 + d = omega arith in rw (e, v) refl

-- Digits in front of `acc` make a number on top of which the digits of `acc` go on.
digits_value-decimal :
    (f n : ℕ) (acc : Bytes) → n < f → digits_value 0 (decimal f n acc) ≡ digits_value n acc
unfolding decimal
digits_value-decimal zero n acc h = absurd (omega arith)
digits_value-decimal (suc f) n acc h = elim (Bool-cases (n / 10 == 0)) [
  | inl small ↦
      let e : 0 * 10 + n % 10 ≡ n = ground arith in
      rw small (digits_value-digit 0 (n % 10) acc (omega arith) ∙ ap (λ m. digits_value m acc) e)
  | inr large ↦
      let e : n / 10 * 10 + n % 10 ≡ n = omega arith in
      rw large (
        digits_value-decimal f (n / 10) ((48 + n % 10) ∷ acc) (ground arith)
        ∙ digits_value-digit (n / 10) (n % 10) acc (omega arith)
        ∙ ap (λ m. digits_value m acc) e)
]

pub to_string-IsDigits : (n : ℕ) → IsDigits (to_string n) × (0 < length (to_string n))
unfolding to_string decimal
to_string-IsDigits n = (
  decimal-IsDigits (suc n) n [] tt,
  ground (arith, length-decimal-le n (n / 10) ((48 + n % 10) ∷ [])),
)

stoul-IsDigits :
    (s : Bytes)
    → IsDigits s
    → 0 < length s
    → digits_value 0 s < 2 ^ 64
    → stoul s ≡ some (digits_value 0 s)
unfolding stoul skip_space is_space signed_long unsigned_long
stoul-IsDigits [] h long lt = absurd (omega arith)
stoul-IsDigits (c ∷ cs) (d, h) long lt =
    let e : is_digit c ≡ true = is_digit-true c d in
    let no_space : is_space c ≡ false = ground arith in rw no_space (ground (arith, e))

value-to_string : (n : ℕ) → digits_value 0 (to_string n) ≡ n
unfolding to_string digits_value
value-to_string n = digits_value-decimal (suc n) n [] (omega arith)

pub stoul-to_string : (n : ℕ) → n < 2 ^ 64 → stoul (to_string n) ≡ some n
stoul-to_string n lt =
    let (digits, long) = to_string-IsDigits n in
    let e : digits_value 0 (to_string n) ≡ n = value-to_string n in
    rw e at (stoul-IsDigits (to_string n) digits long (rw e lt))
