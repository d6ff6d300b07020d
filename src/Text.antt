-- ===== src/Text.antt =====
-- Text of the standard library: `std::to_string` and `std::stoul` on unsigned numbers, and
-- `starts_with`.
pub mod Decimal
use mathlib.Core.Option.{some}
use mathlib.Core.Option
use privacypass_cpp.Prelude.{
  ℕ, zero, suc, ◌+◌, ◌/◌, ◌%◌, ◌≡◌, ◌↔◌, refl, sym, ap₂, Bool, true, false, [], ◌∷◌, ◌++◌, ◌==◌,
  ==_iff, if◌then◌else◌, arith, leb, Option, none, not, ltb, ◌||◌, ◌^◌, ◌*◌, ◌&&◌, ◌-◌,
}
use privacypass_cpp.Types.{Bytes}

-- Digits are put before `acc` from the lowest on; `f` bounds their count.
decimal : ℕ → ℕ → Bytes → Bytes
decimal zero n acc = acc
decimal (suc f) n acc =
    let longer : Bytes = (b'0' + n % 10) ∷ acc in
    let rest = decimal f (n / 10) longer in if n / 10 == 0 then longer else rest

unfoldable pub to_string : ℕ → Bytes
unfolding decimal
to_string n = decimal (suc n) n []

-- `name.starts_with(pattern)`
unfoldable pub starts_with : Bytes → Bytes → Bool
starts_with [] name = true
starts_with (p ∷ pattern) [] = false
starts_with (p ∷ pattern) (c ∷ name) = if p == c then starts_with pattern name else false

pub starts_with-true_iff :
    (pattern name : Bytes)
    → (starts_with pattern name ≡ true) ↔ ((rest : Bytes) × (name ≡ pattern ++ rest))
unfolding starts_with
starts_with-true_iff [] name = (λ h. (name, refl), λ h. refl)
starts_with-true_iff (p ∷ pattern) [] = (λ h. absurd cc, λ (rest, k). absurd cc)
starts_with-true_iff (p ∷ pattern) (c ∷ name) =
    let (f, g) = starts_with-true_iff pattern name in go (p == c) refl f g
  where
    go :
        (b : Bool)
        → (p == c) ≡ b
        → (starts_with pattern name ≡ true → (rest : Bytes) × (name ≡ pattern ++ rest))
        → ((rest : Bytes) × (name ≡ pattern ++ rest) → starts_with pattern name ≡ true)
        → ((if b then starts_with pattern name else false) ≡ true)
          ↔ ((rest : Bytes) × (c ∷ name ≡ p ∷ pattern ++ rest))
    go true e f g = (
      λ h. let (rest, k) = f h in (rest, ap₂ (◌∷◌) (sym ((==_iff p c).0 e)) k),
      λ (rest, k). g (rest, cc),
    )
    go false e f g = (λ h. absurd cc, λ (rest, k). let q : c ≡ p = cc in absurd (ground arith))

is_space : ℕ → Bool
is_space c = c == 32 || (leb 9 c && leb c 13)

is_digit : ℕ → Bool
is_digit c = leb b'0' c && leb c b'9'

skip_space : Bytes → Bytes
skip_space [] = []
skip_space (c ∷ cs) = if is_space c then skip_space cs else c ∷ cs

-- The value of the digits at the front, on top of `n`. What follows them is ignored.
digits_value : ℕ → Bytes → ℕ
digits_value n [] = n
digits_value n (c ∷ cs) =
    let more = digits_value (n * 10 + (c - b'0')) cs in if is_digit c then more else n

-- A number needs a digit, and `unsigned long` has 64 bits.
unsigned_long : Bytes → Option ℕ
unfolding is_digit digits_value
unsigned_long [] = none
unsigned_long (c ∷ cs) =
    let value = digits_value 0 (c ∷ cs) in
    if not (is_digit c) then none else if ltb value (2 ^ 64) then some value else none

-- An optional sign; a minus negates modulo 2 ^ 64.
signed_long : Bytes → Option ℕ
unfolding unsigned_long
signed_long [] = none
signed_long (c ∷ cs) =
    if c == b'-'
    then Option.map (λ v. (2 ^ 64 - v) % 2 ^ 64) (unsigned_long cs)
    else if c == b'+'
    then unsigned_long cs
    else unsigned_long (c ∷ cs)

-- `std::stoul`, where `none` is one of its exceptions.
pub stoul : Bytes → Option ℕ
unfolding skip_space is_space signed_long
stoul s = signed_long (skip_space s)
