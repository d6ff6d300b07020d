-- ===== src/Prelude/Bits.antt =====
-- `|`, `&` and `^` as arithmetic. The native operations compute at numerals only; here are their
-- laws at variables: one equation for the lowest digit, and what follows for fields and masks.
use Prim.Native.Nat.{ℕ, zero, suc, ◌+◌, ◌-◌, ◌*◌, ◌/◌, ◌%◌, ◌^◌, ◌≤◌, ◌<◌, min, max}
use Prim.Native.Nat.{bit_and, bit_or, bit_xor, digits, differ}
use Prim.Native.Nat.{bit_and-bitwise, bit_or-bitwise, bit_xor-bitwise}
use mathlib.Core.Path.{◌≡◌, refl, ap, ◌∙◌, sym}
use mathlib.Core.Logic.{◌↔◌}
use native.Mathlib.Omega.{arith}
use native.Mathlib.Nat.{
  pow-suc, one-le-pow, div-add-mod, mod-lt, mod-eq_of_lt, mul-add-mod_self_left,
}

-- The count of digits to go may be any number that the first argument does not exceed.
module _ (z : ℕ → ℕ) (f : ℕ → ℕ → ℕ) where
  enough_digits : (n m a b : ℕ) → a ≤ n → a ≤ m → digits z f n a b ≡ digits z f m a b
  enough_digits zero zero a b p q = refl
  enough_digits zero (suc m) zero b p q = refl
  enough_digits (suc n) zero zero b p q = refl
  enough_digits (suc n) (suc m) zero b p q = refl
  enough_digits (suc n) (suc m) (suc a) b p q =
      ap (λ (t : ℕ). t * 2 + f (suc a % 2) (b % 2))
        (enough_digits n m (suc a / 2) (b / 2) (omega arith) (omega arith))
  enough_digits zero _ (suc a) b p q = absurd (omega arith)
  enough_digits (suc n) zero (suc a) b p q = absurd (omega arith)

  first_digit :
      (a b : ℕ)
      → digits z f (suc a) (suc a) b
        ≡ digits z f (suc a / 2) (suc a / 2) (b / 2) * 2 + f (suc a % 2) (b % 2)
  first_digit a b =
      ap (λ (t : ℕ). t * 2 + f (suc a % 2) (b % 2))
        (enough_digits a (suc a / 2) (suc a / 2) (b / 2) (omega arith) (omega arith))

and_digit : (x y : ℕ) → bit_and x y ≡ bit_and (x / 2) (y / 2) * 2 + min (x % 2) (y % 2)
and_digit zero b = simp bit_and-bitwise (omega arith)
and_digit (suc a) b = simp bit_and-bitwise (first_digit (λ y. 0) min a b)

or_digit : (x y : ℕ) → bit_or x y ≡ bit_or (x / 2) (y / 2) * 2 + max (x % 2) (y % 2)
or_digit zero b = simp bit_or-bitwise (omega arith)
or_digit (suc a) b = simp bit_or-bitwise (first_digit (λ y. y) max a b)

xor_digit : (x y : ℕ) → bit_xor x y ≡ bit_xor (x / 2) (y / 2) * 2 + differ (x % 2) (y % 2)
xor_digit zero b = simp bit_xor-bitwise (omega arith)
xor_digit (suc a) b = simp bit_xor-bitwise (first_digit (λ y. y) differ a b)

-- A bound on the first argument serves for induction by halves.
or-zero_below : (n a : ℕ) → a ≤ n → bit_or a 0 ≡ a
or-zero_below n zero h = refl
or-zero_below zero (suc a) h = absurd (omega arith)
or-zero_below (suc n) (suc a) h =
    omega (arith, or_digit (suc a) 0, or-zero_below n (suc a / 2) (omega arith))

bit_or-zero : (a : ℕ) → bit_or a 0 ≡ a
bit_or-zero a = or-zero_below a a (omega arith)

and-zero_below : (n a : ℕ) → a ≤ n → bit_and a 0 ≡ 0
and-zero_below n zero h = refl
and-zero_below zero (suc a) h = absurd (omega arith)
and-zero_below (suc n) (suc a) h =
    omega (arith, and_digit (suc a) 0, and-zero_below n (suc a / 2) (omega arith))

-- `(q << k) | r` is a sum where `r` has at most `k` digits.
pub or_of_fields : (k q r : ℕ) → r < 2 ^ k → bit_or (q * 2 ^ k) r ≡ q * 2 ^ k + r
or_of_fields zero q r h = ground (arith, bit_or-zero q)
or_of_fields (suc k) q r h = ground (
  arith,
  pow-suc 2 k,
  ap (λ (t : ℕ). q * t) (pow-suc 2 k),
  or_digit (q * 2 ^ suc k) r,
  or_of_fields k q (r / 2) (omega (arith, pow-suc 2 k)),
)

-- `x | y` where `x` has `k` zeros at its end and `y` fits there.
pub or_sum : (k q x y : ℕ) → x ≡ q * 2 ^ k → y < 2 ^ k → bit_or x y ≡ x + y
or_sum k q x y e h = rw e (or_of_fields k q y h)

mod_double : (m a : ℕ) → 0 < m → a % (m * 2) ≡ a / 2 % m * 2 + a % 2
mod_double m a h =
    let r = a / 2 % m in
    let e : a ≡ m * 2 * (a / 2 / m) + (r * 2 + a % 2) = omega (arith, div-add-mod (a / 2) m) in
    ap (λ (t : ℕ). t % (m * 2)) e
    ∙ mul-add-mod_self_left (m * 2) (a / 2 / m) (r * 2 + a % 2)
    ∙ mod-eq_of_lt (omega (arith, mod-lt (a / 2) h))

-- `a & (2^k - 1)` is a remainder.
pub and_of_mask : (k a : ℕ) → bit_and a (2 ^ k - 1) ≡ a % 2 ^ k
and_of_mask zero a = ground (arith, and-zero_below a a)
and_of_mask (suc k) a = ground (
  arith,
  pow-suc 2 k,
  one-le-pow k 2,
  and_digit a (2 ^ suc k - 1),
  mod_double (2 ^ k) a,
  and_of_mask k (a / 2),
)

differ_iff : (x y : ℕ) → (differ x y ≡ 0) ↔ (x ≡ y)
differ_iff zero y = (λ h. sym h, λ h. sym h)
differ_iff (suc x) zero = (λ h. h, λ h. h)
differ_iff (suc x) (suc y) =
    let (f, g) = differ_iff x y in (λ h. ap suc (f h), λ h. g (omega arith))

-- Two digits do not differ exactly if they are equal, and a join is 0 if both parts are.
xor_below : (n a b : ℕ) → a ≤ n → (bit_xor a b ≡ 0) ↔ (a ≡ b)
xor_below n zero b h = ground (arith, bit_xor-bitwise zero b)
xor_below zero (suc a) b h = absurd (omega arith)
xor_below (suc n) (suc a) b h =
    let (f, g) = xor_below n (suc a / 2) (b / 2) (omega arith) in
    let (f', g') = differ_iff (suc a % 2) (b % 2) in
    let e = xor_digit (suc a) b in
    (
      λ h. omega (arith, f (omega arith), f' (omega arith)),
      λ h. omega (arith, g (omega arith), g' (omega arith)),
    )

pub bit_xor-eq-zero_iff : (a b : ℕ) → (bit_xor a b ≡ 0) ↔ (a ≡ b)
bit_xor-eq-zero_iff a b = xor_below a a b (omega arith)

or_below : (n a b : ℕ) → a ≤ n → (bit_or a b ≡ 0) ↔ (a ≡ 0) × (b ≡ 0)
or_below n zero b h = ground (arith, bit_or-bitwise zero b)
or_below zero (suc a) b h = absurd (omega arith)
or_below (suc n) (suc a) b h =
    let (f, g) = or_below n (suc a / 2) (b / 2) (omega arith) in
    let e = or_digit (suc a) b in (λ h. omega (arith, f (omega arith)), λ h. absurd (omega arith))

pub bit_or-eq-zero_iff : (a b : ℕ) → (bit_or a b ≡ 0) ↔ (a ≡ 0) × (b ≡ 0)
bit_or-eq-zero_iff a b = or_below a a b (omega arith)
