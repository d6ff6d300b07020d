-- ===== src/Types/Compare.antt =====
-- `constant_time_equal` decides equality.
use privacypass_cpp.Prelude.{ℕ, ◌≡◌, refl, ap₂, ◌↔◌, true, [], ◌∷◌, bit_or, bit_xor, length, arith}
use privacypass_cpp.Prelude.Bits.{bit_or-eq-zero_iff, bit_xor-eq-zero_iff}
use privacypass_cpp.Types.{Bytes, constant_time_equal, diff_loop}

diff_loop-eq-zero :
    (d : ℕ) (a b : Bytes) → length a ≡ length b → diff_loop d a b ≡ 0 → (d ≡ 0) × (a ≡ b)
unfolding diff_loop
diff_loop-eq-zero d [] [] e h = (h, refl)
diff_loop-eq-zero d [] (y ∷ b) e h = absurd (omega arith)
diff_loop-eq-zero d (x ∷ a) [] e h = absurd (omega arith)
diff_loop-eq-zero d (x ∷ a) (y ∷ b) e h =
    let (d', same) = diff_loop-eq-zero (bit_or d (bit_xor x y)) a b (omega arith) h in
    let (d0, x0) = (bit_or-eq-zero_iff d (bit_xor x y)).0 d' in
    (d0, ap₂ ◌∷◌ ((bit_xor-eq-zero_iff x y).0 x0) same)

diff_loop_self : (a : Bytes) → diff_loop 0 a a ≡ 0
unfolding diff_loop
diff_loop_self [] = refl
diff_loop_self (x ∷ a) =
    rw ((bit_or-eq-zero_iff 0 (bit_xor x x)).1 (refl, (bit_xor-eq-zero_iff x x).1 refl))
      (diff_loop_self a)

-- The comparison answers true exactly for equal buffers, of whatever lengths.
pub constant_time_equal_iff : (a b : Bytes) → (constant_time_equal a b ≡ true) ↔ (a ≡ b)
unfolding constant_time_equal
constant_time_equal_iff a b =
    (λ h. ground (arith, diff_loop-eq-zero 0 a b), λ e. rw e (ground (arith, diff_loop_self b)))
