-- ===== src/Types/Codes.antt =====
-- The casts between `TokenType` and `uint16_t`.
use privacypass_cpp.Prelude.{◌≤◌, ◌≢◌, ℕ, ◌^◌, ◌<◌, ◌≡◌, refl, arith}
use privacypass_cpp.Types.{
  voprf_p384_sha384, unnamed, to_u16, of_u16, IsTokenType, for_type, TokenType,
}

pub to_u16-of_u16 : (v : ℕ) → to_u16 (of_u16 v) ≡ v
unfolding to_u16 of_u16
to_u16-of_u16 v = ground arith

pub of_u16-IsTokenType : (v : ℕ) → v < 2 ^ 16 → IsTokenType (of_u16 v)
of_u16-IsTokenType v h = rw to_u16-of_u16 (h, refl)

-- A type with a blinded element has one of 32 bytes at least.
pub blinded_element_size_bound :
    (type : TokenType)
    → (for_type type).blinded_element_size ≢ 0
    → 32 ≤ (for_type type).blinded_element_size
unfolding for_type
blinded_element_size_bound voprf_p384_sha384 h = omega arith
blinded_element_size_bound (unnamed v) h = absurd (h refl)
blinded_element_size_bound _ h = omega arith
