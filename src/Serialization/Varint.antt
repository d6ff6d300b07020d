-- ===== src/Serialization/Varint.antt =====
-- `ByteWriter::write_varint` against `ByteReader::read_varint`, and `varint_size`.
pub mod Decode
use privacypass_cpp.Prelude.{
  ℕ, zero, suc, ◌+◌, ◌-◌, ◌*◌, ◌/◌, ◌%◌, ◌^◌, ◌≤◌, ◌<◌, ◌≡◌, refl, ◌∙◌, ap, true, false, Bool, ◌&&◌,
  List, [], ◌∷◌, ◌++◌, ◌==◌, ==_iff, leb, if◌then◌else◌, length, bit_and, bit_or, append_assoc,
  arith, some, drop, Bool-cases, inl, inr, every_below, every_below_at,
}
use privacypass_cpp.Prelude.Bits.{or_of_fields, and_of_mask}
use native.Mathlib.Nat.{mod-eq_of_lt}
use privacypass_cpp.Types.{Bytes}
use privacypass_cpp.Serialization.Reader.{
  ByteReader, advance, byte, read_varint, big_endian_32, big_endian_64,
}
use privacypass_cpp.Serialization.Reader.Window.{
  window, remaining-window, byte-window, window-advance, Takes,
}
use privacypass_cpp.Serialization.Writer.{ByteWriter, write_varint, write_u8, ◌and_then◌, ◌▷◌}
use privacypass_cpp.Serialization.Writer.Own.{holding, write_u8-holding}

pub varint_size : ℕ → ℕ
varint_size value =
    if leb value 0x3F
    then 1
    else if leb value 0x3FFF
    then 2
    else if leb value 0x3FFFFFFF
    then 4
    else 8

-- The bytes of `v`, highest first, `n` of them.
abbrev pub big_endian : ℕ → ℕ → Bytes
big_endian zero v = []
big_endian (suc zero) v = (v % 2 ^ 8) ∷ []
big_endian (suc (suc n)) v = (v / 2 ^ (8 * suc n) % 2 ^ 8) ∷ big_endian (suc n) v

-- The encoding: the two highest bits of the first byte tell the length.
pub varint_bytes : ℕ → Bytes
varint_bytes v =
    if leb v 0x3F
    then v ∷ []
    else if leb v 0x3FFF
    then (64 + v / 2 ^ 8) ∷ big_endian 1 v
    else if leb v 0x3FFFFFFF
    then (128 + v / 2 ^ 24) ∷ big_endian 3 v
    else (192 + v / 2 ^ 56 % 64) ∷ big_endian 7 v

top_bits_table : every_below 256 (λ x. bit_or 0xC0 x % 2 ^ 8 == 192 + x % 64) ≡ true
unfolding every_below
top_bits_table = refl

top_bits : (x : ℕ) → x < 256 → bit_or 0xC0 x % 2 ^ 8 ≡ 192 + x % 64
top_bits x h = (==_iff _ _).0 (every_below_at x 256 _ h top_bits_table)

-- Two, four and eight bytes, each after the success of the one before.
module _ (xs : Bytes) where
  write_two :
      (a b : ℕ)
      → (write_u8 a (holding xs) and_then write_u8 b) ≡ (true, holding (xs ++ (a ∷ b ∷ [])))
  write_two a b = simp (write_u8-holding, append_assoc)

  write_four :
      (a b c d : ℕ)
      → (write_u8 a (holding xs) and_then write_u8 b and_then write_u8 c and_then write_u8 d)
        ≡ (true, holding (xs ++ (a ∷ b ∷ c ∷ d ∷ [])))
  write_four a b c d = simp (write_u8-holding, append_assoc)

  write_eight :
      (a b c d e f g h : ℕ)
      → (write_u8 a (holding xs)
          and_then write_u8 b
          and_then write_u8 c
          and_then write_u8 d
          and_then write_u8 e
          and_then write_u8 f
          and_then write_u8 g
          and_then write_u8 h)
        ≡ (true, holding (xs ++ (a ∷ b ∷ c ∷ d ∷ e ∷ f ∷ g ∷ h ∷ [])))
  write_eight a b c d e f g h = simp (write_u8-holding, append_assoc)

first_of_two : (v : ℕ) → v ≤ 0x3FFF → bit_or 0x40 (v / 2 ^ 8) % 2 ^ 8 ≡ 64 + v / 2 ^ 8
first_of_two v h = omega (arith, or_of_fields 6 1 (v / 2 ^ 8) (omega arith))

first_of_four : (v : ℕ) → v ≤ 0x3FFFFFFF → bit_or 0x80 (v / 2 ^ 24) % 2 ^ 8 ≡ 128 + v / 2 ^ 24
first_of_four v h = omega (arith, or_of_fields 6 2 (v / 2 ^ 24) (omega arith))

pub leb→le : (a b : ℕ) → leb a b ≡ true → a ≤ b
leb→le a b h = ground arith

write_varint-holding :
    (v : ℕ) (xs : Bytes)
    → v < 2 ^ 64
    → write_varint v (holding xs) ≡ (true, holding (xs ++ varint_bytes v))
unfolding write_varint varint_bytes
write_varint-holding v xs h = elim (Bool-cases (leb v 0x3F)) [
  | inl one ↦
      rw (one, write_u8-holding (v % 2 ^ 8) xs)
        (rw (mod-eq_of_lt {n = v} {m = 2 ^ 8} (omega (arith, leb→le v 0x3F))) refl)
  | inr more ↦ elim (Bool-cases (leb v 0x3FFF)) [
    | inl two ↦ rw (more, two, write_two, first_of_two v (leb→le v 0x3FFF two)) refl
    | inr more' ↦ elim (Bool-cases (leb v 0x3FFFFFFF)) [
      | inl four ↦
          rw (more, more', four, write_four, first_of_four v (leb→le v 0x3FFFFFFF four)) refl
      | inr eight ↦ rw (more, more', eight, write_eight, top_bits (v / 2 ^ 56) (omega arith)) refl
    ]
  ]
]

pub push_varint :
    (xs : Bytes) (v : ℕ)
    → v < 2 ^ 64
    → (holding xs ▷ write_varint v) ≡ holding (xs ++ varint_bytes v)
push_varint xs v h = ap (λ (p : Bool × ByteWriter). p.1) (write_varint-holding v xs h)
