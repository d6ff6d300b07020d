-- ===== src/Serialization/Varint/Decode.antt =====
-- `ByteReader::read_varint` on the four lengths of an encoding.
use privacypass_cpp.Prelude.{
  ℕ, ◌+◌, ◌*◌, ◌/◌, ◌%◌, ◌^◌, ◌<◌, ◌≡◌, refl, ◌∙◌, [], ◌∷◌, ◌++◌, leb, length, bit_and, bit_or,
  arith, some, drop, Bool-cases, inl, inr,
}
use privacypass_cpp.Prelude.Bits.{or_of_fields, or_sum, and_of_mask}
use privacypass_cpp.Types.{Bytes}
use privacypass_cpp.Serialization.Reader.{ByteReader, reader, remaining_data, advance, read_varint}
use privacypass_cpp.Serialization.Reader.Window.{
  window, remaining-window, byte-window, window-advance_eq, window-reader, Takes,
}
use privacypass_cpp.Serialization.Writer.{writer, take_data, write_varint, ◌▷◌}
use privacypass_cpp.Serialization.Writer.Own.{writer-holding, take_data-holding}
use privacypass_cpp.Serialization.Varint.{varint_bytes, varint_size, push_varint, leb→le}

low_six : (a : ℕ) → bit_and a 0x3F ≡ a % 64
low_six a = and_of_mask 6 a

join_32 :
    (f b₁ b₂ b₃ : ℕ)
    → b₁ < 256
    → b₂ < 256
    → b₃ < 256
    → bit_or (bit_or (bit_or (f * 2 ^ 24) (b₁ * 2 ^ 16)) (b₂ * 2 ^ 8)) b₃
      ≡ f * 2 ^ 24 + b₁ * 2 ^ 16 + b₂ * 2 ^ 8 + b₃
join_32 f b₁ b₂ b₃ h₁ h₂ h₃ =
    rw
      (
        or_sum 24 f (f * 2 ^ 24) (b₁ * 2 ^ 16) refl (omega arith),
        or_sum 16 (f * 256 + b₁) (f * 2 ^ 24 + b₁ * 2 ^ 16) (b₂ * 2 ^ 8) (omega arith)
            (omega arith),
        or_sum 8 (f * 65536 + b₁ * 256 + b₂) (f * 2 ^ 24 + b₁ * 2 ^ 16 + b₂ * 2 ^ 8) b₃
            (omega arith) h₃,
      )
      refl

-- The last five bytes, after three that are joined.
join_64 :
    (x b₃ b₄ b₅ b₆ b₇ : ℕ)
    → b₃ < 256
    → b₄ < 256
    → b₅ < 256
    → b₆ < 256
    → b₇ < 256
    → bit_or
        (bit_or
          (bit_or (bit_or (bit_or (x * 2 ^ 40) (b₃ * 2 ^ 32)) (b₄ * 2 ^ 24)) (b₅ * 2 ^ 16))
          (b₆ * 2 ^ 8))
        b₇
      ≡ x * 2 ^ 40 + b₃ * 2 ^ 32 + b₄ * 2 ^ 24 + b₅ * 2 ^ 16 + b₆ * 2 ^ 8 + b₇
join_64 x b₃ b₄ b₅ b₆ b₇ h₃ h₄ h₅ h₆ h₇ =
    let y : ℕ = x * 256 + b₃ in
    rw
      (
        or_sum 40 x (x * 2 ^ 40) (b₃ * 2 ^ 32) refl (omega arith),
        or_sum 32 y (x * 2 ^ 40 + b₃ * 2 ^ 32) (b₄ * 2 ^ 24) (omega arith) (omega arith),
        or_sum 24 (y * 256 + b₄) (x * 2 ^ 40 + b₃ * 2 ^ 32 + b₄ * 2 ^ 24) (b₅ * 2 ^ 16)
            (omega arith) (omega arith),
        or_sum 16 (y * 65536 + b₄ * 256 + b₅) (x * 2 ^ 40 + b₃ * 2 ^ 32 + b₄ * 2 ^ 24 + b₅ * 2 ^ 16)
            (b₆ * 2 ^ 8) (omega arith) (omega arith),
        or_sum 8 (y * 16777216 + b₄ * 65536 + b₅ * 256 + b₆)
            (x * 2 ^ 40 + b₃ * 2 ^ 32 + b₄ * 2 ^ 24 + b₅ * 2 ^ 16 + b₆ * 2 ^ 8) b₇ (omega arith) h₇,
      )
      refl

first_three :
    (f b₁ b₂ : ℕ)
    → b₁ < 256
    → b₂ < 256
    → bit_or (bit_or (f * 2 ^ 56) (b₁ * 2 ^ 48)) (b₂ * 2 ^ 40)
      ≡ (f * 2 ^ 16 + b₁ * 2 ^ 8 + b₂) * 2 ^ 40
first_three f b₁ b₂ h₁ h₂ =
    rw
      (
        or_sum 56 f (f * 2 ^ 56) (b₁ * 2 ^ 48) refl (omega arith),
        or_sum 48 (f * 256 + b₁) (f * 2 ^ 56 + b₁ * 2 ^ 48) (b₂ * 2 ^ 40) (omega arith)
            (omega arith),
      )
      (omega arith)

-- What `read_varint` answers for each prefix of the first byte.
module _ (r : ByteReader) (first : ℕ) (w : Bytes) where
  read_one :
      window r ≡ first ∷ w → first / 64 ≡ 0 → read_varint r ≡ (some (first % 64), advance 1 r)
  unfolding read_varint
  read_one h p = ground (arith, remaining-window r, byte-window 0 r, low_six first)

  read_two :
      (b₁ : ℕ)
      → window r ≡ first ∷ b₁ ∷ w
      → first / 64 ≡ 1
      → b₁ < 256
      → read_varint r ≡ (some (first % 64 * 2 ^ 8 + b₁), advance 2 r)
  unfolding read_varint
  read_two b₁ h p q = ground (
    arith,
    remaining-window r,
    byte-window 0 r,
    byte-window 1 r,
    low_six first,
    or_of_fields 8 (first % 64) b₁ q,
  )

  read_four :
      (b₁ b₂ b₃ : ℕ)
      → window r ≡ first ∷ b₁ ∷ b₂ ∷ b₃ ∷ w
      → first / 64 ≡ 2
      → b₁ < 256
      → b₂ < 256
      → b₃ < 256
      → read_varint r ≡ (some (first % 64 * 2 ^ 24 + b₁ * 2 ^ 16 + b₂ * 2 ^ 8 + b₃), advance 4 r)
  unfolding read_varint
  read_four b₁ b₂ b₃ h p q₁ q₂ q₃ = ground (
    arith,
    remaining-window r,
    byte-window 0 r,
    byte-window 1 r,
    byte-window 2 r,
    byte-window 3 r,
    low_six first,
    join_32 (first % 64) b₁ b₂ b₃ q₁ q₂ q₃,
  )

  read_eight :
      (b₁ b₂ b₃ b₄ b₅ b₆ b₇ : ℕ)
      → window r ≡ first ∷ b₁ ∷ b₂ ∷ b₃ ∷ b₄ ∷ b₅ ∷ b₆ ∷ b₇ ∷ w
      → first / 64 ≡ 3
      → b₁ < 256
      → b₂ < 256
      → b₃ < 256
      → b₄ < 256
      → b₅ < 256
      → b₆ < 256
      → b₇ < 256
      → read_varint r ≡ (
        some (
            (first % 64 * 2 ^ 16 + b₁ * 2 ^ 8 + b₂) * 2 ^ 40
            + b₃ * 2 ^ 32
            + b₄ * 2 ^ 24
            + b₅ * 2 ^ 16
            + b₆ * 2 ^ 8
            + b₇),
        advance 8 r,
      )
  unfolding read_varint
  read_eight b₁ b₂ b₃ b₄ b₅ b₆ b₇ h p q₁ q₂ q₃ q₄ q₅ q₆ q₇ = ground (
    arith,
    remaining-window r,
    byte-window 0 r,
    byte-window 1 r,
    byte-window 2 r,
    byte-window 3 r,
    byte-window 4 r,
    byte-window 5 r,
    byte-window 6 r,
    byte-window 7 r,
    low_six first,
    first_three (first % 64) b₁ b₂ q₁ q₂,
    join_64 (first % 64 * 2 ^ 16 + b₁ * 2 ^ 8 + b₂) b₃ b₄ b₅ b₆ b₇ q₃ q₄ q₅ q₆ q₇,
  )

finish :
    (n : ℕ) (xs w : Bytes) (a b : ℕ)
    → drop n xs ≡ w
    → a ≡ b
    → ((r : ByteReader) → window r ≡ xs → read_varint r ≡ (some a, advance n r))
    → Takes read_varint xs b w
finish n xs w a b d e run r h = (advance n r, rw (run r h, e) refl, window-advance_eq n r xs h ∙ d)

-- The value comes back if it has 62 bits; of a larger one the two highest are lost.
pub read_varint-Takes :
    (v : ℕ) (w : Bytes) → v < 2 ^ 64 → Takes read_varint (varint_bytes v ++ w) (v % 2 ^ 62) w
unfolding varint_bytes
read_varint-Takes v w lt = elim (Bool-cases (leb v 0x3F)) [
  | inl one ↦
      let small = leb→le v 0x3F one in
      rw one (finish 1 _ w (v % 64) _ refl (omega arith) (λ r h. read_one r v w h (omega arith)))
  | inr more ↦ elim (Bool-cases (leb v 0x3FFF)) [
    | inl two ↦
        let small = leb→le v 0x3FFF two in
        rw (more, two)
          (finish 2 _ w _ _ refl (omega arith)
            (λ r h. read_two r _ w _ h (omega arith) (omega arith)))
    | inr more' ↦ elim (Bool-cases (leb v 0x3FFFFFFF)) [
      | inl four ↦
          let small = leb→le v 0x3FFFFFFF four in
          rw (more, more', four)
            (finish 4 _ w _ _ refl (omega arith) (λ r h.
              read_four r _ w _ _ _ h (omega arith) (omega arith) (omega arith) (omega arith)))
      | inr eight ↦
          rw (more, more', eight)
            (finish 8 _ w _ _ refl (omega arith) (λ r h.
              read_eight r _ w _ _ _ _ _ _ _ h (omega arith) (omega arith) (omega arith)
                (omega arith) (omega arith) (omega arith) (omega arith) (omega arith)))
    ]
  ]
]

pub length-varint_bytes : (v : ℕ) → length (varint_bytes v) ≡ varint_size v
unfolding varint_bytes varint_size
length-varint_bytes v = ground arith

-- What a writer of its own vector holds after `write_varint(v)`.
abbrev pub written : ℕ → Bytes
written v = take_data (writer ▷ write_varint v)

written-varint_bytes : (v : ℕ) → v < 2 ^ 64 → written v ≡ varint_bytes v
written-varint_bytes v h =
    rw (writer-holding, push_varint [] v h) (take_data-holding (varint_bytes v))

-- For every uint64 `v`, `write_varint` writes `varint_size(v)` bytes, and from these, whatever
-- follows them, `read_varint` gets `v` modulo 2^62 and stops where they end.
pub read_varint-write_varint :
    (v : ℕ) (rest : Bytes)
    → v < 2 ^ 64
    → (length (written v) ≡ varint_size v)
      × (r : ByteReader) × (read_varint (reader (written v ++ rest)) ≡ (some (v % 2 ^ 62), r))
      × (remaining_data r ≡ rest)
unfolding remaining_data window
read_varint-write_varint v rest h =
    let (r, taken, left) = read_varint-Takes v rest h (reader _) (window-reader _) in
    rw (written-varint_bytes v h) (length-varint_bytes v, r, taken, left)
