-- ===== src/Base64Url/Sextets.antt =====
-- The code in plain arithmetic: a text of base64url as numbers below 64.
use privacypass_cpp.Prelude.{
  ℕ, ◌+◌, ◌-◌, ◌*◌, ◌/◌, ◌%◌, ◌^◌, ◌<◌, ◌≡◌, ◌≢◌, refl, ◌∙◌, ap, true, false, ◌&&◌, not, [], ◌∷◌,
  ◌++◌, map, bit_or, ◌==◌, length, get_or, append_assoc, append-nil, All, every_below,
  every_below_at, arith,
}
use privacypass_cpp.Prelude.Bits.{or_sum, and_of_mask}
use privacypass_cpp.Types.{Bytes, IsBytes, text, ok}
use privacypass_cpp.Base64Url.{encode_table, decode_table, letter, encode_groups, decode_loop}

abbrev pub glyph : ℕ → ℕ
glyph v = get_or encode_table v 0

pub sextets : Bytes → Bytes
sextets [] = []
sextets (a ∷ []) = (a / 4) ∷ (a % 4 * 16) ∷ []
sextets (a ∷ b ∷ []) = (a / 4) ∷ (a % 4 * 16 + b / 16) ∷ (b % 16 * 4) ∷ []
sextets (a ∷ b ∷ c ∷ rest) =
    (a / 4) ∷ (a % 4 * 16 + b / 16) ∷ (b % 16 * 4 + c / 64) ∷ (c % 64) ∷ sextets rest

-- Both tables, at each of the 64 values.
table_checked :
    every_below 64 (λ v. get_or decode_table (glyph v) 255 == v && not (glyph v == b'=')) ≡ true
unfolding encode_table decode_table text every_below
table_checked = refl

pub decode-glyph :
    (v : ℕ) → v < 64 → (get_or decode_table (glyph v) 255 ≡ v) × ((glyph v == b'=') ≡ false)
decode-glyph v h = ground (arith, every_below_at v 64 _ h table_checked)

letter-glyph : (chunk s : ℕ) → letter chunk s ≡ glyph (chunk / 2 ^ s % 64)
unfolding letter
letter-glyph chunk s = ap glyph (and_of_mask 6 (chunk / 2 ^ s))

join_two : (a b : ℕ) → b < 256 → bit_or (a * 2 ^ 16) (b * 2 ^ 8) ≡ a * 2 ^ 16 + b * 2 ^ 8
join_two a b h = or_sum 16 a (a * 2 ^ 16) (b * 2 ^ 8) refl (omega arith)

join_three :
    (a b c : ℕ)
    → b < 256
    → c < 256
    → bit_or (bit_or (a * 2 ^ 16) (b * 2 ^ 8)) c ≡ a * 2 ^ 16 + b * 2 ^ 8 + c
join_three a b c h k =
    rw (join_two a b h) (or_sum 8 (a * 256 + b) (a * 2 ^ 16 + b * 2 ^ 8) c (omega arith) k)

letter_of : (chunk s v : ℕ) → chunk / 2 ^ s % 64 ≡ v → letter chunk s ≡ glyph v
letter_of chunk s v e = letter-glyph chunk s ∙ ap glyph e

pub encode_groups-sextets : (xs : Bytes) → IsBytes xs → encode_groups xs ≡ map glyph (sextets xs)
unfolding encode_groups sextets
encode_groups-sextets [] h = refl
encode_groups-sextets (a ∷ []) (p, _) =
    rw
      (
        letter_of (a * 2 ^ 16) 18 (a / 4) (omega arith),
        letter_of (a * 2 ^ 16) 12 (a % 4 * 16) (omega arith),
      )
      refl
encode_groups-sextets (a ∷ b ∷ []) (p, (q, _)) =
    let chunk : ℕ = bit_or (a * 2 ^ 16) (b * 2 ^ 8) in
    let e : chunk ≡ a * 2 ^ 16 + b * 2 ^ 8 = join_two a b q in
    rw
      (
        letter_of chunk 18 (a / 4) (omega arith),
        letter_of chunk 12 (a % 4 * 16 + b / 16) (omega arith),
        letter_of chunk 6 (b % 16 * 4) (omega arith),
      )
      refl
encode_groups-sextets (a ∷ b ∷ c ∷ rest) (p, (q, (s, t))) =
    let chunk : ℕ = bit_or (bit_or (a * 2 ^ 16) (b * 2 ^ 8)) c in
    let e : chunk ≡ a * 2 ^ 16 + b * 2 ^ 8 + c = join_three a b c q s in
    rw
      (
        letter_of chunk 18 (a / 4) (omega arith),
        letter_of chunk 12 (a % 4 * 16 + b / 16) (omega arith),
        letter_of chunk 6 (b % 16 * 4 + c / 64) (omega arith),
        letter_of chunk 0 (c % 64) (omega arith),
        encode_groups-sextets rest t,
      )
      refl

-- One round of the decoder, at each count of bits that is left over from the rounds before.
abbrev shifted : ℕ → ℕ → ℕ
shifted buffer v = buffer * 2 ^ 6 % 2 ^ 32 + v

shift_in : (buffer v : ℕ) → v < 64 → bit_or (buffer * 2 ^ 6 % 2 ^ 32) v ≡ shifted buffer v
shift_in buffer v h = or_sum 6 (buffer % 2 ^ 26) (buffer * 2 ^ 6 % 2 ^ 32) v (omega arith) h

module _ (buffer v : ℕ) (result cs : Bytes) (h : v < 64) where
  keep_round :
      decode_loop buffer 0 result (glyph v ∷ cs) ≡ decode_loop (shifted buffer v) 6 result cs
  unfolding decode_loop
  keep_round = rw ((decode-glyph v h).0, shift_in buffer v h) (ground arith)

  emit_round :
      (bits left : ℕ)
      → bits + 6 ≡ left + 8
      → decode_loop buffer bits result (glyph v ∷ cs)
        ≡ decode_loop
            (shifted buffer v)
            left
            (result ++ (shifted buffer v / 2 ^ left % 256 ∷ []))
            cs
  unfolding decode_loop
  emit_round bits left e =
      let e' : bits + 6 - 8 ≡ left = omega arith in
      rw (e', (decode-glyph v h).0, shift_in buffer v h)
        (rw (and_of_mask 8 (shifted buffer v / 2 ^ left)) (ground arith))

-- Four letters give back three bytes, and leave no bits over.
four_letters :
    (buffer a b c : ℕ) (result cs : Bytes)
    → a < 256
    → b < 256
    → c < 256
    → (next : ℕ) × (decode_loop buffer 0 result (
          glyph (a / 4)
          ∷ glyph (a % 4 * 16 + b / 16)
          ∷ glyph (b % 16 * 4 + c / 64)
          ∷ glyph (c % 64)
          ∷ cs)
        ≡ decode_loop next 0 (result ++ (a ∷ b ∷ c ∷ [])) cs)
four_letters buffer a b c result cs p q s =
    let x₁ : ℕ = shifted buffer (a / 4) in
    let x₂ : ℕ = shifted x₁ (a % 4 * 16 + b / 16) in
    let x₃ : ℕ = shifted x₂ (b % 16 * 4 + c / 64) in
    let x₄ : ℕ = shifted x₃ (c % 64) in
    let e₁ : x₂ / 2 ^ 4 % 256 ≡ a = omega arith in
    let e₂ : x₃ / 2 ^ 2 % 256 ≡ b = omega arith in
    let e₃ : x₄ / 2 ^ 0 % 256 ≡ c = omega arith in
    (
      x₄,
      keep_round buffer (a / 4) result _ (omega arith)
          ∙ emit_round x₁ (a % 4 * 16 + b / 16) result _ (omega arith) 6 4 refl
          ∙ emit_round x₂ (b % 16 * 4 + c / 64) _ _ (omega arith) 4 2 refl
          ∙ emit_round x₃ (c % 64) _ cs (omega arith) 2 0 refl
          ∙ rw (e₁, e₂, e₃) (simp append_assoc),
    )

done : (buffer bits : ℕ) (result : Bytes) → decode_loop buffer bits result [] ≡ ok result
unfolding decode_loop
done buffer bits result = refl

-- From a round start on, the loop reads the letters of `xs` back as `xs`.
pub decode_loop-sextets :
    (xs : Bytes) (buffer : ℕ) (result : Bytes)
    → IsBytes xs
    → decode_loop buffer 0 result (map glyph (sextets xs)) ≡ ok (result ++ xs)
unfolding sextets
decode_loop-sextets [] buffer result h = rw append-nil (done buffer 0 result)
decode_loop-sextets (a ∷ []) buffer result (p, _) =
    let x₁ : ℕ = shifted buffer (a / 4) in
    let x₂ : ℕ = shifted x₁ (a % 4 * 16) in
    let e₁ : x₂ / 2 ^ 4 % 256 ≡ a = omega arith in
    keep_round buffer (a / 4) result _ (omega arith)
    ∙ emit_round x₁ (a % 4 * 16) result [] (omega arith) 6 4 refl
    ∙ rw e₁ (done x₂ 4 (result ++ (a ∷ [])))
decode_loop-sextets (a ∷ b ∷ []) buffer result (p, (q, _)) =
    let x₁ : ℕ = shifted buffer (a / 4) in
    let x₂ : ℕ = shifted x₁ (a % 4 * 16 + b / 16) in
    let x₃ : ℕ = shifted x₂ (b % 16 * 4) in
    let e₁ : x₂ / 2 ^ 4 % 256 ≡ a = omega arith in
    let e₂ : x₃ / 2 ^ 2 % 256 ≡ b = omega arith in
    keep_round buffer (a / 4) result _ (omega arith)
    ∙ emit_round x₁ (a % 4 * 16 + b / 16) result _ (omega arith) 6 4 refl
    ∙ emit_round x₂ (b % 16 * 4) _ [] (omega arith) 4 2 refl
    ∙ rw (e₁, e₂) (done x₃ 2 _ ∙ ap ok (append_assoc result (a ∷ []) (b ∷ [])))
decode_loop-sextets (a ∷ b ∷ c ∷ rest) buffer result (p, (q, (s, t))) =
    let (next, e) = four_letters buffer a b c result (map glyph (sextets rest)) p q s in
    e
    ∙ decode_loop-sextets rest next (result ++ (a ∷ b ∷ c ∷ [])) t
    ∙ ap ok (append_assoc result (a ∷ b ∷ c ∷ []) rest)

pub sextets_below : (xs : Bytes) → IsBytes xs → All (λ v. v < 64) (sextets xs)
unfolding sextets
sextets_below [] h = tt
sextets_below (a ∷ []) (p, _) = omega arith
sextets_below (a ∷ b ∷ []) (p, (q, _)) = omega arith
sextets_below (a ∷ b ∷ c ∷ rest) (p, (q, (s, t))) =
    (omega arith, (omega arith, (omega arith, (omega arith, sextets_below rest t))))

-- Never one letter over a multiple of four; so many letters, and with the padding a multiple.
pub length-sextets :
    (xs : Bytes) → (length (sextets xs) % 4 ≢ 1) × (length (sextets xs) ≡ (length xs * 8 + 5) / 6)
unfolding sextets
length-sextets [] = omega arith
length-sextets (a ∷ []) = omega arith
length-sextets (a ∷ b ∷ []) = omega arith
length-sextets (a ∷ b ∷ c ∷ rest) = omega (arith, length-sextets rest)
