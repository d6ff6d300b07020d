-- ===== src/Base64Url/Alphabet.antt =====
-- The bytes of an encoded text.
use privacypass_cpp.Prelude.{
  ℕ, zero, suc, ◌<◌, ◌≡◌, ◌≢◌, refl, true, not, ◌&&◌, [], ◌∷◌, map, ◌==◌, length, replicate, All,
  All-append, length-append, length-map, every_below, every_below_at, arith,
}
use privacypass_cpp.Types.{Bytes, IsBytes, text}
use privacypass_cpp.Base64Url.{encode_table, encode_padded}
use privacypass_cpp.Base64Url.Sextets.{glyph, sextets, sextets_below, length-sextets}
use privacypass_cpp.Base64Url.RoundTrip.{encode-sextets, pad-replicate}

-- No letter of the alphabet is a quote or a backslash.
letters_checked : every_below 64 (λ v. not (glyph v == 34) && not (glyph v == 92)) ≡ true
unfolding encode_table text every_below
letters_checked = refl

glyph_plain : (v : ℕ) → v < 64 → (glyph v ≢ 34) × (glyph v ≢ 92)
glyph_plain v h = ground (arith, every_below_at v 64 _ h letters_checked)

All-glyphs :
    (P : ℕ → Type 0) (vs : Bytes)
    → ((v : ℕ) → v < 64 → P (glyph v))
    → All (λ v. v < 64) vs
    → All P (map glyph vs)
All-glyphs P [] h b = tt
All-glyphs P (v ∷ vs) h (lt, b) = (h v lt, All-glyphs P vs h b)

All-replicate : (P : ℕ → Type 0) (n a : ℕ) → P a → All P (replicate n a)
All-replicate P zero a h = tt
All-replicate P (suc n) a h = (h, All-replicate P n a h)

-- An encoded text, padded, can stand in a quoted string, and is not empty if the bytes are not.
pub encode_padded-plain :
    (xs : Bytes)
    → IsBytes xs
    → All (λ c. (c ≢ 34) × (c ≢ 92)) (encode_padded xs)
      × (0 < length xs → 0 < length (encode_padded xs))
unfolding encode_padded
encode_padded-plain xs b =
    let s : Bytes = map glyph (sextets xs) in
    let n = length-sextets xs in
    let (k, few, padded, _) = pad-replicate s (rw (length-map glyph (sextets xs)) n.0) in
    rw (encode-sextets xs b, padded)
      (
        All-append _ s (replicate k b'=')
            (All-glyphs _ (sextets xs) glyph_plain (sextets_below xs b))
            (All-replicate _ k b'=' (ground arith)),
        λ long.
            omega (arith, length-append s (replicate k b'='), length-map glyph (sextets xs), n.1),
      )
