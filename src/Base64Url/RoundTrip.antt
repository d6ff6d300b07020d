-- ===== src/Base64Url/RoundTrip.antt =====
-- `decode` inverts `encode` and `encode_padded`.
use mathlib.Core.List.{reverse, reverse-append, reverse-reverse}
use privacypass_cpp.Prelude.{
  ℕ, zero, suc, ◌+◌, ◌%◌, ◌≤◌, ◌<◌, ◌≡◌, ◌≢◌, refl, sym, ◌∙◌, ap, false, [], ◌∷◌, ◌++◌, append-nil,
  ◌==◌, map, length, replicate, All, All-reverse, reverse-replicate, length-map, length-append,
  append_assoc, Bool-cases, inl, inr, arith,
}
use privacypass_cpp.Types.{Bytes, IsBytes, ok}
use privacypass_cpp.Base64Url.{
  encode, encode_padded, decode, decode_stripped, strip, has_equals, pad,
}
use privacypass_cpp.Base64Url.Sextets.{
  glyph, sextets, decode-glyph, encode_groups-sextets, decode_loop-sextets, sextets_below,
  length-sextets,
}

pub encode-sextets : (xs : Bytes) → IsBytes xs → encode xs ≡ map glyph (sextets xs)
unfolding encode
encode-sextets [] h = encode_groups-sextets [] h
encode-sextets (x ∷ xs) h = encode_groups-sextets (x ∷ xs) h

decode_lem : (s : Bytes) → decode s ≡ decode_stripped (strip (reverse s) 0)
unfolding decode
decode_lem [] = refl
decode_lem (c ∷ cs) = refl

-- No byte of the text is a padding sign.
abbrev NoEquals : Bytes → Type 0
NoEquals = All (λ c. (c == b'=') ≡ false)

NoEquals-glyphs : (vs : Bytes) → All (λ v. v < 64) vs → NoEquals (map glyph vs)
NoEquals-glyphs [] h = tt
NoEquals-glyphs (v ∷ vs) (p, q) = ((decode-glyph v p).1, NoEquals-glyphs vs q)

has_equals-NoEquals : (s : Bytes) → NoEquals s → has_equals s ≡ false
unfolding has_equals
has_equals-NoEquals [] h = refl
has_equals-NoEquals (c ∷ s) (p, q) = rw p (has_equals-NoEquals s q)

-- Reading backwards, `k` padding signs go and the rest stays.
strip-replicate :
    (k n : ℕ) (back : Bytes) → NoEquals back → strip (replicate k b'=' ++ back) n ≡ (back, k + n)
unfolding strip
strip-replicate zero n [] h = ground arith
strip-replicate zero n (c ∷ cs) (p, _) = rw p (ground arith)
strip-replicate (suc k) n back h = strip-replicate k (n + 1) back h ∙ ground arith

empty_of_length : (xs : Bytes) → length xs ≡ 0 → xs ≡ []
empty_of_length [] h = refl
empty_of_length (x ∷ xs) h = absurd (omega arith)

-- Letters with at most two padding signs decode to the bytes that they stand for.
decode_padded :
    (xs : Bytes) (k : ℕ)
    → IsBytes xs
    → k ≤ 2
    → decode (map glyph (sextets xs) ++ replicate k b'=') ≡ ok xs
unfolding decode_stripped
decode_padded xs k h few =
    let s : Bytes = map glyph (sextets xs) in
    let clean : NoEquals s = NoEquals-glyphs (sextets xs) (sextets_below xs h) in
    let back : reverse (s ++ replicate k b'=') ≡ replicate k b'=' ++ reverse s =
      reverse-append s (replicate k b'=') ∙ ap (λ l. l ++ reverse s) (reverse-replicate k b'=') in
    decode_lem (s ++ replicate k b'=')
    ∙ rw (back, strip-replicate k 0 (reverse s) (All-reverse _ s clean), reverse-reverse s)
        (ground (
          arith,
          has_equals-NoEquals s clean,
          length-map glyph (sextets xs),
          length-sextets xs,
          decode_loop-sextets xs 0 [] h,
          empty_of_length xs,
        ))

-- `encode_padded` adds the padding signs that fill the last group of four.
pub pad-replicate :
    (s : Bytes)
    → length s % 4 ≢ 1
    → (k : ℕ) × (k ≤ 2) × (pad 3 s ≡ s ++ replicate k b'=') × ((length s + k) % 4 ≡ 0)
unfolding pad
pad-replicate s h = elim (Bool-cases (length s % 4 == 0)) [
  | inl whole ↦ (0, omega arith, ground (arith, append-nil s), ground arith)
  | inr part ↦ elim (Bool-cases (length s % 4 == 3)) [
    | inl three ↦ (1, omega arith, ground (arith, length-append s (b'=' ∷ [])), ground arith)
    | inr two ↦ (
      2,
      omega arith,
      ground (
        arith,
        length-append s (b'=' ∷ []),
        length-append (s ++ (b'=' ∷ [])) (b'=' ∷ []),
        append_assoc s (b'=' ∷ []) (b'=' ∷ []),
      ),
      ground arith,
    )
  ]
]

-- `decode` reads back the bytes that `encode` or `encode_padded` was given.
pub decode-encode :
    (xs : Bytes) → IsBytes xs → (decode (encode xs) ≡ ok xs) × (decode (encode_padded xs) ≡ ok xs)
unfolding encode_padded
decode-encode xs h =
    let s : Bytes = map glyph (sextets xs) in
    let (k, few, padded, _) =
      pad-replicate s (rw (length-map glyph (sextets xs)) (length-sextets xs).0) in
    (
      rw (encode-sextets xs h)
          (ap decode (sym (append-nil s)) ∙ decode_padded xs 0 h (omega arith)),
      rw (encode-sextets xs h, padded) (decode_padded xs k h few),
    )
