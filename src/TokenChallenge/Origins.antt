-- ===== src/TokenChallenge/Origins.antt =====
-- The origins survive being joined with commas and split again.
use privacypass_cpp.Prelude.{
  ◌+◌, ◌≤◌, ◌<◌, ◌≡◌, ◌≢◌, refl, ap, ◌∙◌, false, List, [], ◌∷◌, ◌++◌, ◌==◌, leb, length, All,
  append-nil, append_assoc, arith, length-append,
}
use privacypass_cpp.Types.{Bytes, ok}
use privacypass_cpp.TokenChallenge.{
  join, join_rest, join_size, join_rest_size, segments, collect_origins,
}

-- An entry that the wire can carry: not empty, and without a comma.
abbrev pub IsOrigin : Bytes → Type 0
IsOrigin x = (0 < length x) × All (λ b. b ≢ 44) x

segments-comma : (x s : Bytes) → All (λ b. b ≢ 44) x → segments (x ++ 44 ∷ s) ≡ x ∷ segments s
unfolding segments
segments-comma [] s h = refl
segments-comma (b ∷ x) s (h, hs) =
    let e : (b == 44) ≡ false = ground (arith, h) in rw (e, segments-comma x s hs) refl

segments-last : (x : Bytes) → IsOrigin x → segments x ≡ x ∷ []
unfolding segments
segments-last [] (lt, h) = absurd (omega arith)
segments-last (b ∷ []) (lt, (h, hs)) = let e : (b == 44) ≡ false = ground (arith, h) in rw e refl
segments-last (b ∷ b' ∷ x) (lt, (h, hs)) =
    let e : (b == 44) ≡ false = ground (arith, h) in
    rw (e, segments-last (b' ∷ x) (omega arith, hs)) refl

pub segments-join : (xs : List Bytes) → All IsOrigin xs → segments (join xs) ≡ xs
unfolding join join_rest segments
segments-join [] h = refl
segments-join (x ∷ []) (h, hs) = rw append-nil (segments-last x h)
segments-join (x ∷ y ∷ ys) (h, hs) =
    segments-comma x (join (y ∷ ys)) h.1 ∙ ap (λ l. x ∷ l) (segments-join (y ∷ ys) hs)

pub collect_origins-All :
    (acc xs : List Bytes)
    → All IsOrigin xs
    → length acc + length xs ≤ 100
    → collect_origins acc xs ≡ ok (acc ++ xs)
unfolding collect_origins
collect_origins-All acc [] h le = rw append-nil
collect_origins-All acc ([] ∷ xs) ((lt, _), hs) le = absurd (omega arith)
collect_origins-All acc ((b ∷ x) ∷ xs) (h, hs) le =
    let e : leb 100 (length acc) ≡ false = ground arith in
    rw e (
      collect_origins-All (acc ++ (b ∷ x) ∷ []) xs hs
        (omega (arith, length-append acc ((b ∷ x) ∷ [])))
      ∙ ap ok (append_assoc acc ((b ∷ x) ∷ []) xs))

length-join_rest : (xs : List Bytes) → length (join_rest xs) ≡ join_rest_size xs
unfolding join_rest join_rest_size
length-join_rest [] = refl
length-join_rest (x ∷ xs) = omega (arith, length-append x (join_rest xs), length-join_rest xs)

pub length-join : (xs : List Bytes) → length (join xs) ≡ join_size xs
unfolding join join_size
length-join [] = refl
length-join (x ∷ xs) = omega (arith, length-append x (join_rest xs), length-join_rest xs)
