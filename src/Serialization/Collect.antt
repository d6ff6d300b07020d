-- ===== src/Serialization/Collect.antt =====
-- `while (!reader.empty()) { if (items.size() >= max) return error; …; items.push_back(item); }`,
-- the loop of the two batched formats. Fuel bounds the rounds; `none` means that it ran out.
use privacypass_cpp.Prelude.{
  ℕ, zero, suc, ◌+◌, ◌≤◌, ◌<◌, ◌≡◌, ◌≢◌, refl, Option, none, some, List, [], ◌∷◌, ◌++◌,
  append_assoc, append-nil, leb, if◌then◌else◌, length, length-append, arith, All,
}
use privacypass_cpp.Types.{Bytes, Error, Result, ok, err}
use privacypass_cpp.Serialization.Reader.{ByteReader, empty}
use privacypass_cpp.Serialization.Reader.Window.{window, empty-window}
use privacypass_cpp.Serialization.Parser.{Parser}
use privacypass_cpp.Serialization.Parser.Rules.{Reads}

-- The encodings of the items, one after the other.
abbrev pub encodings : {A : Type 0} → (A → Bytes) → List A → Bytes
encodings enc [] = []
encodings enc (a ∷ rest) = enc a ++ encodings enc rest

module _ {A : Type 0} (next : Parser A) (max : ℕ) (too_many : Error) where
  pub collect : ℕ → ByteReader → List A → Option (Result (List A))
  collect zero r items = none
  collect (suc fuel) r items =
      if empty r
      then some (ok items)
      else if leb max (length items)
      then some (err too_many)
      else elim (next r) [ ok (a, r') ↦ collect fuel r' (items ++ (a ∷ [])) | err e ↦ some (err e) ]

  -- Where each item takes a byte at least, a round for each byte and one more are enough.
  pub collect-ne-none :
      ((r : ByteReader) (a : A) (r' : ByteReader)
        → next r ≡ ok (a, r')
        → length (window r') < length (window r))
      → (fuel : ℕ) (r : ByteReader) (items : List A) → length (window r) < fuel
      → collect fuel r items ≢ none
  unfolding collect
  collect-ne-none takes zero r items h = absurd (omega arith)
  collect-ne-none takes (suc fuel) r items h =
      go (next r) refl (λ a r' e.
        collect-ne-none takes fuel r' (items ++ (a ∷ [])) (omega (arith, takes r a r' e)))
    where
      go :
          (m : Result (A × ByteReader))
          → next r ≡ m
          → ((a : A) (r' : ByteReader)
              → next r ≡ ok (a, r')
              → collect fuel r' (items ++ (a ∷ [])) ≢ none)
          → collect (suc fuel) r items ≢ none
      go (ok (a, r')) e again = ground (arith, again a r' e)
      go (err x) e again = ground arith

  module _ (enc : A → Bytes) where
    -- Items that `next` reads back, each from at least one byte, are all collected.
    pub collect-encodings :
        (items rest : List A) (fuel : ℕ) (r : ByteReader)
        → All (λ a. (0 < length (enc a)) × ((w : Bytes) → Reads next (enc a ++ w) a w)) rest
        → length items + length rest ≤ max
        → length (encodings enc rest) < fuel
        → window r ≡ encodings enc rest
        → collect fuel r items ≡ some (ok (items ++ rest))
    unfolding collect
    collect-encodings items rest zero r good few enough h = absurd (omega arith)
    collect-encodings items [] (suc fuel) r good few enough h =
        ground (arith, empty-window r, append-nil items)
    collect-encodings items (a ∷ rest) (suc fuel) r ((long, reads), good) few enough h =
        let (r', e, h') = reads (encodings enc rest) r h in
        let again = collect-encodings (items ++ (a ∷ [])) rest fuel r' good in
        ground (
          arith,
          empty-window r,
          length-append (enc a) (encodings enc rest),
          length-append items (a ∷ []),
          append_assoc items (a ∷ []) rest,
          again (omega (arith, length-append items (a ∷ [])))
              (omega (arith, length-append (enc a) (encodings enc rest))) h',
        )
