-- ===== src/BatchedTokenResponse/Parse/Ends.antt =====
-- The loop of `BatchedTokenResponse::deserialize` ends on every input.
use privacypass_cpp.Prelude.{
  ℕ, suc, ◌<◌, ◌≡◌, ◌≢◌, refl, ap, ◌*◌, ◌^◌, bit_or, get_or, Option, some, none, List, [], length,
  length-append, arith,
}
use privacypass_cpp.Types.{Bytes, TokenType, of_u16, Result, ok, err}
use privacypass_cpp.Serialization.Reader.{ByteReader, reader}
use privacypass_cpp.Serialization.Reader.Window.{window, window-reader, read_bytes_taken}
use privacypass_cpp.Serialization.Parser.{run}
use privacypass_cpp.Serialization.Parser.Rules.{
  >>=_taken, ahead_taken, lift_taken, read_taken, refuse_if->>_taken,
}
use privacypass_cpp.Serialization.Collect.{collect-ne-none}
use privacypass_cpp.OptionalTokenResponse.{OptionalTokenResponse}
use privacypass_cpp.BatchedTokenResponse.Parse.{
  deserialize, payload_from, next_response, batch_of, response_size, present_size,
}

present_size-positive : (type : TokenType) (n : ℕ) → present_size type ≡ ok n → 0 < n
unfolding present_size
present_size-positive type n h = ground arith

response_size-positive : (xs : Bytes) (n : ℕ) → response_size xs ≡ ok n → 0 < n
unfolding response_size
response_size-positive xs n h =
    ground
      (arith, present_size-positive (of_u16 (bit_or (get_or xs 1 0 * 2 ^ 8) (get_or xs 2 0))) n)

next_response_takes :
    (r : ByteReader) (o : OptionalTokenResponse) (r' : ByteReader)
    → next_response r ≡ ok (o, r')
    → length (window r') < length (window r)
unfolding next_response
next_response_takes r o r' h =
    let (_, k₁) = refuse_if->>_taken _ _ _ _ _ _ (ahead_taken _ r _ h) in
    let (size, r₀, h₀, k₂) = >>=_taken _ _ _ _ _ k₁ in
    let (sized, stays) = lift_taken _ _ _ _ h₀ in
    let (bytes, r₁, h₁, k₃) = read_taken _ _ _ _ _ _ k₂ in
    let (_, same) = lift_taken _ _ _ _ k₃ in
    let (n, w) = read_bytes_taken _ r₀ bytes r₁ h₁ in
    omega (
      arith,
      n,
      response_size-positive (window r) size sized,
      ap length w,
      length-append bytes (window r₁),
      ap (λ (x : ByteReader). length (window x)) stays,
      ap (λ (x : ByteReader). length (window x)) same,
    )

batch_of-ne-none : (m : Option (Result (List OptionalTokenResponse))) → m ≢ none → batch_of m ≢ none
batch_of-ne-none none h = absurd (h refl)
batch_of-ne-none (some m) h = λ e. cc

-- The parser's loop ends on every input: a round takes one byte at least.
pub deserialize_responses-ne-none : (bytes : Bytes) → deserialize bytes ≢ none
unfolding deserialize
deserialize_responses-ne-none bytes = go (run payload_from bytes) refl
  where
    go : (m : Result Bytes) → run payload_from bytes ≡ m → deserialize bytes ≢ none
    go (err e) eq = rw (eq, deserialize) (λ p. cc)
    go (ok payload) eq =
        rw (eq, deserialize)
          (batch_of-ne-none _ (
            collect-ne-none next_response _ _ next_response_takes (suc (length payload))
              (reader payload) [] (rw (window-reader payload) (omega arith))))
