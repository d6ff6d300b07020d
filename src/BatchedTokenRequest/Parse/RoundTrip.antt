-- ===== src/BatchedTokenRequest/Parse/RoundTrip.antt =====
-- A batch within the size limit comes back, and the parser's loop always ends.
use privacypass_cpp.Prelude.{
  ℕ, suc, ◌+◌, ◌*◌, ◌/◌, ◌%◌, ◌^◌, ◌≤◌, ◌<◌, ◌≡◌, ◌≢◌, refl, ap, ◌∙◌, Option, some, none, List, [],
  ◌∷◌, ◌++◌, length, length-append, append_assoc, append-nil, All, bit_or, arith, subst,
}
use privacypass_cpp.Prelude.Bits.{or_of_fields}
use privacypass_cpp.Types.{Bytes, to_u16, for_type, Result, ok, err}
use privacypass_cpp.Types.Codes.{blinded_element_size_bound}
use privacypass_cpp.Serialization.Reader.{ByteReader, reader}
use privacypass_cpp.Serialization.Reader.Window.{
  window, window-reader, read_bytes-Takes, read_bytes_rest-Takes, read_bytes_taken, Takes,
}
use privacypass_cpp.Serialization.Writer.Own.{
  holding, push_bytes, writer-holding, take_data-holding,
}
use privacypass_cpp.Serialization.Varint.{varint_bytes, push_varint}
use privacypass_cpp.Serialization.Varint.Decode.{read_varint-Takes, length-varint_bytes}
use privacypass_cpp.Serialization.Parser.Rules.{
  Reads, pure-Reads, run-Reads, read-Reads, refuse_if->>-Reads, expect_end->>-Reads, ahead-Reads,
  ahead_taken, lift-Reads, lift_taken, read_taken, refuse_if->>_taken,
}
use privacypass_cpp.Serialization.Collect.{encodings, collect-encodings, collect-ne-none}
use privacypass_cpp.TokenRequest.{TokenRequest}
use privacypass_cpp.TokenRequest
use privacypass_cpp.TokenRequest.RoundTrip.{wire, IsValid, serialize-wire, deserialize-wire}
use privacypass_cpp.BatchedTokenRequest.{
  BatchedTokenRequest, serialize, serialized_size, sum_sizes, write_requests,
}
use privacypass_cpp.BatchedTokenRequest.Parse.{
  deserialize, payload_from, next_request, batch_of, read_varint, run,
}

-- A valid request of a type that has a blinded element.
pub record IsSized (t : TokenRequest) : Type 0 where
  pub valid : IsValid t
  pub sized : (for_type t.token_type).blinded_element_size ≢ 0

sized_msg : (t : TokenRequest) → IsSized t → 32 ≤ length t.blinded_msg
sized_msg t s = omega (arith, s.valid.blinded, blinded_element_size_bound t.token_type s.sized)

sum_sizes-encodings :
    (n : ℕ) (ts : List TokenRequest) → sum_sizes n ts ≡ n + length (encodings wire ts)
unfolding sum_sizes TokenRequest.serialized_size
sum_sizes-encodings n [] = omega arith
sum_sizes-encodings n (t ∷ ts) =
    sum_sizes-encodings (n + TokenRequest.serialized_size t) ts
    ∙ omega (arith, length-append (wire t) (encodings wire ts))

write_requests-holding :
    (ts : List TokenRequest) (xs : Bytes)
    → write_requests ts (holding xs) ≡ ok (holding (xs ++ encodings wire ts))
unfolding write_requests
write_requests-holding [] xs = rw append-nil
write_requests-holding (t ∷ ts) xs =
    rw (serialize-wire t, push_bytes xs (wire t))
      (write_requests-holding ts (xs ++ wire t)
        ∙ ap (λ l. ok (holding l)) (append_assoc xs (wire t) (encodings wire ts)))

next_request-Reads :
    (t : TokenRequest) → IsSized t → (w : Bytes) → Reads next_request (wire t ++ w) t w
unfolding next_request
next_request-Reads t s w =
    let type = to_u16 t.token_type in
    let e : bit_or (type / 2 ^ 8 % 2 ^ 8 * 2 ^ 8) (type % 2 ^ 8) ≡ type =
      omega (
        arith,
        s.valid.type.0,
        or_of_fields 8 (type / 2 ^ 8 % 2 ^ 8) (type % 2 ^ 8) (omega arith),
      ) in
    ahead-Reads _ (wire t ++ w) t w (
      rw (e, s.valid.type.1)
        (refuse_if->>-Reads _ _ _ _ _ _ (ground arith) (
          refuse_if->>-Reads _ _ _ _ _ _ (ground (arith, s.sized)) (
            read-Reads _ _ _ _ _ _ _ _
              (read_bytes-Takes _ (wire t) w (omega (arith, s.valid.blinded)))
              (lift-Reads _ t w (deserialize-wire t s.valid))))))

payload_from-Reads :
    (payload : Bytes)
    → length payload ≤ 65535
    → Reads payload_from (varint_bytes (length payload) ++ payload) payload []
unfolding payload_from
payload_from-Reads payload fits =
    let n = length payload in
    let e : n % 2 ^ 62 ≡ n = omega arith in
    read-Reads _ _ _ _ _ _ _ _
      (subst (λ m. Takes read_varint (varint_bytes n ++ payload) m payload) e
        (read_varint-Takes n payload (omega arith)))
      (refuse_if->>-Reads _ _ _ _ _ _ (ground arith) (
        read-Reads _ _ _ _ _ _ _ _ (read_bytes_rest-Takes n payload refl)
          (expect_end->>-Reads _ _ _ (pure-Reads payload []))))

serialize-encodings :
    (b : BatchedTokenRequest)
    → sum_sizes 0 b.requests < 2 ^ 64
    → serialize b
      ≡ ok (varint_bytes (length (encodings wire b.requests)) ++ encodings wire b.requests)
unfolding serialize
serialize-encodings b h =
    let ts = b.requests in
    let e : sum_sizes 0 ts ≡ length (encodings wire ts) = sum_sizes-encodings 0 ts ∙ omega arith in
    rw (writer-holding, push_varint [] (sum_sizes 0 ts) h, e)
      (rw (write_requests-holding ts) (rw take_data-holding refl))

-- A sized request has 35 bytes at least, so a payload of the size limit never holds too many.
sized_wires :
    (ts : List TokenRequest)
    → All IsSized ts
    → (length ts * 35 ≤ length (encodings wire ts))
      × All (λ t. (0 < length (wire t)) × ((w : Bytes) → Reads next_request (wire t ++ w) t w)) ts
sized_wires [] h = (omega arith, tt)
sized_wires (t ∷ ts) (s, h) =
    let (n, rest) = sized_wires ts h in
    (
      omega (arith, n, sized_msg t s, length-append (wire t) (encodings wire ts)),
      ((omega arith, next_request-Reads t s), rest),
    )

-- A batch of valid requests whose sizes add up to at most 65535 serialises to `serialized_size`
-- bytes, and `deserialize` reads these back as the batch, in order.
pub deserialize_requests-serialize :
    (b : BatchedTokenRequest)
    → All IsSized b.requests
    → sum_sizes 0 b.requests ≤ 65535
    → (bytes : Bytes) × (serialize b ≡ ok bytes)
      × (length bytes ≡ serialized_size b)
      × (deserialize bytes ≡ some (ok b))
unfolding deserialize serialized_size
deserialize_requests-serialize b good fits =
    let ts = b.requests in
    let payload = encodings wire ts in
    let e : sum_sizes 0 ts ≡ length payload = sum_sizes-encodings 0 ts ∙ omega arith in
    let (few, reads) = sized_wires ts good in
    (
      varint_bytes (length payload) ++ payload,
      serialize-encodings b (omega arith),
      length-append (varint_bytes (length payload)) payload ∙ rw (length-varint_bytes, e) refl,
      rw
          (
            run-Reads payload_from _ payload [] (payload_from-Reads payload (omega arith)),
            deserialize,
          )
          (ap batch_of (
            collect-encodings next_request _ _ wire [] ts (suc (length payload)) (reader payload)
              reads (omega arith) (omega arith) (window-reader payload))),
    )

next_request_takes :
    (r : ByteReader) (t : TokenRequest) (r' : ByteReader)
    → next_request r ≡ ok (t, r')
    → length (window r') < length (window r)
unfolding next_request
next_request_takes r t r' h =
    let (_, k₁) = refuse_if->>_taken _ _ _ _ _ _ (ahead_taken _ r _ h) in
    let (_, k₂) = refuse_if->>_taken _ _ _ _ _ _ k₁ in
    let (bytes, r₁, h₁, k₃) = read_taken _ _ _ _ _ _ k₂ in
    let (_, same) = lift_taken _ _ _ _ k₃ in
    let (n, w) = read_bytes_taken _ r bytes r₁ h₁ in
    omega (
      arith,
      n,
      ap length w,
      length-append bytes (window r₁),
      ap (λ (x : ByteReader). length (window x)) same,
    )

batch_of-ne-none : (m : Option (Result (List TokenRequest))) → m ≢ none → batch_of m ≢ none
unfolding batch_of
batch_of-ne-none none h = absurd (h refl)
batch_of-ne-none (some m) h = λ e. cc

-- The parser's loop ends on every input: a round takes three bytes at least.
pub deserialize_requests-ne-none : (bytes : Bytes) → deserialize bytes ≢ none
unfolding deserialize
deserialize_requests-ne-none bytes = go (run payload_from bytes) refl
  where
    go : (m : Result Bytes) → run payload_from bytes ≡ m → deserialize bytes ≢ none
    go (err e) eq = rw (eq, deserialize) (λ p. cc)
    go (ok payload) eq =
        rw (eq, deserialize)
          (batch_of-ne-none _ (
            collect-ne-none next_request _ _ next_request_takes (suc (length payload))
              (reader payload) [] (rw (window-reader payload) (omega arith))))
