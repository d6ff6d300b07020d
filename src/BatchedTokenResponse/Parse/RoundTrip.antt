-- ===== src/BatchedTokenResponse/Parse/RoundTrip.antt =====
-- A batch of responses within the limits comes back, and the parser's loop always ends.
use privacypass_cpp.Prelude.{
  ℕ, suc, ◌+◌, ◌*◌, ◌/◌, ◌%◌, ◌^◌, ◌-◌, ◌≤◌, ◌<◌, ◌≡◌, refl, ap, ◌∙◌, Bool, true, false, ltb, inl,
  inr, Option, some, none, List, [], ◌∷◌, ◌++◌, map, length, length-append, append_assoc,
  append-nil, All, bit_or, arith, subst,
}
use privacypass_cpp.Prelude.Bits.{or_of_fields}
use privacypass_cpp.Types.{Bytes, TokenType, to_u16, for_type, ok}
use privacypass_cpp.Serialization.Reader.{reader, read_varint}
use privacypass_cpp.Serialization.Reader.Window.{
  window-reader, u16_bytes, read_bytes-Takes, read_bytes_rest-Takes, Takes,
}
use privacypass_cpp.Serialization.Writer.Own.{
  holding, push_bytes, writer-holding, take_data-holding,
}
use privacypass_cpp.Serialization.Varint.{varint_bytes, push_varint}
use privacypass_cpp.Serialization.Varint.Decode.{read_varint-Takes}
use privacypass_cpp.Serialization.Parser.Rules.{
  Reads, pure-Reads, run-Reads, read-Reads, >>=-Reads, refuse_if->>-Reads, expect_end->>-Reads,
  ahead-Reads, lift-Reads,
}
use privacypass_cpp.Serialization.Collect.{encodings, collect-encodings}
use privacypass_cpp.TokenResponse.{TokenResponse, TokenResponseVariant, rsa, voprf}
use privacypass_cpp.TokenResponse.RoundTrip.{IsSized}
use privacypass_cpp.OptionalTokenResponse.{OptionalTokenResponse, absent, present_response}
use privacypass_cpp.OptionalTokenResponse.RoundTrip.{
  wire, variant_wire, IsValid, known_type, serialize-wire, deserialize-wire,
}
use privacypass_cpp.BatchedTokenResponse.{BatchedTokenResponse, serialize, serialize_all, write_all}
use privacypass_cpp.BatchedTokenResponse.Parse.{
  deserialize, payload_from, next_response, batch_of, response_size, present_size,
  response_payload_size,
}

variant_size :
    (type : TokenType) (v : TokenResponseVariant)
    → IsSized type v
    → present_size type ≡ ok (1 + (2 + length (variant_wire v)))
unfolding present_size response_payload_size for_type to_u16
variant_size type (rsa r) (inl e, l) = rw (e, l)
variant_size type (rsa r) (inr e, l) = rw (e, l)
variant_size type (voprf r) (e, l, m) = rw (e, length-append r.evaluate_msg r.evaluate_proof, l, m)

response_size-present :
    (r : TokenResponse) (w : Bytes)
    → IsSized r.token_type r.response
    → response_size (1 ∷ u16_bytes (to_u16 r.token_type) ++ w)
      ≡ ok (1 + (2 + length (variant_wire r.response)))
unfolding response_size
response_size-present r w v =
    let type = to_u16 r.token_type in
    let (lt, same) = known_type r.token_type r.response v in
    let e : bit_or (type / 2 ^ 8 % 2 ^ 8 * 2 ^ 8) (type % 2 ^ 8) ≡ type =
      omega (arith, lt, or_of_fields 8 (type / 2 ^ 8 % 2 ^ 8) (type % 2 ^ 8) (omega arith)) in
    let f : ltb (length (1 ∷ u16_bytes type ++ w)) 3 ≡ false = ground arith in
    rw (f, e, same) (variant_size r.token_type r.response v)

next_response-Reads :
    (o : OptionalTokenResponse) → IsValid o → (w : Bytes) → Reads next_response (wire o ++ w) o w
unfolding next_response response_size
next_response-Reads o v w = go o.present o.response v
  where
    again :
        (o : OptionalTokenResponse)
        → IsValid o
        → 0 < length (wire o)
        → response_size (wire o ++ w) ≡ ok (length (wire o))
        → Reads next_response (wire o ++ w) o w
    again o v lt e = ahead-Reads _ (wire o ++ w) o w (
        refuse_if->>-Reads _ _ _ _ _ _ (ground (arith, length-append (wire o) w)) (
          >>=-Reads _ _ _ _ _ _ _ (lift-Reads _ (length (wire o)) (wire o ++ w) e) (
            read-Reads _ _ _ _ _ _ _ _ (read_bytes-Takes _ (wire o) w refl)
              (lift-Reads _ o w (deserialize-wire o v)))))

    go :
        (p : Bool) (m : Option TokenResponse)
        → IsValid (record { present = p; response = m })
        → Reads next_response
            (wire (record { present = p; response = m }) ++ w)
            (record { present = p; response = m })
            w
    go true (some r) v =
        again (present_response r) v (omega arith)
          (response_size-present r (variant_wire r.response ++ w) v ∙ ap ok (omega arith))
    go true none v = absurd v
    go false (some r) v = absurd v
    go false none v = again absent v (omega arith) refl

serialize_all-wires :
    (n : ℕ) (done : List Bytes) (os : List OptionalTokenResponse)
    → n + length (encodings wire os) < 2 ^ 64
    → serialize_all n done os ≡ ok (n + length (encodings wire os), done ++ map wire os)
unfolding serialize_all
serialize_all-wires n done [] h = rw append-nil (ap (λ k. ok (k, done)) (omega arith))
serialize_all-wires n done (o ∷ os) h =
    let len = length-append (wire o) (encodings wire os) in
    let e : ltb (2 ^ 64 - 1 - length (wire o)) n ≡ false = ground (arith, len) in
    rw (serialize-wire o, e)
      (serialize_all-wires (n + length (wire o)) (done ++ wire o ∷ []) os (omega (arith, len))
        ∙ rw (append_assoc done (wire o ∷ []) (map wire os))
            (ap (λ k. ok (k, done ++ map wire (o ∷ os))) (omega (arith, len))))

write_all-holding :
    (os : List OptionalTokenResponse) (xs : Bytes)
    → write_all (map wire os) (holding xs) ≡ holding (xs ++ encodings wire os)
unfolding write_all
write_all-holding [] xs = rw append-nil
write_all-holding (o ∷ os) xs =
    rw (write_all, push_bytes xs (wire o))
      (write_all-holding os (xs ++ wire o)
        ∙ ap holding (append_assoc xs (wire o) (encodings wire os)))

serialize-encodings :
    (b : BatchedTokenResponse)
    → length (encodings wire b.responses) < 2 ^ 64
    → serialize b
      ≡ ok (varint_bytes (length (encodings wire b.responses)) ++ encodings wire b.responses)
unfolding serialize
serialize-encodings b h =
    let n = length (encodings wire b.responses) in
    let e : 0 + n ≡ n = omega arith in
    rw (serialize_all-wires 0 [] b.responses (omega arith), e, writer-holding, push_varint [] n h)
      (rw (write_all-holding b.responses) (rw take_data-holding refl))

payload_from-Reads :
    (payload : Bytes)
    → length payload ≤ 65535
    → Reads payload_from (varint_bytes (length payload) ++ payload) payload []
unfolding payload_from
payload_from-Reads payload fits =
    let n = length payload in
    let e : n % 2 ^ 62 ≡ n = omega arith in
    read-Reads _ _ _ _ _ _ _ _
      (subst (λ m. Takes read_varint (varint_bytes n ++ payload) m payload) e
        (read_varint-Takes n payload (omega arith)))
      (refuse_if->>-Reads _ _ _ _ _ _ (ground arith) (
        read-Reads _ _ _ _ _ _ _ _ (read_bytes_rest-Takes n payload refl)
          (expect_end->>-Reads _ _ _ (pure-Reads payload []))))

wire_size : (o : OptionalTokenResponse) → 0 < length (wire o)
wire_size o = go o.present o.response
  where
    go :
        (p : Bool) (m : Option TokenResponse)
        → 0 < length (wire (record { present = p; response = m }))
    go true (some r) = omega arith
    go true none = omega arith
    go false m = omega arith

wires-Reads :
    (os : List OptionalTokenResponse)
    → All IsValid os
    → All (λ o. (0 < length (wire o)) × ((w : Bytes) → Reads next_response (wire o ++ w) o w)) os
wires-Reads [] h = tt
wires-Reads (o ∷ os) (v, h) = ((wire_size o, next_response-Reads o v), wires-Reads os h)

-- At most 10000 valid responses, present or absent, that take at most 65535 bytes serialise, and
-- `deserialize` reads them back, in order.
pub deserialize_responses-serialize :
    (b : BatchedTokenResponse)
    → All IsValid b.responses
    → length b.responses ≤ 10000
    → length (encodings wire b.responses) ≤ 65535
    → (bytes : Bytes) × (serialize b ≡ ok bytes) × (deserialize bytes ≡ some (ok b))
unfolding deserialize
deserialize_responses-serialize b good few fits =
    let os = b.responses in
    let payload = encodings wire os in
    (
      varint_bytes (length payload) ++ payload,
      serialize-encodings b (omega arith),
      rw (run-Reads payload_from _ payload [] (payload_from-Reads payload fits), deserialize)
          (ap batch_of (
            collect-encodings next_response _ _ wire [] os (suc (length payload)) (reader payload)
              (wires-Reads os good) (omega arith) (omega arith) (window-reader payload))),
    )
