-- ===== src/Token/RoundTrip.antt =====
-- `Token::serialize` and `Token::deserialize` are inverse to one another.
use privacypass_cpp.Prelude.{
  ℕ, ◌≡◌, ◌≢◌, ◌↔◌, refl, ◌++◌, [], true, false, length, ◌==◌, arith, append-nil,
}
use privacypass_cpp.Types.{
  Bytes, IsBytes, IsTokenType, TokenType, voprf_p384_sha384, blind_rsa, voprf_ristretto255_sha512,
  partially_blind_rsa, arc_p256, unnamed, to_u16, of_u16, for_type, ok,
}
use privacypass_cpp.Types.Codes.{to_u16-of_u16}
use privacypass_cpp.Serialization.Reader.{ByteReader}
use privacypass_cpp.Serialization.Reader.Window.{
  window, u16_bytes, read_u16-Takes, read_array-Takes, read_bytes_rest-Takes, read_u16_taken,
  read_bytes_taken, read_array_taken,
}
use privacypass_cpp.Serialization.Writer.Own.{own_writes}
use privacypass_cpp.Serialization.Parser.Rules.{
  Reads, pure-Reads, run-Reads, read-Reads, refuse_if->>-Reads, expect_left->>-Reads,
  expect_end->>-Reads, run_taken, read_taken, refuse_if->>_taken, expect_left->>_taken,
  expect_end->>_taken, pure_taken,
}
use privacypass_cpp.Token.{
  Token, create, serialize, deserialize, deserialize_from, validate, is_valid_token_type,
}

abbrev pub wire : Token → Bytes
wire t =
    u16_bytes (to_u16 t.token_type)
    ++ (t.nonce ++ (t.challenge_digest ++ (t.token_key_id ++ t.authenticator)))

pub serialize-wire : (t : Token) → serialize t ≡ ok (wire t)
unfolding serialize
serialize-wire t = simp own_writes

-- The three arrays of 32 bytes, and `validate()`: a known type and the authenticator's size for it.
pub record IsValid (t : Token) : Type 0 where
  pub nonce : length t.nonce ≡ 32
  pub digest : length t.challenge_digest ≡ 32
  pub key_id : length t.token_key_id ≡ 32
  pub validated : validate t ≡ ok tt

-- A type that has an authenticator's size is one of the five that `is_valid_token_type` knows.
known_type :
    (type : TokenType)
    → (for_type type).authenticator_size ≢ 0
    → IsTokenType type × (is_valid_token_type (to_u16 type) ≡ true)
unfolding for_type is_valid_token_type to_u16 of_u16
known_type (unnamed v) h = absurd (h refl)
known_type voprf_p384_sha384 h = ((omega arith, refl), refl)
known_type blind_rsa h = ((omega arith, refl), refl)
known_type voprf_ristretto255_sha512 h = ((omega arith, refl), refl)
known_type partially_blind_rsa h = ((omega arith, refl), refl)
known_type arc_p256 h = ((omega arith, refl), refl)

validated :
    (t : Token)
    → validate t ≡ ok tt
    → ((for_type t.token_type).authenticator_size ≢ 0)
      × (length t.authenticator ≡ (for_type t.token_type).authenticator_size)
unfolding validate
validated t h = ground arith

deserialize_from-Reads : (t : Token) → IsValid t → Reads deserialize_from (wire t) t []
unfolding deserialize_from
deserialize_from-Reads t v =
    let (sized, fits) = validated t v.validated in
    let (type, valid) = known_type t.token_type sized in
    read-Reads _ _ _ _ _ _ _ _ (read_u16-Takes (to_u16 t.token_type) _ type.0) (
      refuse_if->>-Reads _ _ _ _ _ _ (rw valid) (
        read-Reads _ _ _ _ _ _ _ _ (read_array-Takes 32 t.nonce _ v.nonce) (
          read-Reads _ _ _ _ _ _ _ _ (read_array-Takes 32 t.challenge_digest _ v.digest) (
            read-Reads _ _ _ _ _ _ _ _ (read_array-Takes 32 t.token_key_id _ v.key_id) (
              rw type.1 (
                refuse_if->>-Reads _ _ _ _ _ _ (ground arith) (
                  expect_left->>-Reads _ _ _ _ _ _ (omega arith) (
                    read-Reads _ _ _ _ _ _ _ _ (read_bytes_rest-Takes _ t.authenticator fits)
                      (expect_end->>-Reads _ _ _ (pure-Reads t []))))))))))

deserialize-wire : (t : Token) → IsValid t → deserialize (wire t) ≡ ok t
unfolding deserialize
deserialize-wire t v = run-Reads _ _ t [] (deserialize_from-Reads t v)

-- The pieces that a run has read, put together.
put_together :
    (type : ℕ) (nonce digest key_id auth : Bytes) (t : Token) (w w₁ w₂ w₃ w₄ w₅ : Bytes)
    → w ≡ u16_bytes type ++ w₁
    → (length nonce ≡ 32) × (w₁ ≡ nonce ++ w₂)
    → (length digest ≡ 32) × (w₂ ≡ digest ++ w₃)
    → (length key_id ≡ 32) × (w₃ ≡ key_id ++ w₄)
    → ((for_type (of_u16 type)).authenticator_size == 0) ≡ false
    → (length auth ≡ (for_type (of_u16 type)).authenticator_size) × (w₄ ≡ auth ++ w₅)
    → w₅ ≡ []
    → create (of_u16 type) nonce digest key_id auth ≡ t
    → (w ≡ wire t) × IsValid t
unfolding create validate
put_together type nonce digest key_id auth t w w₁ w₂ w₃ w₄ w₅ e (l₁, e₁) (l₂, e₂) (l₃, e₃) z
      (l₄, e₄) e₅ same =
    rw (← same) (
      rw (e, e₁, e₂, e₃, e₄, e₅, append-nil auth, to_u16-of_u16 type) refl,
      record { nonce = l₁; digest = l₂; key_id = l₃; validated = ground arith },
    )

-- What a successful run of the parser has read, and that it makes a valid token.
deserialize_from_taken :
    (r : ByteReader) (t : Token) (r' : ByteReader)
    → IsBytes (window r)
    → deserialize_from r ≡ ok (t, r')
    → (window r ≡ wire t) × IsValid t
unfolding deserialize_from create
deserialize_from_taken r t r' b h =
    let (type, r₁, h₁, k₁) = read_taken _ _ _ _ _ _ h in
    let (_, k₂) = refuse_if->>_taken _ _ _ _ _ _ k₁ in
    let (nonce, r₂, h₂, k₃) = read_taken _ _ _ _ _ _ k₂ in
    let (digest, r₃, h₃, k₄) = read_taken _ _ _ _ _ _ k₃ in
    let (key_id, r₄, h₄, k₅) = read_taken _ _ _ _ _ _ k₄ in
    let (sized, k₆) = refuse_if->>_taken _ _ _ _ _ _ k₅ in
    let (auth, r₅, h₅, k₇) = read_taken _ _ _ _ _ _ (expect_left->>_taken _ _ _ _ _ _ k₆) in
    let (ended, k₈) = expect_end->>_taken _ _ _ _ _ k₇ in
    put_together type nonce digest key_id auth t _ _ _ _ _ _ (read_u16_taken r type r₁ b h₁).1
      (read_array_taken 32 r₁ nonce r₂ h₂) (read_array_taken 32 r₂ digest r₃ h₃)
      (read_array_taken 32 r₃ key_id r₄ h₄) sized (read_bytes_taken _ r₄ auth r₅ h₅) ended
      (pure_taken _ _ _ _ k₈).0

-- On bytes, `deserialize` answers `t` exactly where they are the serialisation of `t` and `t` is
-- valid. So it reads back what `serialize` writes, and takes no second spelling of a token.
pub deserialize_token-eq-ok_iff :
    (bytes : Bytes) (t : Token)
    → IsBytes bytes
    → (deserialize bytes ≡ ok t) ↔ ((serialize t ≡ ok bytes) × IsValid t)
unfolding deserialize
deserialize_token-eq-ok_iff bytes t b = (
  λ h.
      let (r, r', w, k) = run_taken _ bytes t h in
      let (e, v) = deserialize_from_taken r t r' (rw w b) k in
      (rw (serialize-wire t, ← w, e) refl, v),
  λ (s, v). ground (arith, serialize-wire t, deserialize-wire t v),
)
