-- ===== src/TokenRequest/RoundTrip.antt =====
-- `TokenRequest::serialize` and `TokenRequest::deserialize` are inverse to one another.
use privacypass_cpp.Prelude.{ℕ, ◌^◌, ◌<◌, ◌≡◌, ◌↔◌, refl, ◌∷◌, ◌++◌, [], length, append-nil, arith}
use privacypass_cpp.Types.{Bytes, IsBytes, IsTokenType, to_u16, of_u16, for_type, ok}
use privacypass_cpp.Types.Codes.{to_u16-of_u16, of_u16-IsTokenType}
use privacypass_cpp.Serialization.Reader.{ByteReader}
use privacypass_cpp.Serialization.Reader.Window.{
  window, u16_bytes, read_u8-Takes, read_u16-Takes, read_bytes_rest-Takes, read_u8_taken,
  read_u16_taken, read_bytes_taken,
}
use privacypass_cpp.Serialization.Writer.Own.{own_writes}
use privacypass_cpp.Serialization.Parser.Rules.{
  Reads, pure-Reads, run-Reads, read-Reads, expect_left->>-Reads, expect_end->>-Reads, run_taken,
  read_taken, expect_left->>_taken, expect_end->>_taken, pure_taken,
}
use privacypass_cpp.TokenRequest.{TokenRequest, create, serialize, deserialize, deserialize_from}

abbrev pub wire : TokenRequest → Bytes
wire t = u16_bytes (to_u16 t.token_type) ++ (t.truncated_token_key_id ∷ t.blinded_msg)

pub serialize-wire : (t : TokenRequest) → serialize t ≡ ok (wire t)
unfolding serialize
serialize-wire t = simp own_writes

-- A type that the enum can hold, and the blinded element's size for it.
pub record IsValid (t : TokenRequest) : Type 0 where
  pub type : IsTokenType t.token_type
  pub blinded : length t.blinded_msg ≡ (for_type t.token_type).blinded_element_size

deserialize_from-Reads : (t : TokenRequest) → IsValid t → Reads deserialize_from (wire t) t []
unfolding deserialize_from
deserialize_from-Reads t v =
    let b : length t.blinded_msg ≡ (for_type t.token_type).blinded_element_size = v.blinded in
    read-Reads _ _ _ _ _ _ _ _ (read_u16-Takes (to_u16 t.token_type) _ v.type.0) (
      read-Reads _ _ _ _ _ _ _ _ (read_u8-Takes t.truncated_token_key_id t.blinded_msg) (
        rw v.type.1 (
          expect_left->>-Reads _ _ _ _ _ _ (omega arith) (
            read-Reads _ _ _ _ _ _ _ _ (read_bytes_rest-Takes _ t.blinded_msg b)
              (expect_end->>-Reads _ _ _ (pure-Reads t []))))))

pub deserialize-wire : (t : TokenRequest) → IsValid t → deserialize (wire t) ≡ ok t
unfolding deserialize
deserialize-wire t v = run-Reads _ _ t [] (deserialize_from-Reads t v)

-- The pieces that a run has read, put together.
put_together :
    (type key_id : ℕ) (blinded : Bytes) (t : TokenRequest) (w w₁ w₂ w₃ : Bytes)
    → (type < 2 ^ 16) × (w ≡ u16_bytes type ++ w₁)
    → w₁ ≡ key_id ∷ w₂
    → (length blinded ≡ (for_type (of_u16 type)).blinded_element_size) × (w₂ ≡ blinded ++ w₃)
    → w₃ ≡ []
    → create (of_u16 type) key_id blinded ≡ t
    → (w ≡ wire t) × IsValid t
unfolding create
put_together type key_id blinded t w w₁ w₂ w₃ (b, e) e₁ (l, e₂) e₃ same = rw (← same) (
  rw (e, e₁, e₂, e₃, append-nil blinded, to_u16-of_u16 type) refl,
  record { type = of_u16-IsTokenType type b; blinded = l },
)

deserialize_from_taken :
    (r : ByteReader) (t : TokenRequest) (r' : ByteReader)
    → IsBytes (window r)
    → deserialize_from r ≡ ok (t, r')
    → (window r ≡ wire t) × IsValid t
unfolding deserialize_from create
deserialize_from_taken r t r' b h =
    let (type, r₁, h₁, k₁) = read_taken _ _ _ _ _ _ h in
    let (key_id, r₂, h₂, k₂) = read_taken _ _ _ _ _ _ k₁ in
    let (blinded, r₃, h₃, k₃) = read_taken _ _ _ _ _ _ (expect_left->>_taken _ _ _ _ _ _ k₂) in
    let (ended, k₄) = expect_end->>_taken _ _ _ _ _ k₃ in
    put_together type key_id blinded t _ _ _ _ (read_u16_taken r type r₁ b h₁)
      (read_u8_taken r₁ key_id r₂ h₂) (read_bytes_taken _ r₂ blinded r₃ h₃) ended
      (pure_taken _ _ _ _ k₄).0

-- On bytes, `deserialize` answers `t` exactly where they are the serialisation of `t`, and `t` has
-- a type that 16 bits hold, named by the enum or not, and a blinded message of that type's size, which
-- is none for a type that has no name.
pub deserialize_request-eq-ok_iff :
    (bytes : Bytes) (t : TokenRequest)
    → IsBytes bytes
    → (deserialize bytes ≡ ok t) ↔ ((serialize t ≡ ok bytes) × IsValid t)
unfolding deserialize
deserialize_request-eq-ok_iff bytes t b = (
  λ h.
      let (r, r', w, k) = run_taken _ bytes t h in
      let (e, v) = deserialize_from_taken r t r' (rw w b) k in
      (rw (serialize-wire t, ← w, e) refl, v),
  λ (s, v). ground (arith, serialize-wire t, deserialize-wire t v),
)
