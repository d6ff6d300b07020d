-- ===== src/OptionalTokenResponse/RoundTrip.antt =====
-- A present response and an absent one are read back.
use privacypass_cpp.Prelude.{
  ◌≡◌, ap, ◌∙◌, refl, Bool, true, false, Option, none, some, [], ◌∷◌, ◌++◌, arith, inl, inr,
}
use privacypass_cpp.Types.{Bytes, TokenType, IsTokenType, to_u16, of_u16, ok}
use privacypass_cpp.Serialization.Reader.Window.{u16_bytes, read_u8-Takes, read_u16-Takes}
use privacypass_cpp.Serialization.Writer.Own.{own_writes}
use privacypass_cpp.Serialization.Parser.Rules.{
  Reads, pure-Reads, run-Reads, read-Reads, refuse_if->>-Reads, expect_end->>-Reads, >>=-Reads,
  ahead-Reads, lift-Reads,
}
use privacypass_cpp.TokenResponse
use privacypass_cpp.TokenResponse.{TokenResponse, TokenResponseVariant, rsa, voprf}
use privacypass_cpp.TokenResponse.RoundTrip.{IsSized, deserialize-serialize}
use privacypass_cpp.OptionalTokenResponse.{
  OptionalTokenResponse, absent, present_response, present_bytes, serialize, deserialize,
  deserialize_from, response_from,
}

abbrev pub variant_wire : TokenResponseVariant → Bytes
variant_wire (rsa r) = r.blind_sig
variant_wire (voprf r) = r.evaluate_msg ++ r.evaluate_proof

abbrev wire_parts : Bool → Option TokenResponse → Bytes
wire_parts true (some r) = 1 ∷ u16_bytes (to_u16 r.token_type) ++ variant_wire r.response
wire_parts present response = 0 ∷ []

abbrev pub wire : OptionalTokenResponse → Bytes
wire o = wire_parts o.present o.response

-- The flag says whether there is a response, and that has the sizes of its type.
abbrev IsValidParts : Bool → Option TokenResponse → Type 0
IsValidParts true (some r) = TokenResponse.RoundTrip.IsValid r
IsValidParts false none = Unit
IsValidParts present response = ⊥

abbrev pub IsValid : OptionalTokenResponse → Type 0
IsValid o = IsValidParts o.present o.response

serialize-variant : (r : TokenResponse) → TokenResponse.serialize r ≡ ok (variant_wire r.response)
unfolding TokenResponse.serialize
serialize-variant r = go r.token_type r.response
  where
    go :
        (type : TokenType) (v : TokenResponseVariant)
        → TokenResponse.serialize (record { token_type = type; response = v }) ≡ ok (variant_wire v)
    go type (rsa r) = refl
    go type (voprf r) = refl

pub serialize-wire : (o : OptionalTokenResponse) → serialize o ≡ ok (wire o)
unfolding serialize
serialize-wire o = go o.present o.response
  where
    go :
        (p : Bool) (m : Option TokenResponse)
        → serialize (record { present = p; response = m }) ≡ ok (wire_parts p m)
    go true (some r) = ap (present_bytes r) (serialize-variant r) ∙ simp own_writes
    go true none = simp own_writes
    go false m = simp own_writes

pub known_type : (type : TokenType) (v : TokenResponseVariant) → IsSized type v → IsTokenType type
unfolding to_u16 of_u16
known_type type (rsa r) (inl e, l) = rw e (omega arith, refl)
known_type type (rsa r) (inr e, l) = rw e (omega arith, refl)
known_type type (voprf r) (e, _, _) = rw e (omega arith, refl)

deserialize_from-Reads :
    (o : OptionalTokenResponse) → IsValid o → (w' : Bytes) × Reads deserialize_from (wire o) o w'
unfolding deserialize_from response_from
deserialize_from-Reads o v = go o.present o.response v
  where
    go :
        (p : Bool) (m : Option TokenResponse)
        → IsValidParts p m
        → (w' : Bytes) × Reads deserialize_from
            (wire_parts p m)
            (record { present = p; response = m })
            w'
    go true (some r) v =
        let (type, same) = known_type r.token_type r.response v in
        (
          variant_wire r.response,
          read-Reads _ _ _ _ _ _ _ _ (read_u8-Takes 1 _) (
              refuse_if->>-Reads _ _ _ _ _ _ refl (
                read-Reads _ _ _ _ _ _ _ _ (read_u16-Takes (to_u16 r.token_type) _ type) (
                  rw same (
                    >>=-Reads _ _ _ _ _ _ _
                      (ahead-Reads _ (variant_wire r.response) r _
                        (lift-Reads _ r _ (deserialize-serialize r _ v (serialize-variant r))))
                      (pure-Reads (present_response r) _))))),
        )
    go true none v = absurd v
    go false (some r) v = absurd v
    go false none v = (
      [],
      read-Reads _ _ _ _ _ _ _ _ (read_u8-Takes 0 [])
          (refuse_if->>-Reads _ _ _ _ _ _ refl (expect_end->>-Reads _ _ _ (pure-Reads absent []))),
    )

pub deserialize-wire : (o : OptionalTokenResponse) → IsValid o → deserialize (wire o) ≡ ok o
unfolding deserialize
deserialize-wire o v = let (w', reads) = deserialize_from-Reads o v in run-Reads _ _ o w' reads
