-- ===== src/TokenResponse/RoundTrip.antt =====
-- `TokenResponse::deserialize` answers exactly what serialises to its input, for the token type
-- that the caller names.
use privacypass_cpp.Prelude.{
  ◌≡◌, ◌↔◌, refl, ◌⊎◌, ◌++◌, ◌==◌, length, take, drop, take-append-drop, take-append, drop-append,
  length-take, length-append, arith, length-drop, inl, Bool-cases, inr, ==_iff, ap,
}
use privacypass_cpp.Types.{Bytes, TokenType, voprf_p384_sha384, blind_rsa, partially_blind_rsa, ok}
use privacypass_cpp.TokenResponse.{
  TokenResponse, TokenResponseVariant, rsa, voprf, serialize, deserialize, of_rsa,
}

-- The sizes of the issuer's answers, and the types that each stands under.
abbrev pub IsSized : TokenType → TokenResponseVariant → Type 0
IsSized type (rsa r) =
    ((type ≡ blind_rsa) ⊎ (type ≡ partially_blind_rsa)) × (length r.blind_sig ≡ 256)
IsSized type (voprf r) =
    (type ≡ voprf_p384_sha384) × (length r.evaluate_msg ≡ 49) × (length r.evaluate_proof ≡ 96)

abbrev pub IsValid : TokenResponse → Type 0
IsValid t = IsSized t.token_type t.response

abbrev rsa_response : TokenType → Bytes → TokenResponse
rsa_response type sig = record { token_type = type; response = rsa (record { blind_sig = sig }) }

abbrev voprf_response : Bytes → Bytes → TokenResponse
voprf_response msg proof = record {
  token_type = voprf_p384_sha384;
  response = voprf (record { evaluate_msg = msg; evaluate_proof = proof });
}

split_sizes :
    (bytes : Bytes)
    → length bytes ≡ 145
    → (length (take 49 bytes) ≡ 49) × (length (drop 49 bytes) ≡ 96)
split_sizes bytes h = omega (arith, length-take 49 bytes, length-drop 49 bytes)

-- What the claim says of a success.
abbrev Faithful : TokenType → Bytes → TokenResponse → Type 0
Faithful type bytes t = (serialize t ≡ ok bytes) × IsValid t × (t.token_type ≡ type)

voprf-Faithful :
    (bytes : Bytes)
    → length bytes ≡ 145
    → Faithful voprf_p384_sha384 bytes (voprf_response (take 49 bytes) (drop 49 bytes))
unfolding serialize
voprf-Faithful bytes h =
    let (l, m) = split_sizes bytes h in (ap ok (take-append-drop 49 bytes), (refl, l, m), refl)

of_rsa-Faithful :
    (type : TokenType) (bytes : Bytes) (t : TokenResponse)
    → ((type ≡ blind_rsa) ⊎ (type ≡ partially_blind_rsa))
    → of_rsa type bytes ≡ ok t
    → Faithful type bytes t
unfolding of_rsa serialize deserialize
of_rsa-Faithful type bytes t known h = elim (Bool-cases (length bytes == 256)) [
  | inl whole ↦
      let same : rsa_response type bytes ≡ t = ground arith in
      rw (← same) (refl, (known, (==_iff _ _).0 whole), refl)
  | inr short ↦ absurd (ground arith)
]

of_voprf-Faithful :
    (bytes : Bytes) (t : TokenResponse)
    → deserialize voprf_p384_sha384 bytes ≡ ok t
    → Faithful voprf_p384_sha384 bytes t
unfolding serialize deserialize
of_voprf-Faithful bytes t h = elim (Bool-cases (length bytes == 145)) [
  | inl whole ↦
      let same : voprf_response (take 49 bytes) (drop 49 bytes) ≡ t = ground arith in
      rw (← same) (voprf-Faithful bytes ((==_iff _ _).0 whole))
  | inr short ↦ absurd (ground arith)
]

deserialize-Faithful :
    (type : TokenType) (bytes : Bytes) (t : TokenResponse)
    → deserialize type bytes ≡ ok t
    → Faithful type bytes t
unfolding deserialize
deserialize-Faithful blind_rsa bytes t h = of_rsa-Faithful blind_rsa bytes t (inl refl) h
deserialize-Faithful partially_blind_rsa bytes t h =
    of_rsa-Faithful partially_blind_rsa bytes t (inr refl) h
deserialize-Faithful voprf_p384_sha384 bytes t h = of_voprf-Faithful bytes t h
deserialize-Faithful _ bytes t h = absurd (ground arith)

of_rsa-blind_sig :
    (type : TokenType) (sig : Bytes)
    → length sig ≡ 256
    → of_rsa type sig ≡ ok (rsa_response type sig)
unfolding of_rsa deserialize
of_rsa-blind_sig type sig h = ground arith

of_voprf-parts :
    (msg proof : Bytes)
    → length msg ≡ 49
    → length proof ≡ 96
    → deserialize voprf_p384_sha384 (msg ++ proof) ≡ ok (voprf_response msg proof)
unfolding deserialize
of_voprf-parts msg proof h k =
    rw (length-append msg proof, h, k, take-append 49 msg proof h, drop-append 49 msg proof h) refl

by_response :
    (type : TokenType) (r : TokenResponseVariant) (bytes : Bytes)
    → IsSized type r
    → serialize (record { token_type = type; response = r }) ≡ ok bytes
    → deserialize type bytes ≡ ok (record { token_type = type; response = r })
unfolding serialize deserialize
by_response type (rsa r) bytes (inl e, l) h =
    let same : r.blind_sig ≡ bytes = ground arith in
    rw (← same, e) (of_rsa-blind_sig blind_rsa r.blind_sig l)
by_response type (rsa r) bytes (inr e, l) h =
    let same : r.blind_sig ≡ bytes = ground arith in
    rw (← same, e) (of_rsa-blind_sig partially_blind_rsa r.blind_sig l)
by_response type (voprf r) bytes (e, l, m) h =
    let same : r.evaluate_msg ++ r.evaluate_proof ≡ bytes = ground arith in
    rw (← same, e) (of_voprf-parts r.evaluate_msg r.evaluate_proof l m)

pub deserialize-serialize :
    (t : TokenResponse) (bytes : Bytes)
    → IsValid t
    → serialize t ≡ ok bytes
    → deserialize t.token_type bytes ≡ ok t
deserialize-serialize t bytes v h = by_response t.token_type t.response bytes v h

-- `deserialize` answers `t` for the type that the caller names exactly where that is the type of
-- `t`, the type and the sizes of `t` fit, and the bytes are its serialisation.
pub deserialize_response-eq-ok_iff :
    (type : TokenType) (bytes : Bytes) (t : TokenResponse)
    → (deserialize type bytes ≡ ok t)
      ↔ ((serialize t ≡ ok bytes) × IsValid t × (t.token_type ≡ type))
deserialize_response-eq-ok_iff type bytes t =
    (deserialize-Faithful type bytes t, λ (s, v, e). rw (← e) (deserialize-serialize t bytes v s))
