-- ===== src/Issuer/MultiKeyIssuer/Issue.antt =====
-- From which keys `MultiKeyIssuer` issues, after a key is added and after keys are removed.
use privacypass_cpp.Prelude.{
  ◌≡◌, refl, sym, Bool, true, false, some, ◌==◌, if◌then◌else◌, arith, ◌⊎◌, get_or, inl, inr, subst,
}
use privacypass_cpp.Types.{Bytes, voprf_p384_sha384, to_u16, issuer_unknown, error, Result, ok, err}
use privacypass_cpp.TokenRequest.{TokenRequest}
use privacypass_cpp.TokenResponse.{TokenResponse, create_blind_rsa}
use privacypass_cpp.PublicOrigin.{is_rsa}
use privacypass_cpp.Issuer.PublicIssuer
use privacypass_cpp.Issuer.PublicIssuer.{PublicIssuer, issuer_with, BlindRsaSigner}
use privacypass_cpp.Issuer.PrivateIssuer
use privacypass_cpp.Issuer.PrivateIssuer.{PrivateIssuer, VoprfSigner}
use privacypass_cpp.Issuer.KeyStore.{find_issuer, issue_with, store_key}
use privacypass_cpp.Issuer.KeyStore.Laws.{
  issue_with-remove_keys, issue_with-store_key, issue_with-ok,
}
use privacypass_cpp.Issuer.MultiKeyIssuer.{
  MultiKeyIssuer, add_blind_rsa_key, remove_key, issue, TokenType, unsupported_token_type,
}

-- What is answered for a key that is not there.
abbrev pub refusal : TokenType → Result TokenResponse
refusal type =
    if is_rsa type
    then err (error issuer_unknown "Unknown RSA key ID")
    else if to_u16 type == to_u16 voprf_p384_sha384
    then err (error issuer_unknown "Unknown VOPRF key ID")
    else err (error unsupported_token_type "Unsupported token type")

module _ {Rsa RsaPublic Voprf VoprfPublic : Type 0} (rsa_signer : BlindRsaSigner Rsa RsaPublic)
    (voprf_signer : VoprfSigner Voprf VoprfPublic) where
  abbrev IssuedRsa : TokenRequest → MultiKeyIssuer Rsa Voprf → TokenResponse → Type 0
  IssuedRsa request m response =
      (id : Bytes) × (issuer : PublicIssuer Rsa) × (find_issuer id m.rsa.issuers ≡ some issuer)
      × (PublicIssuer.issue rsa_signer request issuer ≡ ok response)

  abbrev IssuedVoprf :
      (Bytes → Bytes) → TokenRequest → MultiKeyIssuer Rsa Voprf → TokenResponse → Type 0
  IssuedVoprf random request m response =
      (id : Bytes) × (issuer : PrivateIssuer Voprf) × (find_issuer id m.voprf.issuers ≡ some issuer)
      × (PrivateIssuer.issue voprf_signer (random issuer.key_id) request issuer ≡ ok response)

  -- After `remove_key` no request for a key with that last byte of its id gets a response: of the RSA
  -- and of the VOPRF types each is told that the key is unknown, of another that it is unsupported.
  pub issue-remove_key :
      (random : Bytes → Bytes) (request : TokenRequest) (m : MultiKeyIssuer Rsa Voprf)
      → issue rsa_signer voprf_signer random request (remove_key request.truncated_token_key_id m)
        ≡ refusal request.token_type
  unfolding issue remove_key
  issue-remove_key random request m = simp (issue_with-remove_keys)

  issued :
      (request : TokenRequest) (key : Rsa) (id blind_sig : Bytes)
      → is_rsa request.token_type ≡ true
      → request.truncated_token_key_id ≡ get_or id 31 0
      → rsa_signer.blind_sign key request.blinded_msg ≡ ok blind_sig
      → PublicIssuer.issue rsa_signer request (issuer_with key (ok id))
        ≡ ok (create_blind_rsa blind_sig)
  unfolding PublicIssuer.issue
  issued request key id blind_sig type t s =
      let same : (get_or id 31 0 == get_or id 31 0) ≡ true = ground arith in
      rw (type, t, same, s) refl

  -- After `add_blind_rsa_key` has taken in a key, every RSA request for the last byte of its id whose
  -- message the key signs gets a response.
  pub issue-add_blind_rsa_key :
      (random : Bytes → Bytes) (request : TokenRequest) (key : Rsa) (public : RsaPublic)
      (id blind_sig : Bytes) (m : MultiKeyIssuer Rsa Voprf)
      → rsa_signer.public_key key ≡ ok public
      → rsa_signer.key_id public ≡ ok id
      → rsa_signer.blind_sign key request.blinded_msg ≡ ok blind_sig
      → is_rsa request.token_type ≡ true
      → request.truncated_token_key_id ≡ get_or id 31 0
      → (response : TokenResponse) × (issue rsa_signer voprf_signer random request
            (add_blind_rsa_key rsa_signer key m).1
          ≡ ok response)
  unfolding issue add_blind_rsa_key PublicIssuer.create
  issue-add_blind_rsa_key random request key public id blind_sig m p k s type t =
      let issuer = issuer_with key (ok id) in
      let try_issuer = PublicIssuer.issue rsa_signer request in
      let unknown = error issuer_unknown "Unknown RSA key ID" in
      let unmatched = error issuer_unknown "No matching RSA key found" in
      rw (p, k, type)
        (subst
          (λ n.
            (answer : TokenResponse) × (issue_with try_issuer unknown unmatched n
                (store_key id (get_or id 31 0) issuer m.rsa)
              ≡ ok answer))
          (sym t)
          (issue_with-store_key try_issuer unknown unmatched (get_or id 31 0) id issuer m.rsa
            (create_blind_rsa blind_sig) (issued request key id blind_sig type t s)))

  -- A response is that of one issuer that is held, of the kind that the request's type names.
  pub issue-eq-ok :
      (random : Bytes → Bytes) (request : TokenRequest) (m : MultiKeyIssuer Rsa Voprf)
      (response : TokenResponse)
      → issue rsa_signer voprf_signer random request m ≡ ok response
      → IssuedRsa request m response ⊎ IssuedVoprf random request m response
  unfolding issue
  issue-eq-ok random request m response h =
      go (is_rsa request.token_type) (to_u16 request.token_type == to_u16 voprf_p384_sha384) h
    where
      go :
          (p q : Bool)
          → (if p
              then issue_with
                  (PublicIssuer.issue rsa_signer request)
                  (error issuer_unknown "Unknown RSA key ID")
                  (error issuer_unknown "No matching RSA key found")
                  request.truncated_token_key_id
                  m.rsa
              else if q
              then issue_with
                  (λ issuer. PrivateIssuer.issue voprf_signer (random issuer.key_id) request issuer)
                  (error issuer_unknown "Unknown VOPRF key ID")
                  (error issuer_unknown "No matching VOPRF key found")
                  request.truncated_token_key_id
                  m.voprf
              else err (error unsupported_token_type "Unsupported token type"))
            ≡ ok response
          → IssuedRsa request m response ⊎ IssuedVoprf random request m response
      go true q k = inl (issue_with-ok _ _ _ _ m.rsa response k)
      go false true k = inr (issue_with-ok _ _ _ _ m.voprf response k)
      go false false k = absurd cc
