-- ===== src/Issuer/MultiKeyIssuer.antt =====
-- `MultiKeyIssuer` of src/core/issuer.cpp: issuers of both kinds, with a key each.
pub mod Issue
use privacypass_cpp.Prelude.{ℕ, Option, none, some, List, [], ◌∷◌, ◌++◌, ◌==◌, if◌then◌else◌}
use privacypass_cpp.Types.{
  Bytes, PublicKey, blind_rsa, voprf_p384_sha384, to_u16, unsupported_token_type, issuer_unknown,
  error, Result, ok, err, ◌>>=◌, TokenType,
}
use privacypass_cpp.TokenRequest.{TokenRequest}
use privacypass_cpp.TokenResponse.{TokenResponse}
use privacypass_cpp.PublicOrigin.{is_rsa}
use privacypass_cpp.Issuer.PublicIssuer
use privacypass_cpp.Issuer.PublicIssuer.{PublicIssuer, BlindRsaSigner}
use privacypass_cpp.Issuer.PrivateIssuer
use privacypass_cpp.Issuer.PrivateIssuer.{PrivateIssuer, VoprfSigner}
use privacypass_cpp.Issuer.KeyStore.{
  IssuerEntry, KeyStore, empty_store, store_key, remove_keys, issue_with,
}

pub record MultiKeyIssuer (Rsa : Type 0) (Voprf : Type 0) : Type 0 where
  pub rsa : KeyStore (PublicIssuer Rsa)
  pub voprf : KeyStore (PrivateIssuer Voprf)

abbrev pub create : {Rsa Voprf : Type 0} → MultiKeyIssuer Rsa Voprf
create = record { rsa = empty_store; voprf = empty_store }

module _ {Rsa RsaPublic Voprf : Type 0} (signer : BlindRsaSigner Rsa RsaPublic) where
  abbrev pub add_rsa_with :
      PublicIssuer Rsa
      → Result Bytes
      → MultiKeyIssuer Rsa Voprf
      → Result (Unit {0}) × MultiKeyIssuer Rsa Voprf
  add_rsa_with issuer (err e) m = (err e, m)
  add_rsa_with issuer (ok id) m =
      (ok tt, record m { rsa = store_key id issuer.truncated_key_id issuer m.rsa })

  unfoldable pub add_blind_rsa_key :
      Rsa → MultiKeyIssuer Rsa Voprf → Result (Unit {0}) × MultiKeyIssuer Rsa Voprf
  add_blind_rsa_key key m =
      add_rsa_with (PublicIssuer.create signer key) (signer.public_key key >>= signer.key_id) m

module _ {Rsa Voprf VoprfPublic : Type 0} (signer : VoprfSigner Voprf VoprfPublic) where
  abbrev pub add_voprf_with :
      PrivateIssuer Voprf
      → Result Bytes
      → MultiKeyIssuer Rsa Voprf
      → Result (Unit {0}) × MultiKeyIssuer Rsa Voprf
  add_voprf_with issuer (err e) m = (err e, m)
  add_voprf_with issuer (ok id) m =
      (ok tt, record m { voprf = store_key id issuer.truncated_key_id issuer m.voprf })

  pub add_voprf_key :
      Bytes × ℕ → Voprf → MultiKeyIssuer Rsa Voprf → Result (Unit {0}) × MultiKeyIssuer Rsa Voprf
  add_voprf_key held key m =
      add_voprf_with (PrivateIssuer.create signer held key)
        (signer.public_key key >>= signer.key_id) m

pub remove_key : {Rsa Voprf : Type 0} → ℕ → MultiKeyIssuer Rsa Voprf → MultiKeyIssuer Rsa Voprf
remove_key truncated_key_id m = record {
  rsa = remove_keys truncated_key_id m.rsa;
  voprf = remove_keys truncated_key_id m.voprf;
}

module _ {Rsa RsaPublic Voprf VoprfPublic : Type 0} (rsa_signer : BlindRsaSigner Rsa RsaPublic)
    (voprf_signer : VoprfSigner Voprf VoprfPublic) where
  -- The randomness of a proof is given for each key that is tried.
  unfoldable pub issue :
      (Bytes → Bytes) → TokenRequest → MultiKeyIssuer Rsa Voprf → Result TokenResponse
  issue random request m =
      if is_rsa request.token_type
      then issue_with (PublicIssuer.issue rsa_signer request)
          (error issuer_unknown "Unknown RSA key ID")
          (error issuer_unknown "No matching RSA key found") request.truncated_token_key_id m.rsa
      else if to_u16 request.token_type == to_u16 voprf_p384_sha384
      then issue_with
          (λ issuer. PrivateIssuer.issue voprf_signer (random issuer.key_id) request issuer)
          (error issuer_unknown "Unknown VOPRF key ID")
          (error issuer_unknown "No matching VOPRF key found") request.truncated_token_key_id
          m.voprf
      else err (error unsupported_token_type "Unsupported token type")

pub record IssuerConfig : Type 0 where
  pub issuer_request_uri : Bytes
  pub token_keys : List PublicKey
  pub not_before : Option ℕ

-- A key is listed where its text and its id are both to be had.
abbrev listed : TokenType → Result Bytes → Result Bytes → List PublicKey → List PublicKey
listed type (ok bytes) (ok id) keys = record { type = type; key_data = bytes; key_id = id } ∷ keys
listed type (ok bytes) (err e) keys = keys
listed type (err e) id keys = keys

module _ {Rsa RsaPublic Voprf VoprfPublic : Type 0} (rsa_signer : BlindRsaSigner Rsa RsaPublic)
    (voprf_signer : VoprfSigner Voprf VoprfPublic) (to_spki : RsaPublic → Result Bytes)
    (to_bytes : VoprfPublic → Result Bytes) where
  rsa_keys : List (IssuerEntry (PublicIssuer Rsa)) → List PublicKey
  rsa_keys [] = []
  rsa_keys (e ∷ es) =
      let public = rsa_signer.public_key e.issuer.private_key in
      listed blind_rsa (public >>= to_spki) (public >>= rsa_signer.key_id) (rsa_keys es)

  voprf_keys : List (IssuerEntry (PrivateIssuer Voprf)) → List PublicKey
  voprf_keys [] = []
  voprf_keys (e ∷ es) =
      let public = voprf_signer.public_key e.issuer.private_key in
      listed voprf_p384_sha384 (public >>= to_bytes) (public >>= voprf_signer.key_id)
        (voprf_keys es)

  -- The maps have no order; this is the order in which the keys came.
  pub public_keys : MultiKeyIssuer Rsa Voprf → List PublicKey
  unfolding rsa_keys voprf_keys
  public_keys m = rsa_keys m.rsa.issuers ++ voprf_keys m.voprf.issuers

  pub config : Bytes → MultiKeyIssuer Rsa Voprf → IssuerConfig
  unfolding public_keys
  config request_uri m = record {
    issuer_request_uri = request_uri;
    token_keys = public_keys m;
    not_before = none;
  }
