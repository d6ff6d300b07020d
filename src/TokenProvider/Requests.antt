-- ===== src/TokenProvider/Requests.antt =====
-- `prepare_request`, `finalize` and their batches, of src/core/token_provider.cpp.
use privacypass_cpp.Prelude.{
  ℕ, zero, suc, ◌+◌, Bool, true, false, not, ◌&&◌, ◌||◌, Option, none, some, List, [], ◌∷◌, ◌++◌,
  ◌==◌, leb, if◌then◌else◌, length,
}
use privacypass_cpp.Types.{
  Bytes, voprf_p384_sha384, to_u16, PublicKey, invalid_challenge, issuer_unknown,
  unsupported_token_type, malformed_data, error, text, Result, ok, err, ◌>>=◌,
}
use privacypass_cpp.NonceSet.{same}
use privacypass_cpp.Token.{Token}
use privacypass_cpp.TokenChallenge.{TokenChallenge, digest}
use privacypass_cpp.TokenRequest.{TokenRequest}
use privacypass_cpp.TokenResponse.{TokenResponse}
use privacypass_cpp.PublicOrigin.{is_rsa}
use privacypass_cpp.Client.{FinalizationData, TokenRequestResult}
use privacypass_cpp.Client.PublicClient
use privacypass_cpp.Client.PublicClient.{BlindRsaKeys}
use privacypass_cpp.Client.PrivateClient
use privacypass_cpp.Client.PrivateClient.{VoprfKeys}
use privacypass_cpp.TokenProvider.{IssuerKeys, TokenProvider, find_key}

pub record TokenRequestContext : Type 0 where
  pub request : TokenRequest
  pub finalization_data : FinalizationData
  pub challenge_digest : Bytes

-- `std::tolower` in the C locale.
to_lower : ℕ → ℕ
to_lower c = if leb b'A' c && leb c b'Z' then c + 32 else c

ascii_equal_case_insensitive : Bytes → Bytes → Bool
unfolding to_lower
ascii_equal_case_insensitive [] [] = true
ascii_equal_case_insensitive (a ∷ as_) (b ∷ bs) =
    (to_lower a == to_lower b) && ascii_equal_case_insensitive as_ bs
ascii_equal_case_insensitive [] (b ∷ bs) = false
ascii_equal_case_insensitive (a ∷ as_) [] = false

any_origin : Bytes → List Bytes → Bool
unfolding ascii_equal_case_insensitive
any_origin origin [] = false
any_origin origin (candidate ∷ candidates) =
    ascii_equal_case_insensitive origin candidate || any_origin origin candidates

pub origin_info_allows : Bytes → List Bytes → Bool
unfolding any_origin
origin_info_allows origin origin_info =
    if length origin_info == 0
    then true
    else if length origin == 0
    then false
    else any_origin origin origin_info

-- The first error ends a batch.
abbrev next_context :
    Result TokenRequestContext × TokenChallenge
    → (TokenChallenge → Result (List TokenRequestContext) × TokenChallenge)
    → Result (List TokenRequestContext) × TokenChallenge
next_context (err e, challenge) rest = (err e, challenge)
next_context (ok context, challenge) rest =
    let (contexts, challenge') = rest challenge in
    (contexts >>= λ cs. ok (context ∷ cs), challenge')

module _ {Rsa Voprf : Type 0} (sha256 : Bytes → Result Bytes) (rsa_keys : BlindRsaKeys Rsa)
    (from_spki : Bytes → Result Rsa) (voprf_keys : VoprfKeys Voprf) where
  abbrev context_of : Bytes → TokenRequestResult → TokenRequestContext
  context_of digest made = record {
    request = made.request;
    finalization_data = made.finalization_data;
    challenge_digest = digest;
  }

  abbrev with_context :
      Bytes
      → Result TokenRequestResult × TokenChallenge
      → Result TokenRequestContext × TokenChallenge
  with_context digest (result, challenge) =
      (result >>= λ made. ok (context_of digest made), challenge)

  abbrev prepare_rsa :
      Result Bytes
      → Bytes
      → Bytes
      → TokenChallenge
      → Result Rsa
      → Result TokenRequestContext × TokenChallenge
  prepare_rsa nonce random digest challenge (err e) = (err e, challenge)
  prepare_rsa nonce random digest challenge (ok key) =
      with_context digest
        (PublicClient.create_token_request sha256 rsa_keys nonce random challenge key)

  abbrev prepare_voprf :
      Result Bytes
      → Bytes
      → Bytes
      → TokenChallenge
      → Result Voprf
      → Result TokenRequestContext × TokenChallenge
  prepare_voprf nonce random digest challenge (err e) = (err e, challenge)
  prepare_voprf nonce random digest challenge (ok key) =
      with_context digest
        (PrivateClient.create_token_request sha256 voprf_keys nonce random challenge key)

  -- From the digest on.
  abbrev prepare_from :
      Result Bytes
      → Bytes
      → PublicKey
      → Result Bytes × TokenChallenge
      → Result TokenRequestContext × TokenChallenge
  prepare_from nonce random key (err e, challenge) = (err e, challenge)
  prepare_from nonce random key (ok digest, challenge) =
      if is_rsa challenge.token_type
      then prepare_rsa nonce random digest challenge (from_spki key.key_data)
      else if to_u16 challenge.token_type == to_u16 voprf_p384_sha384
      then prepare_voprf nonce random digest challenge (voprf_keys.from_bytes key.key_data)
      else (err (error unsupported_token_type "Unsupported token type"), challenge)

  abbrev prepare_with :
      Result Bytes
      → Bytes
      → TokenChallenge
      → Option PublicKey
      → Result TokenRequestContext × TokenChallenge
  prepare_with nonce random challenge none = (
    err (record {
      code = issuer_unknown;
      message = text "No key found for issuer: " ++ challenge.issuer_name;
    }),
    challenge,
  )
  prepare_with nonce random challenge (some key) =
      prepare_from nonce random key (digest sha256 challenge)

  -- What the random generator answers for the nonce and for the blinding is given.
  pub prepare_request :
      Result Bytes
      → Bytes
      → TokenChallenge
      → TokenProvider
      → Result TokenRequestContext × TokenChallenge
  unfolding origin_info_allows find_key
  prepare_request nonce random challenge p =
      if not (origin_info_allows p.config.origin_name challenge.origin_info)
      then (
        err (error invalid_challenge "Challenge origin_info does not include current origin"),
        challenge,
      )
      else prepare_with nonce random challenge
          (find_key challenge.issuer_name challenge.token_type p.issuer_keys)

  -- Each request of the batch has its own nonce and its own randomness.
  pub prepare_each :
      (ℕ → Result Bytes)
      → (ℕ → Bytes)
      → ℕ
      → TokenChallenge
      → TokenProvider
      → Result (List TokenRequestContext) × TokenChallenge
  unfolding prepare_request
  prepare_each nonces randoms zero challenge p = (ok [], challenge)
  prepare_each nonces randoms (suc n) challenge p =
      next_context (prepare_request (nonces n) (randoms n) challenge p)
        (λ challenge'. prepare_each nonces randoms n challenge' p)

  pub prepare_batch_request :
      (ℕ → Result Bytes)
      → (ℕ → Bytes)
      → TokenChallenge
      → ℕ
      → TokenProvider
      → Result (List TokenRequestContext) × TokenChallenge
  unfolding prepare_each
  prepare_batch_request nonces randoms challenge count p =
      prepare_each nonces randoms count challenge p

-- The loop over the keys of an issuer, with what comes behind them.
pub over_keys : (PublicKey → Option (Result Token)) → List PublicKey → Result Token → Result Token
over_keys attempt [] rest = rest
over_keys attempt (key ∷ keys) rest = elim (attempt key) [
  | some result ↦ result
  | none ↦ over_keys attempt keys rest
]

pub over_issuers : (PublicKey → Option (Result Token)) → List IssuerKeys → Result Token
unfolding over_keys
over_issuers attempt [] = err (error issuer_unknown "No matching key found for finalization")
over_issuers attempt (e ∷ es) = over_keys attempt e.keys (over_issuers attempt es)

module _ {Rsa Voprf : Type 0} (rsa_keys : BlindRsaKeys Rsa) (from_spki : Bytes → Result Rsa)
    (voprf_keys : VoprfKeys Voprf) where
  -- `none` goes on to the next key.
  abbrev finish_rsa : TokenResponse → FinalizationData → Result Rsa → Option (Result Token)
  finish_rsa response kept (err e) = none
  finish_rsa response kept (ok key) = some (PublicClient.finalize rsa_keys response kept key)

  abbrev finish_voprf : TokenResponse → FinalizationData → Result Voprf → Option (Result Token)
  finish_voprf response kept (err e) = none
  finish_voprf response kept (ok key) = some (PrivateClient.finalize voprf_keys response kept key)

  abbrev is_for : TokenResponse → FinalizationData → PublicKey → Bool
  is_for response kept key =
      (to_u16 key.type == to_u16 response.token_type) && same key.key_id kept.token_key_id

  -- The maps have no order; the keys are tried in the order in which they came.
  unfoldable pub finalize : TokenResponse → TokenRequestContext → TokenProvider → Result Token
  unfolding over_issuers
  finalize response context p =
      let kept = context.finalization_data in
      if is_rsa response.token_type
      then over_issuers
          (λ key.
            if is_for response kept key
            then finish_rsa response kept (from_spki key.key_data)
            else none)
          p.issuer_keys
      else if to_u16 response.token_type == to_u16 voprf_p384_sha384
      then over_issuers
          (λ key.
            if is_for response kept key
            then finish_voprf response kept (voprf_keys.from_bytes key.key_data)
            else none)
          p.issuer_keys
      else err (error issuer_unknown "No matching key found for finalization")

  pub finalize_each :
      List TokenResponse → List TokenRequestContext → TokenProvider → Result (List Token)
  unfolding finalize
  finalize_each (response ∷ responses) (context ∷ contexts) p =
      finalize response context p >>= λ token.
      finalize_each responses contexts p >>= λ tokens. ok (token ∷ tokens)
  finalize_each [] contexts p = ok []
  finalize_each (response ∷ responses) [] p = ok []

  pub finalize_batch :
      List TokenResponse → List TokenRequestContext → TokenProvider → Result (List Token)
  unfolding finalize_each
  finalize_batch responses contexts p =
      if not (length responses == length contexts)
      then err (error malformed_data "Response and context count mismatch")
      else finalize_each responses contexts p
