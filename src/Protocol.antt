-- ===== src/Protocol.antt =====
-- A run of the issuance protocol with an RSA key and the redemption after it: `PublicClient` of
-- src/core/client.cpp asks, `PublicIssuer` of src/core/issuer.cpp answers, and `PublicOrigin` of
-- src/core/origin.cpp verifies the token.
use privacypass_cpp.Prelude.{ℕ, ◌≡◌, refl, ap, ◌∙◌, true, some, length, get_or, arith, [], ◌==◌}
use privacypass_cpp.Types.{Bytes, blind_rsa, for_type, to_u16, Result, ok, ◌>>=◌, TokenType}
use privacypass_cpp.AuthenticatorInput.RoundTrip.{wire, serialize-wire}
use privacypass_cpp.Token
use privacypass_cpp.Token.{Token}
use privacypass_cpp.TokenRequest
use privacypass_cpp.TokenChallenge
use privacypass_cpp.TokenChallenge.{TokenChallenge, digest, digest_of}
use privacypass_cpp.TokenChallenge.Digest.{IsCurrent, digest-IsCurrent}
use privacypass_cpp.Client.{
  BlindingData, auth_input, blinding, request_result, token_of, FinalizationData, kept_input,
}
use privacypass_cpp.Client.PublicClient.{BlindRsaKeys, create_token_request, finalize}
use privacypass_cpp.Issuer.PublicIssuer.{BlindRsaSigner, create, issue}
use privacypass_cpp.TokenResponse.{create_blind_rsa}
use privacypass_cpp.PublicOrigin.{RsaCrypto, PublicOrigin, find_index, key_at, verify, is_rsa}
use privacypass_cpp.PublicOrigin.Verify.{accepts-verify}

module _ {Private Public : Type 0} (crypto : RsaCrypto Public) (keys : BlindRsaKeys Public)
    (signer : BlindRsaSigner Private Public) (private_key : Private) (key : Public) where
  -- The client asks, the issuer that has the private key answers, and the client finishes.
  abbrev pub obtain : Bytes → Bytes → TokenChallenge → Result Token × TokenChallenge
  obtain nonce random challenge =
      let (asked, challenge') =
        create_token_request crypto.sha256 keys (ok nonce) random challenge key in
      (
        asked >>= λ made. issue signer made.request (create signer private_key) >>= λ response.
            finalize keys response made.finalization_data key,
        challenge',
      )

  -- RFC 9474 of one message: it can be blinded, the blinded message can be signed, and what the client
  -- makes of the blind signature is a signature of the message.
  abbrev pub Unblinds : Bytes → Bytes → Type 0
  Unblinds random message =
      (kept : BlindingData) × (blind_sig signature : Bytes) × (keys.blind random key message
        ≡ ok kept)
      × (signer.blind_sign private_key kept.blinded_msg ≡ ok blind_sig)
      × (keys.finalize key blind_sig kept message ≡ ok signature)
      × (length signature ≡ 256)
      × (crypto.verify key message signature ≡ ok true)

  -- The keys belong together: the public key is that of the private key, its id is one, and the
  -- scheme works for each message.
  pub record IsKeyPair (id random : Bytes) : Type 0 where
    pub public : signer.public_key private_key ≡ ok key
    pub issuer_id : signer.key_id key ≡ ok id
    pub client_id : keys.key_id key ≡ ok id
    pub unblinds : (message : Bytes) → Unblinds random message

  -- The origin finds the key under its id.
  abbrev pub Holds : Bytes → PublicOrigin Public → Type 0
  Holds id o =
      (index : ℕ) × (find_index id o.key_index_by_full_id ≡ some index)
      × (key_at o.issuer_keys index ≡ some key)

  abbrev pub Obtained : Bytes → Bytes → Result Token × TokenChallenge → PublicOrigin Public → Type 0
  Obtained nonce random result o =
      (token : Token) × (result.0 ≡ ok token)
      × (token.nonce ≡ nonce)
      × ((verify crypto token result.1 o).0 ≡ some (ok true))

  asked :
      (id nonce random : Bytes) (challenge : TokenChallenge) (d : Bytes) (kept : BlindingData)
      → keys.key_id key ≡ ok id
      → (digest crypto.sha256 challenge).0 ≡ ok d
      → keys.blind random key (wire (auth_input challenge nonce d id) []) ≡ ok kept
      → (create_token_request crypto.sha256 keys (ok nonce) random challenge key).0
        ≡ ok (request_result challenge nonce d id kept.blinded_msg (blinding kept))
  unfolding create_token_request
  asked id nonce random challenge d kept k e b =
      rw (e, k, serialize-wire (auth_input challenge nonce d id), b) refl

  issued :
      (type : TokenType) (id blinded blind_sig : Bytes)
      → type ≡ blind_rsa
      → signer.public_key private_key ≡ ok key
      → signer.key_id key ≡ ok id
      → signer.blind_sign private_key blinded ≡ ok blind_sig
      → issue signer (TokenRequest.create type (get_or id 31 0) blinded) (create signer private_key)
        ≡ ok (create_blind_rsa blind_sig)
  unfolding issue create TokenRequest.create is_rsa to_u16
  issued type id blinded blind_sig t p k s =
      let same : (get_or id 31 0 == get_or id 31 0) ≡ true = ground arith in
      rw (t, p, k, same, s) refl

  finished :
      (kept_data : FinalizationData) (kept : BlindingData) (blind_sig signature : Bytes)
      → kept_data.client_data ≡ blinding kept
      → keys.finalize key blind_sig kept (wire (kept_input kept_data) []) ≡ ok signature
      → finalize keys (create_blind_rsa blind_sig) kept_data key ≡ ok (token_of kept_data signature)
  unfolding finalize
  finished kept_data kept blind_sig signature e f =
      rw (e, serialize-wire (kept_input kept_data), f) refl

  valid_token :
      (token : Token)
      → token.token_type ≡ blind_rsa
      → length token.authenticator ≡ 256
      → (Token.validate token ≡ ok tt) × (is_rsa token.token_type ≡ true)
  unfolding Token.validate for_type is_rsa to_u16
  valid_token token t size = (rw (t, size) refl, rw t refl)

  -- Where the keys belong together and the origin holds the public key: for every RSA challenge that
  -- can be hashed, with no cached digest but its own, and for every nonce, the client obtains a token
  -- with that nonce, and the origin verifies it against the challenge.
  pub obtain-verify :
      (id nonce random : Bytes) (challenge : TokenChallenge) (d : Bytes) (o : PublicOrigin Public)
      → IsKeyPair id random
      → Holds id o
      → challenge.token_type ≡ blind_rsa
      → IsCurrent crypto.sha256 challenge
      → digest_of crypto.sha256 (TokenChallenge.serialize challenge) ≡ ok d
      → Obtained nonce random (obtain nonce random challenge) o
  unfolding create_token_request Token.create
  obtain-verify id nonce random challenge d o pair (index, found, at) type current e =
      let input = auth_input challenge nonce d id in
      let (kept, blind_sig, signature, b, s, f, size, v) = pair.unblinds (wire input []) in
      let made = request_result challenge nonce d id kept.blinded_msg (blinding kept) in
      let (answered, current', same, _) = digest-IsCurrent crypto.sha256 challenge current in
      let token = token_of made.finalization_data signature in
      let (valid, rsa_type) = valid_token token type size in
      let hashed = ap (digest_of crypto.sha256) same ∙ e in
      (
        token,
        rw
            (
              asked id nonce random challenge d kept pair.client_id (answered ∙ e) b,
              issued challenge.token_type id kept.blinded_msg blind_sig type pair.public
                  pair.issuer_id s,
            )
            (finished made.finalization_data kept blind_sig signature refl f),
        refl,
        accepts-verify crypto token (digest crypto.sha256 challenge).1 o current' (
          valid,
          rsa_type,
          hashed,
          (index, key, wire input [], found, at, serialize-wire input, v),
        ),
      )
