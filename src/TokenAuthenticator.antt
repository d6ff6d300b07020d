-- ===== src/TokenAuthenticator.antt =====
-- `TokenAuthenticator` of include/privacy_pass/core/token_authenticator.hpp and
-- src/core/token_authenticator.cpp: the trusted keys, validation and redemption. Each method holds
-- the mutex from its start to its end, so that a call is one step.
pub mod Validate
pub mod Redeem
pub mod Trust
use privacypass_cpp.Prelude.{
  ℕ, Bool, true, false, not, ◌||◌, Option, none, some, List, [], ◌∷◌, ◌++◌, ◌==◌, if◌then◌else◌,
  length,
}
use privacypass_cpp.Types.{
  Bytes, TokenType, ErrorCode, crypto_error, invalid_challenge, token_invalid, token_replayed,
  Error, text, Result, ok, err, constant_time_equal,
}
use privacypass_cpp.NonceSet.{same, contains}
use privacypass_cpp.RedeemedNonces
use privacypass_cpp.RedeemedNonces.{RedeemedNonces}
use privacypass_cpp.Token.{Token}
use privacypass_cpp.Token
use privacypass_cpp.TokenChallenge
use privacypass_cpp.TokenChallenge.{TokenChallenge, digest}
use privacypass_cpp.PublicOrigin.{OriginConfig, RsaCrypto}
use privacypass_cpp.Origin
use privacypass_cpp.Origin.{KeyCodec, Origin}

pub record ValidationResult : Type 0 where
  pub valid : Bool
  pub error_code : Option ErrorCode
  pub error_message : Option Bytes
  pub challenge_digest : Option Bytes

unfoldable pub success : Bytes → ValidationResult
success digest = record {
  valid = true;
  error_code = none;
  error_message = none;
  challenge_digest = some digest;
}

pub failure : ErrorCode → Bytes → ValidationResult
failure code message = record {
  valid = false;
  error_code = some code;
  error_message = if length message == 0 then none else some message;
  challenge_digest = none;
}

pub record TokenAuthenticatorConfig : Type 0 where
  pub issuer_name : Bytes
  pub origin_names : List Bytes
  pub redemption_window : ℕ
  pub replay_window : ℕ
  pub require_redemption_context : Bool
  pub max_replay_cache_size : ℕ

-- An entry of `rsa_keys` or `voprf_keys`.
pub record TrustedKeys (Key : Type 0) : Type 0 where
  pub issuer_name : Bytes
  pub keys : List Key

module _ {Key : Type 0} where
  -- `find(issuer_name) != end()`
  pub has_issuer : Bytes → List (TrustedKeys Key) → Bool
  has_issuer name [] = false
  has_issuer name (e ∷ es) = if same name e.issuer_name then true else has_issuer name es

  -- `keys[issuer_name].push_back(key)`, found or not.
  pub push_key : Bytes → Key → List (TrustedKeys Key) → List (TrustedKeys Key)
  push_key name key [] = record { issuer_name = name; keys = key ∷ [] } ∷ []
  push_key name key (e ∷ es) =
      if same name e.issuer_name
      then record e { keys = e.keys ++ key ∷ [] } ∷ es
      else e ∷ push_key name key es

  pub erase_issuer : Bytes → List (TrustedKeys Key) → List (TrustedKeys Key)
  erase_issuer name [] = []
  erase_issuer name (e ∷ es) =
      if same name e.issuer_name then erase_issuer name es else e ∷ erase_issuer name es

-- `Impl`, whose containers of nonces are a record of their own.
pub record TokenAuthenticator (Rsa : Type 0) (Voprf : Type 0) : Type 0 where
  pub config : TokenAuthenticatorConfig
  pub origin : Origin Rsa Voprf
  pub rsa_keys : List (TrustedKeys Rsa)
  pub voprf_keys : List (TrustedKeys Voprf)
  pub redeemed : RedeemedNonces

-- The cache size is not passed on: the origin has the default of `OriginConfig`.
abbrev origin_config : TokenAuthenticatorConfig → OriginConfig
origin_config config = record {
  issuer_name = config.issuer_name;
  origin_names = config.origin_names;
  redemption_window = config.redemption_window;
  max_replay_cache_size = 100000;
  require_redemption_context = config.require_redemption_context;
}

unfoldable pub create :
    {Rsa Voprf : Type 0} → TokenAuthenticatorConfig → TokenAuthenticator Rsa Voprf
create config = record {
  config = config;
  origin = Origin.create (origin_config config);
  rsa_keys = [];
  voprf_keys = [];
  redeemed = record {
    redeemed_nonces = [];
    nonce_entries = [];
    replay_window = config.replay_window;
    max_replay_cache_size = config.max_replay_cache_size;
  };
}

module _ {Rsa Voprf : Type 0} where
  -- `add_trusted_key` for an RSA key: the copy is made as `add_blind_rsa_key` makes one, of a key
  -- that is itself a copy.
  abbrev pub add_to_origin :
      RsaCrypto Rsa → KeyCodec Rsa → Option Rsa → Origin Rsa Voprf → Origin Rsa Voprf
  add_to_origin crypto codec none o = o
  add_to_origin crypto codec (some copy) o = Origin.add_blind_rsa_key crypto codec copy o

  pub add_trusted_rsa_key :
      RsaCrypto Rsa
      → KeyCodec Rsa
      → Bytes
      → Rsa
      → TokenAuthenticator Rsa Voprf
      → TokenAuthenticator Rsa Voprf
  add_trusted_rsa_key crypto codec name key a = record a {
    origin = add_to_origin crypto codec (Origin.copy_key codec key) a.origin;
    rsa_keys = push_key name key a.rsa_keys;
  }

  abbrev pub add_voprf_to_origin :
      KeyCodec Voprf → Option Voprf → Origin Rsa Voprf → Origin Rsa Voprf
  add_voprf_to_origin codec none o = o
  add_voprf_to_origin codec (some copy) o = Origin.add_voprf_key codec copy o

  pub add_trusted_voprf_key :
      KeyCodec Voprf → Bytes → Voprf → TokenAuthenticator Rsa Voprf → TokenAuthenticator Rsa Voprf
  add_trusted_voprf_key codec name key a = record a {
    origin = add_voprf_to_origin codec (Origin.copy_key codec key) a.origin;
    voprf_keys = push_key name key a.voprf_keys;
  }

  -- The keys stay in the origin.
  pub remove_trusted_issuer : Bytes → TokenAuthenticator Rsa Voprf → TokenAuthenticator Rsa Voprf
  remove_trusted_issuer name a = record a {
    rsa_keys = erase_issuer name a.rsa_keys;
    voprf_keys = erase_issuer name a.voprf_keys;
  }

  pub is_trusted : Bytes → TokenAuthenticator Rsa Voprf → Bool
  is_trusted name a = has_issuer name a.rsa_keys || has_issuer name a.voprf_keys

  -- The configured names go behind the additional ones. No context is made up.
  unfoldable pub create_challenge :
      TokenType → Option Bytes → List Bytes → TokenAuthenticator Rsa Voprf → Result TokenChallenge
  create_challenge type redemption_context additional a = ok (
      TokenChallenge.create type a.config.issuer_name redemption_context
        (additional ++ a.config.origin_names))

-- What the checks come to, before `validate` or `validate_and_redeem` makes an answer of it.
pub data Verdict : Type 0 where
  refused : ErrorCode → Bytes → Verdict
  passed : Bytes → Verdict

-- The end of the checks, after the signature.
abbrev pub check_signature : Bytes → Option (Result Bool) → Option Verdict
check_signature digest none = none
check_signature digest (some (err e)) = some (refused e.code e.message)
check_signature digest (some (ok false)) =
    some (refused token_invalid (text "Signature verification failed"))
check_signature digest (some (ok true)) = some (passed digest)

abbrev pub answer : Option Verdict → Option ValidationResult
answer none = none
answer (some (refused code message)) = some (failure code message)
answer (some (passed digest)) = some (success digest)

abbrev pub replayed : ValidationResult
replayed = failure token_replayed (text "Token has already been redeemed")

-- Only a token that passed is added to the redeemed nonces.
unfoldable pub redeem_passed :
    {Rsa Voprf : Type 0}
    → Token
    → ℕ
    → TokenAuthenticator Rsa Voprf
    → Option Verdict
    → Option ValidationResult × TokenAuthenticator Rsa Voprf
redeem_passed token now a none = (none, a)
redeem_passed token now a (some (refused code message)) = (some (failure code message), a)
redeem_passed token now a (some (passed digest)) =
    let (added, redeemed') = RedeemedNonces.check_and_add_nonce token.nonce now a.redeemed in
    let a' = record a { redeemed = redeemed' } in
    if not added then (some replayed, a') else (some (success digest), a')

module _ {Rsa Voprf : Type 0} (crypto : RsaCrypto Rsa) where
  abbrev pub check_digest :
      Token
      → TokenAuthenticator Rsa Voprf
      → Result Bytes × TokenChallenge
      → Option Verdict × TokenChallenge
  check_digest token a (err e, challenge) =
      (some (refused crypto_error (text "Failed to compute challenge digest")), challenge)
  check_digest token a (ok expected_digest, challenge) =
      if not (constant_time_equal token.challenge_digest expected_digest)
      then (some (refused invalid_challenge (text "Challenge digest mismatch")), challenge)
      else let (verify_result, challenge') = Origin.verify crypto token challenge a.origin in
        (check_signature expected_digest verify_result, challenge')

  abbrev pub check_valid :
      Token
      → TokenChallenge
      → TokenAuthenticator Rsa Voprf
      → Result (Unit {0})
      → Option Verdict × TokenChallenge
  check_valid token challenge a (err e) = (some (refused e.code e.message), challenge)
  check_valid token challenge a (ok u) = check_digest token a (digest crypto.sha256 challenge)

  -- The checks that `validate` and `validate_and_redeem` both make, in their order. `none` is a read
  -- past the end of the origin's keys.
  unfoldable pub checks :
      Token → TokenChallenge → TokenAuthenticator Rsa Voprf → Option Verdict × TokenChallenge
  checks token challenge a = check_valid token challenge a (Token.validate token)

  unfoldable pub validate :
      Token
      → TokenChallenge
      → TokenAuthenticator Rsa Voprf
      → Option ValidationResult × TokenChallenge
  validate token challenge a =
      let (verdict, challenge') = checks token challenge a in (answer verdict, challenge')

  unfoldable pub validate_and_redeem :
      Token
      → TokenChallenge
      → ℕ
      → TokenAuthenticator Rsa Voprf
      → (Option ValidationResult × TokenAuthenticator Rsa Voprf) × TokenChallenge
  validate_and_redeem token challenge now a =
      if contains token.nonce a.redeemed.redeemed_nonces
      then ((some replayed, a), challenge)
      else let (verdict, challenge') = checks token challenge a in
        (redeem_passed token now a verdict, challenge')
