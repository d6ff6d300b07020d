-- ===== src/Tests/Authenticator.antt =====
-- An authenticator with one trusted key at concrete tokens, with the stand-ins of the origin's tests.
use privacypass_cpp.Prelude.{ℕ, ◌≡◌, ◌↔◌, refl, false, none, some, [], ◌∷◌, arith}
use privacypass_cpp.Types.{Bytes, ok, for_type, to_u16, constant_time_equal}
use privacypass_cpp.NonceSet.{contains, same, insert}
use privacypass_cpp.RedeemedNonces.{
  check_and_add_nonce, make_room, max_size, prune_redemption_cache, prune_until,
}
use privacypass_cpp.RedeemedNonces.Queue.{nonces}
use privacypass_cpp.AuthenticatorInput
use privacypass_cpp.Token
use privacypass_cpp.PublicOrigin
use privacypass_cpp.PublicOrigin.{PublicOrigin, is_rsa, find_index}
use privacypass_cpp.PublicOrigin.Verify.{IsAccepted}
use privacypass_cpp.TokenChallenge
use privacypass_cpp.Origin.{KeyCodec, Origin}
use privacypass_cpp.Origin
use privacypass_cpp.Origin.Keys.{add_blind_rsa_keys, public_of, add_blind_rsa_keys-with_keys}
use privacypass_cpp.TokenAuthenticator.{
  TokenAuthenticator, success, replayed, validate, validate_and_redeem, redeem_passed, checks,
  remove_trusted_issuer, is_trusted,
}
use privacypass_cpp.TokenAuthenticator.Validate.{validate-success_iff}
use privacypass_cpp.TokenAuthenticator.Redeem.{
  Attempt, attempt, attempt_all, Outcome, validate_and_redeem-Outcome, validate_and_redeem-once,
}
use privacypass_cpp.TokenAuthenticator.Trust.{remove_trusted_issuer-validate}
use privacypass_cpp.Tests.Origins.{
  zeros, stand_in, config, key_a, one_key, challenge, token, challenge-IsCurrent,
}

abbrev plain_codec : KeyCodec Bytes
plain_codec = record { to_bytes = λ key. ok key; from_bytes = λ bytes. ok bytes }

abbrev no_keys : Origin Bytes Bytes
no_keys = record {
  config = config;
  public_origin = none;
  private_origin = none;
  rsa_keys = [];
  voprf_keys = [];
  replay_cache = one_key.replay_cache;
}

add_blind_rsa_keys-with_keys_example :
    ((add_blind_rsa_keys stand_in plain_codec (key_a ∷ zeros ∷ []) no_keys).public_origin
      ≡ public_of stand_in config (Origin.copy_keys plain_codec (key_a ∷ zeros ∷ [])))
    × ((add_blind_rsa_keys stand_in plain_codec (key_a ∷ zeros ∷ []) no_keys).rsa_keys
        ≡ key_a ∷ zeros ∷ [])
unfolding Origin.create
add_blind_rsa_keys-with_keys_example =
    add_blind_rsa_keys-with_keys stand_in plain_codec no_keys (key_a ∷ zeros ∷ []) refl refl

abbrev trusting : TokenAuthenticator Bytes Bytes
trusting = record {
  config = record {
    issuer_name = 105 ∷ [];
    origin_names = [];
    redemption_window = 10;
    replay_window = 10;
    require_redemption_context = false;
    max_replay_cache_size = 4;
  };
  origin = record {
    config = config;
    public_origin = some one_key;
    private_origin = none;
    rsa_keys = key_a ∷ [];
    voprf_keys = [];
    replay_cache = record {
      buckets = [];
      all_nonces = [];
      bucket_order = [];
      window_seconds = 10;
      max_size = 4;
    };
  };
  rsa_keys = record { issuer_name = 105 ∷ []; keys = key_a ∷ [] } ∷ [];
  voprf_keys = [];
  redeemed = record {
    redeemed_nonces = [];
    nonce_entries = [];
    replay_window = 10;
    max_replay_cache_size = 4;
  };
}

validate-success_iff_example :
    ((validate stand_in token challenge trusting).0 ≡ some (success zeros)) ↔ (
      (token.challenge_digest ≡ zeros)
      × (public : PublicOrigin Bytes) × (trusting.origin.public_origin ≡ some public)
      × IsAccepted stand_in token challenge public)
validate-success_iff_example =
    validate-success_iff stand_in token challenge trusting zeros challenge-IsCurrent

validate_and_redeem-Outcome_example :
    Outcome token 3
      (checks stand_in token challenge trusting).0
      trusting
      (validate_and_redeem stand_in token challenge 3 trusting).0
validate_and_redeem-Outcome_example =
    validate_and_redeem-Outcome stand_in token challenge 3 trusting

remove_trusted_issuer-validate_example :
    (is_trusted (105 ∷ []) (remove_trusted_issuer (105 ∷ []) trusting) ≡ false)
    × (validate stand_in token challenge (remove_trusted_issuer (105 ∷ []) trusting)
        ≡ validate stand_in token challenge trusting)
remove_trusted_issuer-validate_example =
    remove_trusted_issuer-validate stand_in (105 ∷ []) token challenge trusting

abbrev at_time : ℕ → Attempt
at_time t = record { token = token; challenge = challenge; now = t }

redeemed_once : (validate_and_redeem stand_in token challenge 3 trusting).0.0 ≡ some (success zeros)
unfolding validate_and_redeem contains same insert redeem_passed checks Token.validate for_type
    TokenChallenge.digest TokenChallenge.create TokenChallenge.serialize
    TokenChallenge.origin_info_string TokenChallenge.join constant_time_equal Origin.verify is_rsa
    to_u16 PublicOrigin.verify find_index AuthenticatorInput.serialize check_and_add_nonce make_room
    max_size prune_redemption_cache prune_until success
redeemed_once = refl

validate_and_redeem-once_example :
    (validate_and_redeem stand_in token challenge 12
      (attempt_all stand_in (at_time 5 ∷ []) (attempt stand_in (at_time 3) trusting))).0
    ≡ (some replayed, attempt_all stand_in (at_time 5 ∷ []) (attempt stand_in (at_time 3) trusting))
unfolding validate_and_redeem nonces contains same insert redeem_passed checks Token.validate
    for_type TokenChallenge.digest TokenChallenge.create TokenChallenge.serialize
    TokenChallenge.origin_info_string TokenChallenge.join constant_time_equal Origin.verify is_rsa
    to_u16 PublicOrigin.verify find_index AuthenticatorInput.serialize check_and_add_nonce make_room
    max_size prune_redemption_cache prune_until success
validate_and_redeem-once_example =
    validate_and_redeem-once stand_in trusting (at_time 3) (at_time 12) (at_time 5 ∷ []) zeros refl
      redeemed_once (omega arith, tt) refl (omega arith) (omega arith)
