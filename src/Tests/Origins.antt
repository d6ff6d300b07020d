-- ===== src/Tests/Origins.antt =====
-- An origin with one key at concrete tokens. The stand-in for the hash has one value, and the
-- stand-in for a key accepts a signature of 256 zeros.
use privacypass_cpp.Prelude.{
  ℕ, ◌≡◌, ◌≢◌, ◌↔◌, refl, true, false, some, none, [], ◌∷◌, arith, replicate, List,
}
use privacypass_cpp.Types.{
  Bytes, blind_rsa, ok, err, error, token_replayed, to_u16, for_type, constant_time_equal,
}
use privacypass_cpp.NonceSet.{same, contains, insert}
use privacypass_cpp.ReplayCache.{
  ReplayCache, find, erase_bucket, bucket_at, set_bucket, drop_front, drop_expired, drop_oversized,
  prune_expired, add, check_and_add, size, step, run, Bucket,
}
use privacypass_cpp.ReplayCache
use privacypass_cpp.ReplayCache.Queue.{flatten, keys}
use privacypass_cpp.AuthenticatorInput
use privacypass_cpp.Token.{Token, validate}
use privacypass_cpp.TokenChallenge.{TokenChallenge, digest}
use privacypass_cpp.TokenChallenge
use privacypass_cpp.TokenChallenge.Digest.{IsCurrent}
use privacypass_cpp.PublicOrigin.{
  OriginConfig, RsaCrypto, PublicOrigin, create, add_issuer_key, remove_issuer_key, verify,
  verify_and_redeem, find_index, erase_index, set_index, push_index, is_rsa, create_challenge,
  with_keys,
}
use privacypass_cpp.PublicOrigin.Verify.{IsAccepted, verify-true_iff, remove_issuer_key-verify}
use privacypass_cpp.PublicOrigin.Challenge.{IsConfig, IsChallengeOf, create_challenge-IsChallengeOf}
use privacypass_cpp.PublicOrigin.Calls.{
  OriginCall, add_key_call, remove_key_call, redeem_call, apply_calls, verify-apply_calls,
}
use privacypass_cpp.PublicOrigin.Redeem.{Redemption, redeem, redeem_all, verify_and_redeem-once}

abbrev pub zeros : Bytes
zeros = replicate 32 0

abbrev pub zero_signature : Bytes
zero_signature = replicate 256 0

abbrev pub stand_in : RsaCrypto Bytes
stand_in = record {
  sha256 = λ bytes. ok zeros;
  key_id = λ key. ok key;
  verify = λ key bytes sig. ok (constant_time_equal sig zero_signature);
}

abbrev pub config : OriginConfig
config = record {
  issuer_name = 105 ∷ [];
  origin_names = [];
  redemption_window = 10;
  max_replay_cache_size = 4;
  require_redemption_context = false;
}

abbrev pub key_a : Bytes
key_a = replicate 32 7

-- The origin that `add_issuer_key` makes of an empty one.
abbrev pub one_key : PublicOrigin Bytes
one_key = record {
  config = config;
  issuer_keys = key_a ∷ [];
  key_indices_by_truncated_id = record { truncated = 7; indices = 0 ∷ [] } ∷ [];
  key_index_by_full_id = record { id = key_a; index = 0 } ∷ [];
  replay_cache = record {
    buckets = [];
    all_nonces = [];
    bucket_order = [];
    window_seconds = 10;
    max_size = 4;
  };
}

one_key_made : add_issuer_key stand_in key_a (create config) ≡ one_key
unfolding add_issuer_key create set_index erase_index push_index ReplayCache.create
one_key_made = refl

abbrev pub challenge : TokenChallenge
challenge = TokenChallenge.create blind_rsa (105 ∷ []) none []

abbrev pub token : Token
token = record {
  token_type = blind_rsa;
  nonce = replicate 32 9;
  challenge_digest = zeros;
  token_key_id = key_a;
  authenticator = zero_signature;
}

pub challenge-IsCurrent : IsCurrent stand_in.sha256 challenge
unfolding TokenChallenge.create
challenge-IsCurrent d h = cc

verify-true_iff_example :
    ((verify stand_in token challenge one_key).0 ≡ some (ok true))
    ↔ IsAccepted stand_in token challenge one_key
verify-true_iff_example = verify-true_iff stand_in token challenge one_key challenge-IsCurrent

remove_issuer_key-verify_example :
    (verify stand_in token challenge (remove_issuer_key stand_in key_a one_key)).0 ≢ some (ok true)
remove_issuer_key-verify_example =
    remove_issuer_key-verify stand_in token challenge one_key challenge-IsCurrent

abbrev at_tick : ℕ → Redemption
at_tick t = record { token = token; challenge = challenge; tick = t }

accepted_once : (verify_and_redeem stand_in token challenge 3 one_key).0 ≡ some (ok true)
unfolding verify_and_redeem verify validate for_type is_rsa to_u16 digest constant_time_equal
    find_index same check_and_add prune_expired drop_expired drop_oversized add contains insert
    bucket_at set_bucket TokenChallenge.create TokenChallenge.serialize AuthenticatorInput.serialize
    TokenChallenge.origin_info_string TokenChallenge.join
accepted_once = refl

verify_and_redeem-once_example :
    (verify_and_redeem stand_in token challenge 12
      (redeem_all stand_in [] (redeem stand_in (at_tick 3) one_key))).0
    ≡ some (err (error token_replayed "Token has already been redeemed"))
unfolding flatten keys size verify_and_redeem verify check_and_add prune_expired drop_expired
    drop_oversized add contains insert bucket_at set_bucket
verify_and_redeem-once_example =
    verify_and_redeem-once stand_in one_key (at_tick 3) (at_tick 12) [] (refl, tt) (omega arith)
      accepted_once refl (omega arith) (omega arith)

abbrev requiring : PublicOrigin Bytes
requiring = record one_key { config = record config { require_redemption_context = true } }

requiring-IsConfig : IsConfig requiring.config
unfolding TokenChallenge.join
requiring-IsConfig = record {
  issuer = (omega arith, omega arith);
  origins = tt;
  few = omega arith;
  short = omega arith;
}

abbrev with_context : TokenChallenge
with_context = TokenChallenge.create blind_rsa (105 ∷ []) (some zeros) []

create_challenge-IsChallengeOf_example : IsChallengeOf requiring (ok zeros) none with_context
unfolding create_challenge
create_challenge-IsChallengeOf_example =
    create_challenge-IsChallengeOf requiring (ok zeros) none with_context requiring-IsConfig refl tt
      refl

abbrev some_calls : List (OriginCall Bytes)
some_calls = redeem_call (at_tick 3) ∷ remove_key_call key_a ∷ add_key_call zeros ∷ []

verify-apply_calls_example :
    (verify stand_in token challenge
      (apply_calls stand_in some_calls (with_keys stand_in config (key_a ∷ [])))).0
    ≢ none
verify-apply_calls_example =
    verify-apply_calls stand_in config (key_a ∷ []) some_calls token challenge
