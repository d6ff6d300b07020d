-- ===== src/PrivateOrigin.antt =====
-- `PrivateOrigin` of include/privacy_pass/core/origin.hpp and src/core/origin.cpp, which checks a
-- token's structure and leaves the authenticator to the issuer. The hash is a parameter.
pub mod Structure
use privacypass_cpp.Prelude.{
  ℕ, Bool, true, false, not, Option, none, some, List, ◌==◌, if◌then◌else◌,
}
use privacypass_cpp.Types.{
  Bytes, voprf_p384_sha384, to_u16, unsupported_token_type, invalid_challenge, error, Result, ok,
  err, ◌>>=◌, constant_time_equal,
}
use privacypass_cpp.ReplayCache
use privacypass_cpp.ReplayCache.{ReplayCache, check_and_add, is_known}
use privacypass_cpp.Token.{Token, validate}
use privacypass_cpp.TokenChallenge
use privacypass_cpp.TokenChallenge.{TokenChallenge, digest}
use privacypass_cpp.PublicOrigin.{OriginConfig, needs_random}

pub record PrivateOrigin (Key : Type 0) : Type 0 where
  pub config : OriginConfig
  pub issuer_keys : List Key
  pub replay_cache : ReplayCache

module _ {Key : Type 0} where
  abbrev pub create : OriginConfig → List Key → PrivateOrigin Key
  create config issuer_keys = record {
    config = config;
    issuer_keys = issuer_keys;
    replay_cache = ReplayCache.create config.redemption_window config.max_replay_cache_size;
  }

  abbrev challenge_for : PrivateOrigin Key → Option Bytes → TokenChallenge
  challenge_for o context =
      TokenChallenge.create voprf_p384_sha384 o.config.issuer_name context o.config.origin_names

  -- `random` is what `crypto::random_bytes(32)` answers.
  abbrev create_challenge : Result Bytes → Option Bytes → PrivateOrigin Key → Result TokenChallenge
  create_challenge random redemption_context o =
      if needs_random o.config.require_redemption_context redemption_context
      then (random >>= λ context. ok (challenge_for o (some context)))
      else ok (challenge_for o redemption_context)

  pub would_be_replay : Token → PrivateOrigin Key → Bool
  would_be_replay token o = is_known token.nonce o.replay_cache

  pub mark_redeemed : Token → ℕ → PrivateOrigin Key → PrivateOrigin Key
  mark_redeemed token tick o = record o {
    replay_cache = (check_and_add token.nonce tick o.replay_cache).1;
  }

module _ (sha256 : Bytes → Result Bytes) where
  abbrev pub compare_digest : Token → Result Bytes → Result Bool
  compare_digest token (err e) = err e
  compare_digest token (ok expected_digest) =
      if not (constant_time_equal token.challenge_digest expected_digest)
      then err (error invalid_challenge "Challenge digest mismatch")
      else ok true

  abbrev pub check_voprf : Token → TokenChallenge → Bool → Result Bool × TokenChallenge
  check_voprf token challenge false =
      (err (error unsupported_token_type "PrivateOrigin only supports VOPRF tokens"), challenge)
  check_voprf token challenge true =
      let (expected, challenge') = digest sha256 challenge in
      (compare_digest token expected, challenge')

  abbrev pub check_structure :
      Token → TokenChallenge → Result (Unit {0}) → Result Bool × TokenChallenge
  check_structure token challenge (err e) = (err e, challenge)
  check_structure token challenge (ok u) =
      check_voprf token challenge (to_u16 token.token_type == to_u16 voprf_p384_sha384)

  -- It reads nothing of the origin. The expected challenge comes back, since it may have cached its
  -- digest.
  pub validate_structure : Token → TokenChallenge → Result Bool × TokenChallenge
  validate_structure token challenge = check_structure token challenge (validate token)
