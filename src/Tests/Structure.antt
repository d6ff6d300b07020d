-- ===== src/Tests/Structure.antt =====
-- The private origin at a concrete token. The stand-in for the hash has one value.
use privacypass_cpp.Prelude.{◌≡◌, ◌↔◌, true, none, [], ◌∷◌, replicate}
use privacypass_cpp.Types.{Bytes, voprf_p384_sha384, Result, ok}
use privacypass_cpp.ReplayCache
use privacypass_cpp.Token.{Token}
use privacypass_cpp.TokenChallenge
use privacypass_cpp.TokenChallenge.{TokenChallenge}
use privacypass_cpp.TokenChallenge.Digest.{IsCurrent}
use privacypass_cpp.PrivateOrigin.{PrivateOrigin, validate_structure}
use privacypass_cpp.PrivateOrigin.Structure.{IsStructured, validate_structure-true_iff}

abbrev one_hash : Bytes → Result Bytes
one_hash bytes = ok (replicate 32 1)

abbrev voprf_token : Token
voprf_token = record {
  token_type = voprf_p384_sha384;
  nonce = replicate 32 9;
  challenge_digest = replicate 32 1;
  token_key_id = replicate 32 7;
  authenticator = replicate 48 0;
}

abbrev voprf_challenge : TokenChallenge
voprf_challenge = TokenChallenge.create voprf_p384_sha384 (105 ∷ []) none []

abbrev keyless : PrivateOrigin Bytes
keyless = record {
  config = record {
    issuer_name = 105 ∷ [];
    origin_names = [];
    redemption_window = 10;
    max_replay_cache_size = 4;
    require_redemption_context = true;
  };
  issuer_keys = [];
  replay_cache = ReplayCache.create 10 4;
}

voprf_challenge-IsCurrent : IsCurrent one_hash voprf_challenge
unfolding TokenChallenge.create
voprf_challenge-IsCurrent d h = cc

validate_structure-true_iff_example :
    ((validate_structure one_hash voprf_token voprf_challenge).0 ≡ ok true)
    ↔ IsStructured one_hash voprf_token voprf_challenge
validate_structure-true_iff_example =
    validate_structure-true_iff one_hash voprf_token voprf_challenge voprf_challenge-IsCurrent
