-- ===== src/Tests/Provider.antt =====
-- The cache of `TokenProvider`, with room for two tokens of a challenge and one token in it.
use privacypass_cpp.Prelude.{
  ◌≡◌, ◌≢◌, ◌-◌, List, false, [], ◌∷◌, ◌++◌, take, length, arith, ap, get_or,
}
use privacypass_cpp.TokenProvider.{TokenProvider, store_tokens, cached_token_count}
use privacypass_cpp.TokenProvider.Cached.{tokens_in, store_tokens-tokens_in}
use privacypass_cpp.Tests.Formats.{token}
use privacypass_cpp.NonceSet.{same}
use privacypass_cpp.Token.{Token}
use privacypass_cpp.Tests.Origins.{zeros, key_a}

abbrev provider : TokenProvider
provider = record {
  config = record {
    max_cached_tokens = 2;
    token_prefetch_threshold = 60;
    allow_token_reuse = false;
    origin_name = [];
  };
  issuer_keys = [];
  token_cache = record { challenge_digest = zeros; tokens = token ∷ [] } ∷ [];
}

abbrev three : List Token
three = token ∷ token ∷ token ∷ []

key_a-ne-zeros : key_a ≢ zeros
key_a-ne-zeros e = omega (arith, ap (λ l. get_or l 0 0) e)

store_tokens-tokens_in_example :
    let after = store_tokens zeros three provider in
    let kept = (token ∷ []) ++ take (2 - 1) three in
    (tokens_in zeros after.token_cache ≡ kept)
    × (cached_token_count zeros after ≡ length kept)
    × (tokens_in key_a after.token_cache ≡ tokens_in key_a provider.token_cache)
unfolding same
store_tokens-tokens_in_example = store_tokens-tokens_in zeros key_a three provider key_a-ne-zeros
