-- ===== src/TokenProvider.antt =====
-- `TokenProvider` of include/privacy_pass/core/token_provider.hpp and src/core/token_provider.cpp: the
-- issuers' keys, requests and responses over the clients, and the cache of tokens. Each method holds
-- the mutex from its start to its end, so that a call is one step.
pub mod Requests
pub mod Cached
use privacypass_cpp.Prelude.{
  ℕ, ◌+◌, Bool, true, false, ◌&&◌, Option, none, some, List, [], ◌∷◌, ◌++◌, ◌==◌, ltb, leb,
  if◌then◌else◌, length,
}
use privacypass_cpp.Types.{Bytes, TokenType, to_u16, PublicKey}
use privacypass_cpp.NonceSet.{same}
use privacypass_cpp.Token.{Token}

pub record TokenProviderConfig : Type 0 where
  pub max_cached_tokens : ℕ
  pub token_prefetch_threshold : ℕ
  pub allow_token_reuse : Bool
  pub origin_name : Bytes

-- Entries of `issuer_keys` and of `token_cache`.
pub record IssuerKeys : Type 0 where
  pub issuer : Bytes
  pub keys : List PublicKey

pub record CachedTokens : Type 0 where
  pub challenge_digest : Bytes
  pub tokens : List Token

pub record TokenProvider : Type 0 where
  pub config : TokenProviderConfig
  pub issuer_keys : List IssuerKeys
  pub token_cache : List CachedTokens

unfoldable pub create : TokenProviderConfig → TokenProvider
create config = record { config = config; issuer_keys = []; token_cache = [] }

key_of_type : TokenType → List PublicKey → Option PublicKey
key_of_type type [] = none
key_of_type type (key ∷ keys) =
    if to_u16 key.type == to_u16 type then some key else key_of_type type keys

pub find_key : Bytes → TokenType → List IssuerKeys → Option PublicKey
unfolding key_of_type
find_key issuer type [] = none
find_key issuer type (e ∷ es) =
    if same issuer e.issuer then key_of_type type e.keys else find_key issuer type es

push_key : Bytes → PublicKey → List IssuerKeys → List IssuerKeys
push_key issuer key [] = record { issuer = issuer; keys = key ∷ [] } ∷ []
push_key issuer key (e ∷ es) =
    if same issuer e.issuer
    then record e { keys = e.keys ++ key ∷ [] } ∷ es
    else e ∷ push_key issuer key es

unfoldable pub add_issuer_key : Bytes → PublicKey → TokenProvider → TokenProvider
unfolding push_key
add_issuer_key issuer key p = record p { issuer_keys = push_key issuer key p.issuer_keys }

erase_keys : Bytes → List IssuerKeys → List IssuerKeys
erase_keys issuer [] = []
erase_keys issuer (e ∷ es) =
    if same issuer e.issuer then erase_keys issuer es else e ∷ erase_keys issuer es

pub remove_issuer : Bytes → TokenProvider → TokenProvider
unfolding erase_keys
remove_issuer issuer p = record p { issuer_keys = erase_keys issuer p.issuer_keys }

holds_issuer : Bytes → List IssuerKeys → Bool
holds_issuer issuer [] = false
holds_issuer issuer (e ∷ es) = if same issuer e.issuer then true else holds_issuer issuer es

unfoldable pub has_issuer : Bytes → TokenProvider → Bool
unfolding holds_issuer
has_issuer issuer p = holds_issuer issuer p.issuer_keys

pub get_issuer_key : Bytes → TokenType → TokenProvider → Option PublicKey
unfolding find_key
get_issuer_key issuer type p = find_key issuer type p.issuer_keys

-- The loop of `store_tokens` on the tokens that the cache has for the digest.
pub push_tokens : ℕ → List Token → List Token → List Token
push_tokens max [] cache = cache
push_tokens max (token ∷ tokens) cache =
    push_tokens max tokens (if ltb (length cache) max then cache ++ token ∷ [] else cache)

-- `token_cache[challenge_digest]` with these tokens, found or not.
pub store_in : ℕ → Bytes → List Token → List CachedTokens → List CachedTokens
unfolding push_tokens
store_in max digest tokens [] =
    record { challenge_digest = digest; tokens = push_tokens max tokens [] } ∷ []
store_in max digest tokens (e ∷ es) =
    if same digest e.challenge_digest
    then record e { tokens = push_tokens max tokens e.tokens } ∷ es
    else e ∷ store_in max digest tokens es

pub store_tokens : Bytes → List Token → TokenProvider → TokenProvider
unfolding store_in
store_tokens digest tokens p = record p {
  token_cache = store_in p.config.max_cached_tokens digest tokens p.token_cache;
}

-- `back()` with what is before it.
pub pop_back : List Token → Option (Token × List Token)
pop_back [] = none
pop_back (token ∷ tokens) = elim (pop_back tokens) [
  | none ↦ some (token, [])
  | some (last, before) ↦ some (last, token ∷ before)
]

-- An entry without tokens is erased.
abbrev pub keep_tokens : CachedTokens → List Token → List CachedTokens → List CachedTokens
keep_tokens e [] es = es
keep_tokens e (token ∷ tokens) es = record e { tokens = token ∷ tokens } ∷ es

abbrev pub take_last :
    CachedTokens
    → List CachedTokens
    → Option (Token × List Token)
    → Option Token × List CachedTokens
take_last e es none = (none, e ∷ es)
take_last e es (some (token, before)) = (some token, keep_tokens e before es)

abbrev pub behind :
    CachedTokens → Option Token × List CachedTokens → Option Token × List CachedTokens
behind e (found, es) = (found, e ∷ es)

pub take_token : Bytes → List CachedTokens → Option Token × List CachedTokens
unfolding pop_back
take_token digest [] = (none, [])
take_token digest (e ∷ es) =
    if same digest e.challenge_digest
    then take_last e es (pop_back e.tokens)
    else behind e (take_token digest es)

pub get_cached_token : Bytes → TokenProvider → Option Token × TokenProvider
unfolding take_token
get_cached_token digest p =
    let (found, cache) = take_token digest p.token_cache in
    (found, record p { token_cache = cache })

pub count_in : Bytes → List CachedTokens → ℕ
count_in digest [] = 0
count_in digest (e ∷ es) =
    if same digest e.challenge_digest then length e.tokens else count_in digest es

pub cached_token_count : Bytes → TokenProvider → ℕ
unfolding count_in
cached_token_count digest p = count_in digest p.token_cache

pub clear_cache : TokenProvider → TokenProvider
clear_cache p = record p { token_cache = [] }
