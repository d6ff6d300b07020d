-- ===== src/PublicOrigin.antt =====
-- `PublicOrigin` of include/privacy_pass/core/origin.hpp and src/core/origin.cpp: the keys of the
-- issuers, the check of a token, and its redemption. The RSA keys and the hash are parameters.
pub mod Keys
pub mod Verify
pub mod Calls
pub mod Redeem
pub mod Challenge
use privacypass_cpp.Prelude.{
  ℕ, zero, suc, ◌≡◌, Bool, true, false, not, ◌||◌, Option, none, some, List, [], ◌∷◌, ◌++◌, ◌==◌,
  if◌then◌else◌, length, get_or,
}
use privacypass_cpp.Types.{
  Bytes, TokenType, blind_rsa, partially_blind_rsa, voprf_p384_sha384, to_u16, Error,
  unsupported_token_type, invalid_challenge, issuer_unknown, token_replayed, error, Result, ok, err,
  ◌>>=◌, constant_time_equal,
}
use privacypass_cpp.NonceSet.{same}
use privacypass_cpp.ReplayCache
use privacypass_cpp.ReplayCache.{ReplayCache, check_and_add}
use privacypass_cpp.AuthenticatorInput
use privacypass_cpp.Token.{Token, validate, authenticator_input}
use privacypass_cpp.TokenChallenge
use privacypass_cpp.TokenChallenge.{TokenChallenge, digest}

pub record OriginConfig : Type 0 where
  pub issuer_name : Bytes
  pub origin_names : List Bytes
  pub redemption_window : ℕ
  pub max_replay_cache_size : ℕ
  pub require_redemption_context : Bool

-- What the program asks of crypto::BlindRsaPublicKey and crypto::sha256.
pub record RsaCrypto (Key : Type 0) : Type 0 where
  pub sha256 : Bytes → Result Bytes
  pub key_id : Key → Result Bytes
  pub verify : Key → Bytes → Bytes → Result Bool

pub record IndexEntry : Type 0 where
  pub id : Bytes
  pub index : ℕ

-- `key_index_by_full_id`: find, erase, and the assignment to an element.
unfoldable pub find_index : Bytes → List IndexEntry → Option ℕ
find_index id [] = none
find_index id (e ∷ es) = if same id e.id then some e.index else find_index id es

unfoldable pub erase_index : Bytes → List IndexEntry → List IndexEntry
erase_index id [] = []
erase_index id (e ∷ es) = if same id e.id then erase_index id es else e ∷ erase_index id es

unfoldable pub set_index : Bytes → ℕ → List IndexEntry → List IndexEntry
set_index id index es = record { id = id; index = index } ∷ erase_index id es

pub record TruncatedBucket : Type 0 where
  pub truncated : ℕ
  pub indices : List ℕ

-- `key_indices_by_truncated_id[truncated].push_back(index)`
unfoldable pub push_index : ℕ → ℕ → List TruncatedBucket → List TruncatedBucket
push_index t index [] = record { truncated = t; indices = index ∷ [] } ∷ []
push_index t index (b ∷ bs) =
    if b.truncated == t
    then record b { indices = b.indices ++ index ∷ [] } ∷ bs
    else b ∷ push_index t index bs

-- `bucket.erase(std::remove(…, index), …)`
abbrev remove_all : ℕ → List ℕ → List ℕ
remove_all index [] = []
remove_all index (i ∷ is) = if i == index then remove_all index is else i ∷ remove_all index is

-- The bucket without the index, or no bucket where it becomes empty.
abbrev keep_bucket : ℕ → List ℕ → List TruncatedBucket → List TruncatedBucket
keep_bucket t [] bs = bs
keep_bucket t (i ∷ is) bs = record { truncated = t; indices = i ∷ is } ∷ bs

abbrev remove_index : ℕ → ℕ → List TruncatedBucket → List TruncatedBucket
remove_index t index [] = []
remove_index t index (b ∷ bs) =
    if b.truncated == t
    then keep_bucket t (remove_all index b.indices) bs
    else b ∷ remove_index t index bs

pub record PublicOrigin (Key : Type 0) : Type 0 where
  pub config : OriginConfig
  pub issuer_keys : List Key
  pub key_indices_by_truncated_id : List TruncatedBucket
  pub key_index_by_full_id : List IndexEntry
  pub replay_cache : ReplayCache

unfoldable pub is_rsa : TokenType → Bool
is_rsa type = (to_u16 type == to_u16 blind_rsa) || (to_u16 type == to_u16 partially_blind_rsa)

-- `issuer_keys[index]`
abbrev pub key_at : {Key : Type 0} → List Key → ℕ → Option Key
key_at [] i = none
key_at (k ∷ ks) zero = some k
key_at (k ∷ ks) (suc i) = key_at ks i

unfoldable pub create : {Key : Type 0} → OriginConfig → PublicOrigin Key
create config = record {
  config = config;
  issuer_keys = [];
  key_indices_by_truncated_id = [];
  key_index_by_full_id = [];
  replay_cache = ReplayCache.create config.redemption_window config.max_replay_cache_size;
}

module _ {Key : Type 0} (crypto : RsaCrypto Key) where
  abbrev pub add_with_id : Key → Result Bytes → PublicOrigin Key → PublicOrigin Key
  add_with_id key (err e) o = o
  add_with_id key (ok id) o =
      let index = length o.issuer_keys in
      record o {
        issuer_keys = o.issuer_keys ++ key ∷ [];
        key_indices_by_truncated_id =
            push_index (get_or id 31 0) index o.key_indices_by_truncated_id;
        key_index_by_full_id = set_index id index o.key_index_by_full_id;
      }

  unfoldable pub add_issuer_key : Key → PublicOrigin Key → PublicOrigin Key
  add_issuer_key key o = add_with_id key (crypto.key_id key) o

  -- The constructor's loop over the keys that it is given.
  unfoldable pub add_issuer_keys : List Key → PublicOrigin Key → PublicOrigin Key
  add_issuer_keys [] o = o
  add_issuer_keys (key ∷ keys) o = add_issuer_keys keys (add_issuer_key key o)

  abbrev pub with_keys : OriginConfig → List Key → PublicOrigin Key
  with_keys config keys = add_issuer_keys keys (create config)

  -- The key itself stays in `issuer_keys`, with no index to it.
  pub remove_issuer_key : Bytes → PublicOrigin Key → PublicOrigin Key
  remove_issuer_key id o = elim (find_index id o.key_index_by_full_id) [
    | none ↦ o
    | some index ↦ record o {
      key_index_by_full_id = erase_index id o.key_index_by_full_id;
      key_indices_by_truncated_id =
          remove_index (get_or id 31 0) index o.key_indices_by_truncated_id;
    }
  ]

  -- The end of `verify`; `none` stands for a read past the end of `issuer_keys`.
  abbrev pub check_key : Token → Option Key → Option (Result Bool)
  check_key token none = none
  check_key token (some key) = some (
      AuthenticatorInput.serialize (authenticator_input token) >>= λ auth_input_bytes.
      crypto.verify key auth_input_bytes token.authenticator)

  abbrev pub check_index : Token → List Key → Option ℕ → Option (Result Bool)
  check_index token keys none = some (err (error issuer_unknown "Unknown issuer key"))
  check_index token keys (some index) = check_key token (key_at keys index)

  abbrev pub check_digest : Token → PublicOrigin Key → Result Bytes → Option (Result Bool)
  check_digest token o (err e) = some (err e)
  check_digest token o (ok expected_digest) =
      if not (constant_time_equal token.challenge_digest expected_digest)
      then some (err (error invalid_challenge "Challenge digest mismatch"))
      else check_index token o.issuer_keys (find_index token.token_key_id o.key_index_by_full_id)

  abbrev pub check_type :
      Token → TokenChallenge → PublicOrigin Key → Bool → Option (Result Bool) × TokenChallenge
  check_type token challenge o false = (
    some (err (error unsupported_token_type "PublicOrigin only supports Blind RSA tokens")),
    challenge,
  )
  check_type token challenge o true =
      let (expected, challenge') = digest crypto.sha256 challenge in
      (check_digest token o expected, challenge')

  abbrev pub check_valid :
      Token
      → TokenChallenge
      → PublicOrigin Key
      → Result (Unit {0})
      → Option (Result Bool) × TokenChallenge
  check_valid token challenge o (err e) = (some (err e), challenge)
  check_valid token challenge o (ok u) = check_type token challenge o (is_rsa token.token_type)

  -- The expected challenge comes back, since it may have cached its digest.
  unfoldable pub verify :
      Token → TokenChallenge → PublicOrigin Key → Option (Result Bool) × TokenChallenge
  verify token challenge o = check_valid token challenge o (validate token)

  -- The nonce is taken before the token is checked, and stays taken where the check fails.
  unfoldable pub verify_and_redeem :
      Token
      → TokenChallenge
      → ℕ
      → PublicOrigin Key
      → Option (Result Bool) × TokenChallenge × PublicOrigin Key
  verify_and_redeem token challenge tick o =
      let (fresh, cache) = check_and_add token.nonce tick o.replay_cache in
      let o' = record o { replay_cache = cache } in
      if not fresh
      then (some (err (error token_replayed "Token has already been redeemed")), challenge, o')
      else let (verdict, challenge') = verify token challenge o' in (verdict, challenge', o')

abbrev pub needs_random : Bool → Option Bytes → Bool
needs_random true none = true
needs_random required context = false

abbrev pub challenge_for : {Key : Type 0} → PublicOrigin Key → Option Bytes → TokenChallenge
challenge_for o context =
    TokenChallenge.create blind_rsa o.config.issuer_name context o.config.origin_names

-- `random` is what `crypto::random_bytes(32)` answers.
unfoldable pub create_challenge :
    {Key : Type 0} → Result Bytes → Option Bytes → PublicOrigin Key → Result TokenChallenge
create_challenge random redemption_context o =
    if needs_random o.config.require_redemption_context redemption_context
    then (random >>= λ context. ok (challenge_for o (some context)))
    else ok (challenge_for o redemption_context)
