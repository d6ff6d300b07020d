-- ===== src/Origin.antt =====
-- `Origin` of include/privacy_pass/core/origin.hpp and src/core/origin.cpp, over a `PublicOrigin`
-- and a `PrivateOrigin` that are made when the first key of their kind comes. The keys are
-- parameters.
pub mod Keys
pub mod Verify
use privacypass_cpp.Prelude.{
  ℕ, Bool, true, false, not, Option, none, some, List, [], ◌∷◌, ◌++◌, ◌==◌, if◌then◌else◌,
}
use privacypass_cpp.Types.{
  Bytes, TokenType, voprf_p384_sha384, to_u16, issuer_unknown, unsupported_token_type,
  token_replayed, error, Result, ok, err, ◌>>=◌,
}
use privacypass_cpp.ReplayCache
use privacypass_cpp.ReplayCache.{ReplayCache, check_and_add}
use privacypass_cpp.Token.{Token}
use privacypass_cpp.TokenChallenge
use privacypass_cpp.TokenChallenge.{TokenChallenge}
use privacypass_cpp.PublicOrigin
use privacypass_cpp.PublicOrigin.{
  OriginConfig, PublicOrigin, RsaCrypto, is_rsa, with_keys, add_issuer_key, needs_random,
}
use privacypass_cpp.PrivateOrigin
use privacypass_cpp.PrivateOrigin.{PrivateOrigin}

-- A key's text and the key made of it: `to_spki` with `from_spki`, `to_bytes` with `from_bytes`.
pub record KeyCodec (Key : Type 0) : Type 0 where
  pub to_bytes : Key → Result Bytes
  pub from_bytes : Bytes → Result Key

pub record Origin (Rsa : Type 0) (Voprf : Type 0) : Type 0 where
  pub config : OriginConfig
  pub public_origin : Option (PublicOrigin Rsa)
  pub private_origin : Option (PrivateOrigin Voprf)
  pub rsa_keys : List Rsa
  pub voprf_keys : List Voprf
  pub replay_cache : ReplayCache

unfoldable pub create : {Rsa Voprf : Type 0} → OriginConfig → Origin Rsa Voprf
create config = record {
  config = config;
  public_origin = none;
  private_origin = none;
  rsa_keys = [];
  voprf_keys = [];
  replay_cache = ReplayCache.create config.redemption_window config.max_replay_cache_size;
}

abbrev pub copied : {Key : Type 0} → Result Key → Option Key
copied (ok key) = some key
copied (err e) = none

-- `auto text = key.to_text(); if (text) { auto copy = from_text(*text); if (copy) … }`
pub copy_key : {Key : Type 0} → KeyCodec Key → Key → Option Key
copy_key codec key = copied (codec.to_bytes key >>= codec.from_bytes)

module _ {Rsa : Type 0} (crypto : RsaCrypto Rsa) (codec : KeyCodec Rsa) where
  -- A first copy makes the `PublicOrigin`, any other is added to it.
  abbrev pub with_copy :
      OriginConfig → Option Rsa → Option (PublicOrigin Rsa) → Option (PublicOrigin Rsa)
  with_copy config none public = public
  with_copy config (some copy) none = some (with_keys crypto config (copy ∷ []))
  with_copy config (some copy) (some public) = some (add_issuer_key crypto copy public)

  pub add_blind_rsa_key : {Voprf : Type 0} → Rsa → Origin Rsa Voprf → Origin Rsa Voprf
  unfolding copy_key
  add_blind_rsa_key key o = record o {
    rsa_keys = o.rsa_keys ++ key ∷ [];
    public_origin = with_copy o.config (copy_key codec key) o.public_origin;
  }

-- The loop that copies `voprf_keys`.
pub copy_keys : {Key : Type 0} → KeyCodec Key → List Key → List Key
copy_keys codec [] = []
copy_keys codec (key ∷ keys) = elim (copy_key codec key) [
  | some copy ↦ copy ∷ copy_keys codec keys
  | none ↦ copy_keys codec keys
]

-- The `PrivateOrigin` is made again, with a new replay cache.
pub add_voprf_key :
    {Rsa Voprf : Type 0} → KeyCodec Voprf → Voprf → Origin Rsa Voprf → Origin Rsa Voprf
unfolding copy_keys
add_voprf_key codec key o =
    let keys = o.voprf_keys ++ key ∷ [] in
    record o {
      voprf_keys = keys;
      private_origin = some (PrivateOrigin.create o.config (copy_keys codec keys));
    }

abbrev challenge_for :
    {Rsa Voprf : Type 0} → TokenType → Option Bytes → Origin Rsa Voprf → TokenChallenge
challenge_for type context o =
    TokenChallenge.create type o.config.issuer_name context o.config.origin_names

-- `random` is what `crypto::random_bytes(32)` answers.
unfoldable pub create_challenge :
    {Rsa Voprf : Type 0}
    → Result Bytes
    → TokenType
    → Option Bytes
    → Origin Rsa Voprf
    → Result TokenChallenge
create_challenge random type redemption_context o =
    if needs_random o.config.require_redemption_context redemption_context
    then (random >>= λ context. ok (challenge_for type (some context) o))
    else ok (challenge_for type redemption_context o)

module _ {Rsa : Type 0} (crypto : RsaCrypto Rsa) where
  abbrev pub verify_rsa :
      Token → TokenChallenge → Option (PublicOrigin Rsa) → Option (Result Bool) × TokenChallenge
  verify_rsa token challenge none =
      (some (err (error issuer_unknown "No RSA keys configured")), challenge)
  verify_rsa token challenge (some public) = PublicOrigin.verify crypto token challenge public

  -- The `switch` on the token's type. `none` is a read past the end of a `PublicOrigin`'s keys.
  unfoldable pub verify :
      {Voprf : Type 0}
      → Token
      → TokenChallenge
      → Origin Rsa Voprf
      → Option (Result Bool) × TokenChallenge
  verify token challenge o =
      if is_rsa token.token_type
      then verify_rsa token challenge o.public_origin
      else if to_u16 token.token_type == to_u16 voprf_p384_sha384
      then (
        some (
            err (
              error unsupported_token_type "VOPRF tokens require issuer private-key verification")),
        challenge,
      )
      else (some (err (error unsupported_token_type "Unsupported token type")), challenge)

  unfoldable pub verify_and_redeem :
      {Voprf : Type 0}
      → Token
      → TokenChallenge
      → ℕ
      → Origin Rsa Voprf
      → Option (Result Bool) × TokenChallenge × Origin Rsa Voprf
  verify_and_redeem token challenge tick o =
      let (fresh, cache) = check_and_add token.nonce tick o.replay_cache in
      let o' = record o { replay_cache = cache } in
      if not fresh
      then (some (err (error token_replayed "Token has already been redeemed")), challenge, o')
      else let (verdict, challenge') = verify token challenge o' in (verdict, challenge', o')
