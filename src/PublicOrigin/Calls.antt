-- ===== src/PublicOrigin/Calls.antt =====
-- An origin under any sequence of its calls: `verify` never reads past the end of `issuer_keys`.
use privacypass_cpp.Prelude.{◌≡◌, ◌≢◌, refl, Bool, true, false, none, List, [], ◌∷◌}
use privacypass_cpp.Types.{Bytes}
use privacypass_cpp.Token.{Token}
use privacypass_cpp.TokenChallenge.{TokenChallenge}
use privacypass_cpp.ReplayCache.{check_and_add}
use privacypass_cpp.PublicOrigin.{
  PublicOrigin, OriginConfig, RsaCrypto, with_keys, add_issuer_key, remove_issuer_key, verify,
  verify_and_redeem,
}
use privacypass_cpp.PublicOrigin.Redeem.{Redemption, redeem}
use privacypass_cpp.PublicOrigin.Keys.{
  IsIndexed, add_issuer_key-IsIndexed, remove_issuer_key-IsIndexed,
}
use privacypass_cpp.PublicOrigin.Challenge.{with_keys-IsIndexed}
use privacypass_cpp.PublicOrigin.Verify.{verify-ne-none}

-- The calls that change an origin.
pub data OriginCall (Key : Type 0) : Type 0 where
  add_key_call : Key → OriginCall Key
  remove_key_call : Bytes → OriginCall Key
  redeem_call : Redemption → OriginCall Key

module _ {Key : Type 0} (crypto : RsaCrypto Key) where
  unfoldable pub apply_call : OriginCall Key → PublicOrigin Key → PublicOrigin Key
  apply_call (add_key_call key) o = add_issuer_key crypto key o
  apply_call (remove_key_call id) o = remove_issuer_key crypto id o
  apply_call (redeem_call r) o = redeem crypto r o

  unfoldable pub apply_calls : List (OriginCall Key) → PublicOrigin Key → PublicOrigin Key
  unfolding apply_call
  apply_calls [] o = o
  apply_calls (c ∷ cs) o = apply_calls cs (apply_call c o)

  redeem-IsIndexed :
      (r : Redemption) (o : PublicOrigin Key) → IsIndexed o → IsIndexed (redeem crypto r o)
  unfolding verify_and_redeem
  redeem-IsIndexed r o h = go (check_and_add r.token.nonce r.tick o.replay_cache).0 refl
    where
      go :
          (p : Bool)
          → (check_and_add r.token.nonce r.tick o.replay_cache).0 ≡ p
          → IsIndexed (redeem crypto r o)
      go true e = rw (redeem, verify_and_redeem, e) h
      go false e = rw (redeem, verify_and_redeem, e) h

  apply_calls-IsIndexed :
      (cs : List (OriginCall Key)) (o : PublicOrigin Key)
      → IsIndexed o
      → IsIndexed (apply_calls cs o)
  unfolding apply_calls apply_call
  apply_calls-IsIndexed [] o h = h
  apply_calls-IsIndexed (add_key_call key ∷ cs) o h =
      apply_calls-IsIndexed cs _ (add_issuer_key-IsIndexed crypto key o h)
  apply_calls-IsIndexed (remove_key_call id ∷ cs) o h =
      apply_calls-IsIndexed cs _ (remove_issuer_key-IsIndexed crypto id o h)
  apply_calls-IsIndexed (redeem_call r ∷ cs) o h =
      apply_calls-IsIndexed cs _ (redeem-IsIndexed r o h)

  -- Whatever keys an origin was made with, and whatever keys are added and removed and tokens redeemed
  -- after that, in any order: `verify` reads no key past the end of `issuer_keys`.
  pub verify-apply_calls :
      (config : OriginConfig) (keys : List Key) (cs : List (OriginCall Key)) (token : Token)
      (challenge : TokenChallenge)
      → (verify crypto token challenge (apply_calls cs (with_keys crypto config keys))).0 ≢ none
  verify-apply_calls config keys cs token challenge =
      verify-ne-none crypto token challenge _
        (apply_calls-IsIndexed cs _ (with_keys-IsIndexed crypto config keys))
