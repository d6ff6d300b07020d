-- ===== src/PublicOrigin/Redeem.antt =====
-- A nonce is redeemed once within the window.
use privacypass_cpp.Prelude.{
  ℕ, ◌+◌, ◌≤◌, ◌<◌, ◌≡◌, refl, ap, ◌∙◌, sym, subst, Bool, true, false, some, List, [], ◌∷◌, length,
}
use privacypass_cpp.Types.{Error, ok, err, error, token_replayed}
use privacypass_cpp.ReplayCache.{
  ReplayCache, check_and_add, size, Call, check_and_add_call, step, run,
}
use privacypass_cpp.ReplayCache.Validity.{IsValid, IsTimeline}
use privacypass_cpp.ReplayCache.Replay.{replay_refused}
use privacypass_cpp.Token.{Token}
use privacypass_cpp.TokenChallenge.{TokenChallenge}
use privacypass_cpp.PublicOrigin.{PublicOrigin, RsaCrypto, verify_and_redeem}

-- One call of `verify_and_redeem`, at the tick that the clock gives it.
pub record Redemption : Type 0 where
  pub token : Token
  pub challenge : TokenChallenge
  pub tick : ℕ

abbrev pub calls : List Redemption → List Call
calls [] = []
calls (r ∷ rs) = check_and_add_call r.token.nonce r.tick ∷ calls rs

module _ {Key : Type 0} (crypto : RsaCrypto Key) where
  abbrev pub redeem : Redemption → PublicOrigin Key → PublicOrigin Key
  redeem r o = (verify_and_redeem crypto r.token r.challenge r.tick o).2

  pub redeem_all : List Redemption → PublicOrigin Key → PublicOrigin Key
  redeem_all [] o = o
  redeem_all (r ∷ rs) o = redeem_all rs (redeem r o)

  redeem-cache :
      (r : Redemption) (o : PublicOrigin Key)
      → (redeem r o).replay_cache ≡ (check_and_add r.token.nonce r.tick o.replay_cache).1
  unfolding verify_and_redeem
  redeem-cache r o = go (check_and_add r.token.nonce r.tick o.replay_cache).0 refl
    where
      go :
          (p : Bool)
          → (check_and_add r.token.nonce r.tick o.replay_cache).0 ≡ p
          → (redeem r o).replay_cache ≡ (check_and_add r.token.nonce r.tick o.replay_cache).1
      go true e = rw (redeem, verify_and_redeem, e) refl
      go false e = rw (redeem, verify_and_redeem, e) refl

  redeem_all-cache :
      (rs : List Redemption) (o : PublicOrigin Key)
      → (redeem_all rs o).replay_cache ≡ run (calls rs) o.replay_cache
  unfolding redeem_all run step
  redeem_all-cache [] o = refl
  redeem_all-cache (r ∷ rs) o =
      redeem_all-cache rs (redeem r o) ∙ ap (run (calls rs)) (redeem-cache r o)

  -- A token that is not answered as replayed had a nonce that the cache took in.
  accepted-new :
      (r : Redemption) (o : PublicOrigin Key)
      → (verify_and_redeem crypto r.token r.challenge r.tick o).0 ≡ some (ok true)
      → (check_and_add r.token.nonce r.tick o.replay_cache).0 ≡ true
  unfolding verify_and_redeem
  accepted-new r o h = go (check_and_add r.token.nonce r.tick o.replay_cache).0 refl h
    where
      go :
          (p : Bool)
          → (check_and_add r.token.nonce r.tick o.replay_cache).0 ≡ p
          → (verify_and_redeem crypto r.token r.challenge r.tick o).0 ≡ some (ok true)
          → (check_and_add r.token.nonce r.tick o.replay_cache).0 ≡ true
      go true e h = e
      go false e h = absurd (apart _ (sym (answered e) ∙ h))
        where
          answered :
              (check_and_add r.token.nonce r.tick o.replay_cache).0 ≡ false
              → (verify_and_redeem crypto r.token r.challenge r.tick o).0
                ≡ some (err (error token_replayed "Token has already been redeemed"))
          answered e = rw (verify_and_redeem, e) refl

          apart : (x : Error) → some (err x) ≡ some (ok true) → ⊥
          apart x p = cc

  known-replayed :
      (r : Redemption) (o : PublicOrigin Key)
      → (check_and_add r.token.nonce r.tick o.replay_cache).0 ≡ false
      → (verify_and_redeem crypto r.token r.challenge r.tick o).0
        ≡ some (err (error token_replayed "Token has already been redeemed"))
  unfolding verify_and_redeem
  known-replayed r o e = rw (verify_and_redeem, e) refl

  -- Where the cache is valid and ticks do not go back: after `verify_and_redeem` has accepted a
  -- token, and whatever other redemptions follow, a later token with that nonce is answered as
  -- replayed, before the window has passed and while the redemptions are too few to exceed the
  -- cache's maximum.
  pub verify_and_redeem-once :
      (o : PublicOrigin Key) (first second : Redemption) (between : List Redemption)
      → IsValid first.tick o.replay_cache
      → IsTimeline first.tick second.tick (calls between)
      → (verify_and_redeem crypto first.token first.challenge first.tick o).0 ≡ some (ok true)
      → second.token.nonce ≡ first.token.nonce
      → second.tick < first.tick + o.replay_cache.window_seconds
      → size (redeem first o).replay_cache + length (calls between) ≤ o.replay_cache.max_size
      → (verify_and_redeem crypto second.token second.challenge second.tick
          (redeem_all between (redeem first o))).0
        ≡ some (err (error token_replayed "Token has already been redeemed"))
  verify_and_redeem-once o first second between v t accepted same early few =
      let c = o.replay_cache in
      let kept = redeem-cache first o in
      let refused =
        replay_refused c first.token.nonce first.tick second.tick (calls between) v t
          (accepted-new first o accepted) early
          (subst (λ (d : ReplayCache). size d + length (calls between) ≤ c.max_size) kept few) in
      known-replayed second (redeem_all between (redeem first o))
        (rw (redeem_all-cache between (redeem first o), kept, same) refused)
