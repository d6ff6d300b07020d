-- ===== src/TokenAuthenticator/Redeem.antt =====
-- What `validate_and_redeem` changes, and that it accepts a nonce once.
use privacypass_cpp.Prelude.{
  ℕ, ◌+◌, ◌≤◌, ◌<◌, ◌≡◌, refl, sym, ap, subst, ◌∙◌, Bool, true, false, Option, none, some, List, [],
  ◌∷◌, ◌++◌, length, length-append, All, All-append, arith,
}
use privacypass_cpp.Types.{Bytes}
use privacypass_cpp.NonceSet.{same, contains}
use privacypass_cpp.RedeemedNonces.{
  RedeemedNonces, max_size, check_and_add_nonce, NonceCall, check_and_add_nonce_call, apply_call,
  apply_calls, redemption_cache_size,
}
use privacypass_cpp.RedeemedNonces.Replay.{time_of, redeemed_refused}
use privacypass_cpp.RedeemedNonces.Queue.{IsQueue}
use privacypass_cpp.RedeemedNonces.Absent.{check_and_add-absent, refused-held}
use privacypass_cpp.Token.{Token}
use privacypass_cpp.TokenChallenge.{TokenChallenge}
use privacypass_cpp.PublicOrigin.{RsaCrypto}
use privacypass_cpp.TokenAuthenticator.{
  TokenAuthenticator, ValidationResult, success, failure, replayed, Verdict, refused, passed,
  checks, redeem_passed, validate_and_redeem,
}

module _ {Rsa Voprf : Type 0} where
  -- A success has passed the checks and takes in the nonce, which was not there, as
  -- `check_and_add_nonce` does; anything else changes nothing.
  abbrev Change :
      Token
      → ℕ
      → Option Verdict
      → TokenAuthenticator Rsa Voprf
      → ValidationResult
      → Bool
      → TokenAuthenticator Rsa Voprf
      → Type 0
  Change token now verdict a result true a' =
      (contains token.nonce a.redeemed.redeemed_nonces ≡ false)
      × (contains token.nonce a'.redeemed.redeemed_nonces ≡ true)
      × (a' ≡ record a { redeemed = (check_and_add_nonce token.nonce now a.redeemed).1 })
      × (digest : Bytes) × (verdict ≡ some (passed digest))
      × (result ≡ success digest)
  Change token now verdict a result false a' = a' ≡ a

  abbrev pub Outcome :
      Token
      → ℕ
      → Option Verdict
      → TokenAuthenticator Rsa Voprf
      → Option ValidationResult × TokenAuthenticator Rsa Voprf
      → Type 0
  Outcome token now verdict a (none, a') = a' ≡ a
  Outcome token now verdict a (some result, a') = Change token now verdict a result result.valid a'

  redeem_passed-Outcome :
      (token : Token) (now : ℕ) (a : TokenAuthenticator Rsa Voprf) (v : Option Verdict)
      → contains token.nonce a.redeemed.redeemed_nonces ≡ false
      → Outcome token now v a (redeem_passed token now a v)
  unfolding redeem_passed success failure
  redeem_passed-Outcome token now a none h = refl
  redeem_passed-Outcome token now a (some (refused code message)) h = refl
  redeem_passed-Outcome token now a (some (passed d)) h =
      let (added, held) = check_and_add-absent token.nonce now a.redeemed h in
      rw (added, redeem_passed) (h, held, refl, d, refl, refl)

module _ {Rsa Voprf : Type 0} (crypto : RsaCrypto Rsa) where
  answered_replayed :
      (token : Token) (challenge : TokenChallenge) (now : ℕ) (a : TokenAuthenticator Rsa Voprf)
      → contains token.nonce a.redeemed.redeemed_nonces ≡ true
      → (validate_and_redeem crypto token challenge now a).0 ≡ (some replayed, a)
  unfolding validate_and_redeem
  answered_replayed token challenge now a e = rw (e, validate_and_redeem) refl

  answered_checked :
      (token : Token) (challenge : TokenChallenge) (now : ℕ) (a : TokenAuthenticator Rsa Voprf)
      → contains token.nonce a.redeemed.redeemed_nonces ≡ false
      → (validate_and_redeem crypto token challenge now a).0
        ≡ redeem_passed token now a (checks crypto token challenge a).0
  unfolding validate_and_redeem
  answered_checked token challenge now a e = rw (e, validate_and_redeem) refl

  -- `validate_and_redeem` answers success only for a token that has passed the checks, with the
  -- digest of these, and whose nonce was not redeemed; the nonce is redeemed then, and the
  -- authenticator changes in nothing but what `check_and_add_nonce` does to the redeemed nonces,
  -- which also drops the expired and, where there is no room, the oldest. Where it refuses a token,
  -- for whatever reason, the authenticator is as it was.
  pub validate_and_redeem-Outcome :
      (token : Token) (challenge : TokenChallenge) (now : ℕ) (a : TokenAuthenticator Rsa Voprf)
      → Outcome token now
          (checks crypto token challenge a).0
          a
          (validate_and_redeem crypto token challenge now a).0
  unfolding failure
  validate_and_redeem-Outcome token challenge now a =
      go (contains token.nonce a.redeemed.redeemed_nonces) refl
    where
      go :
          (p : Bool)
          → contains token.nonce a.redeemed.redeemed_nonces ≡ p
          → Outcome token now
              (checks crypto token challenge a).0
              a
              (validate_and_redeem crypto token challenge now a).0
      go true e =
          subst (Outcome token now (checks crypto token challenge a).0 a)
            (sym (answered_replayed token challenge now a e)) refl
      go false e =
          subst (Outcome token now (checks crypto token challenge a).0 a)
            (sym (answered_checked token challenge now a e)) (redeem_passed-Outcome token now a _ e)

-- One call of `validate_and_redeem`, at the time that the clock gives it.
pub record Attempt : Type 0 where
  pub token : Token
  pub challenge : TokenChallenge
  pub now : ℕ

module _ {Rsa Voprf : Type 0} (crypto : RsaCrypto Rsa) where
  abbrev pub attempt : Attempt → TokenAuthenticator Rsa Voprf → TokenAuthenticator Rsa Voprf
  attempt t a = (validate_and_redeem crypto t.token t.challenge t.now a).0.1

  pub attempt_all : List Attempt → TokenAuthenticator Rsa Voprf → TokenAuthenticator Rsa Voprf
  attempt_all [] a = a
  attempt_all (t ∷ ts) a = attempt_all ts (attempt t a)

apply_calls-append :
    (cs cs' : List NonceCall) (r : RedeemedNonces)
    → apply_calls (cs ++ cs') r ≡ apply_calls cs' (apply_calls cs r)
unfolding apply_calls
apply_calls-append [] cs' r = refl
apply_calls-append (c ∷ cs) cs' r = apply_calls-append cs cs' (apply_call c r)

-- What attempts do to the redeemed nonces: calls, one for each attempt or fewer.
abbrev Calls : ℕ → ℕ → RedeemedNonces → RedeemedNonces → Type 0
Calls until n r r' =
    (cs : List NonceCall) × (length cs ≤ n)
    × All (λ (c : NonceCall). time_of c ≤ until) cs
    × (r' ≡ apply_calls cs r)

module _ {Rsa Voprf : Type 0} (crypto : RsaCrypto Rsa) where
  Change-Calls :
      (token : Token) (now until : ℕ) (verdict : Option Verdict)
      (a a' : TokenAuthenticator Rsa Voprf) (result : ValidationResult) (valid : Bool)
      → now ≤ until
      → Change token now verdict a result valid a'
      → Calls until 1 a.redeemed a'.redeemed
  unfolding apply_calls apply_call time_of
  Change-Calls token now until verdict a a' result true le (_, _, e, _, _, _) = (
    check_and_add_nonce_call token.nonce now ∷ [],
    omega arith,
    (le, tt),
    ap (λ (x : TokenAuthenticator Rsa Voprf). x.redeemed) e,
  )
  Change-Calls token now until verdict a a' result false le e =
      ([], omega arith, tt, ap (λ (x : TokenAuthenticator Rsa Voprf). x.redeemed) e)

  Outcome-Calls :
      (token : Token) (now until : ℕ) (verdict : Option Verdict) (a : TokenAuthenticator Rsa Voprf)
      (answer : Option ValidationResult × TokenAuthenticator Rsa Voprf)
      → now ≤ until
      → Outcome token now verdict a answer
      → Calls until 1 a.redeemed answer.1.redeemed
  unfolding apply_calls
  Outcome-Calls token now until verdict a (none, a') le h =
      ([], omega arith, tt, ap (λ (x : TokenAuthenticator Rsa Voprf). x.redeemed) h)
  Outcome-Calls token now until verdict a (some v, a') le h =
      Change-Calls token now until verdict a a' v v.valid le h

  attempt_all-Calls :
      (until : ℕ) (ts : List Attempt) (a : TokenAuthenticator Rsa Voprf)
      → All (λ (t : Attempt). t.now ≤ until) ts
      → Calls until (length ts) a.redeemed (attempt_all crypto ts a).redeemed
  unfolding attempt_all apply_calls
  attempt_all-Calls until [] a h = ([], omega arith, tt, refl)
  attempt_all-Calls until (t ∷ ts) a (le, h) =
      let (cs, few, early, e) =
        Outcome-Calls t.token t.now until _ a _ le
          (validate_and_redeem-Outcome crypto t.token t.challenge t.now a) in
      let (cs', few', early', e') = attempt_all-Calls until ts (attempt crypto t a) h in
      (
        cs ++ cs',
        omega (arith, length-append cs cs'),
        All-append _ cs cs' early early',
        e' ∙ ap (apply_calls cs') e ∙ sym (apply_calls-append cs cs' a.redeemed),
      )

  -- The change that an accepted attempt makes.
  accepted_change :
      (t : Attempt) (a : TokenAuthenticator Rsa Voprf) (digest : Bytes)
      → (validate_and_redeem crypto t.token t.challenge t.now a).0.0 ≡ some (success digest)
      → (contains t.token.nonce a.redeemed.redeemed_nonces ≡ false)
        × ((attempt crypto t a).redeemed ≡ (check_and_add_nonce t.token.nonce t.now a.redeemed).1)
  unfolding success
  accepted_change t a digest h =
      go _ (validate_and_redeem-Outcome crypto t.token t.challenge t.now a) h
    where
      go :
          (answer : Option ValidationResult × TokenAuthenticator Rsa Voprf)
          → Outcome t.token t.now (checks crypto t.token t.challenge a).0 a answer
          → answer.0 ≡ some (success digest)
          → (contains t.token.nonce a.redeemed.redeemed_nonces ≡ false)
            × (answer.1.redeemed ≡ (check_and_add_nonce t.token.nonce t.now a.redeemed).1)
      go (none, a') o k = absurd cc
      go (some v, a') o k =
          let e : v.valid ≡ true = ground arith in
          let verdict = (checks crypto t.token t.challenge a).0 in
          let (absent, _, change, _, _, _) : Change t.token t.now verdict a v true a' =
            subst (λ b. Change t.token t.now verdict a v b a') e o in
          (absent, ap (λ (x : TokenAuthenticator Rsa Voprf). x.redeemed) change)

  -- Where the redeemed nonces are those of the entries: after `validate_and_redeem` has accepted a
  -- token, and whatever other attempts follow within the window, a later attempt with that nonce is
  -- answered as replayed and changes nothing, until the window has passed and while the attempts are
  -- too few to fill the set.
  pub validate_and_redeem-once :
      (a : TokenAuthenticator Rsa Voprf) (first second : Attempt) (between : List Attempt)
      (digest : Bytes)
      → IsQueue a.redeemed
      → (validate_and_redeem crypto first.token first.challenge first.now a).0.0
        ≡ some (success digest)
      → All (λ (t : Attempt). t.now ≤ first.now + a.redeemed.replay_window) between
      → second.token.nonce ≡ first.token.nonce
      → second.now ≤ first.now + a.redeemed.replay_window
      → redemption_cache_size (attempt crypto first a).redeemed + length between
        < max_size a.redeemed
      → (validate_and_redeem crypto second.token second.challenge second.now
          (attempt_all crypto between (attempt crypto first a))).0
        ≡ (some replayed, attempt_all crypto between (attempt crypto first a))
  validate_and_redeem-once a first second between digest q accepted early same late few =
      let n = first.token.nonce in
      let after = attempt_all crypto between (attempt crypto first a) in
      let (absent, e) = accepted_change first a digest accepted in
      let (added, _) = check_and_add-absent n first.now a.redeemed absent in
      let (cs, few', early', e') =
        attempt_all-Calls (first.now + a.redeemed.replay_window) between (attempt crypto first a)
          early in
      let size = ap (λ (r : RedeemedNonces). length r.redeemed_nonces) e in
      let refused =
        redeemed_refused a.redeemed n first.now second.now cs q added early' late
          (omega (arith, size)) in
      let held = refused-held n second.now _ refused in
      answered_replayed crypto second.token second.challenge second.now after
        (rw same (rw (e' ∙ ap (apply_calls cs) e) held))
