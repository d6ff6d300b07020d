-- ===== src/PublicOrigin/Challenge.antt =====
-- The challenges of a public origin.
use privacypass_cpp.Prelude.{
  ◌≤◌, ◌<◌, ◌≡◌, refl, Bool, true, false, Option, none, some, List, [], ◌∷◌, All, length, arith,
  if◌then◌else◌, subst, sym,
}
use privacypass_cpp.Types.{Bytes, blind_rsa, to_u16, of_u16, Result, ok, err, ◌>>=◌}
use privacypass_cpp.TokenChallenge
use privacypass_cpp.TokenChallenge.{TokenChallenge, join}
use privacypass_cpp.TokenChallenge.Origins.{IsOrigin}
use privacypass_cpp.TokenChallenge.RoundTrip.{IsValid, IsContext, deserialize_challenge-serialize}
use privacypass_cpp.PublicOrigin.{
  PublicOrigin, OriginConfig, RsaCrypto, create, add_issuer_keys, add_issuer_key, with_keys,
  needs_random, challenge_for, create_challenge,
}
use privacypass_cpp.PublicOrigin.Keys.{IsIndexed, add_issuer_key-IsIndexed}

-- A configuration whose challenges fit the wire.
pub record IsConfig (c : OriginConfig) : Type 0 where
  pub issuer : (0 < length c.issuer_name) × (length c.issuer_name ≤ 65535)
  pub origins : All IsOrigin c.origin_names
  pub few : length c.origin_names ≤ 100
  pub short : length (join c.origin_names) ≤ 65535

-- The context of a challenge is the caller's, or else the random bytes where the configuration
-- requires a context, or none.
abbrev ContextOf : Bool → Result Bytes → Option Bytes → Option Bytes → Type 0
ContextOf required random (some given) context = context ≡ some given
ContextOf true random none context = (bytes : Bytes) × (random ≡ ok bytes) × (context ≡ some bytes)
ContextOf false random none context = context ≡ none

-- What a challenge that the origin makes is: of its RSA type, with its names and the right context,
-- and readable where it arrives.
pub record IsChallengeOf {Key : Type 0} (o : PublicOrigin Key) (random : Result Bytes)
    (given : Option Bytes) (c : TokenChallenge) : Type 0 where
  pub type : c.token_type ≡ blind_rsa
  pub issuer : c.issuer_name ≡ o.config.issuer_name
  pub origins : c.origin_info ≡ o.config.origin_names
  pub context : ContextOf o.config.require_redemption_context random given c.redemption_context
  pub carried :
      (bytes : Bytes) × (TokenChallenge.serialize c ≡ ok bytes)
      × (TokenChallenge.deserialize bytes ≡ ok c)

-- A random context has 32 bytes.
abbrev pub IsRandom : Result Bytes → Type 0
IsRandom (ok bytes) = length bytes ≡ 32
IsRandom (err e) = Unit

module _ {Key : Type 0} (o : PublicOrigin Key) (g : IsConfig o.config) where
  challenge_for-IsValid :
      (context : Option Bytes) → IsContext context → IsValid (challenge_for o context)
  unfolding TokenChallenge.create to_u16 of_u16
  challenge_for-IsValid context h = record {
    type = (omega arith, refl);
    issuer = g.issuer;
    context = h;
    origins = g.origins;
    few = g.few;
    short = g.short;
    fresh = refl;
  }

  created :
      (random : Result Bytes) (given context : Option Bytes)
      → IsContext context
      → ContextOf o.config.require_redemption_context random given context
      → IsChallengeOf o random given (challenge_for o context)
  unfolding TokenChallenge.create
  created random given context h k =
      let (bytes, e, _, back) =
        deserialize_challenge-serialize (challenge_for o context)
          (challenge_for-IsValid context h) in
      record { type = refl; issuer = refl; origins = refl; context = k; carried = (bytes, e, back) }

  same_challenge : (a b : TokenChallenge) → ◌≡◌ {A = Result TokenChallenge} (ok a) (ok b) → a ≡ b
  same_challenge a b h = cc

  -- The answers for each setting of the configuration.
  answered :
      (required : Bool) (random : Result Bytes) (given : Option Bytes) (c : TokenChallenge)
      → o.config.require_redemption_context ≡ required
      → IsRandom random
      → IsContext given
      → (if needs_random required given
          then (random >>= λ context. ok (challenge_for o (some context)))
          else ok (challenge_for o given))
        ≡ ok c
      → IsChallengeOf o random given c
  answered true random (some given) c e r h k =
      subst (IsChallengeOf o random (some given)) (same_challenge _ _ k)
        (created random (some given) (some given) h refl)
  answered false random (some given) c e r h k =
      subst (IsChallengeOf o random (some given)) (same_challenge _ _ k)
        (created random (some given) (some given) h refl)
  answered true (ok bytes) none c e r h k =
      let made =
        subst (λ q. ContextOf q (ok bytes) none (some bytes)) (sym e) (bytes, refl, refl) in
      subst (IsChallengeOf o (ok bytes) none) (same_challenge _ _ k)
        (created (ok bytes) none (some bytes) r made)
  answered true (err x) none c e r h k = absurd cc
  answered false random none c e r h k =
      subst (IsChallengeOf o random none) (same_challenge _ _ k)
        (created random none none h (subst (λ q. ContextOf q random none none) (sym e) refl))

-- With a configuration that fits the wire, and contexts of 32 bytes: every challenge that
-- `create_challenge` answers is of the type BLIND_RSA, has the issuer and the origins of the
-- configuration, the caller's context, or else the random one where the configuration requires one,
-- or none, and is read back from its serialisation.
pub create_challenge-IsChallengeOf :
    {Key : Type 0} (o : PublicOrigin Key) (random : Result Bytes) (given : Option Bytes)
    (c : TokenChallenge)
    → IsConfig o.config
    → IsRandom random
    → IsContext given
    → create_challenge random given o ≡ ok c
    → IsChallengeOf o random given c
unfolding create_challenge
create_challenge-IsChallengeOf o random given c g r h k =
    answered o g o.config.require_redemption_context random given c refl r h k

module _ {Key : Type 0} (crypto : RsaCrypto Key) where
  add_issuer_keys-IsIndexed :
      (keys : List Key) (o : PublicOrigin Key)
      → IsIndexed o
      → IsIndexed (add_issuer_keys crypto keys o)
  unfolding add_issuer_keys
  add_issuer_keys-IsIndexed [] o h = h
  add_issuer_keys-IsIndexed (key ∷ keys) o h =
      add_issuer_keys-IsIndexed keys (add_issuer_key crypto key o)
        (add_issuer_key-IsIndexed crypto key o h)

  -- An origin that is made with any keys holds no index but those of its keys.
  pub with_keys-IsIndexed :
      (config : OriginConfig) (keys : List Key) → IsIndexed (with_keys crypto config keys)
  unfolding create
  with_keys-IsIndexed config keys = add_issuer_keys-IsIndexed keys (create config) tt
