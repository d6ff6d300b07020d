-- ===== src/TokenProvider/Cached.antt =====
-- What `store_tokens` leaves in the cache, for its digest and for any other.
use privacypass_cpp.Prelude.{
  ℕ, zero, suc, ◌-◌, ◌≡◌, ◌≢◌, refl, sym, ap, subst, ◌∙◌, Bool, true, false, List, [], ◌∷◌, ◌++◌,
  ltb, if◌then◌else◌, length, take, length-append, append_assoc, append-nil, arith, suc,
}
use privacypass_cpp.Types.{Bytes}
use privacypass_cpp.NonceSet.{same, same_self, same-eq}
use privacypass_cpp.Token.{Token}
use privacypass_cpp.TokenProvider.{
  TokenProvider, CachedTokens, push_tokens, store_in, store_tokens, count_in, cached_token_count,
}

-- The tokens that the cache has for a digest.
abbrev pub tokens_in : Bytes → List CachedTokens → List Token
tokens_in digest [] = []
tokens_in digest (e ∷ es) = if same digest e.challenge_digest then e.tokens else tokens_in digest es

-- The first tokens, as many as there is room for behind `cache`.
abbrev pub fitting : ℕ → List Token → List Token → List Token
fitting max cache tokens = take (max - length cache) tokens

take_nil : (n : ℕ) → take {A = Token} n [] ≡ []
take_nil zero = refl
take_nil (suc n) = refl

push_tokens-fitting :
    (max : ℕ) (tokens cache : List Token)
    → push_tokens max tokens cache ≡ cache ++ fitting max cache tokens
unfolding push_tokens
push_tokens-fitting max [] cache =
    sym (ap (λ l. cache ++ l) (take_nil (max - length cache)) ∙ append-nil cache)
push_tokens-fitting max (token ∷ tokens) cache =
    go (ltb (length cache) max) refl (push_tokens-fitting max tokens cache)
      (push_tokens-fitting max tokens (cache ++ token ∷ []))
  where
    go :
        (p : Bool)
        → ltb (length cache) max ≡ p
        → push_tokens max tokens cache ≡ cache ++ fitting max cache tokens
        → push_tokens max tokens (cache ++ token ∷ [])
          ≡ (cache ++ token ∷ []) ++ fitting max (cache ++ token ∷ []) tokens
        → push_tokens max tokens (if p then cache ++ token ∷ [] else cache)
          ≡ cache ++ fitting max cache (token ∷ tokens)
    go true e ih ih' =
        let room : max - length cache ≡ suc (max - length (cache ++ token ∷ [])) =
          ground (arith, length-append cache (token ∷ [])) in
        ih'
        ∙ rw (room, append_assoc cache (token ∷ []) (fitting max (cache ++ token ∷ []) tokens)) refl
    go false e ih ih' = let full : max - length cache ≡ 0 = ground arith in ih ∙ rw full refl

tokens_in-store_in :
    (max : ℕ) (digest : Bytes) (tokens : List Token) (es : List CachedTokens)
    → tokens_in digest (store_in max digest tokens es)
      ≡ tokens_in digest es ++ fitting max (tokens_in digest es) tokens
unfolding store_in
tokens_in-store_in max digest tokens [] = rw (same_self digest) (push_tokens-fitting max tokens [])
tokens_in-store_in max digest tokens (e ∷ es) =
    go (same digest e.challenge_digest) refl (tokens_in-store_in max digest tokens es)
  where
    go :
        (p : Bool)
        → same digest e.challenge_digest ≡ p
        → tokens_in digest (store_in max digest tokens es)
          ≡ tokens_in digest es ++ fitting max (tokens_in digest es) tokens
        → tokens_in digest (
            if p
            then record e { tokens = push_tokens max tokens e.tokens } ∷ es
            else e ∷ store_in max digest tokens es)
          ≡ tokens_in digest (e ∷ es) ++ fitting max (tokens_in digest (e ∷ es)) tokens
    go true q ih = rw (tokens_in, q) (push_tokens-fitting max tokens e.tokens)
    go false q ih = rw (tokens_in, q) ih

tokens_in-store_in_other :
    (max : ℕ) (digest other : Bytes) (tokens : List Token) (es : List CachedTokens)
    → same other digest ≡ false
    → tokens_in other (store_in max digest tokens es) ≡ tokens_in other es
unfolding store_in
tokens_in-store_in_other max digest other tokens [] h = rw h refl
tokens_in-store_in_other max digest other tokens (e ∷ es) h =
    go (same digest e.challenge_digest) refl (tokens_in-store_in_other max digest other tokens es h)
  where
    go :
        (p : Bool)
        → same digest e.challenge_digest ≡ p
        → tokens_in other (store_in max digest tokens es) ≡ tokens_in other es
        → tokens_in other (
            if p
            then record e { tokens = push_tokens max tokens e.tokens } ∷ es
            else e ∷ store_in max digest tokens es)
          ≡ tokens_in other (e ∷ es)
    go true q ih =
        let differs : same other e.challenge_digest ≡ false =
          subst (λ d. same other d ≡ false) (same-eq digest e.challenge_digest q) h in
        rw (tokens_in, differs) refl
    go false q ih = rw (tokens_in, ih) refl

count_in-length :
    (digest : Bytes) (es : List CachedTokens) → count_in digest es ≡ length (tokens_in digest es)
unfolding count_in
count_in-length digest [] = refl
count_in-length digest (e ∷ es) = go (same digest e.challenge_digest) (count_in-length digest es)
  where
    go :
        (p : Bool)
        → count_in digest es ≡ length (tokens_in digest es)
        → (if p then length e.tokens else count_in digest es)
          ≡ length (if p then e.tokens else tokens_in digest es)
    go true ih = refl
    go false ih = ih

same-ne : (xs ys : Bytes) → xs ≢ ys → same xs ys ≡ false
same-ne xs ys ne = go (same xs ys) refl
  where
    go : (p : Bool) → same xs ys ≡ p → p ≡ false
    go true e = absurd (ne (same-eq xs ys e))
    go false e = refl

-- For its digest `store_tokens` puts the first tokens behind those that are cached, as many as the
-- configuration has room for, and `cached_token_count` counts them all; for any other digest the
-- cached tokens stay as they were.
pub store_tokens-tokens_in :
    (digest other : Bytes) (tokens : List Token) (p : TokenProvider)
    → other ≢ digest
    → let after = store_tokens digest tokens p in
      let cached = tokens_in digest p.token_cache in
      let kept = cached ++ take (p.config.max_cached_tokens - length cached) tokens in
      (tokens_in digest after.token_cache ≡ kept)
      × (cached_token_count digest after ≡ length kept)
      × (tokens_in other after.token_cache ≡ tokens_in other p.token_cache)
unfolding store_tokens cached_token_count
store_tokens-tokens_in digest other tokens p ne =
    let max = p.config.max_cached_tokens in
    let stored = tokens_in-store_in max digest tokens p.token_cache in
    (
      stored,
      count_in-length digest (store_in max digest tokens p.token_cache) ∙ ap length stored,
      tokens_in-store_in_other max digest other tokens p.token_cache (same-ne other digest ne),
    )
