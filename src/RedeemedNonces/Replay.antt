-- ===== src/RedeemedNonces/Replay.antt =====
-- A redeemed nonce is refused until its window has passed.
use privacypass_cpp.Prelude.{
  ℕ, ◌+◌, ◌-◌, ◌≤◌, ◌<◌, ◌≡◌, ◌≢◌, ◌⊎◌, inl, inr, refl, ap, ◌∙◌, sym, subst, Bool, true, false,
  ◌||◌, List, [], ◌∷◌, ltb, leb, length, All, arith,
}
use privacypass_cpp.NonceSet.{Nonce, contains, same, same_self}
use privacypass_cpp.RedeemedNonces.{
  NonceEntry, RedeemedNonces, NonceCall, check_and_add_nonce_call, prune_redemption_cache_call,
  apply_call, apply_calls, max_size, prune_redemption_cache, check_and_add_nonce,
  redemption_cache_size,
}
use privacypass_cpp.RedeemedNonces.Bounds.{with_entry-size}
use privacypass_cpp.RedeemedNonces.Queue.{
  nonces, of_entries, IsQueue, unexpired, fitting, kept, with_entry, accept,
  check_and_add_nonce-of_entries, prune_until-of_entries,
}

-- `n` has an entry of the time `since` or later.
abbrev Held : ℕ → Nonce → List NonceEntry → Type 0
Held since n [] = ⊥
Held since n (e ∷ es) = ((since ≤ e.timestamp) × (same n e.nonce ≡ true)) ⊎ Held since n es

or_true : (p q : Bool) → (p ≡ true) ⊎ (q ≡ true) → (p || q) ≡ true
or_true true q h = refl
or_true false q (inl h) = cc
or_true false q (inr h) = h

Held-contains :
    (since : ℕ) (n : Nonce) (es : List NonceEntry) → Held since n es → contains n (nonces es) ≡ true
unfolding contains nonces
Held-contains since n [] h = absurd h
Held-contains since n (e ∷ es) (inl (_, h)) = or_true _ _ (inl h)
Held-contains since n (e ∷ es) (inr h) = or_true _ _ (inr (Held-contains since n es h))

Held-unexpired :
    (cutoff since : ℕ) (n : Nonce) (es : List NonceEntry)
    → cutoff ≤ since
    → Held since n es
    → Held since n (unexpired cutoff es)
unfolding unexpired
Held-unexpired cutoff since n [] le h = h
Held-unexpired cutoff since n (e ∷ es) le h =
    go (ltb e.timestamp cutoff) refl h (Held-unexpired cutoff since n es le)
  where
    go :
        (p : Bool)
        → ltb e.timestamp cutoff ≡ p
        → Held since n (e ∷ es)
        → (Held since n es → Held since n (unexpired cutoff es))
        → Held since n (unexpired cutoff (e ∷ es))
    go true eq (inl (late, _)) ih = absurd (ground arith)
    go true eq (inr h) ih = rw (unexpired, eq) (ih h)
    go false eq h ih = rw (unexpired, eq) h

unexpired-size :
    (cutoff : ℕ) (es : List NonceEntry) → length (nonces (unexpired cutoff es)) ≤ length (nonces es)
unfolding unexpired nonces
unexpired-size cutoff [] = omega arith
unexpired-size cutoff (e ∷ es) = go (ltb e.timestamp cutoff) refl (unexpired-size cutoff es)
  where
    go :
        (p : Bool)
        → ltb e.timestamp cutoff ≡ p
        → length (nonces (unexpired cutoff es)) ≤ length (nonces es)
        → length (nonces (unexpired cutoff (e ∷ es))) ≤ length (nonces (e ∷ es))
    go true eq ih = rw (unexpired, eq) (omega arith)
    go false eq ih = rw (unexpired, eq) (omega arith)

fitting-same : (max : ℕ) (es : List NonceEntry) → length (nonces es) < max → fitting max es ≡ es
unfolding fitting
fitting-same max [] h = refl
fitting-same max (e ∷ es) h =
    let eq : leb max (length (nonces (e ∷ es))) ≡ false = ground arith in rw eq refl

Held-kept :
    (r : RedeemedNonces) (now since : ℕ) (n : Nonce) (es : List NonceEntry)
    → now ≤ since + r.replay_window
    → length (nonces es) < max_size r
    → Held since n es
    → Held since n (kept r now es) × (length (nonces (kept r now es)) ≤ length (nonces es))
unfolding kept
Held-kept r now since n es early few h =
    let shrunk = unexpired-size (now - r.replay_window) es in
    rw (fitting-same (max_size r) (unexpired (now - r.replay_window) es) (omega arith))
      (Held-unexpired (now - r.replay_window) since n es (omega arith) h, shrunk)

Held-with_entry :
    (since : ℕ) (n m : Nonce) (now : ℕ) (es : List NonceEntry)
    → Held since n es
    → Held since n (with_entry m now es)
Held-with_entry since n m now [] h = absurd h
Held-with_entry since n m now (e ∷ es) (inl h) = inl h
Held-with_entry since n m now (e ∷ es) (inr h) = inr (Held-with_entry since n m now es h)

with_entry-Held : (n : Nonce) (now : ℕ) (es : List NonceEntry) → Held now n (with_entry n now es)
with_entry-Held n now [] = inl (omega arith, same_self n)
with_entry-Held n now (e ∷ es) = inr (with_entry-Held n now es)

-- The queue after a call, and the call's time.
unfoldable queue_step : RedeemedNonces → NonceCall → List NonceEntry → List NonceEntry
queue_step r (check_and_add_nonce_call n now) es = (accept r n now es).1
queue_step r (prune_redemption_cache_call now) es = unexpired (now - r.replay_window) es

unfoldable pub time_of : NonceCall → ℕ
time_of (check_and_add_nonce_call n now) = now
time_of (prune_redemption_cache_call now) = now

apply_call-of_entries :
    (r : RedeemedNonces) (c : NonceCall) (es : List NonceEntry)
    → apply_call c (of_entries r es) ≡ of_entries r (queue_step r c es)
unfolding apply_call queue_step prune_redemption_cache
apply_call-of_entries r (check_and_add_nonce_call n now) es =
    ap (λ (a : Bool × RedeemedNonces). a.1) (check_and_add_nonce-of_entries r n now es)
apply_call-of_entries r (prune_redemption_cache_call now) es =
    prune_until-of_entries r (now - r.replay_window) es

Held-step :
    (r : RedeemedNonces) (c : NonceCall) (since : ℕ) (n : Nonce) (es : List NonceEntry)
    → time_of c ≤ since + r.replay_window
    → length (nonces es) < max_size r
    → Held since n es
    → Held since n (queue_step r c es)
      × (length (nonces (queue_step r c es)) ≤ length (nonces es) + 1)
unfolding queue_step time_of accept
Held-step r (prune_redemption_cache_call now) since n es early few h = (
  Held-unexpired (now - r.replay_window) since n es (omega arith) h,
  omega (arith, unexpired-size (now - r.replay_window) es),
)
Held-step r (check_and_add_nonce_call m now) since n es early few h =
    go (contains m (nonces (kept r now es))) refl (Held-kept r now since n es early few h)
  where
    go :
        (p : Bool)
        → contains m (nonces (kept r now es)) ≡ p
        → Held since n (kept r now es) × (length (nonces (kept r now es)) ≤ length (nonces es))
        → Held since n (accept r m now es).1
          × (length (nonces (accept r m now es).1) ≤ length (nonces es) + 1)
    go true eq (h, le) = rw (accept, eq) (h, omega (arith, le))
    go false eq (h, le) =
        rw (accept, eq)
          (
            Held-with_entry since n m now (kept r now es) h,
            omega (arith, le, with_entry-size m now (kept r now es)),
          )

-- A call that comes before the window of `since` has passed.
abbrev pub IsEarly : RedeemedNonces → ℕ → List NonceCall → Type 0
IsEarly r since cs = All (λ (c : NonceCall). time_of c ≤ since + r.replay_window) cs

-- The entries after calls, and what they hold.
Held-calls :
    (r : RedeemedNonces) (since : ℕ) (n : Nonce) (cs : List NonceCall) (es : List NonceEntry)
    → IsEarly r since cs
    → length (nonces es) + length cs < max_size r
    → Held since n es
    → (fs : List NonceEntry) × (apply_calls cs (of_entries r es) ≡ of_entries r fs)
      × Held since n fs
      × (length (nonces fs) < max_size r)
unfolding apply_calls
Held-calls r since n [] es early few h = (es, refl, h, omega arith)
Held-calls r since n (c ∷ cs) es (early, later) few h =
    let (h', le) = Held-step r c since n es early (omega arith) h in
    let (fs, e, k, s) = Held-calls r since n cs (queue_step r c es) later (omega arith) h' in
    (fs, ap (apply_calls cs) (apply_call-of_entries r c es) ∙ e, k, s)

accept-Held :
    (r : RedeemedNonces) (n : Nonce) (now : ℕ) (es : List NonceEntry)
    → (accept r n now es).0 ≡ true
    → Held now n (accept r n now es).1
unfolding accept
accept-Held r n now es h = go (contains n (nonces (kept r now es))) refl h
  where
    go :
        (p : Bool)
        → contains n (nonces (kept r now es)) ≡ p
        → (accept r n now es).0 ≡ true
        → Held now n (accept r n now es).1
    go true e h = absurd (false-ne-true (rw (← h, accept, e) refl))
      where
        false-ne-true : false ≢ true
        false-ne-true p = cc
    go false e h = rw (accept, e) (with_entry-Held n now (kept r now es))

Held-refused :
    (r : RedeemedNonces) (since : ℕ) (n : Nonce) (now : ℕ) (es : List NonceEntry)
    → Held since n (kept r now es)
    → (accept r n now es).0 ≡ false
unfolding accept
Held-refused r since n now es h = rw (Held-contains since n (kept r now es) h) refl

abbrev Refuses : Nonce → ℕ → ℕ → List NonceCall → RedeemedNonces → Type 0
Refuses n now later cs r =
    (check_and_add_nonce n now r).0 ≡ true
    → IsEarly r now cs
    → later ≤ now + r.replay_window
    → redemption_cache_size (check_and_add_nonce n now r).1 + length cs < max_size r
    → (check_and_add_nonce n later (apply_calls cs (check_and_add_nonce n now r).1)).0 ≡ false

queue-Refuses :
    (r : RedeemedNonces) (n : Nonce) (now later : ℕ) (cs : List NonceCall) (es : List NonceEntry)
    → Refuses n now later cs (of_entries r es)
unfolding max_size
queue-Refuses r n now later cs es =
    rw (check_and_add_nonce-of_entries r n now es) (λ new early late few.
      let (fs, e, h, s) =
        Held-calls r now n cs (accept r n now es).1 early few (accept-Held r n now es new) in
      let (h', _) = Held-kept r later now n fs late s h in
      rw (e, check_and_add_nonce-of_entries r n later fs) (Held-refused r now n later fs h'))

-- Where the set is that of the entries, a nonce that `check_and_add_nonce` has taken in is refused
-- until its window has passed, whatever calls come between within the window, in whatever order of
-- their times, while these are too few to fill the set.
pub redeemed_refused :
    (r : RedeemedNonces) (n : Nonce) (now later : ℕ) (cs : List NonceCall)
    → IsQueue r
    → (check_and_add_nonce n now r).0 ≡ true
    → IsEarly r now cs
    → later ≤ now + r.replay_window
    → redemption_cache_size (check_and_add_nonce n now r).1 + length cs < max_size r
    → (check_and_add_nonce n later (apply_calls cs (check_and_add_nonce n now r).1)).0 ≡ false
redeemed_refused r n now later cs q =
    subst (Refuses n now later cs) (sym q) (queue-Refuses r n now later cs r.nonce_entries)
