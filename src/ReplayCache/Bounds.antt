-- ===== src/ReplayCache/Bounds.antt =====
-- What pruning leaves: nothing expired, and no more than the maximum, once the clock has passed
-- the window.
use privacypass_cpp.Prelude.{
  ℕ, ◌+◌, ◌-◌, ◌≤◌, ◌<◌, ◌≡◌, refl, Bool, true, false, List, [], ◌∷◌, ltb, leb, length, All, arith,
  length-append, sym, subst,
}
use privacypass_cpp.NonceSet.{Nonce, contains}
use privacypass_cpp.ReplayCache.{Bucket, ReplayCache, prune_expired, check_and_add, size}
use privacypass_cpp.ReplayCache.Queue.{
  flatten, Ascending, unexpired, fitting, pruned, prune_expired-of_buckets,
}
use privacypass_cpp.ReplayCache.Queue.Insertion.{added-flatten}
use privacypass_cpp.ReplayCache.Validity.{
  IsValid, accept, check_and_add-of_buckets, pruned-Ascending,
}

-- The buckets that have not expired at `now`.
abbrev pub IsFresh : ℕ → ℕ → List Bucket → Type 0
IsFresh now window bs = All (λ (b : Bucket). now < b.key + window) bs

keys_above :
    (now window k : ℕ) (bs : List Bucket)
    → now < k + window
    → All (λ (b : Bucket). k < b.key) bs
    → IsFresh now window bs
keys_above now window k [] lt h = tt
keys_above now window k (b ∷ bs) lt (h, hs) = (omega arith, keys_above now window k bs lt hs)

unexpired-IsFresh :
    (now window : ℕ) (bs : List Bucket)
    → window ≤ now
    → Ascending now bs
    → IsFresh now window (unexpired (now - window) bs)
unfolding unexpired
unexpired-IsFresh now window [] le v = tt
unexpired-IsFresh now window (b ∷ bs) le (k, ne, lt, v) =
    go (leb b.key (now - window)) refl (unexpired-IsFresh now window bs le v)
  where
    go :
        (p : Bool)
        → leb b.key (now - window) ≡ p
        → IsFresh now window (unexpired (now - window) bs)
        → IsFresh now window (unexpired (now - window) (b ∷ bs))
    go true e ih = rw (unexpired, e) ih
    go false e ih =
        rw (unexpired, e) (ground arith, keys_above now window b.key bs (ground arith) lt)

fitting-bounds :
    (now window max : ℕ) (bs : List Bucket)
    → IsFresh now window bs
    → (length (flatten (fitting max bs)) ≤ max) × IsFresh now window (fitting max bs)
unfolding fitting flatten
fitting-bounds now window max [] h = (omega arith, h)
fitting-bounds now window max (b ∷ bs) h =
    go (ltb max (length (flatten (b ∷ bs)))) refl (fitting-bounds now window max bs h.1)
  where
    go :
        (p : Bool)
        → ltb max (length (flatten (b ∷ bs))) ≡ p
        → (length (flatten (fitting max bs)) ≤ max) × IsFresh now window (fitting max bs)
        → (length (flatten (fitting max (b ∷ bs))) ≤ max)
          × IsFresh now window (fitting max (b ∷ bs))
    go true e ih = rw (fitting, e) ih
    go false e ih = rw (fitting, e) (ground arith, h)

pruned-bounds :
    (c : ReplayCache) (now : ℕ) (bs : List Bucket)
    → Ascending now bs
    → c.window_seconds ≤ now
    → (length (flatten (pruned c now bs)) ≤ c.max_size)
      × IsFresh now c.window_seconds (pruned c now bs)
unfolding pruned
pruned-bounds c now bs v le =
    let e : ltb now c.window_seconds ≡ false = ground arith in
    rw e (
      fitting-bounds now c.window_seconds c.max_size _
        (unexpired-IsFresh now c.window_seconds bs le v))

abbrev Pruned : ℕ → ReplayCache → Type 0
Pruned now c =
    c.window_seconds ≤ now
    → (size (prune_expired now c) ≤ c.max_size)
      × IsFresh now c.window_seconds (prune_expired now c).buckets

-- In a valid cache, once the clock has reached the window, pruning leaves at most the maximum
-- number of nonces, and no bucket that has expired.
pub prune_expired-bounds :
    (c : ReplayCache) (now : ℕ)
    → IsValid now c
    → c.window_seconds ≤ now
    → (size (prune_expired now c) ≤ c.max_size)
      × IsFresh now c.window_seconds (prune_expired now c).buckets
unfolding size
prune_expired-bounds c now (e, v) =
    subst (Pruned now) (sym e)
      (rw (prune_expired-of_buckets c now c.buckets) (pruned-bounds c now c.buckets v))

accept-size :
    (c : ReplayCache) (n : Nonce) (tick : ℕ) (bs : List Bucket)
    → Ascending tick bs
    → c.window_seconds ≤ tick
    → length (flatten (accept c n tick bs).1) ≤ c.max_size + 1
unfolding accept
accept-size c n tick bs v le =
    go (contains n (flatten (pruned c tick bs))) refl (pruned-bounds c tick bs v le).0
      (pruned-Ascending c tick bs v)
  where
    go :
        (p : Bool)
        → contains n (flatten (pruned c tick bs)) ≡ p
        → length (flatten (pruned c tick bs)) ≤ c.max_size
        → Ascending tick (pruned c tick bs)
        → length (flatten (accept c n tick bs).1) ≤ c.max_size + 1
    go true e s v = rw (accept, e) (omega arith)
    go false e s v =
        rw (accept, e, added-flatten n tick (pruned c tick bs) v e)
          (omega (arith, length-append (flatten (pruned c tick bs)) (n ∷ [])))

abbrev Bounded : Nonce → ℕ → ReplayCache → Type 0
Bounded n tick c = c.window_seconds ≤ tick → size (check_and_add n tick c).1 ≤ c.max_size + 1

-- In a valid cache, once the clock has reached the window, `check_and_add` leaves one nonce more
-- than the maximum at most.
pub check_and_add-size :
    (c : ReplayCache) (n : Nonce) (tick : ℕ)
    → IsValid tick c
    → c.window_seconds ≤ tick
    → size (check_and_add n tick c).1 ≤ c.max_size + 1
unfolding size
check_and_add-size c n tick (e, v) =
    subst (Bounded n tick) (sym e)
      (rw (check_and_add-of_buckets c n tick c.buckets v) (accept-size c n tick c.buckets v))
