-- ===== src/ReplayCache/Replay.antt =====
-- What the cache promises: a nonce that it took in is refused until its window has passed, and the
-- cache forgets what is older.
use privacypass_cpp.Prelude.{
  ℕ, ◌+◌, ◌-◌, ◌≤◌, ◌<◌, ◌≡◌, ◌≢◌, ◌⊎◌, refl, Bool, true, false, ◌||◌, List, [], ◌∷◌, ltb, leb,
  ◌==◌, length, arith, length-append, inl, inr, sym, subst,
}
use privacypass_cpp.NonceSet.{
  Nonce, contains, contains-append, contains-insert, contains-insert_other,
}
use privacypass_cpp.ReplayCache.{
  Bucket, ReplayCache, set_bucket, bucket_at, check_and_add, size, Call, check_and_add_call,
  prune_call, run,
}
use privacypass_cpp.ReplayCache.Queue.{
  flatten, of_buckets, Ascending, unexpired, fitting, pruned, added,
}
use privacypass_cpp.ReplayCache.Queue.Insertion.{added-here, added-other, added-flatten}
use privacypass_cpp.ReplayCache.Validity.{
  IsValid, IsTimeline, accept, queue_step, queue_run, tick_of, check_and_add-of_buckets,
  run-of_buckets, Ascending-later, pruned-Ascending, accept-Ascending, queue_step-Ascending,
}

-- `n` lies in a bucket whose key is `since` at least.
abbrev Held : ℕ → Nonce → List Bucket → Type 0
Held since n [] = ⊥
Held since n (b ∷ bs) = ((since ≤ b.key) × (contains n b.nonces ≡ true)) ⊎ Held since n bs

Held-contains :
    (since : ℕ) (n : Nonce) (bs : List Bucket) → Held since n bs → contains n (flatten bs) ≡ true
unfolding flatten
Held-contains since n [] h = absurd h
Held-contains since n (b ∷ bs) (inl (_, h)) =
    rw (flatten, contains-append n b.nonces (flatten bs), h) refl
Held-contains since n (b ∷ bs) (inr h) =
    rw (flatten, contains-append n b.nonces (flatten bs), Held-contains since n bs h) (or_true _)
  where
    or_true : (p : Bool) → (p || true) ≡ true
    or_true true = refl
    or_true false = refl

Held-unexpired :
    (cutoff since : ℕ) (n : Nonce) (bs : List Bucket)
    → cutoff < since
    → Held since n bs
    → Held since n (unexpired cutoff bs)
unfolding unexpired
Held-unexpired cutoff since n [] lt h = h
Held-unexpired cutoff since n (b ∷ bs) lt h =
    go (leb b.key cutoff) refl h (Held-unexpired cutoff since n bs lt)
  where
    go :
        (p : Bool)
        → leb b.key cutoff ≡ p
        → Held since n (b ∷ bs)
        → (Held since n bs → Held since n (unexpired cutoff bs))
        → Held since n (unexpired cutoff (b ∷ bs))
    go true e (inl (le, _)) ih = absurd (ground arith)
    go true e (inr h) ih = rw (unexpired, e) (ih h)
    go false e h ih = rw (unexpired, e) h

unexpired-size :
    (cutoff : ℕ) (bs : List Bucket) → length (flatten (unexpired cutoff bs)) ≤ length (flatten bs)
unfolding unexpired flatten
unexpired-size cutoff [] = omega arith
unexpired-size cutoff (b ∷ bs) = go (leb b.key cutoff) refl (unexpired-size cutoff bs)
  where
    go :
        (p : Bool)
        → leb b.key cutoff ≡ p
        → length (flatten (unexpired cutoff bs)) ≤ length (flatten bs)
        → length (flatten (unexpired cutoff (b ∷ bs))) ≤ length (flatten (b ∷ bs))
    go true e ih =
        rw (unexpired, e, flatten) (omega (arith, ih, length-append b.nonces (flatten bs)))
    go false e ih = rw (unexpired, e) (omega arith)

fitting-same : (max : ℕ) (bs : List Bucket) → length (flatten bs) ≤ max → fitting max bs ≡ bs
unfolding fitting
fitting-same max [] h = refl
fitting-same max (b ∷ bs) h =
    let e : ltb max (length (flatten (b ∷ bs))) ≡ false = ground arith in rw e refl

-- Pruning keeps what has not expired where the cache is not too large.
Held-pruned :
    (c : ReplayCache) (now since : ℕ) (n : Nonce) (bs : List Bucket)
    → now < since + c.window_seconds
    → length (flatten bs) ≤ c.max_size
    → Held since n bs
    → Held since n (pruned c now bs) × (length (flatten (pruned c now bs)) ≤ length (flatten bs))
unfolding pruned
Held-pruned c now since n bs lt fits h = go (ltb now c.window_seconds) refl
  where
    go :
        (p : Bool)
        → ltb now c.window_seconds ≡ p
        → Held since n (pruned c now bs)
          × (length (flatten (pruned c now bs)) ≤ length (flatten bs))
    go true e = rw (pruned, e) (h, omega arith)
    go false e =
        let shrunk = unexpired-size (now - c.window_seconds) bs in
        rw
          (pruned, e, fitting-same c.max_size (unexpired (now - c.window_seconds) bs) (omega arith))
          (Held-unexpired (now - c.window_seconds) since n bs (ground arith) h, shrunk)

Held-added_other :
    (since : ℕ) (n m : Nonce) (tick : ℕ) (bs : List Bucket)
    → Held since n bs
    → Held since n (added m tick bs)
Held-added_other since n m tick [] h = absurd h
Held-added_other since n m tick (b ∷ bs) h =
    go (b.key == tick) refl h (Held-added_other since n m tick bs)
  where
    go :
        (p : Bool)
        → (b.key == tick) ≡ p
        → Held since n (b ∷ bs)
        → (Held since n bs → Held since n (added m tick bs))
        → Held since n (added m tick (b ∷ bs))
    go true e (inl (le, h)) ih =
        rw (added-here m tick b bs e) (inl (ground arith, contains-insert_other n m b.nonces h))
    go true e (inr h) ih = rw (added-here m tick b bs e) (inr h)
    go false e (inl h) ih = rw (added-other m tick b bs e) (inl h)
    go false e (inr h) ih = rw (added-other m tick b bs e) (inr (ih h))

Held-added : (n : Nonce) (tick : ℕ) (bs : List Bucket) → Held tick n (added n tick bs)
unfolding added set_bucket bucket_at
Held-added n tick [] = inl (omega arith, contains-insert n [])
Held-added n tick (b ∷ bs) = go (b.key == tick) refl (Held-added n tick bs)
  where
    go :
        (p : Bool)
        → (b.key == tick) ≡ p
        → Held tick n (added n tick bs)
        → Held tick n (added n tick (b ∷ bs))
    go true e ih = rw (added-here n tick b bs e) (inl (omega arith, contains-insert n b.nonces))
    go false e ih = rw (added-other n tick b bs e) (inr ih)

-- A call keeps what has not expired, and adds one nonce at most.
Held-step :
    (c : ReplayCache) (e : Call) (since : ℕ) (n : Nonce) (bs : List Bucket)
    → tick_of e < since + c.window_seconds
    → length (flatten bs) ≤ c.max_size
    → Ascending (tick_of e) bs
    → Held since n bs
    → Held since n (queue_step c e bs)
      × (length (flatten (queue_step c e bs)) ≤ length (flatten bs) + 1)
unfolding queue_step tick_of accept
Held-step c (prune_call tick) since n bs lt fits v h =
    let (h', le) = Held-pruned c tick since n bs lt fits h in (h', omega (arith, le))
Held-step c (check_and_add_call m tick) since n bs lt fits v h =
    go (contains m (flatten (pruned c tick bs))) refl (Held-pruned c tick since n bs lt fits h)
      (pruned-Ascending c tick bs v)
  where
    go :
        (p : Bool)
        → contains m (flatten (pruned c tick bs)) ≡ p
        → Held since n (pruned c tick bs)
          × (length (flatten (pruned c tick bs)) ≤ length (flatten bs))
        → Ascending tick (pruned c tick bs)
        → Held since n (accept c m tick bs).1
          × (length (flatten (accept c m tick bs).1) ≤ length (flatten bs) + 1)
    go true e (h, le) v = rw (accept, e) (h, omega (arith, le))
    go false e (h, le) v =
        rw (accept, e)
          (
            Held-added_other since n m tick (pruned c tick bs) h,
            rw (added-flatten m tick (pruned c tick bs) v e)
                (omega (arith, le, length-append (flatten (pruned c tick bs)) (m ∷ []))),
          )

IsTimeline-le : (now until : ℕ) (es : List Call) → IsTimeline now until es → now ≤ until
IsTimeline-le now until [] t = t
IsTimeline-le now until (e ∷ es) (le, t) = omega (arith, le, IsTimeline-le (tick_of e) until es t)

Held-run :
    (c : ReplayCache) (now until since : ℕ) (n : Nonce) (es : List Call) (bs : List Bucket)
    → IsTimeline now until es
    → until < since + c.window_seconds
    → length (flatten bs) + length es ≤ c.max_size
    → Ascending now bs
    → Held since n bs
    → Held since n (queue_run c es bs)
      × (length (flatten (queue_run c es bs)) ≤ length (flatten bs) + length es)
unfolding queue_run
Held-run c now until since n [] bs t lt fits v h = (h, omega arith)
Held-run c now until since n (e ∷ es) bs (le, t) lt fits v h =
    let v₁ = Ascending-later now (tick_of e) bs le v in
    let before = IsTimeline-le (tick_of e) until es t in
    let (h₁, s₁) = Held-step c e since n bs (omega arith) (omega arith) v₁ h in
    let (h₂, s₂) =
      Held-run c (tick_of e) until since n es (queue_step c e bs) t lt (omega arith)
        (queue_step-Ascending c e bs v₁) h₁ in
    (h₂, omega arith)

accept-Held :
    (c : ReplayCache) (n : Nonce) (tick : ℕ) (bs : List Bucket)
    → (accept c n tick bs).0 ≡ true
    → Held tick n (accept c n tick bs).1
unfolding accept
accept-Held c n tick bs h = go (contains n (flatten (pruned c tick bs))) refl h
  where
    go :
        (p : Bool)
        → contains n (flatten (pruned c tick bs)) ≡ p
        → (accept c n tick bs).0 ≡ true
        → Held tick n (accept c n tick bs).1
    go true e h = absurd (false-ne-true (rw (← h, accept, e) refl))
      where
        false-ne-true : false ≢ true
        false-ne-true p = cc
    go false e h = rw (accept, e) (Held-added n tick (pruned c tick bs))

Held-refused :
    (c : ReplayCache) (since : ℕ) (n : Nonce) (tick : ℕ) (bs : List Bucket)
    → Held since n (pruned c tick bs)
    → (accept c n tick bs).0 ≡ false
unfolding accept
Held-refused c since n tick bs h = rw (Held-contains since n (pruned c tick bs) h) refl

-- What the theorem says of a cache, its hypotheses included.
abbrev Refuses : Nonce → ℕ → ℕ → List Call → ReplayCache → Type 0
Refuses n tick later es c =
    (check_and_add n tick c).0 ≡ true
    → later < tick + c.window_seconds
    → size (check_and_add n tick c).1 + length es ≤ c.max_size
    → (check_and_add n later (run es (check_and_add n tick c).1)).0 ≡ false

queue-Refuses :
    (c : ReplayCache) (n : Nonce) (tick later : ℕ) (es : List Call) (bs : List Bucket)
    → Ascending tick bs
    → IsTimeline tick later es
    → Refuses n tick later es (of_buckets c bs)
unfolding size
queue-Refuses c n tick later es bs v t =
    let bs₁ = (accept c n tick bs).1 in
    let v₁ = accept-Ascending c n tick bs v in
    let (ran, v₂) = run-of_buckets c tick later es bs₁ t v₁ in
    rw (check_and_add-of_buckets c n tick bs v, ran)
      (λ new lt fits.
        let (h, s) =
          Held-run c tick later tick n es bs₁ t lt fits v₁ (accept-Held c n tick bs new) in
        let (h', _) = Held-pruned c later tick n (queue_run c es bs₁) lt (omega arith) h in
        rw (check_and_add-of_buckets c n later (queue_run c es bs₁) v₂)
          (Held-refused c tick n later (queue_run c es bs₁) h'))

-- A nonce that a valid cache has accepted is refused at a later tick before its window has passed,
-- whatever calls come between at ticks that do not go back, while these are too few to exceed the
-- cache's maximum.
pub replay_refused :
    (c : ReplayCache) (n : Nonce) (tick later : ℕ) (es : List Call)
    → IsValid tick c
    → IsTimeline tick later es
    → (check_and_add n tick c).0 ≡ true
    → later < tick + c.window_seconds
    → size (check_and_add n tick c).1 + length es ≤ c.max_size
    → (check_and_add n later (run es (check_and_add n tick c).1)).0 ≡ false
replay_refused c n tick later es (e, v) t =
    subst (Refuses n tick later es) (sym e) (queue-Refuses c n tick later es c.buckets v t)
