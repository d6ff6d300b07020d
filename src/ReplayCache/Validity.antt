-- ===== src/ReplayCache/Validity.antt =====
-- Every call keeps the three containers of the cache in step, and bounds them.
use privacypass_cpp.Prelude.{
  ℕ, ◌-◌, ◌≤◌, ◌≡◌, refl, ap, Bool, true, false, List, [], ◌∷◌, ltb, leb, if◌then◌else◌, length,
  arith,
}
use privacypass_cpp.NonceSet.{Nonce, contains}
use privacypass_cpp.ReplayCache.{
  Bucket, ReplayCache, create, prune_expired, check_and_add, Call, check_and_add_call, prune_call,
  step, run,
}
use privacypass_cpp.ReplayCache.Queue.{
  flatten, keys, of_buckets, Ascending, unexpired, fitting, pruned, added, prune_expired-of_buckets,
}
use privacypass_cpp.ReplayCache.Queue.Insertion.{added-Ascending, add-of_buckets}

-- The set and the order are those of the buckets, whose keys ascend to `now` at most.
abbrev pub IsValid : ℕ → ReplayCache → Type 0
IsValid now c = (c ≡ of_buckets c c.buckets) × Ascending now c.buckets

pub Ascending-later :
    (now later : ℕ) (bs : List Bucket) → now ≤ later → Ascending now bs → Ascending later bs
Ascending-later now later [] le v = tt
Ascending-later now later (b ∷ bs) le (k, ne, lt, v) =
    (omega arith, ne, lt, Ascending-later now later bs le v)

-- What holds of every end of the queue holds of the pruned queue.
unexpired-keeps :
    (P : List Bucket → Type 0)
    → ((b : Bucket) (bs : List Bucket) → P (b ∷ bs) → P bs)
    → (cutoff : ℕ) (bs : List Bucket) → P bs
    → P (unexpired cutoff bs)
unfolding unexpired
unexpired-keeps P tail cutoff [] h = h
unexpired-keeps P tail cutoff (b ∷ bs) h =
    go (leb b.key cutoff) refl (unexpired-keeps P tail cutoff bs (tail b bs h))
  where
    go : (p : Bool) → leb b.key cutoff ≡ p → P (unexpired cutoff bs) → P (unexpired cutoff (b ∷ bs))
    go true e ih = rw (unexpired, e) ih
    go false e ih = rw (unexpired, e) h

fitting-keeps :
    (P : List Bucket → Type 0)
    → ((b : Bucket) (bs : List Bucket) → P (b ∷ bs) → P bs)
    → (max : ℕ) (bs : List Bucket) → P bs
    → P (fitting max bs)
unfolding fitting
fitting-keeps P tail max [] h = h
fitting-keeps P tail max (b ∷ bs) h =
    go (ltb max (length (flatten (b ∷ bs)))) refl (fitting-keeps P tail max bs (tail b bs h))
  where
    go :
        (p : Bool)
        → ltb max (length (flatten (b ∷ bs))) ≡ p
        → P (fitting max bs)
        → P (fitting max (b ∷ bs))
    go true e ih = rw (fitting, e) ih
    go false e ih = rw (fitting, e) h

pub pruned-Ascending :
    (c : ReplayCache) (now : ℕ) (bs : List Bucket)
    → Ascending now bs
    → Ascending now (pruned c now bs)
unfolding pruned
pruned-Ascending c now bs v = go (ltb now c.window_seconds) refl
  where
    tail : (b : Bucket) (bs : List Bucket) → Ascending now (b ∷ bs) → Ascending now bs
    tail b bs v = v.3

    go : (p : Bool) → ltb now c.window_seconds ≡ p → Ascending now (pruned c now bs)
    go true e = rw (pruned, e) v
    go false e =
        rw (pruned, e)
          (fitting-keeps (Ascending now) tail c.max_size _
            (unexpired-keeps (Ascending now) tail (now - c.window_seconds) bs v))

-- `check_and_add` on the queue.
unfoldable pub accept : ReplayCache → Nonce → ℕ → List Bucket → Bool × List Bucket
accept c n tick bs =
    let bs' = pruned c tick bs in
    if contains n (flatten bs') then (false, bs') else (true, added n tick bs')

-- On a cache that is the view of a queue with ascending keys, up to the tick at most,
-- `check_and_add` does what the queue does: it prunes, refuses a nonce that is still in the queue,
-- and takes any other nonce in under the tick.
pub check_and_add-of_buckets :
    (c : ReplayCache) (n : Nonce) (tick : ℕ) (bs : List Bucket)
    → Ascending tick bs
    → check_and_add n tick (of_buckets c bs)
      ≡ ((accept c n tick bs).0, of_buckets c (accept c n tick bs).1)
unfolding check_and_add accept
check_and_add-of_buckets c n tick bs v =
    go (contains n (flatten (pruned c tick bs))) refl (prune_expired-of_buckets c tick bs)
  where
    go :
        (p : Bool)
        → contains n (flatten (pruned c tick bs)) ≡ p
        → prune_expired tick (of_buckets c bs) ≡ of_buckets c (pruned c tick bs)
        → check_and_add n tick (of_buckets c bs)
          ≡ ((accept c n tick bs).0, of_buckets c (accept c n tick bs).1)
    go true e pr = rw (check_and_add, pr, accept, e) refl
    go false e pr =
        rw (check_and_add, pr, accept, e)
          (ap (λ (d : ReplayCache). (true, d))
            (add-of_buckets c n tick (pruned c tick bs) (pruned-Ascending c tick bs v) e))

pub accept-Ascending :
    (c : ReplayCache) (n : Nonce) (tick : ℕ) (bs : List Bucket)
    → Ascending tick bs
    → Ascending tick (accept c n tick bs).1
unfolding accept
accept-Ascending c n tick bs v = go (contains n (flatten (pruned c tick bs))) refl
  where
    go :
        (p : Bool)
        → contains n (flatten (pruned c tick bs)) ≡ p
        → Ascending tick (accept c n tick bs).1
    go true e = rw (accept, e) (pruned-Ascending c tick bs v)
    go false e =
        rw (accept, e) (added-Ascending n tick (pruned c tick bs) (pruned-Ascending c tick bs v))

unfoldable pub tick_of : Call → ℕ
tick_of (check_and_add_call n tick) = tick
tick_of (prune_call tick) = tick

-- The queue after a call.
unfoldable pub queue_step : ReplayCache → Call → List Bucket → List Bucket
queue_step c (check_and_add_call n tick) bs = (accept c n tick bs).1
queue_step c (prune_call tick) bs = pruned c tick bs

step-of_buckets :
    (c : ReplayCache) (e : Call) (bs : List Bucket)
    → Ascending (tick_of e) bs
    → step e (of_buckets c bs) ≡ of_buckets c (queue_step c e bs)
unfolding step tick_of queue_step
step-of_buckets c (check_and_add_call n tick) bs v =
    ap (λ (r : Bool × ReplayCache). r.1) (check_and_add-of_buckets c n tick bs v)
step-of_buckets c (prune_call tick) bs v = prune_expired-of_buckets c tick bs

pub queue_step-Ascending :
    (c : ReplayCache) (e : Call) (bs : List Bucket)
    → Ascending (tick_of e) bs
    → Ascending (tick_of e) (queue_step c e bs)
unfolding queue_step tick_of
queue_step-Ascending c (check_and_add_call n tick) bs v = accept-Ascending c n tick bs v
queue_step-Ascending c (prune_call tick) bs v = pruned-Ascending c tick bs v

-- Calls whose ticks do not go back, from `now` to `until`.
abbrev pub IsTimeline : ℕ → ℕ → List Call → Type 0
IsTimeline now until [] = now ≤ until
IsTimeline now until (e ∷ es) = (now ≤ tick_of e) × IsTimeline (tick_of e) until es

unfoldable pub queue_run : ReplayCache → List Call → List Bucket → List Bucket
queue_run c [] bs = bs
queue_run c (e ∷ es) bs = queue_run c es (queue_step c e bs)

pub run-of_buckets :
    (c : ReplayCache) (now until : ℕ) (es : List Call) (bs : List Bucket)
    → IsTimeline now until es
    → Ascending now bs
    → (run es (of_buckets c bs) ≡ of_buckets c (queue_run c es bs))
      × Ascending until (queue_run c es bs)
unfolding run queue_run
run-of_buckets c now until [] bs t v = (refl, Ascending-later now until bs t v)
run-of_buckets c now until (e ∷ es) bs (le, t) v =
    let v' = Ascending-later now (tick_of e) bs le v in
    rw (step-of_buckets c e bs v')
      (run-of_buckets c (tick_of e) until es (queue_step c e bs) t (queue_step-Ascending c e bs v'))

-- From an empty cache, calls whose ticks do not go back leave a cache whose set of nonces and
-- bucket order are those of its buckets, with ascending keys and no bucket empty.
pub run-IsValid :
    (window max now : ℕ) (es : List Call)
    → IsTimeline 0 now es
    → IsValid now (run es (create window max))
unfolding create flatten keys
run-IsValid window max now es t =
    let c = create window max in let (e, v) = run-of_buckets c 0 now es [] t tt in rw e (refl, v)
