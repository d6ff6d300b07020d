-- ===== src/ReplayCache/Queue.antt =====
-- The cache is a queue of buckets: its three containers are views of one list of buckets, in the
-- order of their keys.
pub mod Insertion
use privacypass_cpp.Prelude.{
  ℕ, ◌+◌, ◌-◌, ◌≤◌, ◌<◌, ◌≡◌, ◌≢◌, refl, ap, ◌∙◌, Bool, true, false, ◌||◌, List, [], ◌∷◌, ◌++◌, map,
  ◌==◌, ltb, leb, if◌then◌else◌, length, All, append_assoc, append-nil, arith, length-append,
  Bool-cases, inl, inr, ap₂, ==_iff, sym,
}
use privacypass_cpp.NonceSet.{
  Nonce, contains, insert, erase_all, contains-append, insert-new, erase_all-prefix,
}
use privacypass_cpp.ReplayCache.{
  Bucket, ReplayCache, find, erase_bucket, bucket_at, set_bucket, drop_front, drop_expired,
  drop_oversized, prune_expired, add, check_and_add,
}

unfoldable pub flatten : List Bucket → List Nonce
flatten [] = []
flatten (b ∷ bs) = b.nonces ++ flatten bs

unfoldable pub keys : List Bucket → List ℕ
keys [] = []
keys (b ∷ bs) = b.key ∷ keys bs

-- The cache whose buckets are `bs`.
abbrev pub of_buckets : ReplayCache → List Bucket → ReplayCache
of_buckets c bs = record c { buckets = bs; all_nonces = flatten bs; bucket_order = keys bs }

-- Keys that ascend to `now` at most, and no empty bucket.
abbrev pub Ascending : ℕ → List Bucket → Type 0
Ascending now [] = Unit
Ascending now (b ∷ bs) =
    (b.key ≤ now)
    × (0 < length b.nonces)
    × All (λ (b' : Bucket). b.key < b'.key) bs
    × Ascending now bs

-- The queue's own pruning: what has expired, then what is too much.
unfoldable pub unexpired : ℕ → List Bucket → List Bucket
unexpired cutoff [] = []
unexpired cutoff (b ∷ bs) = if leb b.key cutoff then unexpired cutoff bs else b ∷ bs

unfoldable pub fitting : ℕ → List Bucket → List Bucket
fitting max [] = []
fitting max (b ∷ bs) = if ltb max (length (flatten (b ∷ bs))) then fitting max bs else b ∷ bs

unfoldable pub pruned : ReplayCache → ℕ → List Bucket → List Bucket
pruned c now bs =
    if ltb now c.window_seconds
    then bs
    else fitting c.max_size (unexpired (now - c.window_seconds) bs)

unfoldable pub added : Nonce → ℕ → List Bucket → List Bucket
added n tick bs = set_bucket tick (insert n (bucket_at tick bs)) bs

drop_front-of_buckets :
    (c : ReplayCache) (b : Bucket) (bs : List Bucket)
    → drop_front b.key (keys bs) (of_buckets c (b ∷ bs)) ≡ of_buckets c bs
unfolding drop_front find erase_bucket flatten keys
drop_front-of_buckets c b bs =
    let e : (b.key == b.key) ≡ true = ground arith in
    rw (drop_front, e, erase_all-prefix b.nonces (flatten bs), erase_bucket, e) refl

drop_expired-of_buckets :
    (c : ReplayCache) (cutoff : ℕ) (bs : List Bucket)
    → drop_expired cutoff (keys bs) (of_buckets c bs) ≡ of_buckets c (unexpired cutoff bs)
unfolding drop_expired keys unexpired
drop_expired-of_buckets c cutoff [] = refl
drop_expired-of_buckets c cutoff (b ∷ bs) =
    go (leb b.key cutoff) refl (drop_expired-of_buckets c cutoff bs)
  where
    go :
        (p : Bool)
        → leb b.key cutoff ≡ p
        → drop_expired cutoff (keys bs) (of_buckets c bs) ≡ of_buckets c (unexpired cutoff bs)
        → drop_expired cutoff (keys (b ∷ bs)) (of_buckets c (b ∷ bs))
          ≡ of_buckets c (unexpired cutoff (b ∷ bs))
    go true e ih = rw (keys, drop_expired, e, unexpired, drop_front-of_buckets c b bs) ih
    go false e ih = rw (keys, drop_expired, e, unexpired) refl

drop_oversized-of_buckets :
    (c : ReplayCache) (bs : List Bucket)
    → drop_oversized (keys bs) (of_buckets c bs) ≡ of_buckets c (fitting c.max_size bs)
unfolding drop_oversized keys fitting
drop_oversized-of_buckets c [] = refl
drop_oversized-of_buckets c (b ∷ bs) =
    go (ltb c.max_size (length (flatten (b ∷ bs)))) refl (drop_oversized-of_buckets c bs)
  where
    go :
        (p : Bool)
        → ltb c.max_size (length (flatten (b ∷ bs))) ≡ p
        → drop_oversized (keys bs) (of_buckets c bs) ≡ of_buckets c (fitting c.max_size bs)
        → drop_oversized (keys (b ∷ bs)) (of_buckets c (b ∷ bs))
          ≡ of_buckets c (fitting c.max_size (b ∷ bs))
    go true e ih = rw (drop_oversized, e, fitting, drop_front-of_buckets c b bs) ih
    go false e ih = rw (drop_oversized, e, fitting) refl

pub prune_expired-of_buckets :
    (c : ReplayCache) (now : ℕ) (bs : List Bucket)
    → prune_expired now (of_buckets c bs) ≡ of_buckets c (pruned c now bs)
unfolding prune_expired pruned
prune_expired-of_buckets c now bs = go (ltb now c.window_seconds) refl
  where
    go :
        (p : Bool)
        → ltb now c.window_seconds ≡ p
        → prune_expired now (of_buckets c bs) ≡ of_buckets c (pruned c now bs)
    go true e = rw (prune_expired, pruned, e) refl
    go false e =
        rw (prune_expired, pruned, e, drop_expired-of_buckets c (now - c.window_seconds) bs)
          (drop_oversized-of_buckets c (unexpired (now - c.window_seconds) bs))
