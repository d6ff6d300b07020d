-- ===== src/ReplayCache.antt =====
-- `ReplayCache` of include/privacy_pass/core/origin.hpp and src/core/origin.cpp: nonces in buckets,
-- one for each second in which one arrived. The clock's tick is an argument.
pub mod Queue
pub mod Validity
pub mod Replay
pub mod Bounds
use mathlib.Core.Option
use privacypass_cpp.Prelude.{
  ℕ, ◌+◌, ◌-◌, ◌≤◌, ◌≡◌, Bool, true, false, Option, some, none, List, [], ◌∷◌, ◌++◌, ◌==◌, ltb, leb,
  if◌then◌else◌, length,
}
use privacypass_cpp.NonceSet.{Nonce, contains, insert, erase_all}

-- An entry of `std::unordered_map<BucketKey, Bucket> buckets`.
pub record Bucket : Type 0 where
  pub key : ℕ
  pub nonces : List Nonce

-- `ReplayCache::Impl`
pub record ReplayCache : Type 0 where
  pub buckets : List Bucket
  pub all_nonces : List Nonce
  pub bucket_order : List ℕ
  pub window_seconds : ℕ
  pub max_size : ℕ

unfoldable pub create : ℕ → ℕ → ReplayCache
create window max_size = record {
  buckets = [];
  all_nonces = [];
  bucket_order = [];
  window_seconds = window;
  max_size = max_size;
}

-- `buckets.find(key)`
unfoldable pub find : ℕ → List Bucket → Option (List Nonce)
find key [] = none
find key (b ∷ bs) = if b.key == key then some b.nonces else find key bs

-- `buckets.erase(it)`
unfoldable pub erase_bucket : ℕ → List Bucket → List Bucket
erase_bucket key [] = []
erase_bucket key (b ∷ bs) = if b.key == key then bs else b ∷ erase_bucket key bs

-- `buckets[key]`, which a missing key makes empty.
unfoldable pub bucket_at : ℕ → List Bucket → List Nonce
bucket_at key [] = []
bucket_at key (b ∷ bs) = if b.key == key then b.nonces else bucket_at key bs

unfoldable pub set_bucket : ℕ → List Nonce → List Bucket → List Bucket
set_bucket key nonces [] = record { key = key; nonces = nonces } ∷ []
set_bucket key nonces (b ∷ bs) =
    if b.key == key
    then record { key = key; nonces = nonces } ∷ bs
    else b ∷ set_bucket key nonces bs

-- The body of both loops of `prune_expired`, where `key ∷ rest` is `bucket_order`.
unfoldable pub drop_front : ℕ → List ℕ → ReplayCache → ReplayCache
drop_front key rest c = elim (find key c.buckets) [
  | some nonces ↦ record c {
    all_nonces = erase_all nonces c.all_nonces;
    buckets = erase_bucket key c.buckets;
    bucket_order = rest;
  }
  | none ↦ record c { bucket_order = rest }
]

-- `while (!bucket_order.empty() && bucket_order.front() <= cutoff)`, on `bucket_order`.
unfoldable pub drop_expired : ℕ → List ℕ → ReplayCache → ReplayCache
drop_expired cutoff [] c = c
drop_expired cutoff (key ∷ rest) c =
    if leb key cutoff then drop_expired cutoff rest (drop_front key rest c) else c

-- `while (all_nonces.size() > max_size && !bucket_order.empty())`, on `bucket_order`.
unfoldable pub drop_oversized : List ℕ → ReplayCache → ReplayCache
drop_oversized [] c = c
drop_oversized (key ∷ rest) c =
    if ltb c.max_size (length c.all_nonces) then drop_oversized rest (drop_front key rest c) else c

unfoldable pub prune_expired : ℕ → ReplayCache → ReplayCache
prune_expired now_tick c =
    if ltb now_tick c.window_seconds
    then c
    else let c' = drop_expired (now_tick - c.window_seconds) c.bucket_order c in
      drop_oversized c'.bucket_order c'

-- The end of `check_and_add`, for a nonce that is new.
unfoldable pub add : Nonce → ℕ → ReplayCache → ReplayCache
add nonce tick c =
    let bucket = bucket_at tick c.buckets in
    record c {
      all_nonces = insert nonce c.all_nonces;
      buckets = set_bucket tick (insert nonce bucket) c.buckets;
      bucket_order = if length bucket == 0 then c.bucket_order ++ tick ∷ [] else c.bucket_order;
    }

unfoldable pub check_and_add : Nonce → ℕ → ReplayCache → Bool × ReplayCache
check_and_add nonce tick c =
    let c' = prune_expired tick c in
    if contains nonce c'.all_nonces then (false, c') else (true, add nonce tick c')

abbrev pub is_known : Nonce → ReplayCache → Bool
is_known nonce c = contains nonce c.all_nonces

unfoldable pub size : ReplayCache → ℕ
size c = length c.all_nonces

-- The calls that change the cache, each at the tick that the clock gives it.
pub data Call : Type 0 where
  check_and_add_call : Nonce → ℕ → Call
  prune_call : ℕ → Call

unfoldable pub step : Call → ReplayCache → ReplayCache
step (check_and_add_call nonce tick) c = (check_and_add nonce tick c).1
step (prune_call tick) c = prune_expired tick c

unfoldable pub run : List Call → ReplayCache → ReplayCache
run [] c = c
run (e ∷ es) c = run es (step e c)
