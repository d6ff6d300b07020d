-- ===== src/Tests/Cache.antt =====
-- The replay cache at concrete nonces: a window of 10 ticks, and room for 4 nonces.
use privacypass_cpp.Prelude.{◌≡◌, refl, false, List, [], ◌∷◌, arith}
use privacypass_cpp.NonceSet.{Nonce, same, contains, insert, erase, erase_all}
use privacypass_cpp.ReplayCache.{
  ReplayCache, Call, check_and_add_call, prune_call, create, find, erase_bucket, bucket_at,
  set_bucket, drop_front, drop_expired, drop_oversized, prune_expired, add, check_and_add, size,
  step, run, Bucket,
}
use privacypass_cpp.ReplayCache.Queue.{of_buckets, flatten, keys, Ascending}
use privacypass_cpp.ReplayCache.Validity.{
  IsValid, tick_of, accept, run-IsValid, check_and_add-of_buckets,
}
use privacypass_cpp.ReplayCache.Replay.{replay_refused}

abbrev first_nonce : Nonce
first_nonce = 1 ∷ 2 ∷ []

abbrev second_nonce : Nonce
second_nonce = 1 ∷ 3 ∷ []

abbrev some_calls : List Call
some_calls =
    check_and_add_call first_nonce 3
    ∷ check_and_add_call second_nonce 14
    ∷ prune_call 15
    ∷ check_and_add_call first_nonce 17
    ∷ []

abbrev empty_cache : ReplayCache
empty_cache = create 10 4

abbrev two_buckets : List Bucket
two_buckets =
    record { key = 3; nonces = first_nonce ∷ [] }
    ∷ record { key = 14; nonces = second_nonce ∷ [] }
    ∷ []

abbrev filled : ReplayCache
filled = of_buckets empty_cache two_buckets

two_buckets-Ascending : Ascending 15 two_buckets
two_buckets-Ascending =
    (omega arith, omega arith, (omega arith, tt), (omega arith, omega arith, tt, tt))

-- The nonce of tick 3 has expired at tick 17, and is taken in again.
run-some_calls : size (run some_calls empty_cache) ≡ 2
unfolding run step check_and_add prune_expired drop_expired drop_oversized drop_front add create
    find erase_bucket bucket_at set_bucket size same contains insert erase erase_all
run-some_calls = refl

run-IsValid_example : IsValid 20 (run some_calls (create 10 4))
unfolding tick_of
run-IsValid_example =
    run-IsValid 10 4 20 some_calls
      (omega arith, (omega arith, (omega arith, (omega arith, omega arith))))

check_and_add-of_buckets_example :
    check_and_add first_nonce 15 (of_buckets empty_cache two_buckets) ≡ (
      (accept empty_cache first_nonce 15 two_buckets).0,
      of_buckets empty_cache (accept empty_cache first_nonce 15 two_buckets).1,
    )
check_and_add-of_buckets_example =
    check_and_add-of_buckets empty_cache first_nonce 15 two_buckets two_buckets-Ascending

replay_refused_example :
    (check_and_add first_nonce 12
      (run (check_and_add_call second_nonce 5 ∷ []) (check_and_add first_nonce 3 empty_cache).1)).0
    ≡ false
unfolding check_and_add prune_expired drop_expired drop_oversized drop_front add create find
    erase_bucket bucket_at set_bucket size same contains insert erase erase_all tick_of flatten keys
replay_refused_example =
    replay_refused empty_cache first_nonce 3 12 (check_and_add_call second_nonce 5 ∷ []) (refl, tt)
      (omega arith, omega arith) refl (omega arith) (omega arith)

filled-IsValid : IsValid 15 filled
filled-IsValid = (refl, two_buckets-Ascending)
