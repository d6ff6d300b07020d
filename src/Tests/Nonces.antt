-- ===== src/Tests/Nonces.antt =====
-- The redeemed nonces of the authenticator at concrete nonces: a window of 10 seconds, and room for
-- 4 nonces.
use privacypass_cpp.Prelude.{◌≡◌, ◌≤◌, refl, false, [], ◌∷◌, arith}
use privacypass_cpp.NonceSet.{Nonce, contains, insert, same}
use privacypass_cpp.RedeemedNonces.{
  RedeemedNonces, check_and_add_nonce_call, apply_calls, max_size, prune_until, make_room,
  prune_redemption_cache, check_and_add_nonce, redemption_cache_size,
}
use privacypass_cpp.RedeemedNonces.Queue.{nonces, IsQueue}
use privacypass_cpp.RedeemedNonces.Bounds.{check_and_add_nonce-IsQueue}
use privacypass_cpp.RedeemedNonces.Replay.{time_of, redeemed_refused}

abbrev nonce_a : Nonce
nonce_a = 4 ∷ 2 ∷ []

abbrev nonce_b : Nonce
nonce_b = 4 ∷ 5 ∷ []

-- One nonce, redeemed at time 2.
abbrev one_redeemed : RedeemedNonces
one_redeemed = record {
  redeemed_nonces = nonce_b ∷ [];
  nonce_entries = record { nonce = nonce_b; timestamp = 2 } ∷ [];
  replay_window = 10;
  max_replay_cache_size = 4;
}

one_redeemed-IsQueue : IsQueue one_redeemed
unfolding nonces
one_redeemed-IsQueue = refl

check_and_add_nonce-IsQueue_example :
    IsQueue (check_and_add_nonce nonce_a 14 one_redeemed).1
    × (redemption_cache_size (check_and_add_nonce nonce_a 14 one_redeemed).1
        ≤ max_size one_redeemed)
check_and_add_nonce-IsQueue_example =
    check_and_add_nonce-IsQueue one_redeemed nonce_a 14 one_redeemed-IsQueue

redeemed_refused_example :
    (check_and_add_nonce nonce_a 13 (
      apply_calls
        (check_and_add_nonce_call nonce_b 13 ∷ [])
        (check_and_add_nonce nonce_a 3 one_redeemed).1)).0
    ≡ false
unfolding check_and_add_nonce prune_redemption_cache prune_until make_room max_size contains insert
    same time_of
redeemed_refused_example =
    redeemed_refused one_redeemed nonce_a 3 13 (check_and_add_nonce_call nonce_b 13 ∷ [])
      one_redeemed-IsQueue refl (omega arith, tt) (omega arith) (omega arith)
