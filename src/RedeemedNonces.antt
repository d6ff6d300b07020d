-- ===== src/RedeemedNonces.antt =====
-- The redeemed nonces of `TokenAuthenticator::Impl`, of
-- include/privacy_pass/core/token_authenticator.hpp and src/core/token_authenticator.cpp. The
-- clock's time is an argument.
pub mod Queue
pub mod Bounds
pub mod Replay
pub mod Absent
use privacypass_cpp.Prelude.{
  ℕ, ◌-◌, Bool, true, false, List, [], ◌∷◌, ◌++◌, ltb, leb, if◌then◌else◌, length,
}
use privacypass_cpp.NonceSet.{Nonce, contains, insert, erase}

pub record NonceEntry : Type 0 where
  pub nonce : Nonce
  pub timestamp : ℕ

-- The two containers of `Impl`, and the two limits of its configuration.
pub record RedeemedNonces : Type 0 where
  pub redeemed_nonces : List Nonce
  pub nonce_entries : List NonceEntry
  pub replay_window : ℕ
  pub max_replay_cache_size : ℕ

abbrev pub default_max_authenticator_cache_size : ℕ
default_max_authenticator_cache_size = 100000

-- `config.max_replay_cache_size > 0 ? config.max_replay_cache_size : DEFAULT_…`
unfoldable pub max_size : RedeemedNonces → ℕ
max_size r =
    if ltb 0 r.max_replay_cache_size
    then r.max_replay_cache_size
    else default_max_authenticator_cache_size

-- The body of both loops, where `entry ∷ rest` is `nonce_entries`.
pub pop_entry : NonceEntry → List NonceEntry → RedeemedNonces → RedeemedNonces
pop_entry entry rest r = record r {
  redeemed_nonces = erase entry.nonce r.redeemed_nonces;
  nonce_entries = rest;
}

-- `while (!nonce_entries.empty() && nonce_entries.front().timestamp < cutoff)`
unfoldable pub prune_until : ℕ → List NonceEntry → RedeemedNonces → RedeemedNonces
prune_until cutoff [] r = r
prune_until cutoff (entry ∷ rest) r =
    if ltb entry.timestamp cutoff then prune_until cutoff rest (pop_entry entry rest r) else r

-- `while (redeemed_nonces.size() >= max_size && !nonce_entries.empty())`
unfoldable pub make_room : ℕ → List NonceEntry → RedeemedNonces → RedeemedNonces
make_room max [] r = r
make_room max (entry ∷ rest) r =
    if leb max (length r.redeemed_nonces) then make_room max rest (pop_entry entry rest r) else r

-- `prune_redemption_cache`. A cutoff before the clock's start is 0, which no time is less than.
unfoldable pub prune_redemption_cache : ℕ → RedeemedNonces → RedeemedNonces
prune_redemption_cache now r = prune_until (now - r.replay_window) r.nonce_entries r

abbrev pub add_entry : Nonce → ℕ → RedeemedNonces → RedeemedNonces
add_entry nonce now r = record r {
  redeemed_nonces = insert nonce r.redeemed_nonces;
  nonce_entries = r.nonce_entries ++ record { nonce = nonce; timestamp = now } ∷ [];
}

unfoldable pub check_and_add_nonce : Nonce → ℕ → RedeemedNonces → Bool × RedeemedNonces
check_and_add_nonce nonce now r =
    let pruned = prune_redemption_cache now r in
    let roomy = make_room (max_size pruned) pruned.nonce_entries pruned in
    if contains nonce roomy.redeemed_nonces
    then (false, roomy)
    else (true, add_entry nonce now roomy)

abbrev pub would_be_replay : Nonce → RedeemedNonces → Bool
would_be_replay nonce r = contains nonce r.redeemed_nonces

abbrev pub mark_redeemed : Nonce → ℕ → RedeemedNonces → RedeemedNonces
mark_redeemed nonce now r = (check_and_add_nonce nonce now r).1

abbrev pub redemption_cache_size : RedeemedNonces → ℕ
redemption_cache_size r = length r.redeemed_nonces

-- The calls that change the two containers, each at the time that the clock gives it.
pub data NonceCall : Type 0 where
  check_and_add_nonce_call : Nonce → ℕ → NonceCall
  prune_redemption_cache_call : ℕ → NonceCall

unfoldable pub apply_call : NonceCall → RedeemedNonces → RedeemedNonces
apply_call (check_and_add_nonce_call nonce now) r = (check_and_add_nonce nonce now r).1
apply_call (prune_redemption_cache_call now) r = prune_redemption_cache now r

unfoldable pub apply_calls : List NonceCall → RedeemedNonces → RedeemedNonces
apply_calls [] r = r
apply_calls (c ∷ cs) r = apply_calls cs (apply_call c r)
