-- ===== src/RedeemedNonces/Absent.antt =====
-- A nonce that is not redeemed is taken in, whatever the calls that make room for it drop.
use privacypass_cpp.Prelude.{
  ℕ, ◌-◌, ◌≡◌, refl, Bool, true, false, List, [], ◌∷◌, if◌then◌else◌, ltb, leb, length, arith,
}
use privacypass_cpp.NonceSet.{Nonce, contains, contains-erase, contains-insert}
use privacypass_cpp.RedeemedNonces.{
  NonceEntry, RedeemedNonces, pop_entry, prune_until, prune_redemption_cache, make_room, max_size,
  check_and_add_nonce,
}

prune_until-absent :
    (cutoff : ℕ) (n : Nonce) (es : List NonceEntry) (r : RedeemedNonces)
    → contains n r.redeemed_nonces ≡ false
    → contains n (prune_until cutoff es r).redeemed_nonces ≡ false
unfolding prune_until pop_entry
prune_until-absent cutoff n [] r h = h
prune_until-absent cutoff n (e ∷ es) r h = go (ltb e.timestamp cutoff) (
    prune_until-absent cutoff n es (pop_entry e es r)
      (contains-erase n e.nonce r.redeemed_nonces h))
  where
    go :
        (p : Bool)
        → contains n (prune_until cutoff es (pop_entry e es r)).redeemed_nonces ≡ false
        → contains n (if p then prune_until cutoff es (pop_entry e es r) else r).redeemed_nonces
          ≡ false
    go true k = k
    go false k = h

make_room-absent :
    (max : ℕ) (n : Nonce) (es : List NonceEntry) (r : RedeemedNonces)
    → contains n r.redeemed_nonces ≡ false
    → contains n (make_room max es r).redeemed_nonces ≡ false
unfolding make_room pop_entry
make_room-absent max n [] r h = h
make_room-absent max n (e ∷ es) r h =
    go (leb max (length r.redeemed_nonces))
      (make_room-absent max n es (pop_entry e es r) (contains-erase n e.nonce r.redeemed_nonces h))
  where
    go :
        (p : Bool)
        → contains n (make_room max es (pop_entry e es r)).redeemed_nonces ≡ false
        → contains n (if p then make_room max es (pop_entry e es r) else r).redeemed_nonces ≡ false
    go true k = k
    go false k = h

-- A nonce that is not redeemed is taken in, and is redeemed then.
pub check_and_add-absent :
    (n : Nonce) (now : ℕ) (r : RedeemedNonces)
    → contains n r.redeemed_nonces ≡ false
    → ((check_and_add_nonce n now r).0 ≡ true)
      × (contains n (check_and_add_nonce n now r).1.redeemed_nonces ≡ true)
unfolding check_and_add_nonce prune_redemption_cache
check_and_add-absent n now r h =
    let cutoff = now - r.replay_window in
    let pruned = prune_until cutoff r.nonce_entries r in
    let roomy = make_room (max_size pruned) pruned.nonce_entries pruned in
    let absent : contains n roomy.redeemed_nonces ≡ false =
      make_room-absent (max_size pruned) n pruned.nonce_entries pruned
        (prune_until-absent cutoff n r.nonce_entries r h) in
    rw (absent, check_and_add_nonce) (refl, contains-insert n roomy.redeemed_nonces)

pub refused-held :
    (n : Nonce) (now : ℕ) (r : RedeemedNonces)
    → (check_and_add_nonce n now r).0 ≡ false
    → contains n r.redeemed_nonces ≡ true
refused-held n now r h = go (contains n r.redeemed_nonces) refl
  where
    go : (p : Bool) → contains n r.redeemed_nonces ≡ p → p ≡ true
    go true e = refl
    go false e = absurd (ground (arith, (check_and_add-absent n now r e).0))
