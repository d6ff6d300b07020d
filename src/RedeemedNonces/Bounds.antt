-- ===== src/RedeemedNonces/Bounds.antt =====
-- The set of redeemed nonces stays that of the entries, and within its maximum.
use privacypass_cpp.Prelude.{
  ℕ, ◌+◌, ◌-◌, ◌≤◌, ◌<◌, ◌≡◌, refl, ap, ◌∙◌, sym, subst, Bool, true, false, List, [], ◌∷◌, leb,
  length, length-append, arith,
}
use privacypass_cpp.NonceSet.{Nonce, contains}
use privacypass_cpp.RedeemedNonces.{
  NonceEntry, RedeemedNonces, max_size, check_and_add_nonce, redemption_cache_size,
}
use privacypass_cpp.RedeemedNonces.Queue.{
  nonces, IsQueue, unexpired, fitting, kept, with_entry, accept, check_and_add_nonce-of_entries,
  nonces-append,
}

max_size-positive : (r : RedeemedNonces) → 0 < max_size r
unfolding max_size
max_size-positive r = ground arith

fitting-size : (max : ℕ) (es : List NonceEntry) → 0 < max → length (nonces (fitting max es)) < max
unfolding fitting nonces
fitting-size max [] h = h
fitting-size max (e ∷ es) h = go (leb max (length (nonces (e ∷ es)))) refl (fitting-size max es h)
  where
    go :
        (p : Bool)
        → leb max (length (nonces (e ∷ es))) ≡ p
        → length (nonces (fitting max es)) < max
        → length (nonces (fitting max (e ∷ es))) < max
    go true eq ih = rw (fitting, eq) ih
    go false eq ih = rw (fitting, eq) (ground arith)

pub with_entry-size :
    (n : Nonce) (now : ℕ) (es : List NonceEntry)
    → length (nonces (with_entry n now es)) ≡ length (nonces es) + 1
unfolding nonces
with_entry-size n now es =
    let new : List NonceEntry = record { nonce = n; timestamp = now } ∷ [] in
    ap length (nonces-append es new) ∙ length-append (nonces es) (n ∷ [])

accept-size :
    (r : RedeemedNonces) (n : Nonce) (now : ℕ) (es : List NonceEntry)
    → length (nonces (accept r n now es).1) ≤ max_size r
unfolding accept kept
accept-size r n now es =
    go (contains n (nonces (kept r now es))) refl
      (fitting-size (max_size r) (unexpired (now - r.replay_window) es) (max_size-positive r))
  where
    go :
        (p : Bool)
        → contains n (nonces (kept r now es)) ≡ p
        → length (nonces (kept r now es)) < max_size r
        → length (nonces (accept r n now es).1) ≤ max_size r
    go true eq h = rw (accept, eq) (omega arith)
    go false eq h = rw (accept, eq) (omega (arith, with_entry-size n now (kept r now es)))

abbrev IsBounded : Nonce → ℕ → RedeemedNonces → Type 0
IsBounded n now r =
    IsQueue (check_and_add_nonce n now r).1
    × (redemption_cache_size (check_and_add_nonce n now r).1 ≤ max_size r)

-- From a set that is that of the entries, `check_and_add_nonce` leaves one that is, and that has
-- the maximum number of nonces at most.
pub check_and_add_nonce-IsQueue :
    (r : RedeemedNonces) (n : Nonce) (now : ℕ)
    → IsQueue r
    → IsQueue (check_and_add_nonce n now r).1
      × (redemption_cache_size (check_and_add_nonce n now r).1 ≤ max_size r)
unfolding max_size
check_and_add_nonce-IsQueue r n now q = subst (IsBounded n now) (sym q) (
    rw (check_and_add_nonce-of_entries r n now r.nonce_entries)
      (refl, accept-size r n now r.nonce_entries))
