-- ===== src/RedeemedNonces/Queue.antt =====
-- The set of nonces is that of the queue of entries, and has room for every nonce that comes.
use privacypass_cpp.Prelude.{
  ℕ, ◌-◌, ◌≡◌, refl, ap, Bool, true, false, List, [], ◌∷◌, ◌++◌, ltb, leb, if◌then◌else◌, length,
}
use privacypass_cpp.NonceSet.{Nonce, contains, insert-new, erase, same_self}
use privacypass_cpp.RedeemedNonces.{
  NonceEntry, RedeemedNonces, max_size, pop_entry, prune_until, make_room, prune_redemption_cache,
  add_entry, check_and_add_nonce,
}

unfoldable pub nonces : List NonceEntry → List Nonce
nonces [] = []
nonces (e ∷ es) = e.nonce ∷ nonces es

abbrev pub of_entries : RedeemedNonces → List NonceEntry → RedeemedNonces
of_entries r es = record r { redeemed_nonces = nonces es; nonce_entries = es }

-- The set holds the nonces of the entries, in their order.
abbrev pub IsQueue : RedeemedNonces → Type 0
IsQueue r = r ≡ of_entries r r.nonce_entries

unfoldable pub unexpired : ℕ → List NonceEntry → List NonceEntry
unexpired cutoff [] = []
unexpired cutoff (e ∷ es) = if ltb e.timestamp cutoff then unexpired cutoff es else e ∷ es

unfoldable pub fitting : ℕ → List NonceEntry → List NonceEntry
fitting max [] = []
fitting max (e ∷ es) = if leb max (length (nonces (e ∷ es))) then fitting max es else e ∷ es

pop_entry-of_entries :
    (r : RedeemedNonces) (e : NonceEntry) (es : List NonceEntry)
    → pop_entry e es (of_entries r (e ∷ es)) ≡ of_entries r es
unfolding pop_entry nonces erase
pop_entry-of_entries r e es = rw (same_self e.nonce) refl

pub prune_until-of_entries :
    (r : RedeemedNonces) (cutoff : ℕ) (es : List NonceEntry)
    → prune_until cutoff es (of_entries r es) ≡ of_entries r (unexpired cutoff es)
unfolding prune_until unexpired
prune_until-of_entries r cutoff [] = refl
prune_until-of_entries r cutoff (e ∷ es) =
    go (ltb e.timestamp cutoff) refl (prune_until-of_entries r cutoff es)
  where
    go :
        (p : Bool)
        → ltb e.timestamp cutoff ≡ p
        → prune_until cutoff es (of_entries r es) ≡ of_entries r (unexpired cutoff es)
        → prune_until cutoff (e ∷ es) (of_entries r (e ∷ es))
          ≡ of_entries r (unexpired cutoff (e ∷ es))
    go true eq ih = rw (prune_until, eq, unexpired, pop_entry-of_entries r e es) ih
    go false eq ih = rw (prune_until, eq, unexpired) refl

make_room-of_entries :
    (r : RedeemedNonces) (max : ℕ) (es : List NonceEntry)
    → make_room max es (of_entries r es) ≡ of_entries r (fitting max es)
unfolding make_room fitting
make_room-of_entries r max [] = refl
make_room-of_entries r max (e ∷ es) =
    go (leb max (length (nonces (e ∷ es)))) refl (make_room-of_entries r max es)
  where
    go :
        (p : Bool)
        → leb max (length (nonces (e ∷ es))) ≡ p
        → make_room max es (of_entries r es) ≡ of_entries r (fitting max es)
        → make_room max (e ∷ es) (of_entries r (e ∷ es)) ≡ of_entries r (fitting max (e ∷ es))
    go true eq ih = rw (make_room, eq, fitting, pop_entry-of_entries r e es) ih
    go false eq ih = rw (make_room, eq, fitting) refl

-- The entries that are left when a nonce comes.
unfoldable pub kept : RedeemedNonces → ℕ → List NonceEntry → List NonceEntry
kept r now es = fitting (max_size r) (unexpired (now - r.replay_window) es)

pub nonces-append : (es fs : List NonceEntry) → nonces (es ++ fs) ≡ nonces es ++ nonces fs
unfolding nonces
nonces-append [] fs = refl
nonces-append (e ∷ es) fs = ap (λ l. e.nonce ∷ l) (nonces-append es fs)

abbrev pub with_entry : Nonce → ℕ → List NonceEntry → List NonceEntry
with_entry n now es = es ++ record { nonce = n; timestamp = now } ∷ []

add_entry-of_entries :
    (r : RedeemedNonces) (n : Nonce) (now : ℕ) (es : List NonceEntry)
    → contains n (nonces es) ≡ false
    → add_entry n now (of_entries r es) ≡ of_entries r (with_entry n now es)
unfolding nonces
add_entry-of_entries r n now es h =
    rw (insert-new n (nonces es) h, nonces-append es (record { nonce = n; timestamp = now } ∷ []))
      refl

-- `check_and_add_nonce` on the queue.
unfoldable pub accept : RedeemedNonces → Nonce → ℕ → List NonceEntry → Bool × List NonceEntry
accept r n now es =
    let left = kept r now es in
    if contains n (nonces left) then (false, left) else (true, with_entry n now left)

pub check_and_add_nonce-of_entries :
    (r : RedeemedNonces) (n : Nonce) (now : ℕ) (es : List NonceEntry)
    → check_and_add_nonce n now (of_entries r es)
      ≡ ((accept r n now es).0, of_entries r (accept r n now es).1)
unfolding check_and_add_nonce accept kept max_size prune_redemption_cache
check_and_add_nonce-of_entries r n now es = go (contains n (nonces (kept r now es))) refl
  where
    go :
        (p : Bool)
        → contains n (nonces (kept r now es)) ≡ p
        → check_and_add_nonce n now (of_entries r es)
          ≡ ((accept r n now es).0, of_entries r (accept r n now es).1)
    go true eq =
        rw
          (
            check_and_add_nonce,
            prune_redemption_cache,
            prune_until-of_entries r (now - r.replay_window) es,
            make_room-of_entries r (max_size r) (unexpired (now - r.replay_window) es),
            eq,
            accept,
          )
          refl
    go false eq =
        rw
          (
            check_and_add_nonce,
            prune_redemption_cache,
            prune_until-of_entries r (now - r.replay_window) es,
            make_room-of_entries r (max_size r) (unexpired (now - r.replay_window) es),
            eq,
            accept,
          )
          (ap (λ (s : RedeemedNonces). (true, s)) (add_entry-of_entries r n now (kept r now es) eq))
