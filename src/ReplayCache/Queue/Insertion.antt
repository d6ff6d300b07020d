-- ===== src/ReplayCache/Queue/Insertion.antt =====
-- A new nonce joins the last bucket, or a bucket of its own after the last.
use privacypass_cpp.Prelude.{
  ℕ, ◌<◌, ◌≡◌, refl, ap, ◌∙◌, Bool, true, false, ◌||◌, List, [], ◌∷◌, ◌++◌, ◌==◌, if◌then◌else◌,
  length, All, append_assoc, append-nil, arith, ==_iff, sym,
}
use privacypass_cpp.NonceSet.{Nonce, contains, insert, contains-append, insert-new}
use privacypass_cpp.ReplayCache.{Bucket, ReplayCache, bucket_at, set_bucket, add}
use privacypass_cpp.ReplayCache.Queue.{flatten, keys, of_buckets, Ascending, added}

last_bucket :
    (tick : ℕ) (b : Bucket) (bs : List Bucket) → Ascending tick (b ∷ bs) → b.key ≡ tick → bs ≡ []
last_bucket tick b [] v e = refl
last_bucket tick b (b' ∷ bs) (le, ne, (lt, _), (le', _, _, _)) e = absurd (omega arith)

bucket_at-here :
    (tick : ℕ) (b : Bucket) (bs : List Bucket)
    → (b.key == tick) ≡ true
    → bucket_at tick (b ∷ bs) ≡ b.nonces
unfolding bucket_at
bucket_at-here tick b bs e = rw e refl

bucket_at-other :
    (tick : ℕ) (b : Bucket) (bs : List Bucket)
    → (b.key == tick) ≡ false
    → bucket_at tick (b ∷ bs) ≡ bucket_at tick bs
unfolding bucket_at
bucket_at-other tick b bs e = rw e refl

set_bucket-here :
    (tick : ℕ) (s : List Nonce) (b : Bucket) (bs : List Bucket)
    → (b.key == tick) ≡ true
    → set_bucket tick s (b ∷ bs) ≡ record { key = tick; nonces = s } ∷ bs
unfolding set_bucket
set_bucket-here tick s b bs e = rw e refl

set_bucket-other :
    (tick : ℕ) (s : List Nonce) (b : Bucket) (bs : List Bucket)
    → (b.key == tick) ≡ false
    → set_bucket tick s (b ∷ bs) ≡ b ∷ set_bucket tick s bs
unfolding set_bucket
set_bucket-other tick s b bs e = rw e refl

pub added-here :
    (n : Nonce) (tick : ℕ) (b : Bucket) (bs : List Bucket)
    → (b.key == tick) ≡ true
    → added n tick (b ∷ bs) ≡ record { key = tick; nonces = insert n b.nonces } ∷ bs
unfolding added
added-here n tick b bs e =
    rw (bucket_at-here tick b bs e, set_bucket-here tick (insert n b.nonces) b bs e) refl

pub added-other :
    (n : Nonce) (tick : ℕ) (b : Bucket) (bs : List Bucket)
    → (b.key == tick) ≡ false
    → added n tick (b ∷ bs) ≡ b ∷ added n tick bs
unfolding added
added-other n tick b bs e = rw (bucket_at-other tick b bs e, set_bucket-other tick _ b bs e) refl

new_in_head :
    (n : Nonce) (b : Bucket) (bs : List Bucket)
    → contains n (flatten (b ∷ bs)) ≡ false
    → (contains n b.nonces ≡ false) × (contains n (flatten bs) ≡ false)
unfolding flatten
new_in_head n b bs h = split _ _ (rw (← contains-append n b.nonces (flatten bs)) h)
  where
    split : (p q : Bool) → (p || q) ≡ false → (p ≡ false) × (q ≡ false)
    split false q h = (refl, h)
    split true q h = cc

pub added-flatten :
    (n : Nonce) (tick : ℕ) (bs : List Bucket)
    → Ascending tick bs
    → contains n (flatten bs) ≡ false
    → flatten (added n tick bs) ≡ flatten bs ++ n ∷ []
unfolding added set_bucket bucket_at flatten insert contains
added-flatten n tick [] v h = refl
added-flatten n tick (b ∷ bs) v h =
    let (new, new') = new_in_head n b bs h in
    go (b.key == tick) refl new (added-flatten n tick bs v.3 new')
  where
    go :
        (p : Bool)
        → (b.key == tick) ≡ p
        → contains n b.nonces ≡ false
        → flatten (added n tick bs) ≡ flatten bs ++ n ∷ []
        → flatten (added n tick (b ∷ bs)) ≡ flatten (b ∷ bs) ++ n ∷ []
    go true e new ih =
        let last = last_bucket tick b bs v ((==_iff _ _).0 e) in
        rw (added-here n tick b bs e, flatten, insert-new n b.nonces new, last)
          (append-nil _ ∙ ap (λ l. l ++ n ∷ []) (sym (append-nil b.nonces)))
    go false e new ih =
        rw (added-other n tick b bs e, flatten)
          (ap (λ l. b.nonces ++ l) ih ∙ sym (append_assoc b.nonces (flatten bs) (n ∷ [])))

added-keys :
    (n : Nonce) (tick : ℕ) (bs : List Bucket)
    → Ascending tick bs
    → keys (added n tick bs)
      ≡ (if length (bucket_at tick bs) == 0 then keys bs ++ tick ∷ [] else keys bs)
unfolding added set_bucket bucket_at keys
added-keys n tick [] v = refl
added-keys n tick (b ∷ bs) v = go (b.key == tick) refl (added-keys n tick bs v.3)
  where
    under :
        (p : Bool) (k : ℕ) (xs ys : List ℕ)
        → k ∷ (if p then xs else ys) ≡ (if p then k ∷ xs else k ∷ ys)
    under true k xs ys = refl
    under false k xs ys = refl

    go :
        (p : Bool)
        → (b.key == tick) ≡ p
        → keys (added n tick bs)
          ≡ (if length (bucket_at tick bs) == 0 then keys bs ++ tick ∷ [] else keys bs)
        → keys (added n tick (b ∷ bs)) ≡ (
            if length (bucket_at tick (b ∷ bs)) == 0
            then keys (b ∷ bs) ++ tick ∷ []
            else keys (b ∷ bs))
    go true e ih =
        let full : (length b.nonces == 0) ≡ false = ground (arith, v.1) in
        rw (added-here n tick b bs e, bucket_at-here tick b bs e, keys, full)
          (ap (λ k. k ∷ keys bs) (sym ((==_iff _ _).0 e)))
    go false e ih =
        rw (added-other n tick b bs e, bucket_at-other tick b bs e, keys)
          (ap (λ l. b.key ∷ l) ih ∙ under _ b.key _ _)

insert-size : (n : Nonce) (s : List Nonce) → 0 < length (insert n s)
unfolding insert contains
insert-size n [] = omega arith
insert-size n (m ∷ ms) = go (contains n (m ∷ ms)) refl
  where
    go : (p : Bool) → contains n (m ∷ ms) ≡ p → 0 < length (insert n (m ∷ ms))
    go true e = rw (insert, e) (omega arith)
    go false e = rw (insert, e) (omega arith)

added-All :
    (k tick : ℕ) (bs : List Bucket) (s : List Nonce)
    → k < tick
    → All (λ (b : Bucket). k < b.key) bs
    → All (λ (b : Bucket). k < b.key) (set_bucket tick s bs)
unfolding set_bucket
added-All k tick [] s lt h = (lt, tt)
added-All k tick (b ∷ bs) s lt (h, hs) = go (b.key == tick) refl (added-All k tick bs s lt hs)
  where
    go :
        (p : Bool)
        → (b.key == tick) ≡ p
        → All (λ (b : Bucket). k < b.key) (set_bucket tick s bs)
        → All (λ (b : Bucket). k < b.key) (set_bucket tick s (b ∷ bs))
    go true e ih = rw (set_bucket, e) (lt, hs)
    go false e ih = rw (set_bucket, e) (h, ih)

added_in :
    (n : Nonce) (k tick : ℕ) (bs : List Bucket)
    → k < tick
    → All (λ (b : Bucket). k < b.key) bs
    → All (λ (b : Bucket). k < b.key) (added n tick bs)
unfolding added
added_in n k tick bs lt h = added-All k tick bs _ lt h

pub added-Ascending :
    (n : Nonce) (tick : ℕ) (bs : List Bucket) → Ascending tick bs → Ascending tick (added n tick bs)
unfolding added set_bucket bucket_at
added-Ascending n tick [] v = (omega arith, insert-size n [], tt, tt)
added-Ascending n tick (b ∷ bs) (le, ne, lt, v) =
    go (b.key == tick) refl (added-Ascending n tick bs v)
  where
    go :
        (p : Bool)
        → (b.key == tick) ≡ p
        → Ascending tick (added n tick bs)
        → Ascending tick (added n tick (b ∷ bs))
    go true e ih =
        let last = last_bucket tick b bs (le, ne, lt, v) ((==_iff _ _).0 e) in
        rw (added-here n tick b bs e, last) (omega arith, insert-size n b.nonces, tt, tt)
    go false e ih =
        rw (added-other n tick b bs e) (le, ne, added_in n b.key tick bs (ground arith) lt, ih)

-- The cache takes the nonce in where its queue does.
pub add-of_buckets :
    (c : ReplayCache) (n : Nonce) (tick : ℕ) (bs : List Bucket)
    → Ascending tick bs
    → contains n (flatten bs) ≡ false
    → add n tick (of_buckets c bs) ≡ of_buckets c (added n tick bs)
unfolding add added
add-of_buckets c n tick bs v h =
    rw (insert-new n (flatten bs) h, ← added-flatten n tick bs v h, ← added-keys n tick bs v) refl
