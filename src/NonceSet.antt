-- ===== src/NonceSet.antt =====
-- `std::unordered_set<Nonce>` as src/core/origin.cpp and src/core/token_authenticator.cpp use it:
-- a list without duplicates, the newest element last.
use privacypass_cpp.Prelude.{
  ◌≡◌, refl, ap₂, Bool, true, false, ◌||◌, List, [], ◌∷◌, ◌++◌, ◌==◌, ==_iff, if◌then◌else◌, arith,
}
use privacypass_cpp.Types.{Bytes}

abbrev pub Nonce : Type 0
Nonce = Bytes

-- `operator==` of two byte arrays.
unfoldable pub same : Bytes → Bytes → Bool
same [] [] = true
same (x ∷ xs) (y ∷ ys) = if x == y then same xs ys else false
same xs ys = false

-- `set.find(nonce) != set.end()`
unfoldable pub contains : Nonce → List Nonce → Bool
contains n [] = false
contains n (m ∷ ms) = same n m || contains n ms

-- `set.insert(nonce)`
unfoldable pub insert : Nonce → List Nonce → List Nonce
insert n s = if contains n s then s else s ++ n ∷ []

-- `set.erase(nonce)`
unfoldable pub erase : Nonce → List Nonce → List Nonce
erase n [] = []
erase n (m ∷ ms) = if same n m then ms else m ∷ erase n ms

-- `for (const auto& nonce : nonces) set.erase(nonce);`
unfoldable pub erase_all : List Nonce → List Nonce → List Nonce
erase_all [] s = s
erase_all (n ∷ ns) s = erase_all ns (erase n s)

pub same_self : (xs : Bytes) → same xs xs ≡ true
unfolding same
same_self [] = refl
same_self (x ∷ xs) = ground (arith, same_self xs)

pub same-eq : (xs ys : Bytes) → same xs ys ≡ true → xs ≡ ys
unfolding same
same-eq [] [] h = refl
same-eq (x ∷ xs) (y ∷ ys) h =
    let (e, k) = both (x == y) (same xs ys) h in ap₂ (◌∷◌) ((==_iff _ _).0 e) (same-eq xs ys k)
  where
    both : (p q : Bool) → (if p then q else false) ≡ true → (p ≡ true) × (q ≡ true)
    both true q h = (refl, h)
    both false q h = cc
same-eq [] (y ∷ ys) h = cc
same-eq (x ∷ xs) [] h = cc

pub contains-append :
    (n : Nonce) (xs ys : List Nonce) → contains n (xs ++ ys) ≡ (contains n xs || contains n ys)
unfolding contains
contains-append n [] ys = refl
contains-append n (x ∷ xs) ys = rw (contains-append n xs ys) (assoc (same n x) _ _)
  where
    assoc : (p q r : Bool) → (p || (q || r)) ≡ ((p || q) || r)
    assoc true q r = refl
    assoc false q r = refl

pub contains-insert : (n : Nonce) (s : List Nonce) → contains n (insert n s) ≡ true
unfolding insert contains
contains-insert n s = go (contains n s) refl
  where
    go : (p : Bool) → contains n s ≡ p → contains n (insert n s) ≡ true
    go true e = rw (insert, e) e
    go false e = rw (insert, e, contains-append n s (n ∷ []), contains, same_self n) (ground arith)

pub contains-insert_other :
    (n m : Nonce) (s : List Nonce) → contains n s ≡ true → contains n (insert m s) ≡ true
unfolding insert
contains-insert_other n m s h = go (contains m s) refl
  where
    go : (p : Bool) → contains m s ≡ p → contains n (insert m s) ≡ true
    go true e = rw (insert, e) h
    go false e = rw (insert, e, contains-append n s (m ∷ []), h) refl

pub insert-new : (n : Nonce) (s : List Nonce) → contains n s ≡ false → insert n s ≡ s ++ n ∷ []
unfolding insert
insert-new n s h = rw h refl

pub erase_all-prefix : (xs ys : List Nonce) → erase_all xs (xs ++ ys) ≡ ys
unfolding erase_all erase
erase_all-prefix [] ys = refl
erase_all-prefix (x ∷ xs) ys = rw (same_self x) (erase_all-prefix xs ys)

-- Nonces that go leave no other behind.
both_false : (p q : Bool) → (p || q) ≡ false → (p ≡ false) × (q ≡ false)
both_false true q h = absurd cc
both_false false q h = (refl, h)

pub contains-erase :
    (n m : Nonce) (s : List Nonce) → contains n s ≡ false → contains n (erase m s) ≡ false
unfolding contains erase
contains-erase n m [] h = refl
contains-erase n m (x ∷ s) h =
    let (p, q) = both_false (same n x) (contains n s) h in
    go (same m x) p q (contains-erase n m s q)
  where
    go :
        (b : Bool)
        → same n x ≡ false
        → contains n s ≡ false
        → contains n (erase m s) ≡ false
        → contains n (if b then s else x ∷ erase m s) ≡ false
    go true p q r = q
    go false p q r = rw p r
