-- ===== src/Issuer/KeyStore/Laws.antt =====
-- What the maps of keys hold after a key is stored or removed, and what is issued from them.
use privacypass_cpp.Prelude.{
  ℕ, ◌≡◌, refl, ◌∙◌, Bool, true, false, ◌||◌, Option, none, some, List, [], ◌∷◌, ◌++◌, ◌==◌,
  if◌then◌else◌, arith, subst,
}
use privacypass_cpp.Types.{Bytes, Error, Result, ok, err}
use privacypass_cpp.NonceSet.{same, same_self, contains, contains-append, same-eq}
use privacypass_cpp.TokenResponse.{TokenResponse}
use privacypass_cpp.Issuer.KeyStore.{
  IssuerEntry, IdBucket, KeyStore, push_id, find_ids, erase_ids, find_issuer, set_issuer,
  first_answer, store_key, remove_ids, remove_keys, first_response, try_keys, issue_from,
  issue_with,
}

find_ids-erase_ids : (t : ℕ) (bs : List IdBucket) → find_ids t (erase_ids t bs) ≡ none
unfolding find_ids erase_ids
find_ids-erase_ids t [] = refl
find_ids-erase_ids t (b ∷ bs) = go (b.truncated == t) refl (find_ids-erase_ids t bs)
  where
    go :
        (p : Bool)
        → (b.truncated == t) ≡ p
        → find_ids t (erase_ids t bs) ≡ none
        → find_ids t (if p then erase_ids t bs else b ∷ erase_ids t bs) ≡ none
    go true e ih = ih
    go false e ih = rw (find_ids, e) ih

-- No id is found behind the last byte whose keys were removed.
find_ids-remove_keys :
    {Issuer : Type 0} (t : ℕ) (s : KeyStore Issuer)
    → find_ids t (remove_keys t s).keys_by_truncated_id ≡ none
unfolding remove_keys
find_ids-remove_keys t s = go (find_ids t s.keys_by_truncated_id) refl
  where
    go :
        (o : Option (List Bytes))
        → find_ids t s.keys_by_truncated_id ≡ o
        → find_ids t (remove_ids t o s).keys_by_truncated_id ≡ none
    go none e = e
    go (some ids) e = find_ids-erase_ids t s.keys_by_truncated_id

pub issue_with-remove_keys :
    {Issuer : Type 0} (issue : Issuer → Result TokenResponse) (unknown unmatched : Error) (t : ℕ)
    (s : KeyStore Issuer)
    → issue_with issue unknown unmatched t (remove_keys t s) ≡ err unknown
unfolding issue_with
issue_with-remove_keys issue unknown unmatched t s = rw (find_ids-remove_keys t s) refl

-- An id that is pushed is found behind its last byte.
abbrev Found : Bytes → Option (List Bytes) → Type 0
Found id none = ⊥
Found id (some ids) = contains id ids ≡ true

find_ids-push_id :
    (t : ℕ) (id : Bytes) (bs : List IdBucket) → Found id (find_ids t (push_id t id bs))
unfolding find_ids push_id contains
find_ids-push_id t id [] = let e : (t == t) ≡ true = ground arith in rw (e, same_self id) refl
find_ids-push_id t id (b ∷ bs) = go (b.truncated == t) refl (find_ids-push_id t id bs)
  where
    go :
        (p : Bool)
        → (b.truncated == t) ≡ p
        → Found id (find_ids t (push_id t id bs))
        → Found id (
            find_ids t
              (if p then record b { ids = b.ids ++ id ∷ [] } ∷ bs else b ∷ push_id t id bs))
    go true e ih =
        rw (find_ids, e, contains-append id b.ids (id ∷ []), contains, same_self id) (ground arith)
    go false e ih = rw (find_ids, e) ih

module _ {Issuer : Type 0} where
  find_issuer-set_issuer :
      (id : Bytes) (issuer : Issuer) (es : List (IssuerEntry Issuer))
      → find_issuer id (set_issuer id issuer es) ≡ some issuer
  unfolding find_issuer set_issuer
  find_issuer-set_issuer id issuer [] = rw (same_self id) refl
  find_issuer-set_issuer id issuer (e ∷ es) =
      go (same id e.id) refl (find_issuer-set_issuer id issuer es)
    where
      go :
          (p : Bool)
          → same id e.id ≡ p
          → find_issuer id (set_issuer id issuer es) ≡ some issuer
          → find_issuer id
              (if p then record e { issuer = issuer } ∷ es else e ∷ set_issuer id issuer es)
            ≡ some issuer
      go true q ih = rw (find_issuer, q) refl
      go false q ih = rw (find_issuer, q) ih

  first_response-head :
      (issue : Issuer → Result TokenResponse) (o : Option Issuer) (rest : Result TokenResponse)
      (issuer : Issuer) (response : TokenResponse)
      → o ≡ some issuer
      → issue issuer ≡ ok response
      → first_response issue o rest ≡ ok response
  first_response-head issue o rest issuer response e i = rw (e, first_response, i) refl

  first_response-rest :
      (issue : Issuer → Result TokenResponse) (o : Option Issuer) (rest : Result TokenResponse)
      (answer : TokenResponse)
      → rest ≡ ok answer
      → (answer' : TokenResponse) × (first_response issue o rest ≡ ok answer')
  first_response-rest issue none rest answer h = (answer, h)
  first_response-rest issue (some issuer) rest answer h = go (issue issuer) refl
    where
      go :
          (r : Result TokenResponse)
          → issue issuer ≡ r
          → (answer' : TokenResponse) × (first_response issue (some issuer) rest ≡ ok answer')
      go (ok response) e = (response, rw (first_response, e) refl)
      go (err x) e = (answer, rw (first_response, e) h)

  -- A key that can issue, among those that are tried, is enough for a response.
  try_keys-contains :
      (issue : Issuer → Result TokenResponse) (unmatched : Error) (ids : List Bytes)
      (es : List (IssuerEntry Issuer)) (id : Bytes) (issuer : Issuer) (response : TokenResponse)
      → contains id ids ≡ true
      → find_issuer id es ≡ some issuer
      → issue issuer ≡ ok response
      → (answer : TokenResponse) × (try_keys issue unmatched ids es ≡ ok answer)
  unfolding try_keys contains
  try_keys-contains issue unmatched [] es id issuer response m f i = absurd cc
  try_keys-contains issue unmatched (x ∷ ids) es id issuer response m f i =
      go (same id x) refl (λ h. try_keys-contains issue unmatched ids es id issuer response h f i)
    where
      other : (p q : Bool) → p ≡ false → (p || q) ≡ true → q ≡ true
      other true q h k = cc
      other false q h k = k

      go :
          (p : Bool)
          → same id x ≡ p
          → (contains id ids ≡ true
              → (answer : TokenResponse) × (try_keys issue unmatched ids es ≡ ok answer))
          → (answer : TokenResponse) × (first_response issue
                (find_issuer x es)
                (try_keys issue unmatched ids es)
              ≡ ok answer)
      go true e ih =
          let found = subst (λ y. find_issuer y es ≡ some issuer) (same-eq id x e) f in
          (response, first_response-head issue _ _ issuer response found i)
      go false e ih =
          let m' : contains id ids ≡ true = other (same id x) (contains id ids) e m in
          let (answer, h) = ih m' in first_response-rest issue (find_issuer x es) _ answer h

  -- A response that is the answer is that of an issuer in the map.
  pub try_keys-ok :
      (issue : Issuer → Result TokenResponse) (unmatched : Error) (ids : List Bytes)
      (es : List (IssuerEntry Issuer)) (response : TokenResponse)
      → try_keys issue unmatched ids es ≡ ok response
      → (id : Bytes) × (issuer : Issuer) × (find_issuer id es ≡ some issuer)
        × (issue issuer ≡ ok response)
  unfolding try_keys
  try_keys-ok issue unmatched [] es response h = absurd cc
  try_keys-ok issue unmatched (x ∷ ids) es response h =
      go (find_issuer x es) refl h (try_keys-ok issue unmatched ids es response)
    where
      Answer : Type 0
      Answer =
          (id : Bytes) × (issuer : Issuer) × (find_issuer id es ≡ some issuer)
          × (issue issuer ≡ ok response)

      with_issuer :
          (issuer : Issuer) (r : Result TokenResponse)
          → find_issuer x es ≡ some issuer
          → issue issuer ≡ r
          → first_answer r (try_keys issue unmatched ids es) ≡ ok response
          → (try_keys issue unmatched ids es ≡ ok response → Answer)
          → Answer
      with_issuer issuer (ok r) f e k ih = (x, issuer, f, e ∙ k)
      with_issuer issuer (err y) f e k ih = ih k

      go :
          (o : Option Issuer)
          → find_issuer x es ≡ o
          → first_response issue o (try_keys issue unmatched ids es) ≡ ok response
          → (try_keys issue unmatched ids es ≡ ok response → Answer)
          → Answer
      go none f k ih = ih k
      go (some issuer) f k ih = with_issuer issuer (issue issuer) f refl k ih

  pub issue_with-store_key :
      (issue : Issuer → Result TokenResponse) (unknown unmatched : Error) (t : ℕ) (id : Bytes)
      (issuer : Issuer) (s : KeyStore Issuer) (response : TokenResponse)
      → issue issuer ≡ ok response
      → (answer : TokenResponse) × (issue_with issue unknown unmatched t (store_key id t issuer s)
          ≡ ok answer)
  unfolding issue_with store_key contains
  issue_with-store_key issue unknown unmatched t id issuer s response i =
      go (find_ids t (push_id t id s.keys_by_truncated_id))
        (find_ids-push_id t id s.keys_by_truncated_id)
    where
      go :
          (o : Option (List Bytes))
          → Found id o
          → (answer : TokenResponse) × (issue_from issue unknown unmatched o
                (store_key id t issuer s)
              ≡ ok answer)
      go none h = absurd h
      go (some []) h = absurd cc
      go (some (x ∷ ids)) h =
          try_keys-contains issue unmatched (x ∷ ids) _ id issuer response h
            (find_issuer-set_issuer id issuer s.issuers) i

  pub issue_with-ok :
      (issue : Issuer → Result TokenResponse) (unknown unmatched : Error) (t : ℕ)
      (s : KeyStore Issuer) (response : TokenResponse)
      → issue_with issue unknown unmatched t s ≡ ok response
      → (id : Bytes) × (issuer : Issuer) × (find_issuer id s.issuers ≡ some issuer)
        × (issue issuer ≡ ok response)
  unfolding issue_with
  issue_with-ok issue unknown unmatched t s response h = go (find_ids t s.keys_by_truncated_id) h
    where
      go :
          (o : Option (List Bytes))
          → issue_from issue unknown unmatched o s ≡ ok response
          → (id : Bytes) × (issuer : Issuer) × (find_issuer id s.issuers ≡ some issuer)
            × (issue issuer ≡ ok response)
      go none k = absurd cc
      go (some []) k = absurd cc
      go (some (x ∷ ids)) k = try_keys-ok issue unmatched (x ∷ ids) s.issuers response k
