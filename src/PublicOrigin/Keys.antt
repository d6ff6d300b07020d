-- ===== src/PublicOrigin/Keys.antt =====
-- Every index that the origin holds is within `issuer_keys`, and a key that is removed is not found.
use privacypass_cpp.Prelude.{
  ℕ, ◌≤◌, ◌<◌, ◌≡◌, refl, Bool, true, false, Option, none, some, List, [], ◌∷◌, length,
  length-append, All, arith,
}
use privacypass_cpp.Types.{Bytes, Result, ok, err}
use privacypass_cpp.NonceSet.{same}
use privacypass_cpp.PublicOrigin.{
  IndexEntry, find_index, erase_index, set_index, PublicOrigin, RsaCrypto, add_issuer_key,
  add_with_id, remove_issuer_key,
}

abbrev IsBelow : ℕ → List IndexEntry → Type 0
IsBelow n es = All (λ (e : IndexEntry). e.index < n) es

-- Every index is that of a key.
abbrev pub IsIndexed : {Key : Type 0} → PublicOrigin Key → Type 0
IsIndexed o = IsBelow (length o.issuer_keys) o.key_index_by_full_id

IsBelow-more : (n m : ℕ) (es : List IndexEntry) → n ≤ m → IsBelow n es → IsBelow m es
IsBelow-more n m [] le h = tt
IsBelow-more n m (e ∷ es) le (h, hs) = (omega arith, IsBelow-more n m es le hs)

erase_index-IsBelow :
    (n : ℕ) (id : Bytes) (es : List IndexEntry) → IsBelow n es → IsBelow n (erase_index id es)
unfolding erase_index
erase_index-IsBelow n id [] h = tt
erase_index-IsBelow n id (e ∷ es) (h, hs) = go (same id e.id) refl (erase_index-IsBelow n id es hs)
  where
    go :
        (p : Bool)
        → same id e.id ≡ p
        → IsBelow n (erase_index id es)
        → IsBelow n (erase_index id (e ∷ es))
    go true eq ih = rw (erase_index, eq) ih
    go false eq ih = rw (erase_index, eq) (h, ih)

pub find_index-IsBelow :
    (n : ℕ) (id : Bytes) (es : List IndexEntry) (i : ℕ)
    → IsBelow n es
    → find_index id es ≡ some i
    → i < n
unfolding find_index
find_index-IsBelow n id [] i h f = absurd cc
find_index-IsBelow n id (e ∷ es) i (h, hs) f =
    go (same id e.id) refl f (find_index-IsBelow n id es i hs)
  where
    go :
        (p : Bool)
        → same id e.id ≡ p
        → find_index id (e ∷ es) ≡ some i
        → (find_index id es ≡ some i → i < n)
        → i < n
    go true eq f again = ground (arith, h)
    go false eq f again = again (ground arith)

find_index-erase_index :
    (id : Bytes) (es : List IndexEntry) → find_index id (erase_index id es) ≡ none
unfolding erase_index find_index
find_index-erase_index id [] = refl
find_index-erase_index id (e ∷ es) = go (same id e.id) refl (find_index-erase_index id es)
  where
    go :
        (p : Bool)
        → same id e.id ≡ p
        → find_index id (erase_index id es) ≡ none
        → find_index id (erase_index id (e ∷ es)) ≡ none
    go true eq ih = rw (erase_index, eq) ih
    go false eq ih = rw (erase_index, eq, find_index, eq) ih

module _ {Key : Type 0} (crypto : RsaCrypto Key) where
  -- Where every index is that of a key, `add_issuer_key` keeps it so, whether or not the new key
  -- has an id.
  pub add_issuer_key-IsIndexed :
      (key : Key) (o : PublicOrigin Key) → IsIndexed o → IsIndexed (add_issuer_key crypto key o)
  unfolding add_issuer_key set_index
  add_issuer_key-IsIndexed key o h = go (crypto.key_id key)
    where
      go : (m : Result Bytes) → IsIndexed (add_with_id crypto key m o)
      go (err e) = h
      go (ok id) =
          let more = length-append o.issuer_keys (key ∷ []) in
          (
            omega (arith, more),
            erase_index-IsBelow _ id o.key_index_by_full_id
                (IsBelow-more _ _ o.key_index_by_full_id (omega (arith, more)) h),
          )

  -- Where every index is that of a key, `remove_issuer_key` keeps it so.
  pub remove_issuer_key-IsIndexed :
      (id : Bytes) (o : PublicOrigin Key) → IsIndexed o → IsIndexed (remove_issuer_key crypto id o)
  unfolding remove_issuer_key
  remove_issuer_key-IsIndexed id o h = go (find_index id o.key_index_by_full_id) refl
    where
      go :
          (m : Option ℕ)
          → find_index id o.key_index_by_full_id ≡ m
          → IsIndexed (remove_issuer_key crypto id o)
      go none e = rw (remove_issuer_key, e) h
      go (some index) e =
          rw (remove_issuer_key, e) (erase_index-IsBelow _ id o.key_index_by_full_id h)

  pub find_index-remove_issuer_key :
      (id : Bytes) (o : PublicOrigin Key)
      → find_index id (remove_issuer_key crypto id o).key_index_by_full_id ≡ none
  unfolding remove_issuer_key
  find_index-remove_issuer_key id o = go (find_index id o.key_index_by_full_id) refl
    where
      go :
          (m : Option ℕ)
          → find_index id o.key_index_by_full_id ≡ m
          → find_index id (remove_issuer_key crypto id o).key_index_by_full_id ≡ none
      go none e = rw (remove_issuer_key, e) e
      go (some index) e =
          rw (remove_issuer_key, e) (find_index-erase_index id o.key_index_by_full_id)
