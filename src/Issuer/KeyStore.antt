-- ===== src/Issuer/KeyStore.antt =====
-- The maps of `MultiKeyIssuer` in src/core/issuer.cpp for the keys of one kind: the issuers by their
-- key id, and the key ids by their last byte.
pub mod Laws
use privacypass_cpp.Prelude.{
  ℕ, Bool, true, false, Option, none, some, List, [], ◌∷◌, ◌++◌, ◌==◌, if◌then◌else◌,
}
use privacypass_cpp.Types.{Bytes, Error, Result, ok, err}
use privacypass_cpp.NonceSet.{same}
use privacypass_cpp.TokenResponse.{TokenResponse}

pub record IssuerEntry (Issuer : Type 0) : Type 0 where
  pub id : Bytes
  pub issuer : Issuer

pub record IdBucket : Type 0 where
  pub truncated : ℕ
  pub ids : List Bytes

-- `rsa_issuers` with `rsa_keys_by_truncated_id`, or `voprf_issuers` with
-- `voprf_keys_by_truncated_id`.
pub record KeyStore (Issuer : Type 0) : Type 0 where
  pub issuers : List (IssuerEntry Issuer)
  pub keys_by_truncated_id : List IdBucket

-- `keys_by_truncated_id[truncated].push_back(id)`, found or not.
pub push_id : ℕ → Bytes → List IdBucket → List IdBucket
push_id truncated id [] = record { truncated = truncated; ids = id ∷ [] } ∷ []
push_id truncated id (b ∷ bs) =
    if b.truncated == truncated
    then record b { ids = b.ids ++ id ∷ [] } ∷ bs
    else b ∷ push_id truncated id bs

pub find_ids : ℕ → List IdBucket → Option (List Bytes)
find_ids truncated [] = none
find_ids truncated (b ∷ bs) = if b.truncated == truncated then some b.ids else find_ids truncated bs

pub erase_ids : ℕ → List IdBucket → List IdBucket
erase_ids truncated [] = []
erase_ids truncated (b ∷ bs) =
    if b.truncated == truncated then erase_ids truncated bs else b ∷ erase_ids truncated bs

abbrev pub first_answer : Result TokenResponse → Result TokenResponse → Result TokenResponse
first_answer (ok response) rest = ok response
first_answer (err e) rest = rest

module _ {Issuer : Type 0} where
  pub find_issuer : Bytes → List (IssuerEntry Issuer) → Option Issuer
  find_issuer id [] = none
  find_issuer id (e ∷ es) = if same id e.id then some e.issuer else find_issuer id es

  -- `issuers[id] = issuer`
  pub set_issuer : Bytes → Issuer → List (IssuerEntry Issuer) → List (IssuerEntry Issuer)
  set_issuer id issuer [] = record { id = id; issuer = issuer } ∷ []
  set_issuer id issuer (e ∷ es) =
      if same id e.id then record e { issuer = issuer } ∷ es else e ∷ set_issuer id issuer es

  pub erase_issuer : Bytes → List (IssuerEntry Issuer) → List (IssuerEntry Issuer)
  erase_issuer id [] = []
  erase_issuer id (e ∷ es) = if same id e.id then erase_issuer id es else e ∷ erase_issuer id es

  pub erase_issuers : List Bytes → List (IssuerEntry Issuer) → List (IssuerEntry Issuer)
  erase_issuers [] es = es
  erase_issuers (id ∷ ids) es = erase_issuers ids (erase_issuer id es)

  abbrev pub empty_store : KeyStore Issuer
  empty_store = record { issuers = []; keys_by_truncated_id = [] }

  -- The end of `add_blind_rsa_key` and of `add_voprf_key`.
  pub store_key : Bytes → ℕ → Issuer → KeyStore Issuer → KeyStore Issuer
  unfolding set_issuer push_id
  store_key id truncated issuer s = record {
    issuers = set_issuer id issuer s.issuers;
    keys_by_truncated_id = push_id truncated id s.keys_by_truncated_id;
  }

  abbrev pub remove_ids : ℕ → Option (List Bytes) → KeyStore Issuer → KeyStore Issuer
  remove_ids truncated none s = s
  remove_ids truncated (some ids) s = record {
    issuers = erase_issuers ids s.issuers;
    keys_by_truncated_id = erase_ids truncated s.keys_by_truncated_id;
  }

  -- Each half of `remove_key`.
  pub remove_keys : ℕ → KeyStore Issuer → KeyStore Issuer
  remove_keys truncated s = remove_ids truncated (find_ids truncated s.keys_by_truncated_id) s

  -- The keys are tried in order, and the first response is the answer.
  abbrev pub first_response :
      (Issuer → Result TokenResponse) → Option Issuer → Result TokenResponse → Result TokenResponse
  first_response issue none rest = rest
  first_response issue (some issuer) rest = first_answer (issue issuer) rest

  pub try_keys :
      (Issuer → Result TokenResponse)
      → Error
      → List Bytes
      → List (IssuerEntry Issuer)
      → Result TokenResponse
  unfolding find_issuer
  try_keys issue unmatched [] es = err unmatched
  try_keys issue unmatched (id ∷ ids) es =
      first_response issue (find_issuer id es) (try_keys issue unmatched ids es)

  abbrev pub issue_from :
      (Issuer → Result TokenResponse)
      → Error
      → Error
      → Option (List Bytes)
      → KeyStore Issuer
      → Result TokenResponse
  issue_from issue unknown unmatched none s = err unknown
  issue_from issue unknown unmatched (some []) s = err unknown
  issue_from issue unknown unmatched (some (id ∷ ids)) s =
      try_keys issue unmatched (id ∷ ids) s.issuers

  -- A case of the `switch` in `issue`.
  pub issue_with :
      (Issuer → Result TokenResponse) → Error → Error → ℕ → KeyStore Issuer → Result TokenResponse
  issue_with issue unknown unmatched truncated s =
      issue_from issue unknown unmatched (find_ids truncated s.keys_by_truncated_id) s
