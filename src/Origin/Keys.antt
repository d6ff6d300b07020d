-- ===== src/Origin/Keys.antt =====
-- Keys that come one by one, and keys that are given at once.
use privacypass_cpp.Prelude.{
  ◌≡◌, refl, ap, ap₂, sym, ◌∙◌, append-nil, append_assoc, Option, none, some, List, [], ◌∷◌, ◌++◌,
}
use privacypass_cpp.PublicOrigin.{
  OriginConfig, PublicOrigin, RsaCrypto, with_keys, add_issuer_key, add_issuer_keys,
}
use privacypass_cpp.PublicOrigin
use privacypass_cpp.Origin.{KeyCodec, Origin, copy_key, copy_keys, with_copy, add_blind_rsa_key}

module _ {Rsa Voprf : Type 0} (crypto : RsaCrypto Rsa) (codec : KeyCodec Rsa) where
  pub add_blind_rsa_keys : List Rsa → Origin Rsa Voprf → Origin Rsa Voprf
  add_blind_rsa_keys [] o = o
  add_blind_rsa_keys (key ∷ keys) o = add_blind_rsa_keys keys (add_blind_rsa_key crypto codec key o)

module _ {Rsa : Type 0} (crypto : RsaCrypto Rsa) where
  -- The `PublicOrigin` that a list of copies makes: none of no copy.
  abbrev pub public_of : OriginConfig → List Rsa → Option (PublicOrigin Rsa)
  public_of config [] = none
  public_of config (copy ∷ copies) = some (with_keys crypto config (copy ∷ copies))

module _ {Rsa : Type 0} (crypto : RsaCrypto Rsa) (codec : KeyCodec Rsa) where
  add_issuer_keys-snoc :
      (keys : List Rsa) (key : Rsa) (o : PublicOrigin Rsa)
      → add_issuer_keys crypto (keys ++ key ∷ []) o
        ≡ add_issuer_key crypto key (add_issuer_keys crypto keys o)
  unfolding add_issuer_keys
  add_issuer_keys-snoc [] key o = refl
  add_issuer_keys-snoc (k ∷ keys) key o = add_issuer_keys-snoc keys key (add_issuer_key crypto k o)

  copy_keys-none :
      (key : Rsa) (keys : List Rsa)
      → copy_key codec key ≡ none
      → copy_keys codec (key ∷ keys) ≡ copy_keys codec keys
  unfolding copy_keys
  copy_keys-none key keys e = rw (e, copy_keys) refl

  copy_keys-some :
      (key copy : Rsa) (keys : List Rsa)
      → copy_key codec key ≡ some copy
      → copy_keys codec (key ∷ keys) ≡ copy ∷ copy_keys codec keys
  unfolding copy_keys
  copy_keys-some key copy keys e = rw (e, copy_keys) refl

  -- One copy more.
  with_copy-snoc :
      (config : OriginConfig) (copies : List Rsa) (copy : Rsa)
      → with_copy crypto codec config (some copy) (public_of crypto config copies)
        ≡ public_of crypto config (copies ++ copy ∷ [])
  with_copy-snoc config [] copy = refl
  with_copy-snoc config (c ∷ copies) copy =
      ap some (sym (add_issuer_keys-snoc (c ∷ copies) copy (PublicOrigin.create config)))

module _ {Rsa Voprf : Type 0} (crypto : RsaCrypto Rsa) (codec : KeyCodec Rsa) where
  add_blind_rsa_keys-from :
      (keys copies : List Rsa) (o : Origin Rsa Voprf)
      → o.public_origin ≡ public_of crypto o.config copies
      → ((add_blind_rsa_keys crypto codec keys o).public_origin
          ≡ public_of crypto o.config (copies ++ copy_keys codec keys))
        × ((add_blind_rsa_keys crypto codec keys o).rsa_keys ≡ o.rsa_keys ++ keys)
  unfolding add_blind_rsa_keys copy_keys add_blind_rsa_key
  add_blind_rsa_keys-from [] copies o h = (rw append-nil h, rw append-nil)
  add_blind_rsa_keys-from (key ∷ keys) copies o h =
      let o' = add_blind_rsa_key crypto codec key o in
      go (copy_key codec key) refl (λ copies' h'. add_blind_rsa_keys-from keys copies' o' h')
    where
      go :
          (m : Option Rsa)
          → copy_key codec key ≡ m
          → ((copies' : List Rsa)
              → with_copy crypto codec o.config (copy_key codec key) o.public_origin
                ≡ public_of crypto o.config copies'
              → ((add_blind_rsa_keys crypto codec keys
                    (add_blind_rsa_key crypto codec key o)).public_origin
                  ≡ public_of crypto o.config (copies' ++ copy_keys codec keys))
                × ((add_blind_rsa_keys crypto codec keys
                      (add_blind_rsa_key crypto codec key o)).rsa_keys
                    ≡ (o.rsa_keys ++ key ∷ []) ++ keys))
          → ((add_blind_rsa_keys crypto codec (key ∷ keys) o).public_origin
              ≡ public_of crypto o.config (copies ++ copy_keys codec (key ∷ keys)))
            × ((add_blind_rsa_keys crypto codec (key ∷ keys) o).rsa_keys ≡ o.rsa_keys ++ key ∷ keys)
      go none e ih =
          let (p, q) =
            ih copies (ap (λ m. with_copy crypto codec o.config m o.public_origin) e ∙ h) in
          (
            p
                ∙ ap (λ l. public_of crypto o.config (copies ++ l))
                    (sym (copy_keys-none crypto codec key keys e)),
            q ∙ append_assoc o.rsa_keys (key ∷ []) keys,
          )
      go (some copy) e ih =
          let (p, q) = ih (copies ++ copy ∷ []) (
            ap₂ (with_copy crypto codec o.config) e h
            ∙ with_copy-snoc crypto codec o.config copies copy) in
          (
            p
                ∙ ap (public_of crypto o.config) (
                    append_assoc copies (copy ∷ []) (copy_keys codec keys)
                    ∙ ap (λ l. copies ++ l) (sym (copy_keys-some crypto codec key copy keys e))),
            q ∙ append_assoc o.rsa_keys (key ∷ []) keys,
          )

  -- Keys that are added one by one to an origin that has none make the `PublicOrigin` that the
  -- constructor makes of all their copies at once, in order and without those that could not be
  -- copied, or none where no key could be; and the origin holds all of them.
  pub add_blind_rsa_keys-with_keys :
      (o : Origin Rsa Voprf) (keys : List Rsa)
      → o.public_origin ≡ none
      → o.rsa_keys ≡ []
      → ((add_blind_rsa_keys crypto codec keys o).public_origin
          ≡ public_of crypto o.config (copy_keys codec keys))
        × ((add_blind_rsa_keys crypto codec keys o).rsa_keys ≡ keys)
  add_blind_rsa_keys-with_keys o keys h h' =
      let (p, q) = add_blind_rsa_keys-from keys [] o h in (p, q ∙ ap (λ l. l ++ keys) h')
