-- ===== src/AuthScheme/Authorization/Answers.antt =====
-- What `AuthorizationHeader::parse` answers for any header: the last of the parameters named `token`
-- is its token.
use privacypass_cpp.Prelude.{
  ◌<◌, ◌≡◌, ◌≢◌, ◌⊎◌, refl, sym, ap, subst, ◌∙◌, Bool, true, false, not, List, [], ◌∷◌, ◌++◌, ◌==◌,
  if◌then◌else◌, length, drop, All, arith, inl, inr,
}
use privacypass_cpp.Types.{Bytes, text, invalid_header, missing_parameter, error, Result, ok, err}
use privacypass_cpp.Text.{starts_with}
use privacypass_cpp.NonceSet.{same, same-eq, same_self}
use privacypass_cpp.AuthScheme.{Param, all_params, suc}
use privacypass_cpp.AuthScheme.Split.{scheme}
use privacypass_cpp.AuthScheme.Authorization.{AuthorizationHeader, assign_token, parse}

-- No parameter has the name.
abbrev pub Lacks : Bytes → List Param → Type 0
Lacks name = All (λ (p : Param). p.0 ≢ name)

-- The last of the parameters with the name has the value.
abbrev pub IsLast : Bytes → List Param → Bytes → Type 0
IsLast name ps value =
    (before after : List Param) × (ps ≡ before ++ (name, value) ∷ after) × Lacks name after

-- The value of the last one, or the one before the loop where there is lacks.
abbrev Assigned : List Param → Bytes → Bytes → Type 0
Assigned ps token result =
    (Lacks (text "token") ps × (result ≡ token)) ⊎ IsLast (text "token") ps result

assign_token-Assigned :
    (ps : List Param) (token : Bytes) → Assigned ps token (assign_token ps token)
unfolding assign_token
assign_token-Assigned [] token = inl (tt, refl)
assign_token-Assigned ((key, value) ∷ ps) token =
    go (same key (text "token")) refl (assign_token-Assigned ps value)
      (assign_token-Assigned ps token)
  where
    later : (r : Bytes) → IsLast (text "token") ps r → Assigned ((key, value) ∷ ps) token r
    later r (before, after, e, lacks) =
        inr ((key, value) ∷ before, after, ap (λ l. (key, value) ∷ l) e, lacks)

    here :
        (r : Bytes)
        → key ≡ text "token"
        → Assigned ps value r
        → Assigned ((key, value) ∷ ps) token r
    here r e (inr l) = later r l
    here r e (inl (lacks, same_value)) = inr ([], ps, rw (e, same_value) refl, lacks)

    other :
        (r : Bytes)
        → key ≢ text "token"
        → Assigned ps token r
        → Assigned ((key, value) ∷ ps) token r
    other r ne (inr l) = later r l
    other r ne (inl (lacks, same_value)) = inl ((ne, lacks), same_value)

    go :
        (p : Bool)
        → same key (text "token") ≡ p
        → Assigned ps value (assign_token ps value)
        → Assigned ps token (assign_token ps token)
        → Assigned ((key, value) ∷ ps) token (assign_token ps (if p then value else token))
    go true e v t = here _ (same-eq key (text "token") e) v
    go false e v t =
        other _
          (λ q. absurd (
            differ
              (sym (subst (λ k. same k (text "token") ≡ false) q e) ∙ same_self (text "token"))))
          t
      where
        differ : false ≡ true → ⊥
        differ h = cc

-- A token that is answered is the value of the last parameter named `token`, and is not empty. An
-- error is that the scheme is not in front, or that it is and there is no such parameter or the last
-- one is empty.
abbrev pub Answers : Bytes → Result AuthorizationHeader → Type 0
Answers header (ok h) =
    (starts_with scheme header ≡ true)
    × IsLast (text "token") (all_params (drop 13 header)) h.token
    × (0 < length h.token)
Answers header (err e) =
    ((starts_with scheme header ≡ false) × (e ≡ error invalid_header "Not a PrivateToken header"))
    ⊎ ((starts_with scheme header ≡ true)
        × (e ≡ error missing_parameter "Missing token parameter")
        × (Lacks (text "token") (all_params (drop 13 header))
            ⊎ IsLast (text "token") (all_params (drop 13 header)) []))

-- `parse` answers the value of the last parameter named `token` where the scheme is in front and this
-- value is not empty; it answers that the scheme is missing exactly where it is not in front, and
-- that the token is missing where no parameter has that name or the last that has it is empty.
pub parse-Answers : (header : Bytes) → Answers header (parse header)
unfolding parse
parse-Answers header =
    go (starts_with scheme header) (assign_token (all_params (drop 13 header)) []) refl
      (assign_token-Assigned (all_params (drop 13 header)) [])
  where
    missing :
        Assigned (all_params (drop 13 header)) [] []
        → Lacks (text "token") (all_params (drop 13 header))
          ⊎ IsLast (text "token") (all_params (drop 13 header)) []
    missing (inl (lacks, _)) = inl lacks
    missing (inr l) = inr l

    found :
        (c : _) (token : Bytes)
        → Assigned (all_params (drop 13 header)) [] (c ∷ token)
        → IsLast (text "token") (all_params (drop 13 header)) (c ∷ token)
    found c token (inl (_, e)) = absurd cc
    found c token (inr l) = l

    go :
        (b : Bool) (token : Bytes)
        → starts_with scheme header ≡ b
        → Assigned (all_params (drop 13 header)) [] token
        → Answers header (
            if not b
            then err (error invalid_header "Not a PrivateToken header")
            else if length token == 0
            then err (error missing_parameter "Missing token parameter")
            else ok (record { token = token }))
    go false token e a = inl (e, refl)
    go true [] e a = inr (e, refl, missing a)
    go true (c ∷ token) e a =
        let q : (suc (length token) == 0) ≡ false = ground arith in
        rw q (e, found c token a, omega arith)
