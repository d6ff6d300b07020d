-- ===== src/Moq/Match/Laws.antt =====
-- What a namespace rule matches, without its loops.
use privacypass_cpp.Prelude.{
  ℕ, zero, suc, ◌+◌, ◌-◌, ◌≤◌, ◌<◌, ◌≡◌, ◌≢◌, ◌↔◌, refl, sym, ap, ap₂, ◌∙◌, Bool, true, false, not,
  List, [], ◌∷◌, ◌++◌, ◌==◌, ltb, leb, if◌then◌else◌, length, take, drop, take-append-drop,
  take-append, drop-append, length-append, length-take, drop-all, drop-cons, arith, append-nil,
}
use privacypass_cpp.Types.{Bytes}
use privacypass_cpp.NonceSet.{same, same_self, same-eq}
use privacypass_cpp.Moq.{
  MatchType, match_exact, match_prefix, match_suffix, match_contains, unnamed_match, Namespace,
}
use privacypass_cpp.Moq.Match.{
  NamespaceMatchRule, same_at, found_from, matches_namespace_as, matches_namespace,
}

-- `pattern` stands in `xs` at its place for the match type.
abbrev pub Stands : MatchType → {A : Type 0} → List A → List A → Type 0
Stands match_exact pattern xs = xs ≡ pattern
Stands match_prefix {A} pattern xs = (rest : List A) × (xs ≡ pattern ++ rest)
Stands match_suffix {A} pattern xs = (before : List A) × (xs ≡ before ++ pattern)
Stands match_contains {A} pattern xs =
    (before : List A) × (rest : List A) × (xs ≡ before ++ (pattern ++ rest))
Stands (unnamed_match v) pattern xs = ⊥

-- One comparison, and those that follow.
compared :
    (x y : Bytes) (xs ys : Namespace) (b : Bool)
    → (b ≡ true) ↔ (xs ≡ ys)
    → ((if not (same x y) then false else b) ≡ true) ↔ (x ∷ xs ≡ y ∷ ys)
compared x y xs ys b (f, g) = go (same x y) refl
  where
    go : (p : Bool) → same x y ≡ p → ((if not p then false else b) ≡ true) ↔ (x ∷ xs ≡ y ∷ ys)
    go true e = (λ h. ap₂ (◌∷◌) (same-eq x y e) (f h), λ h. g (ground arith))
    go false e = (
      λ h. absurd (ground arith),
      λ h. let k : x ≡ y = cc in absurd (ground (arith, ap (same x) k, same_self x)),
    )

-- The loop of comparisons looks at a window of `ns`.
same_at-true_iff :
    (ns : Namespace) (offset : ℕ) (pattern : Namespace) (rounds i : ℕ)
    → i + rounds ≡ length pattern
    → offset + length pattern ≤ length ns
    → (same_at ns offset pattern rounds i ≡ true)
      ↔ (take rounds (drop (offset + i) ns) ≡ drop i pattern)
unfolding same_at
same_at-true_iff ns offset pattern zero i h le =
    (λ _. sym (drop-all i pattern (omega arith)), λ _. refl)
same_at-true_iff ns offset pattern (suc rounds) i h le =
    let again = same_at-true_iff ns offset pattern rounds (suc i) (omega arith) le in
    let e : offset + suc i ≡ suc (offset + i) = omega arith in
    let e₁ : i + 1 ≡ suc i = omega arith in
    rw (drop-cons (offset + i) ns [] (omega arith), drop-cons i pattern [] (omega arith), e₁, ← e)
      (compared _ _ _ _ _ again)

-- `pattern` stands in `ns` behind a front of which `P` holds of the length.
abbrev Behind : (ℕ → Type 0) → Namespace → Namespace → Type 0
Behind P pattern ns =
    (before : Namespace) × (rest : Namespace) × P (length before)
    × (ns ≡ before ++ (pattern ++ rest))

length-behind :
    (before pattern rest ns : Namespace)
    → ns ≡ before ++ (pattern ++ rest)
    → length ns ≡ length before + (length pattern + length rest)
length-behind before pattern rest ns e =
    omega (arith, ap length e, length-append before (pattern ++ rest), length-append pattern rest)

module _ (ns pattern : Namespace) where
  -- From the first round on, the window holds the pattern.
  same_at_iff :
      (offset : ℕ)
      → offset + length pattern ≤ length ns
      → (same_at ns offset pattern (length pattern) 0 ≡ true) ↔ Behind (λ n. n ≡ offset) pattern ns
  same_at_iff offset le =
      let n = length pattern in
      let (f, g) = same_at-true_iff ns offset pattern n 0 (omega arith) le in
      let e : offset + 0 ≡ offset = omega arith in
      (
        λ h. (
          take offset ns,
          drop n (drop offset ns),
          omega (arith, length-take offset ns),
          sym (take-append-drop offset ns)
              ∙ ap (λ l. take offset ns ++ l)
                  (sym (take-append-drop n (drop offset ns))
                    ∙ ap (λ l. l ++ drop n (drop offset ns)) (rw e at (f h))),
        ),
        λ (before, rest, l, k). g (
            rw e (
              ap (λ x. take n (drop offset x)) k
              ∙ ap (take n) (drop-append offset before (pattern ++ rest) l)
              ∙ take-append n pattern rest refl)),
      )

  found_from-true_iff :
      (fuel start : ℕ)
      → length ns < start + fuel
      → (found_from ns pattern fuel start ≡ true) ↔ Behind (λ n. start ≤ n) pattern ns
  unfolding found_from
  found_from-true_iff zero start h = (
    λ p. absurd (ground arith),
    λ (before, rest, l, k). absurd (omega (arith, length-behind before pattern rest ns k)),
  )
  found_from-true_iff (suc fuel) start h =
      let (f, g) = found_from-true_iff fuel (start + 1) (omega arith) in
      go (leb (start + length pattern) (length ns)) (same_at ns start pattern (length pattern) 0)
        refl refl f g
    where
      go :
          (p q : Bool)
          → leb (start + length pattern) (length ns) ≡ p
          → same_at ns start pattern (length pattern) 0 ≡ q
          → (found_from ns pattern fuel (start + 1) ≡ true → Behind (λ n. start + 1 ≤ n) pattern ns)
          → (Behind (λ n. start + 1 ≤ n) pattern ns → found_from ns pattern fuel (start + 1) ≡ true)
          → (found_from ns pattern (suc fuel) start ≡ true) ↔ Behind (λ n. start ≤ n) pattern ns
      go false q e e' f g =
          let far : length ns < start + length pattern = ground arith in
          rw e (
            λ p. absurd cc,
            λ (before, rest, l, k). absurd (omega (arith, length-behind before pattern rest ns k)),
          )
      go true true e e' f g =
          let fits : start + length pattern ≤ length ns = ground arith in
          rw (e, e')
            (
              λ _.
                  let (before, rest, l, k) = (same_at_iff start fits).0 e' in
                  (before, rest, omega arith, k),
              λ _. refl,
            )
      go true false e e' f g =
          let fits : start + length pattern ≤ length ns = ground arith in
          rw (e, e')
            (
              λ p. let (before, rest, l, k) = f p in (before, rest, omega arith, k),
              λ (before, rest, l, k).
                  let later : length before ≢ start = (λ q.
                    absurd (ground (arith, (same_at_iff start fits).1 (before, rest, q, k)))) in
                  g (before, rest, omega arith, k),
            )

-- Nothing stands before the pattern, and nothing after it.
at_front :
    (pattern ns : Namespace)
    → Behind (λ n. n ≡ 0) pattern ns
    → (rest : Namespace) × (ns ≡ pattern ++ rest)
at_front pattern ns ([], rest, l, k) = (rest, k)
at_front pattern ns (x ∷ before, rest, l, k) = absurd (omega arith)

no_rest :
    (before pattern rest ns : Namespace)
    → ns ≡ before ++ (pattern ++ rest)
    → length before + length pattern ≡ length ns
    → ns ≡ before ++ pattern
no_rest before pattern [] ns k h = k ∙ ap (λ l. before ++ l) (append-nil pattern)
no_rest before pattern (x ∷ rest) ns k h =
    absurd (omega (arith, length-behind before pattern (x ∷ rest) ns k))

-- The comparisons behind the test of the sizes.
guarded_iff :
    (ns pattern : Namespace) (offset : ℕ)
    → (length pattern ≤ length ns → offset + length pattern ≤ length ns)
    → ((if ltb (length ns) (length pattern)
          then false
          else same_at ns offset pattern (length pattern) 0)
        ≡ true)
      ↔ Behind (λ n. n ≡ offset) pattern ns
guarded_iff ns pattern offset fits = go (ltb (length ns) (length pattern)) refl
  where
    go :
        (p : Bool)
        → ltb (length ns) (length pattern) ≡ p
        → ((if p then false else same_at ns offset pattern (length pattern) 0) ≡ true)
          ↔ Behind (λ n. n ≡ offset) pattern ns
    go true e =
        let short : length ns < length pattern = ground arith in
        (
          λ h. absurd cc,
          λ (before, rest, l, k). absurd (omega (arith, length-behind before pattern rest ns k)),
        )
    go false e = same_at_iff ns pattern offset (fits (ground arith))

exactly_iff :
    (pattern ns : Namespace) → (matches_namespace_as match_exact pattern ns ≡ true) ↔ (ns ≡ pattern)
unfolding matches_namespace_as
exactly_iff pattern ns = go (length ns == length pattern) refl
  where
    go :
        (p : Bool)
        → (length ns == length pattern) ≡ p
        → ((if not p then false else same_at ns 0 pattern (length ns) 0) ≡ true) ↔ (ns ≡ pattern)
    go true e =
        let l : length ns ≡ length pattern = ground arith in
        let (f, g) = same_at_iff ns pattern 0 (omega arith) in
        (
          λ h.
              let (rest, k) = at_front pattern ns (f (rw l at h)) in
              no_rest [] pattern rest ns k (omega arith),
          λ k. rw l (g ([], [], refl, k ∙ sym (append-nil pattern))),
        )
    go false e = (λ h. absurd cc, λ k. absurd (ground (arith, ap length k)))

matches_as-true_iff :
    (type : MatchType) (pattern ns : Namespace)
    → (matches_namespace_as type pattern ns ≡ true) ↔ Stands type pattern ns
unfolding matches_namespace_as
matches_as-true_iff match_exact pattern ns = exactly_iff pattern ns
matches_as-true_iff match_prefix pattern ns =
    let (f, g) = guarded_iff ns pattern 0 (λ h. omega arith) in
    (λ h. at_front pattern ns (f h), λ (rest, k). g ([], rest, refl, k))
matches_as-true_iff match_suffix pattern ns =
    let (f, g) = guarded_iff ns pattern (length ns - length pattern) (λ h. omega arith) in
    (
      λ h.
          let (before, rest, l, k) = f h in
          let n = length-behind before pattern rest ns k in
          (before, no_rest before pattern rest ns k (omega arith)),
      λ (before, k). g (
        before,
        [],
        omega (arith, ap length k, length-append before pattern),
        k ∙ ap (λ l. before ++ l) (sym (append-nil pattern)),
      ),
    )
matches_as-true_iff match_contains pattern ns =
    let (f, g) = found_from-true_iff ns pattern (suc (length ns)) 0 (omega arith) in
    (
      λ h. let (before, rest, _, k) = f h in (before, rest, k),
      λ (before, rest, k). g (before, rest, omega arith, k),
    )
matches_as-true_iff (unnamed_match v) pattern ns = (λ h. absurd cc, λ h. absurd h)

-- A namespace rule matches exactly the namespaces in which its pattern stands: as the whole, at the
-- front, at the end or anywhere, as the match type says. A value of that type that no enumerator
-- names matches none.
pub matches_namespace-true_iff :
    (rule : NamespaceMatchRule) (ns : Namespace)
    → (matches_namespace rule ns ≡ true) ↔ Stands rule.match_type rule.pattern ns
unfolding matches_namespace
matches_namespace-true_iff rule ns = matches_as-true_iff rule.match_type rule.pattern ns
