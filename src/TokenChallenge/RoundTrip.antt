-- ===== src/TokenChallenge/RoundTrip.antt =====
-- `TokenChallenge::deserialize` inverts `serialize`.
use privacypass_cpp.Prelude.{
  ℕ, ◌+◌, ◌≤◌, ◌<◌, ◌≡◌, refl, true, false, ◌&&◌, not, Option, none, some, List, [], ◌∷◌, ◌++◌,
  ◌==◌, length, All, append-nil, arith, length-append, ltb,
}
use privacypass_cpp.Types.{Bytes, IsTokenType, to_u16, ok, Error}
use privacypass_cpp.Serialization.Reader.Window.{
  u16_bytes, read_u8-Takes, read_u16-Takes, read_array-Takes, read_bytes-Takes,
  read_bytes_rest-Takes,
}
use privacypass_cpp.Serialization.Parser.{Parser, or_fail, ◌>>=◌}
use privacypass_cpp.Serialization.Reader.{read_u8}
use privacypass_cpp.Serialization.Writer.Own.{own_writes, holding, push_bytes, push_u8}
use privacypass_cpp.Serialization.Parser.Rules.{
  Reads, pure-Reads, run-Reads, read-Reads, >>=-Reads, refuse_if->>-Reads, expect_end->>-Reads,
  lift-Reads,
}
use privacypass_cpp.TokenChallenge.{
  TokenChallenge, create, serialize, deserialize, deserialize_from, origin_info_string, join,
  context_size, serialized_size, write_context, write_origins, context_from, origins_from,
  join_size,
}
use privacypass_cpp.TokenChallenge.Origins.{
  IsOrigin, segments-join, collect_origins-All, length-join,
}

abbrev context_wire : Option Bytes → Bytes
context_wire none = 0 ∷ []
context_wire (some context) = 32 ∷ context

-- The wire format, field by field.
abbrev pub wire : TokenChallenge → Bytes
wire c =
    u16_bytes (to_u16 c.token_type)
    ++ (u16_bytes (length c.issuer_name)
        ++ (c.issuer_name
            ++ (context_wire c.redemption_context
                ++ (u16_bytes (length (join c.origin_info)) ++ join c.origin_info))))

abbrev pub IsContext : Option Bytes → Type 0
IsContext none = Unit
IsContext (some context) = length context ≡ 32

-- A type that the enum can hold, a name and origins within their limits, and no cached digest.
pub record IsValid (c : TokenChallenge) : Type 0 where
  pub type : IsTokenType c.token_type
  pub issuer : (0 < length c.issuer_name) × (length c.issuer_name ≤ 65535)
  pub context : IsContext c.redemption_context
  pub origins : All IsOrigin c.origin_info
  pub few : length c.origin_info ≤ 100
  pub short : length (join c.origin_info) ≤ 65535
  pub fresh : c.cached_digest_ ≡ none

write_context-holding :
    (o : Option Bytes) (xs : Bytes) → write_context o (holding xs) ≡ holding (xs ++ context_wire o)
write_context-holding none xs = push_u8 xs 0
write_context-holding (some context) xs = simp (own_writes)

write_origins-holding : (os xs : Bytes) → write_origins os (holding xs) ≡ holding (xs ++ os)
write_origins-holding [] xs = rw append-nil
write_origins-holding (b ∷ bytes) xs = push_bytes xs (b ∷ bytes)

pub serialize-wire :
    (c : TokenChallenge)
    → (0 < length c.issuer_name) × (length c.issuer_name ≤ 65535)
    → length (join c.origin_info) ≤ 65535
    → serialize c ≡ ok (wire c)
unfolding serialize origin_info_string
serialize-wire c (lt, le) short =
    let e₀ : (length c.issuer_name == 0) ≡ false = ground arith in
    let e₁ : ltb 0xFFFF (length c.issuer_name) ≡ false = ground arith in
    let e₂ : ltb 0xFFFF (length (join c.origin_info)) ≡ false = ground arith in
    rw (e₀, e₁, e₂) (simp (own_writes, write_context-holding, write_origins-holding))

abbrev context_bytes : Option Bytes → Bytes
context_bytes none = []
context_bytes (some context) = context

context_from-Reads :
    (o : Option Bytes) (w : Bytes)
    → IsContext o
    → Reads (context_from (context_size o)) (context_bytes o ++ w) o w
unfolding context_from
context_from-Reads none w h = pure-Reads none w
context_from-Reads (some x) w h =
    read-Reads _ _ _ _ _ _ _ _ (read_array-Takes 32 x w h) (pure-Reads (some x) w)

origins_from-Reads :
    (xs : List Bytes)
    → All IsOrigin xs
    → length xs ≤ 100
    → Reads (origins_from (length (join xs))) (join xs) xs []
unfolding origins_from join
origins_from-Reads [] h few = pure-Reads [] []
origins_from-Reads ([] ∷ xs) ((lt, _), hs) few = absurd (omega arith)
origins_from-Reads ((b ∷ x) ∷ xs) h few =
    let e : ltb 0 (length (join ((b ∷ x) ∷ xs))) ≡ true = ground arith in
    rw e (
      read-Reads _ _ _ _ _ _ _ _ (read_bytes_rest-Takes _ (join ((b ∷ x) ∷ xs)) refl) (
        lift-Reads _ ((b ∷ x) ∷ xs) [] (
          rw (segments-join ((b ∷ x) ∷ xs) h)
            (collect_origins-All [] ((b ∷ x) ∷ xs) h (omega arith)))))

abbrev after_context : TokenChallenge → Bytes
after_context c = u16_bytes (length (join c.origin_info)) ++ join c.origin_info

-- The length of the context, and the parser's rest.
context-Reads :
    (c : TokenChallenge) (p : ℕ → Parser TokenChallenge)
    → Reads
        (p (context_size c.redemption_context))
        (context_bytes c.redemption_context ++ after_context c)
        c
        []
    → (e : Error)
    → Reads (or_fail read_u8 e >>= p) (context_wire c.redemption_context ++ after_context c) c []
context-Reads c p h e = go c.redemption_context h
  where
    go :
        (o : Option Bytes)
        → Reads (p (context_size o)) (context_bytes o ++ after_context c) c []
        → Reads (or_fail read_u8 e >>= p) (context_wire o ++ after_context c) c []
    go none h = read-Reads _ _ _ _ _ _ _ _ (read_u8-Takes 0 (after_context c)) h
    go (some x) h = read-Reads _ _ _ _ _ _ _ _ (read_u8-Takes 32 (x ++ after_context c)) h

context_size-known :
    (o : Option Bytes) → (not (context_size o == 0) && not (context_size o == 32)) ≡ false
context_size-known none = refl
context_size-known (some x) = refl

create-same :
    (c : TokenChallenge)
    → c.cached_digest_ ≡ none
    → create c.token_type c.issuer_name c.redemption_context c.origin_info ≡ c
unfolding create
create-same c h = rw (← h) refl

deserialize_from-Reads : (c : TokenChallenge) → IsValid c → Reads deserialize_from (wire c) c []
unfolding deserialize_from
deserialize_from-Reads c v =
    read-Reads _ _ _ _ _ _ _ _ (read_u16-Takes (to_u16 c.token_type) _ v.type.0) (
      read-Reads _ _ _ _ _ _ _ _
        (read_u16-Takes (length c.issuer_name) _ (omega (arith, v.issuer.1)))
        (read-Reads _ _ _ _ _ _ _ _ (read_bytes-Takes _ c.issuer_name _ refl) (
          refuse_if->>-Reads _ _ _ _ _ _ (ground (arith, v.issuer.0)) (
            context-Reads c _
              (refuse_if->>-Reads _ _ _ _ _ _ (context_size-known c.redemption_context) (
                >>=-Reads _ _ _ _ _ _ _
                  (context_from-Reads c.redemption_context (after_context c) v.context)
                  (read-Reads _ _ _ _ _ _ _ _
                    (read_u16-Takes (length (join c.origin_info)) _ (omega (arith, v.short)))
                    (>>=-Reads _ _ _ _ _ _ _ (origins_from-Reads c.origin_info v.origins v.few) (
                      expect_end->>-Reads _ _ _
                        (rw (v.type.1, create-same c v.fresh) (pure-Reads c [])))))))
              _))))

wire-size :
    (c : TokenChallenge) → IsContext c.redemption_context → length (wire c) ≡ serialized_size c
unfolding serialized_size
wire-size c h = go c.redemption_context h
  where
    go :
        (o : Option Bytes)
        → IsContext o
        → length (
            u16_bytes (to_u16 c.token_type)
            ++ (u16_bytes (length c.issuer_name)
                ++ (c.issuer_name ++ (context_wire o ++ after_context c))))
          ≡ 2 + (2 + length c.issuer_name) + 1 + context_size o + (2 + join_size c.origin_info)
    go none h =
        omega (arith, length-append c.issuer_name (0 ∷ after_context c), length-join c.origin_info)
    go (some x) h = omega (
      arith,
      h,
      length-append c.issuer_name (32 ∷ (x ++ after_context c)),
      length-append x (after_context c),
      length-join c.origin_info,
    )

-- A valid challenge serialises, to `serialized_size` bytes, and these are read back as the
-- challenge, its origins in their order.
pub deserialize_challenge-serialize :
    (c : TokenChallenge)
    → IsValid c
    → (bytes : Bytes) × (serialize c ≡ ok bytes)
      × (length bytes ≡ serialized_size c)
      × (deserialize bytes ≡ ok c)
unfolding deserialize
deserialize_challenge-serialize c v = (
  wire c,
  serialize-wire c v.issuer v.short,
  wire-size c v.context,
  run-Reads _ _ c [] (deserialize_from-Reads c v),
)
