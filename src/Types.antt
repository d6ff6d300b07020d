-- ===== src/Types.antt =====
-- include/privacy_pass/core/types.hpp and `constant_time_equal` of src/core/types.cpp: token types
-- with their sizes, error codes, results, keys.
pub mod Compare
pub mod Codes
use Prim.Native.Char.{code}
use Prim.Native.String.{String}
use privacypass_cpp.Prelude.{
  ℕ, zero, suc, ◌^◌, ◌<◌, ◌≡◌, refl, Bool, true, false, not, List, [], ◌∷◌, bit_or, bit_xor, All,
  ◌==◌, ltb, if◌then◌else◌, length, get_or, arith,
}

abbrev pub Bytes : Type 0
Bytes = List ℕ

abbrev pub IsByte : ℕ → Type 0
IsByte b = b < 256

abbrev pub IsBytes : Bytes → Type 0
IsBytes = All IsByte

-- The bytes of a literal, which is ASCII throughout the program.
unfoldable pub text : String → Bytes
text String.[] = []
text (String.◌∷◌ c s) = code c ∷ text s

-- `enum class TokenType : uint16_t`. The casts on the wire also make values that no enumerator names.
pub data TokenType : Type 0 where
  voprf_p384_sha384 blind_rsa voprf_ristretto255_sha512 partially_blind_rsa arc_p256 : TokenType
  unnamed : ℕ → TokenType

-- `static_cast<uint16_t>(type)`
unfoldable pub to_u16 : TokenType → ℕ
to_u16 voprf_p384_sha384 = 0x0001
to_u16 blind_rsa = 0x0002
to_u16 voprf_ristretto255_sha512 = 0x0005
to_u16 partially_blind_rsa = 0xDA7A
to_u16 arc_p256 = 0xE5AC
to_u16 (unnamed v) = v

-- `static_cast<TokenType>(value)`
unfoldable pub of_u16 : ℕ → TokenType
of_u16 v =
    if v == 0x0001
    then voprf_p384_sha384
    else if v == 0x0002
    then blind_rsa
    else if v == 0x0005
    then voprf_ristretto255_sha512
    else if v == 0xDA7A
    then partially_blind_rsa
    else if v == 0xE5AC
    then arc_p256
    else unnamed v

-- A value that the enum's type can hold, each in its one spelling.
abbrev pub IsTokenType : TokenType → Type 0
IsTokenType t = (to_u16 t < 2 ^ 16) × (of_u16 (to_u16 t) ≡ t)

pub data ErrorCode : Type 0 where
  ok buffer_too_small invalid_length malformed_data unexpected_end : ErrorCode
  crypto_error invalid_key invalid_signature blinding_failed unblinding_failed : ErrorCode
  verification_failed random_generation_failed : ErrorCode
  token_missing token_invalid token_expired token_replayed scope_mismatch issuer_unknown : ErrorCode
  token_malformed unsupported_token_type invalid_challenge : ErrorCode
  invalid_header missing_parameter invalid_base64 : ErrorCode

pub record Error : Type 0 where
  pub code : ErrorCode
  pub message : Bytes

abbrev pub error : ErrorCode → String → Error
error c m = record { code = c; message = text m }

-- `std::expected<T, Error>`
pub data Result {ℓ} (T : Type ℓ) : Type ℓ where
  ok : T → Result T
  err : Error → Result T

module _ {ℓ κ} {T : Type ℓ} {U : Type κ} where
  infixl 5 ◌>>=◌
  -- `auto x = call(); if (!x) return std::unexpected(x.error());`
  abbrev pub ◌>>=◌ : Result T → (T → Result U) → Result U
  ok value >>= next = next value
  err failure >>= next = err failure

  pub >>=-eq-ok :
      (call : Result T) (next : T → Result U) {u : U}
      → (call >>= next) ≡ ok u
      → (value : T) × (call ≡ ok value) × (next value ≡ ok u)
  >>=-eq-ok (ok value) next same = (value, refl, same)
  >>=-eq-ok (err failure) next same = cc

pub record TokenTypeInfo : Type 0 where
  pub type : TokenType
  pub authenticator_size : ℕ
  pub key_id_size : ℕ
  pub blinded_element_size : ℕ
  pub publicly_verifiable : Bool

abbrev info : TokenType → ℕ → ℕ → ℕ → Bool → TokenTypeInfo
info t nk nid ne public = record {
  type = t;
  authenticator_size = nk;
  key_id_size = nid;
  blinded_element_size = ne;
  publicly_verifiable = public;
}

unfoldable pub for_type : TokenType → TokenTypeInfo
for_type voprf_p384_sha384 = info voprf_p384_sha384 48 32 49 false
for_type blind_rsa = info blind_rsa 256 32 256 true
for_type voprf_ristretto255_sha512 = info voprf_ristretto255_sha512 64 32 32 false
for_type partially_blind_rsa = info partially_blind_rsa 256 32 256 true
for_type arc_p256 = info arc_p256 65 32 65 false
for_type (unnamed v) = info (unnamed v) 0 0 0 false

-- The arrays of 32 bytes are lists; where their length matters it is stated.
abbrev IsArray : ℕ → Bytes → Type 0
IsArray n xs = (length xs ≡ n) × IsBytes xs

pub record PublicKey : Type 0 where
  pub type : TokenType
  pub key_data : Bytes
  pub key_id : Bytes

abbrev pub truncated_key_id : PublicKey → ℕ
truncated_key_id k = get_or k.key_id 31 0

-- The loop of `constant_time_equal`: `diff |= a[i] ^ b[i]`.
diff_loop : ℕ → Bytes → Bytes → ℕ
diff_loop diff (a ∷ as_) (b ∷ bs) = diff_loop (bit_or diff (bit_xor a b)) as_ bs
diff_loop diff as_ bs = diff

unfoldable pub constant_time_equal : Bytes → Bytes → Bool
unfolding diff_loop
constant_time_equal a b = if not (length a == length b) then false else diff_loop 0 a b == 0
