-- ===== src/AuthenticatorInput/RoundTrip.antt =====
-- `deserialize` inverts `serialize`, and reads nothing but the first 98 bytes.
use privacypass_cpp.Prelude.{◌≡◌, ◌++◌, [], length, append-nil}
use privacypass_cpp.Types.{Bytes, IsTokenType, to_u16, ok}
use privacypass_cpp.Serialization.Reader.Window.{u16_bytes, read_u16-Takes, read_array-Takes}
use privacypass_cpp.Serialization.Writer.Own.{own_writes}
use privacypass_cpp.Serialization.Parser.Rules.{Reads, pure-Reads, run-Reads, read-Reads}
use privacypass_cpp.AuthenticatorInput.{
  AuthenticatorInput, serialize, deserialize, deserialize_from,
}

-- The wire format, field by field.
abbrev pub wire : AuthenticatorInput → Bytes → Bytes
wire i rest =
    u16_bytes (to_u16 i.token_type) ++ (i.nonce ++ (i.challenge_digest ++ (i.token_key_id ++ rest)))

pub serialize-wire : (i : AuthenticatorInput) → serialize i ≡ ok (wire i [])
unfolding serialize
serialize-wire i = simp (own_writes, append-nil)

-- A record of four fields of 32 bytes and a type that the enum can hold.
pub record IsValid (i : AuthenticatorInput) : Type 0 where
  pub type : IsTokenType i.token_type
  pub nonce : length i.nonce ≡ 32
  pub digest : length i.challenge_digest ≡ 32
  pub key_id : length i.token_key_id ≡ 32

deserialize_from-Reads :
    (i : AuthenticatorInput) (rest : Bytes)
    → IsValid i
    → Reads deserialize_from (wire i rest) i rest
unfolding deserialize_from
deserialize_from-Reads i rest v =
    read-Reads _ _ _ _ _ _ _ _ (read_u16-Takes (to_u16 i.token_type) _ v.type.0) (
      read-Reads _ _ _ _ _ _ _ _ (read_array-Takes 32 i.nonce _ v.nonce) (
        read-Reads _ _ _ _ _ _ _ _ (read_array-Takes 32 i.challenge_digest _ v.digest) (
          read-Reads _ _ _ _ _ _ _ _ (read_array-Takes 32 i.token_key_id rest v.key_id)
            (rw v.type.1 (pure-Reads i rest)))))

-- What a valid record serialises to is read back, whatever bytes follow.
pub deserialize-wire :
    (i : AuthenticatorInput) (rest : Bytes) → IsValid i → deserialize (wire i rest) ≡ ok i
unfolding deserialize
deserialize-wire i rest v = run-Reads _ _ i rest (deserialize_from-Reads i rest v)

-- The input as 98 bytes determines the record: two valid records with one serialisation are the
-- same.
pub serialize-injective :
    (i j : AuthenticatorInput) → IsValid i → IsValid j → serialize i ≡ serialize j → i ≡ j
serialize-injective i j v w h =
    cc (serialize-wire i, serialize-wire j, deserialize-wire i [] v, deserialize-wire j [] w)
