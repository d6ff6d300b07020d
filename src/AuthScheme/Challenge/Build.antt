-- ===== src/AuthScheme/Challenge/Build.antt =====
-- A challenge and a key go through the header that `build_www_authenticate` makes.
use privacypass_cpp.Prelude.{ℕ, ◌<◌, ◌≡◌, refl, Option, [], length, arith}
use privacypass_cpp.Types.{Bytes, IsBytes, ok}
use privacypass_cpp.Base64Url.RoundTrip.{decode-encode}
use privacypass_cpp.Base64Url.Alphabet.{encode_padded-plain}
use privacypass_cpp.TokenChallenge
use privacypass_cpp.TokenChallenge.{TokenChallenge}
use privacypass_cpp.TokenChallenge.RoundTrip.{IsValid, deserialize_challenge-serialize}
use privacypass_cpp.AuthScheme.Challenge.{
  ChallengeHeader, format, header_for, parse, decode_challenge, decode_token_key,
  build_www_authenticate,
}
use privacypass_cpp.AuthScheme.Challenge.Carried.{IsAge, IsCarried}
use privacypass_cpp.AuthScheme.Challenge.RoundTrip.{parse_all-joined}

-- What is known of the bytes of a valid challenge.
serialised :
    (c : TokenChallenge) (bytes : Bytes)
    → IsValid c
    → TokenChallenge.serialize c ≡ ok bytes
    → (TokenChallenge.deserialize bytes ≡ ok c) × (0 < length bytes)
unfolding TokenChallenge.serialized_size
serialised c bytes v wrote =
    let (written, e, size, back) = deserialize_challenge-serialize c v in
    let same : written ≡ bytes = cc in (rw (← same) back, rw (← same) (omega (arith, size)))

-- Where a valid challenge serialises to bytes, the header that `build_www_authenticate` makes of
-- it, of a key of bytes and of an age of 32 bits is parsed to fields that decode to the challenge
-- and to the key, with the age.
pub parse-build_www_authenticate :
    (c : TokenChallenge) (key : Bytes) (age : Option ℕ) (bytes : Bytes)
    → IsValid c
    → TokenChallenge.serialize c ≡ ok bytes
    → IsBytes bytes
    → IsBytes key
    → IsAge age
    → (header : Bytes) × (h : ChallengeHeader) × (build_www_authenticate c key age ≡ ok header)
      × (parse header ≡ ok h)
      × (decode_challenge h ≡ ok c)
      × (decode_token_key h ≡ ok key)
      × (h.max_age ≡ age)
unfolding build_www_authenticate decode_challenge decode_token_key
parse-build_www_authenticate c key age bytes v wrote b b' lt =
    let h = header_for bytes key age in
    let (back, long) = serialised c bytes v wrote in
    let (plain, present) = encode_padded-plain bytes b in
    let (plain_key, _) = encode_padded-plain key b' in
    let carried : IsCarried h = record {
      plain = plain;
      present = present long;
      key = plain_key;
      age = lt;
    } in
    (
      format h,
      h,
      rw wrote refl,
      (parse_all-joined h [] carried tt).1,
      rw ((decode-encode bytes b).1, decode_challenge) back,
      (decode-encode key b').1,
      refl,
    )
