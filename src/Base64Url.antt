-- ===== src/Base64Url.antt =====
-- `base64url` of src/core/serialization.cpp. A text is the list of its bytes.
pub mod Sextets
pub mod RoundTrip
pub mod Alphabet
use mathlib.Core.List.{reverse}
use privacypass_cpp.Prelude.{
  ℕ, zero, suc, ◌+◌, ◌-◌, ◌*◌, ◌/◌, ◌%◌, ◌^◌, Bool, true, false, not, ◌||◌, [], ◌∷◌, ◌++◌, bit_and,
  bit_or, ◌==◌, ltb, leb, if◌then◌else◌, length, get_or,
}
use privacypass_cpp.Types.{Bytes, text, invalid_base64, error, Result, ok, err}

pub encode_table : Bytes
encode_table = text "ABCDEFGHIJKLMNOPQRSTUVWXYZabcdefghijklmnopqrstuvwxyz0123456789-_"

pub decode_table : Bytes
decode_table =
    255 ∷ 255 ∷ 255 ∷ 255 ∷ 255 ∷ 255 ∷ 255 ∷ 255 ∷ 255 ∷ 255 ∷ 255 ∷ 255 ∷ 255 ∷ 255 ∷ 255 ∷ 255
    ∷ 255 ∷ 255 ∷ 255 ∷ 255 ∷ 255 ∷ 255 ∷ 255 ∷ 255 ∷ 255 ∷ 255 ∷ 255 ∷ 255 ∷ 255 ∷ 255 ∷ 255 ∷ 255
    ∷ 255 ∷ 255 ∷ 255 ∷ 255 ∷ 255 ∷ 255 ∷ 255 ∷ 255 ∷ 255 ∷ 255 ∷ 255 ∷ 255 ∷ 255 ∷ 62 ∷ 255 ∷ 255
    ∷ 52 ∷ 53 ∷ 54 ∷ 55 ∷ 56 ∷ 57 ∷ 58 ∷ 59 ∷ 60 ∷ 61 ∷ 255 ∷ 255 ∷ 255 ∷ 255 ∷ 255 ∷ 255 ∷ 255 ∷ 0
    ∷ 1 ∷ 2 ∷ 3 ∷ 4 ∷ 5 ∷ 6 ∷ 7 ∷ 8 ∷ 9 ∷ 10 ∷ 11 ∷ 12 ∷ 13 ∷ 14 ∷ 15 ∷ 16 ∷ 17 ∷ 18 ∷ 19 ∷ 20 ∷ 21
    ∷ 22 ∷ 23 ∷ 24 ∷ 25 ∷ 255 ∷ 255 ∷ 255 ∷ 255 ∷ 63 ∷ 255 ∷ 26 ∷ 27 ∷ 28 ∷ 29 ∷ 30 ∷ 31 ∷ 32 ∷ 33
    ∷ 34 ∷ 35 ∷ 36 ∷ 37 ∷ 38 ∷ 39 ∷ 40 ∷ 41 ∷ 42 ∷ 43 ∷ 44 ∷ 45 ∷ 46 ∷ 47 ∷ 48 ∷ 49 ∷ 50 ∷ 51 ∷ 255
    ∷ 255 ∷ 255 ∷ 255 ∷ 255 ∷ 255 ∷ 255 ∷ 255 ∷ 255 ∷ 255 ∷ 255 ∷ 255 ∷ 255 ∷ 255 ∷ 255 ∷ 255 ∷ 255
    ∷ 255 ∷ 255 ∷ 255 ∷ 255 ∷ 255 ∷ 255 ∷ 255 ∷ 255 ∷ 255 ∷ 255 ∷ 255 ∷ 255 ∷ 255 ∷ 255 ∷ 255 ∷ 255
    ∷ 255 ∷ 255 ∷ 255 ∷ 255 ∷ 255 ∷ 255 ∷ 255 ∷ 255 ∷ 255 ∷ 255 ∷ 255 ∷ 255 ∷ 255 ∷ 255 ∷ 255 ∷ 255
    ∷ 255 ∷ 255 ∷ 255 ∷ 255 ∷ 255 ∷ 255 ∷ 255 ∷ 255 ∷ 255 ∷ 255 ∷ 255 ∷ 255 ∷ 255 ∷ 255 ∷ 255 ∷ 255
    ∷ 255 ∷ 255 ∷ 255 ∷ 255 ∷ 255 ∷ 255 ∷ 255 ∷ 255 ∷ 255 ∷ 255 ∷ 255 ∷ 255 ∷ 255 ∷ 255 ∷ 255 ∷ 255
    ∷ 255 ∷ 255 ∷ 255 ∷ 255 ∷ 255 ∷ 255 ∷ 255 ∷ 255 ∷ 255 ∷ 255 ∷ 255 ∷ 255 ∷ 255 ∷ 255 ∷ 255 ∷ 255
    ∷ 255 ∷ 255 ∷ 255 ∷ 255 ∷ 255 ∷ 255 ∷ 255 ∷ 255 ∷ 255 ∷ 255 ∷ 255 ∷ 255 ∷ 255 ∷ 255 ∷ 255 ∷ 255
    ∷ 255 ∷ 255 ∷ 255 ∷ 255 ∷ 255 ∷ 255 ∷ 255 ∷ 255 ∷ 255 ∷ 255 ∷ 255 ∷ 255 ∷ 255 ∷ 255 ∷ 255 ∷ 255
    ∷ 255 ∷ 255 ∷ 255 ∷ 255 ∷ []

-- `ENCODE_TABLE[(chunk >> shift) & 0x3F]`
pub letter : ℕ → ℕ → ℕ
letter chunk shift = get_or encode_table (bit_and (chunk / 2 ^ shift) 0x3F) 0

-- The loop takes three bytes a round; one or two that are left are written after it.
pub encode_groups : Bytes → Bytes
encode_groups [] = []
encode_groups (a ∷ []) = let chunk = a * 2 ^ 16 in letter chunk 18 ∷ letter chunk 12 ∷ []
encode_groups (a ∷ b ∷ []) =
    let chunk = bit_or (a * 2 ^ 16) (b * 2 ^ 8) in
    letter chunk 18 ∷ letter chunk 12 ∷ letter chunk 6 ∷ []
encode_groups (a ∷ b ∷ c ∷ rest) =
    let chunk = bit_or (bit_or (a * 2 ^ 16) (b * 2 ^ 8)) c in
    letter chunk 18 ∷ letter chunk 12 ∷ letter chunk 6 ∷ letter chunk 0 ∷ encode_groups rest

pub encode : Bytes → Bytes
unfolding encode_groups letter encode_table
encode [] = []
encode (a ∷ rest) = encode_groups (a ∷ rest)

-- `while ((result.size() % 4) != 0) result.push_back('=');` ends within three rounds.
pub pad : ℕ → Bytes → Bytes
pad zero result = result
pad (suc f) result =
    let more = pad f (result ++ (b'=' ∷ [])) in
    if not (length result % 4 == 0) then more else result

pub encode_padded : Bytes → Bytes
unfolding encode pad
encode_padded bytes = pad 3 (encode bytes)

-- `while (!encoded.empty() && encoded.back() == '=')`, on the text read backwards.
pub strip : Bytes → ℕ → Bytes × ℕ
strip [] padding = ([], padding)
strip (c ∷ cs) padding =
    let stripped = strip cs (padding + 1) in if c == b'=' then stripped else (c ∷ cs, padding)

pub has_equals : Bytes → Bool
has_equals [] = false
has_equals (c ∷ cs) = c == b'=' || has_equals cs

pub decode_loop : ℕ → ℕ → Bytes → Bytes → Result Bytes
unfolding decode_table
decode_loop buffer bits result [] = ok result
decode_loop buffer bits result (c ∷ cs) =
    let val = get_or decode_table c 255 in
    let buffer' = bit_or (buffer * 2 ^ 6 % 2 ^ 32) val in
    let bits' = bits + 6 in
    let emit =
      decode_loop buffer' (bits' - 8) (result ++ (bit_and (buffer' / 2 ^ (bits' - 8)) 0xFF ∷ []))
        cs in
    let keep = decode_loop buffer' bits' result cs in
    if val == 255
    then err (error invalid_base64 "Invalid base64url character")
    else if leb 8 bits'
    then emit
    else keep

-- The checks and the loop, after the padding is off.
pub decode_stripped : Bytes × ℕ → Result Bytes
decode_stripped (backwards, padding) =
    let encoded = reverse backwards in
    if ltb 2 padding || has_equals encoded || length encoded % 4 == 1
    then err (error invalid_base64 "Invalid base64url padding")
    else if length encoded == 0
    then ok []
    else decode_loop 0 0 [] encoded

pub decode : Bytes → Result Bytes
unfolding strip has_equals decode_loop decode_stripped
decode [] = ok []
decode (c ∷ cs) = decode_stripped (strip (reverse (c ∷ cs)) 0)
