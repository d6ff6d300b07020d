-- ===== src/Serialization/Reader.antt =====
-- `ByteReader` of include/privacy_pass/core/serialization.hpp. A method returns its optional beside
-- the reader's next state. `data_[i]` is `get_or`, and every read tests `remaining()` first.
pub mod Window
use privacypass_cpp.Prelude.{
  ℕ, ◌+◌, ◌-◌, ◌*◌, ◌/◌, ◌%◌, ◌^◌, Bool, true, false, Option, none, some, bit_and, bit_or, ltb, leb,
  ◌==◌, if◌then◌else◌, length, get_or, take, drop,
}
use privacypass_cpp.Types.{Bytes}

pub record ByteReader : Type 0 where
  pub data_ : Bytes
  pub pos_ : ℕ

pub reader : Bytes → ByteReader
reader bytes = record { data_ = bytes; pos_ = 0 }

pub remaining : ByteReader → ℕ
remaining r = length r.data_ - r.pos_

pub empty : ByteReader → Bool
empty r = leb (length r.data_) r.pos_

-- `pos_ += count`
abbrev pub advance : ℕ → ByteReader → ByteReader
advance count r = record r { pos_ = r.pos_ + count }

-- `data_[pos_ + i]`
abbrev pub byte : ByteReader → ℕ → ℕ
byte r i = get_or r.data_ (r.pos_ + i) 0

pub read_u8 : ByteReader → Option ℕ × ByteReader
unfolding remaining
read_u8 r = if ltb (remaining r) 1 then (none, r) else (some (byte r 0), advance 1 r)

pub read_u16 : ByteReader → Option ℕ × ByteReader
unfolding remaining
read_u16 r =
    if ltb (remaining r) 2
    then (none, r)
    else (some (bit_or (byte r 0 * 2 ^ 8) (byte r 1) % 2 ^ 16), advance 2 r)

-- `(b0 << 24) | (b1 << 16) | (b2 << 8) | b3` for a given first byte.
abbrev pub big_endian_32 : ℕ → ByteReader → ℕ
big_endian_32 first r =
    bit_or (bit_or (bit_or (first * 2 ^ 24) (byte r 1 * 2 ^ 16)) (byte r 2 * 2 ^ 8)) (byte r 3)

abbrev read_u32 : ByteReader → Option ℕ × ByteReader
unfolding remaining
read_u32 r =
    if ltb (remaining r) 4
    then (none, r)
    else (some (big_endian_32 (byte r 0) r % 2 ^ 32), advance 4 r)

abbrev pub big_endian_64 : ℕ → ByteReader → ℕ
big_endian_64 first r =
    bit_or
      (bit_or
        (bit_or
          (bit_or
            (bit_or (bit_or (bit_or (first * 2 ^ 56) (byte r 1 * 2 ^ 48)) (byte r 2 * 2 ^ 40))
              (byte r 3 * 2 ^ 32))
            (byte r 4 * 2 ^ 24))
          (byte r 5 * 2 ^ 16))
        (byte r 6 * 2 ^ 8))
      (byte r 7)

-- The `switch` on `first >> 6`: the count of bytes of the encoding.
read_varint_of : ℕ → ℕ → ByteReader → Option ℕ × ByteReader
unfolding remaining
read_varint_of first prefix r =
    if prefix == 0
    then (some (bit_and first 0x3F), advance 1 r)
    else if prefix == 1
    then (if ltb (remaining r) 2
        then (none, r)
        else (some (bit_or (bit_and first 0x3F * 2 ^ 8) (byte r 1) % 2 ^ 16), advance 2 r))
    else if prefix == 2
    then (if ltb (remaining r) 4
        then (none, r)
        else (some (big_endian_32 (bit_and first 0x3F) r % 2 ^ 32), advance 4 r))
    else if prefix == 3
    then (if ltb (remaining r) 8
        then (none, r)
        else (some (big_endian_64 (bit_and first 0x3F) r % 2 ^ 64), advance 8 r))
    else (none, r)

unfoldable pub read_varint : ByteReader → Option ℕ × ByteReader
unfolding remaining read_varint_of
read_varint r =
    if ltb (remaining r) 1 then (none, r) else read_varint_of (byte r 0) (byte r 0 / 2 ^ 6) r

pub read_bytes : ℕ → ByteReader → Option Bytes × ByteReader
unfolding remaining
read_bytes count r =
    if ltb (remaining r) count
    then (none, r)
    else (some (take count (drop r.pos_ r.data_)), advance count r)

-- `auto len = …; if (!len) return std::nullopt; return read_bytes(*len);`
read_counted : Option ℕ × ByteReader → Option Bytes × ByteReader
read_counted (none, r) = (none, r)
read_counted (some len, r) = read_bytes len r

abbrev read_bytes_u8 : ByteReader → Option Bytes × ByteReader
unfolding read_counted
read_bytes_u8 r = read_counted (read_u8 r)

abbrev read_bytes_u16 : ByteReader → Option Bytes × ByteReader
unfolding read_counted
read_bytes_u16 r = read_counted (read_u16 r)

-- `read_array<N>()` copies the `N` bytes that `read_bytes(N)` views.
pub read_array : ℕ → ByteReader → Option Bytes × ByteReader
read_array n r = read_bytes n r

abbrev peek_u8 : ByteReader → Option ℕ
unfolding remaining
peek_u8 r = if ltb (remaining r) 1 then none else some (byte r 0)

abbrev skip : ℕ → ByteReader → Bool × ByteReader
unfolding remaining
skip count r = if ltb (remaining r) count then (false, r) else (true, advance count r)

abbrev reset : ByteReader → ByteReader
reset r = record r { pos_ = 0 }

unfoldable pub remaining_data : ByteReader → Bytes
remaining_data r = drop r.pos_ r.data_
