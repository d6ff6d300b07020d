-- ===== src/Serialization/Writer.antt =====
-- `ByteWriter` of include/privacy_pass/core/serialization.hpp: it appends to its own vector, or
-- fills a buffer of the caller. A write returns its flag and the writer's next state.
pub mod Own
use privacypass_cpp.Prelude.{
  ℕ, ◌+◌, ◌*◌, ◌/◌, ◌%◌, ◌^◌, Bool, true, false, List, [], ◌∷◌, ◌++◌, bit_or, ltb, leb,
  if◌then◌else◌, length, set, take,
}
use privacypass_cpp.Types.{Bytes}

pub record ByteWriter : Type 0 where
  pub data_ : Bytes
  pub external_buffer_ : Bytes
  pub pos_ : ℕ
  pub use_external_ : Bool
  pub overflow_ : Bool

-- `ByteWriter()` and `ByteWriter(reserve)`: reserving space changes no value.
pub writer : ByteWriter
writer = record {
  data_ = [];
  external_buffer_ = [];
  pos_ = 0;
  use_external_ = false;
  overflow_ = false;
}

-- `ByteWriter(buffer)`
abbrev writer_into : Bytes → ByteWriter
writer_into buffer = record {
  data_ = [];
  external_buffer_ = buffer;
  pos_ = 0;
  use_external_ = true;
  overflow_ = false;
}

unfoldable pub size : ByteWriter → ℕ
size w = if w.use_external_ then w.pos_ else length w.data_

abbrev pub view : ByteWriter → Bytes
view w = if w.use_external_ then take w.pos_ w.external_buffer_ else w.data_

-- `take()`: the bytes written.
pub take_data : ByteWriter → Bytes
take_data w = if w.use_external_ then take w.pos_ w.external_buffer_ else w.data_

abbrev clear : ByteWriter → ByteWriter
clear w = if w.use_external_ then record w { pos_ = 0 } else record w { data_ = [] }

-- `overflow_ = true; return false;`
abbrev refuse : ByteWriter → Bool × ByteWriter
refuse w = (false, record w { overflow_ = true })

-- `external_buffer_[pos_++] = value`, in range by the caller's test.
abbrev put : ByteWriter → ℕ → ByteWriter
put w value = record w { external_buffer_ = set w.external_buffer_ w.pos_ value; pos_ = w.pos_ + 1 }

-- `data_.push_back(value)`
abbrev push_back : ByteWriter → ℕ → ByteWriter
push_back w value = record w { data_ = w.data_ ++ (value ∷ []) }

pub write_u8 : ℕ → ByteWriter → Bool × ByteWriter
write_u8 value w =
    if w.use_external_
    then (if leb (length w.external_buffer_) w.pos_ then refuse w else (true, put w value))
    else (true, push_back w value)

pub write_u16 : ℕ → ByteWriter → Bool × ByteWriter
write_u16 value w =
    if w.use_external_
    then (if ltb (length w.external_buffer_) (w.pos_ + 2)
        then refuse w
        else (true, put (put w (value / 2 ^ 8 % 2 ^ 8)) (value % 2 ^ 8)))
    else (true, push_back (push_back w (value / 2 ^ 8 % 2 ^ 8)) (value % 2 ^ 8))

abbrev write_u32 : ℕ → ByteWriter → Bool × ByteWriter
write_u32 value w =
    if w.use_external_
    then (if ltb (length w.external_buffer_) (w.pos_ + 4) then refuse w else (
      true,
      put
          (put (put (put w (value / 2 ^ 24 % 2 ^ 8)) (value / 2 ^ 16 % 2 ^ 8))
            (value / 2 ^ 8 % 2 ^ 8))
          (value % 2 ^ 8),
    ))
    else (
      true,
      push_back
          (push_back (push_back (push_back w (value / 2 ^ 24 % 2 ^ 8)) (value / 2 ^ 16 % 2 ^ 8))
            (value / 2 ^ 8 % 2 ^ 8))
          (value % 2 ^ 8),
    )

-- `first && second` over calls that change the writer: the second is made if the first succeeds.
infixl 35 ◌and_then◌
abbrev pub ◌and_then◌ : Bool × ByteWriter → (ByteWriter → Bool × ByteWriter) → Bool × ByteWriter
(true, w) and_then next = next w
(false, w) and_then next = (false, w)

unfoldable pub write_varint : ℕ → ByteWriter → Bool × ByteWriter
write_varint value w =
    if leb value 0x3F
    then write_u8 (value % 2 ^ 8) w
    else if leb value 0x3FFF
    then write_u8 (bit_or 0x40 (value / 2 ^ 8) % 2 ^ 8) w and_then write_u8 (value % 2 ^ 8)
    else if leb value 0x3FFFFFFF
    then write_u8 (bit_or 0x80 (value / 2 ^ 24) % 2 ^ 8) w
      and_then write_u8 (value / 2 ^ 16 % 2 ^ 8)
      and_then write_u8 (value / 2 ^ 8 % 2 ^ 8)
      and_then write_u8 (value % 2 ^ 8)
    else write_u8 (bit_or 0xC0 (value / 2 ^ 56) % 2 ^ 8) w
      and_then write_u8 (value / 2 ^ 48 % 2 ^ 8)
      and_then write_u8 (value / 2 ^ 40 % 2 ^ 8)
      and_then write_u8 (value / 2 ^ 32 % 2 ^ 8)
      and_then write_u8 (value / 2 ^ 24 % 2 ^ 8)
      and_then write_u8 (value / 2 ^ 16 % 2 ^ 8)
      and_then write_u8 (value / 2 ^ 8 % 2 ^ 8)
      and_then write_u8 (value % 2 ^ 8)

-- `std::copy` into the buffer from `pos` on.
copy_into : Bytes → ℕ → Bytes → Bytes
copy_into buffer pos [] = buffer
copy_into buffer pos (b ∷ bytes) = copy_into (set buffer pos b) (pos + 1) bytes

pub write_bytes : Bytes → ByteWriter → Bool × ByteWriter
unfolding copy_into
write_bytes bytes w =
    if w.use_external_
    then (if ltb (length w.external_buffer_) (w.pos_ + length bytes) then refuse w else (
      true,
      record w {
        external_buffer_ = copy_into w.external_buffer_ w.pos_ bytes;
        pos_ = w.pos_ + length bytes;
      },
    ))
    else (true, record w { data_ = w.data_ ++ bytes })

abbrev write_bytes_u8 : Bytes → ByteWriter → Bool × ByteWriter
write_bytes_u8 bytes w =
    if ltb 255 (length bytes)
    then (false, w)
    else write_u8 (length bytes % 2 ^ 8) w and_then write_bytes bytes

abbrev write_bytes_u16 : Bytes → ByteWriter → Bool × ByteWriter
write_bytes_u16 bytes w =
    if ltb 65535 (length bytes)
    then (false, w)
    else write_u16 (length bytes % 2 ^ 16) w and_then write_bytes bytes

pub write_array : Bytes → ByteWriter → Bool × ByteWriter
write_array arr w = write_bytes arr w

-- A write whose flag the caller drops.
infixl 40 ◌▷◌
abbrev pub ◌▷◌ : ByteWriter → (ByteWriter → Bool × ByteWriter) → ByteWriter
w ▷ write = (write w).1
