-- ===== src/Serialization/Reader/Window.antt =====
-- A reader through what it has still to read: its window.
use privacypass_cpp.Prelude.{
  ℕ, ◌+◌, ◌*◌, ◌/◌, ◌%◌, ◌^◌, ◌<◌, ◌≡◌, refl, sym, ap, ◌∙◌, Option, none, some, [], ◌∷◌, ◌++◌, ltb,
  leb, length, get_or, take, drop, length-append, length-drop, length-take, drop-add, take-append,
  drop-append, take-append-drop, get_or-drop, append-nil, arith, if◌then◌else◌, bit_or,
}
use privacypass_cpp.Prelude.Bits.{or_of_fields}
use privacypass_cpp.Types.{Bytes, IsBytes}
use privacypass_cpp.Serialization.Reader.{
  ByteReader, reader, remaining, empty, advance, byte, read_u8, read_u16, read_bytes, read_array,
  remaining_data,
}

unfoldable pub window : ByteReader → Bytes
window r = drop r.pos_ r.data_

pub window-reader : (bytes : Bytes) → window (reader bytes) ≡ bytes
unfolding window reader
window-reader bytes = refl

pub remaining-window : (r : ByteReader) → remaining r ≡ length (window r)
unfolding remaining window
remaining-window r = sym (length-drop r.pos_ r.data_)

pub empty-window : (r : ByteReader) → empty r ≡ leb (length (window r)) 0
unfolding empty window
empty-window r = ground (arith, length-drop r.pos_ r.data_)

pub remaining_data-window : (r : ByteReader) → remaining_data r ≡ window r
unfolding remaining_data window
remaining_data-window r = refl

pub window-advance : (n : ℕ) (r : ByteReader) → window (advance n r) ≡ drop n (window r)
unfolding window
window-advance n r = drop-add r.pos_ n r.data_

pub byte-window : (i : ℕ) (r : ByteReader) → byte r i ≡ get_or (window r) i 0
unfolding window
byte-window i r = get_or-drop r.pos_ i r.data_ 0

-- `read` succeeds with `a` where `w` is to be read, and leaves `w'`.
abbrev pub Takes : {A : Type 0} → (ByteReader → Option A × ByteReader) → Bytes → A → Bytes → Type 0
Takes read w a w' =
    (r : ByteReader) → window r ≡ w → (r' : ByteReader) × (read r ≡ (some a, r')) × (window r' ≡ w')

-- `static_cast<uint8_t>(v >> 8), static_cast<uint8_t>(v)`
abbrev pub u16_bytes : ℕ → Bytes
u16_bytes v = (v / 2 ^ 8 % 2 ^ 8) ∷ (v % 2 ^ 8) ∷ []

pub window-advance_eq :
    (n : ℕ) (r : ByteReader) (w : Bytes) → window r ≡ w → window (advance n r) ≡ drop n w
window-advance_eq n r w h = window-advance n r ∙ ap (drop n) h

pub read_u8-Takes : (a : ℕ) (w : Bytes) → Takes read_u8 (a ∷ w) a w
unfolding read_u8
read_u8-Takes a w r h =
    (advance 1 r, ground (arith, remaining-window r, byte-window 0 r, h), window-advance_eq 1 r _ h)

u16_join : (hi lo : ℕ) → hi < 256 → lo < 256 → bit_or (hi * 2 ^ 8) lo % 2 ^ 16 ≡ hi * 256 + lo
u16_join hi lo p q = omega (arith, or_of_fields 8 hi lo q)

pub read_u16-Takes : (v : ℕ) (w : Bytes) → v < 2 ^ 16 → Takes read_u16 (u16_bytes v ++ w) v w
unfolding read_u16
read_u16-Takes v w lt r h = (
  advance 2 r,
  ground (
    arith,
    remaining-window r,
    byte-window 0 r,
    byte-window 1 r,
    h,
    u16_join (v / 2 ^ 8 % 2 ^ 8) (v % 2 ^ 8),
  ),
  window-advance_eq 2 r _ h,
)

read_bytes-window :
    (n : ℕ) (r : ByteReader)
    → read_bytes n r
      ≡ (if ltb (length (window r)) n then (none, r) else (some (take n (window r)), advance n r))
unfolding read_bytes window
read_bytes-window n r = rw (length-drop r.pos_ r.data_)

pub read_bytes-Takes : (n : ℕ) (xs w : Bytes) → length xs ≡ n → Takes (read_bytes n) (xs ++ w) xs w
unfolding read_bytes
read_bytes-Takes n xs w e r h = (
  advance n r,
  rw (read_bytes-window n r, h, take-append n xs w e, length-append xs w) (rw (e) (ground arith)),
  window-advance_eq n r _ h ∙ drop-append n xs w e,
)

-- To the end of the input.
pub read_bytes_rest-Takes : (n : ℕ) (xs : Bytes) → length xs ≡ n → Takes (read_bytes n) xs xs []
read_bytes_rest-Takes n xs e r h = read_bytes-Takes n xs [] e r (h ∙ sym (append-nil xs))

pub read_array-Takes : (n : ℕ) (xs w : Bytes) → length xs ≡ n → Takes (read_array n) (xs ++ w) xs w
unfolding read_array
read_array-Takes = read_bytes-Takes

-- What a successful read has taken. For numbers of two bytes it matters that the input is bytes.
pub read_u8_taken :
    (r : ByteReader) (v : ℕ) (r' : ByteReader) → read_u8 r ≡ (some v, r') → window r ≡ v ∷ window r'
unfolding read_u8
read_u8_taken r v r' h = go (window r) refl
  where
    go : (w : Bytes) → window r ≡ w → window r ≡ v ∷ window r'
    go [] e = ground (arith, remaining-window r)
    go (a ∷ w) e = ground (arith, remaining-window r, byte-window 0 r, window-advance 1 r)

pub read_u16_taken :
    (r : ByteReader) (v : ℕ) (r' : ByteReader)
    → IsBytes (window r)
    → read_u16 r ≡ (some v, r')
    → (v < 2 ^ 16) × (window r ≡ u16_bytes v ++ window r')
unfolding read_u16
read_u16_taken r v r' b h = go (window r) refl b
  where
    go :
        (w : Bytes)
        → window r ≡ w
        → IsBytes w
        → (v < 2 ^ 16) × (window r ≡ u16_bytes v ++ window r')
    go [] e _ = ground (arith, remaining-window r)
    go (a ∷ []) e _ = ground (arith, remaining-window r)
    go (hi ∷ lo ∷ w) e (p, (q, _)) = ground (
      arith,
      remaining-window r,
      byte-window 0 r,
      byte-window 1 r,
      window-advance 2 r,
      u16_join hi lo p q,
    )

pub read_bytes_taken :
    (n : ℕ) (r : ByteReader) (xs : Bytes) (r' : ByteReader)
    → read_bytes n r ≡ (some xs, r')
    → (length xs ≡ n) × (window r ≡ xs ++ window r')
read_bytes_taken n r xs r' h = ground (
  arith,
  read_bytes-window n r,
  length-take n (window r),
  take-append-drop n (window r),
  window-advance n r,
)

pub read_array_taken :
    (n : ℕ) (r : ByteReader) (xs : Bytes) (r' : ByteReader)
    → read_array n r ≡ (some xs, r')
    → (length xs ≡ n) × (window r ≡ xs ++ window r')
unfolding read_array
read_array_taken = read_bytes_taken
