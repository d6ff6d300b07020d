-- ===== src/Serialization/Writer/Own.antt =====
-- Writes to the writer's own vector append, and cannot fail.
use privacypass_cpp.Prelude.{
  ℕ, ◌/◌, ◌%◌, ◌^◌, ◌≡◌, refl, true, false, [], ◌∷◌, ◌++◌, append_assoc, append-nil, arith,
}
use privacypass_cpp.Types.{Bytes}
use privacypass_cpp.Serialization.Reader.Window.{u16_bytes}
use privacypass_cpp.Serialization.Writer.{
  ByteWriter, writer, take_data, write_u8, write_u16, write_bytes, write_array, ◌▷◌,
}

-- A writer that owns `xs`.
pub holding : Bytes → ByteWriter
holding xs = record {
  data_ = xs;
  external_buffer_ = [];
  pos_ = 0;
  use_external_ = false;
  overflow_ = false;
}

pub writer-holding : writer ≡ holding []
unfolding writer holding
writer-holding = refl

pub take_data-holding : (xs : Bytes) → take_data (holding xs) ≡ xs
unfolding take_data holding
take_data-holding xs = refl

pub write_u8-holding :
    (v : ℕ) (xs : Bytes) → write_u8 v (holding xs) ≡ (true, holding (xs ++ (v ∷ [])))
unfolding write_u8 holding
write_u8-holding v xs = refl

module _ (xs : Bytes) where
  pub push_u8 : (v : ℕ) → (holding xs ▷ write_u8 v) ≡ holding (xs ++ (v ∷ []))
  unfolding write_u8 holding
  push_u8 v = refl

  pub push_u16 : (v : ℕ) → (holding xs ▷ write_u16 v) ≡ holding (xs ++ u16_bytes v)
  unfolding write_u16 holding
  push_u16 v = rw append_assoc

  pub push_bytes : (bytes : Bytes) → (holding xs ▷ write_bytes bytes) ≡ holding (xs ++ bytes)
  unfolding write_bytes holding
  push_bytes bytes = refl

  pub push_array : (arr : Bytes) → (holding xs ▷ write_array arr) ≡ holding (xs ++ arr)
  unfolding write_array write_bytes holding
  push_array arr = refl

-- With these a chain of writes is read as one list, bracketed to the right.
pub ruleset own_writes =
    (writer-holding, take_data-holding, push_u8, push_u16, push_bytes, push_array, append_assoc)
