-- ===== src/Serialization/Parser.antt =====
-- The shape that the `deserialize` functions share: reads of one `ByteReader`, each followed by
-- `if (!value) return std::unexpected(…)`, and tests that return early.
pub mod Rules
use privacypass_cpp.Prelude.{ℕ, Bool, true, false, not, Option, none, some, ltb}
use privacypass_cpp.Types.{Bytes, Error, Result, ok, err}
use privacypass_cpp.Serialization.Reader.{ByteReader, reader, empty, remaining, remaining_data}

abbrev pub Parser : Type 0 → Type 0
Parser A = ByteReader → Result (A × ByteReader)

module _ {A : Type 0} where
  abbrev pub found : Error → Option A × ByteReader → Result (A × ByteReader)
  found e (none, r) = err e
  found e (some a, r) = ok (a, r)

  -- `auto x = read; if (!x) return std::unexpected(e);`
  pub or_fail : (ByteReader → Option A × ByteReader) → Error → Parser A
  or_fail read e r = found e (read r)

  pub pure : A → Parser A
  pure a r = ok (a, r)

  abbrev pub failed : Error → Parser A
  failed e r = err e

  abbrev drop_reader : Result (A × ByteReader) → Result A
  drop_reader (ok (a, r)) = ok a
  drop_reader (err e) = err e

  -- `ByteReader reader(data); …`
  unfoldable pub run : Parser A → Bytes → Result A
  run p bytes = drop_reader (p (reader bytes))

-- `if (bad) return std::unexpected(e);`
pub refuse_if : Bool → Error → Parser (Unit {0})
refuse_if true e r = err e
refuse_if false e r = ok (tt, r)

-- `if (!reader.empty()) return std::unexpected(e);`
pub expect_end : Error → Parser (Unit {0})
unfolding refuse_if
expect_end e r = refuse_if (not (empty r)) e r

-- `if (reader.remaining() < n) return std::unexpected(e);`
pub expect_left : ℕ → Error → Parser (Unit {0})
unfolding refuse_if
expect_left n e r = refuse_if (ltb (remaining r) n) e r

abbrev continue :
    {A B : Type 0} → Result (A × ByteReader) → (A → Parser B) → Result (B × ByteReader)
continue (ok (a, r)) f = f a r
continue (err e) f = err e

-- A call that may fail and does not touch the reader.
pub lift : {A : Type 0} → Result A → Parser A
lift (ok a) r = ok (a, r)
lift (err e) r = err e

-- `auto remaining = reader.remaining_data();` and what looks at it.
pub ahead : {A : Type 0} → (Bytes → Parser A) → Parser A
ahead f r = f (remaining_data r) r

infixl 5 ◌>>=◌ ◌>>◌
pub ◌>>=◌ : {A B : Type 0} → Parser A → (A → Parser B) → Parser B
◌>>=◌ p f r = continue (p r) f

pub ◌>>◌ : {B : Type 0} → Parser (Unit {0}) → Parser B → Parser B
◌>>◌ p q r = continue (p r) (λ _. q)
