-- ===== src/Serialization/Parser/Rules.antt =====
-- Rules for parsers: what is read where a given text stands, and what a success has read.
use privacypass_cpp.Prelude.{
  ℕ, ◌≤◌, ◌≡◌, refl, Bool, true, false, Option, some, [], ◌∷◌, arith, length,
}
use privacypass_cpp.Types.{Bytes, Error, Result, ok, err}
use privacypass_cpp.Serialization.Reader.{ByteReader, reader}
use privacypass_cpp.Serialization.Reader.Window.{
  window, window-reader, empty-window, remaining-window, remaining_data-window, Takes,
}
use privacypass_cpp.Serialization.Parser.{
  Parser, or_fail, pure, run, refuse_if, expect_end, expect_left, lift, ahead, ◌>>=◌, ◌>>◌,
}

module _ {A : Type 0} where
  -- The parser returns `a` where `w` is to be read, and leaves `w'`.
  abbrev pub Reads : Parser A → Bytes → A → Bytes → Type 0
  Reads p w a w' =
      (r : ByteReader) → window r ≡ w → (r' : ByteReader) × (p r ≡ ok (a, r')) × (window r' ≡ w')

  -- The parser refuses with `e` where `w` is to be read.
  abbrev pub Refuses : Parser A → Bytes → Error → Type 0
  Refuses p w e = (r : ByteReader) → window r ≡ w → p r ≡ err e

  pub or_fail-Reads :
      (read : ByteReader → Option A × ByteReader) (e : Error) (w : Bytes) (a : A) (w' : Bytes)
      → Takes read w a w'
      → Reads (or_fail read e) w a w'
  unfolding or_fail
  or_fail-Reads read e w a w' t r h = let (r', eq, h') = t r h in (r', rw eq, h')

  or_fail_taken :
      (read : ByteReader → Option A × ByteReader) (e : Error) (r : ByteReader) (a : A)
      (r' : ByteReader)
      → or_fail read e r ≡ ok (a, r')
      → read r ≡ (some a, r')
  unfolding or_fail
  or_fail_taken read e r a r' h = ground arith

  pub pure-Reads : (a : A) (w : Bytes) → Reads (pure a) w a w
  unfolding pure
  pure-Reads a w r h = (r, refl, h)

  pub lift-Reads : (m : Result A) (a : A) (w : Bytes) → m ≡ ok a → Reads (lift m) w a w
  unfolding lift
  lift-Reads m a w e r h = (r, rw e, h)

  pub lift_taken :
      (m : Result A) (r : ByteReader) (a : A) (r' : ByteReader)
      → lift m r ≡ ok (a, r')
      → (m ≡ ok a) × (r ≡ r')
  unfolding lift
  lift_taken (ok b) r a r' h = ground arith
  lift_taken (err e) r a r' h = absurd (ground arith)

  pub ahead-Reads :
      (f : Bytes → Parser A) (w : Bytes) (a : A) (w' : Bytes)
      → Reads (f w) w a w'
      → Reads (ahead f) w a w'
  unfolding ahead
  ahead-Reads f w a w' second r h = rw (remaining_data-window r, h) (second r h)

  pub ahead_taken :
      (f : Bytes → Parser A) (r : ByteReader) (m : Result (A × ByteReader))
      → ahead f r ≡ m
      → f (window r) r ≡ m
  unfolding ahead
  ahead_taken f r m h = rw (remaining_data-window r) at h

  pub run-Reads :
      (p : Parser A) (bytes : Bytes) (a : A) (w' : Bytes) → Reads p bytes a w' → run p bytes ≡ ok a
  unfolding run
  run-Reads p bytes a w' reads =
      let (r', eq, _) = reads (reader bytes) (window-reader bytes) in rw eq

  run-Refuses : (p : Parser A) (bytes : Bytes) (e : Error) → Refuses p bytes e → run p bytes ≡ err e
  unfolding run
  run-Refuses p bytes e refuses = rw (refuses (reader bytes) (window-reader bytes))

  pub run_taken :
      (p : Parser A) (bytes : Bytes) (a : A)
      → run p bytes ≡ ok a
      → (r : ByteReader) × (r' : ByteReader) × (window r ≡ bytes) × (p r ≡ ok (a, r'))
  unfolding run
  run_taken p bytes a h = go (p (reader bytes)) refl
    where
      go :
          (m : Result (A × ByteReader))
          → p (reader bytes) ≡ m
          → (r : ByteReader) × (r' : ByteReader) × (window r ≡ bytes) × (p r ≡ ok (a, r'))
      go (ok (b, r')) e = (reader bytes, r', window-reader bytes, ground arith)
      go (err x) e = absurd (ground arith)

module _ {A B : Type 0} where
  pub >>=-Reads :
      (p : Parser A) (f : A → Parser B) (w : Bytes) (a : A) (w' : Bytes) (b : B) (w'' : Bytes)
      → Reads p w a w'
      → Reads (f a) w' b w''
      → Reads (p >>= f) w b w''
  unfolding ◌>>=◌
  >>=-Reads p f w a w' b w'' first second r h =
      let (r', eq, h') = first r h in let (r'', eq', h'') = second r' h' in (r'', rw (eq, eq'), h'')

  >>=-Refuses :
      (p : Parser A) (f : A → Parser B) (w : Bytes) (a : A) (w' : Bytes) (e : Error)
      → Reads p w a w'
      → Refuses (f a) w' e
      → Refuses (p >>= f) w e
  unfolding ◌>>=◌
  >>=-Refuses p f w a w' e first second r h = let (r', eq, h') = first r h in rw eq (second r' h')

  >>=-Refuses_first :
      (p : Parser A) (f : A → Parser B) (w : Bytes) (e : Error)
      → Refuses p w e
      → Refuses (p >>= f) w e
  unfolding ◌>>=◌
  >>=-Refuses_first p f w e first r h = rw (first r h)

  pub >>=_taken :
      (p : Parser A) (f : A → Parser B) (r : ByteReader) (b : B) (r'' : ByteReader)
      → (p >>= f) r ≡ ok (b, r'')
      → (a : A) × (r' : ByteReader) × (p r ≡ ok (a, r')) × (f a r' ≡ ok (b, r''))
  unfolding ◌>>=◌
  >>=_taken p f r b r'' h = go (p r) refl
    where
      go :
          (m : Result (A × ByteReader))
          → p r ≡ m
          → (a : A) × (r' : ByteReader) × (p r ≡ ok (a, r')) × (f a r' ≡ ok (b, r''))
      go (ok (a, r')) e = (a, r', e, ground arith)
      go (err x) e = absurd (ground arith)

  -- A read with its test, and what follows.
  pub read-Reads :
      (read : ByteReader → Option A × ByteReader) (e : Error) (f : A → Parser B) (w : Bytes) (a : A)
      (w' : Bytes) (b : B) (w'' : Bytes)
      → Takes read w a w'
      → Reads (f a) w' b w''
      → Reads (or_fail read e >>= f) w b w''
  read-Reads read e f w a w' b w'' t second =
      >>=-Reads _ f w a w' b w'' (or_fail-Reads read e w a w' t) second

  pub read_taken :
      (read : ByteReader → Option A × ByteReader) (e : Error) (f : A → Parser B) (r : ByteReader)
      (b : B) (r'' : ByteReader)
      → (or_fail read e >>= f) r ≡ ok (b, r'')
      → (a : A) × (r' : ByteReader) × (read r ≡ (some a, r')) × (f a r' ≡ ok (b, r''))
  read_taken read e f r b r'' h =
      let (a, r', first, second) = >>=_taken (or_fail read e) f r b r'' h in
      (a, r', or_fail_taken read e r a r' first, second)

module _ {B : Type 0} where
  pub >>-Reads :
      (p : Parser (Unit {0})) (q : Parser B) (w w' : Bytes) (b : B) (w'' : Bytes)
      → Reads p w tt w'
      → Reads q w' b w''
      → Reads (p >> q) w b w''
  unfolding ◌>>◌
  >>-Reads p q w w' b w'' first second r h =
      let (r', eq, h') = first r h in let (r'', eq', h'') = second r' h' in (r'', rw (eq, eq'), h'')

  pub refuse_if->>-Reads :
      (t : Bool) (e : Error) (q : Parser B) (w : Bytes) (b : B) (w' : Bytes)
      → t ≡ false
      → Reads q w b w'
      → Reads (refuse_if t e >> q) w b w'
  unfolding ◌>>◌ refuse_if
  refuse_if->>-Reads t e q w b w' h second r h' = rw h (second r h')

  -- What follows a test runs if the test fails, from the same place.
  pub refuse_if->>_taken :
      (t : Bool) (e : Error) (q : Parser B) (r : ByteReader) (b : B) (r' : ByteReader)
      → (refuse_if t e >> q) r ≡ ok (b, r')
      → (t ≡ false) × (q r ≡ ok (b, r'))
  unfolding ◌>>◌ refuse_if
  refuse_if->>_taken true e q r b r' h = absurd (ground arith)
  refuse_if->>_taken false e q r b r' h = (refl, h)

  pub expect_end->>-Reads :
      (e : Error) (q : Parser B) (b : B) → Reads q [] b [] → Reads (expect_end e >> q) [] b []
  unfolding ◌>>◌ expect_end
  expect_end->>-Reads e q b second r h =
      let (r', eq, h') = second r h in (r', ground (arith, empty-window r), h')

  expect_end->>-Refuses :
      (e : Error) (q : Parser B) (x : ℕ) (w : Bytes) → Refuses (expect_end e >> q) (x ∷ w) e
  unfolding ◌>>◌ expect_end
  expect_end->>-Refuses e q x w r h = ground (arith, empty-window r)

  pub expect_end->>_taken :
      (e : Error) (q : Parser B) (r : ByteReader) (b : B) (r' : ByteReader)
      → (expect_end e >> q) r ≡ ok (b, r')
      → (window r ≡ []) × (q r ≡ ok (b, r'))
  unfolding ◌>>◌ expect_end
  expect_end->>_taken e q r b r' h = ground (arith, empty-window r)

  pub expect_left->>-Reads :
      (n : ℕ) (e : Error) (q : Parser B) (w : Bytes) (b : B) (w' : Bytes)
      → n ≤ length w
      → Reads q w b w'
      → Reads (expect_left n e >> q) w b w'
  unfolding ◌>>◌ expect_left
  expect_left->>-Reads n e q w b w' enough second r h =
      let (r', eq, h') = second r h in (r', ground (arith, remaining-window r), h')

  pub expect_left->>_taken :
      (n : ℕ) (e : Error) (q : Parser B) (r : ByteReader) (b : B) (r' : ByteReader)
      → (expect_left n e >> q) r ≡ ok (b, r')
      → q r ≡ ok (b, r')
  unfolding ◌>>◌ expect_left
  expect_left->>_taken n e q r b r' h = ground arith

pub pure_taken :
    {A : Type 0} (a : A) (r : ByteReader) (b : A) (r' : ByteReader)
    → pure a r ≡ ok (b, r')
    → (a ≡ b) × (r ≡ r')
unfolding pure
pure_taken a r b r' h = ground arith
