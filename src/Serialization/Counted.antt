-- ===== src/Serialization/Counted.antt =====
-- `for (uint8_t i = 0; i < count; ++i) { …; items.push_back(item); }`, the loop of the formats that
-- begin with a count. The count is a byte, so `i` does not wrap around.
use privacypass_cpp.Prelude.{
  ℕ, zero, suc, List, [], ◌∷◌, ◌++◌, append_assoc, append-nil, length, All,
}
use privacypass_cpp.Types.{Bytes}
use privacypass_cpp.Serialization.Parser.{Parser, pure, ◌>>=◌}
use privacypass_cpp.Serialization.Parser.Rules.{Reads, pure-Reads, >>=-Reads}
use privacypass_cpp.Serialization.Collect.{encodings}

module _ {A : Type 0} where
  pub times : ℕ → Parser A → List A → Parser (List A)
  times zero next items = pure items
  times (suc rounds) next items = next >>= λ item. times rounds next (items ++ item ∷ [])

  -- Items that `next` reads back one by one are all read, in order.
  pub times-encodings :
      (next : Parser A) (enc : A → Bytes) (items rest : List A) (w : Bytes)
      → All (λ a. (w' : Bytes) → Reads next (enc a ++ w') a w') rest
      → Reads (times (length rest) next items) (encodings enc rest ++ w) (items ++ rest) w
  unfolding times
  times-encodings next enc items [] w h = rw append-nil (pure-Reads items w)
  times-encodings next enc items (a ∷ rest) w (h, hs) =
      rw (append_assoc (enc a) (encodings enc rest) w) (
        >>=-Reads next _ _ a _ _ w (h (encodings enc rest ++ w)) (
          rw (← append_assoc items (a ∷ []) rest)
            (times-encodings next enc (items ++ a ∷ []) rest w hs)))
