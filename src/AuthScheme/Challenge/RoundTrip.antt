-- ===== src/AuthScheme/Challenge/RoundTrip.antt =====
-- Challenges that are formatted and joined with commas are all read back, in order.
use privacypass_cpp.Prelude.{
  ◌+◌, ◌-◌, ◌≡◌, refl, sym, ap, ap₂, ◌∙◌, true, List, [], ◌∷◌, ◌++◌, map, length, take, drop,
  take-append, drop-append, length-append, append_assoc, append-nil, All, arith,
}
use privacypass_cpp.Types.{Bytes, text, ok}
use privacypass_cpp.Text.{starts_with}
use privacypass_cpp.AuthScheme.{take, drop}
use privacypass_cpp.AuthScheme.Split.{Scan, scheme, scan, ows_count, split_private_token_challenges}
use privacypass_cpp.AuthScheme.Split.Laws.{outside, scan-IsCalm, scan-cut, scan-nil}
use privacypass_cpp.AuthScheme.Challenge.{ChallengeHeader, format, parse_each, parse_all, parse}
use privacypass_cpp.AuthScheme.Challenge.Fields.{parse_one-format}
use privacypass_cpp.AuthScheme.Challenge.Carried.{IsCarried, scan-format}

-- The headers, with a comma and a space between each and the next.
abbrev pub joined : ChallengeHeader → List ChallengeHeader → Bytes
joined h [] = format h
joined h (h' ∷ hs) = format h ++ (44 ∷ 32 ∷ joined h' hs)

abbrev close : Bytes → Scan → List Bytes
close header s = s.challenges ++ drop s.start header ∷ []

joined-scheme :
    (h : ChallengeHeader) (hs : List ChallengeHeader) → starts_with scheme (joined h hs) ≡ true
unfolding starts_with text format
joined-scheme h [] = refl
joined-scheme h (h' ∷ hs) = refl

ows_count-joined :
    (h : ChallengeHeader) (hs : List ChallengeHeader) → ows_count (32 ∷ joined h hs) ≡ 1
unfolding ows_count text format
ows_count-joined h [] = refl
ows_count-joined h (h' ∷ hs) = refl

-- The scan of one challenge and of the comma behind it.
to_next :
    (pre : Bytes) (cs : List Bytes) (h h' : ChallengeHeader) (hs : List ChallengeHeader)
    (header : Bytes)
    → IsCarried h
    → header ≡ pre ++ (format h ++ (44 ∷ 32 ∷ joined h' hs))
    → scan header (length pre) (format h ++ (44 ∷ 32 ∷ joined h' hs)) (outside cs (length pre))
      ≡ scan header
          (length (pre ++ (format h ++ 44 ∷ 32 ∷ [])))
          (joined h' hs)
          (outside (cs ++ format h ∷ []) (length (pre ++ (format h ++ 44 ∷ 32 ∷ []))))
to_next pre cs h h' hs header c e =
    let n = length pre in
    let f = format h in
    let r : Bytes = 32 ∷ joined h' hs in
    let blanks = ows_count-joined h' hs in
    let cut : take (n + length f - n) (drop n header) ≡ f =
      ap (λ m. take m (drop n header)) (omega arith)
      ∙ ap (λ l. take (length f) (drop n l)) e
      ∙ ap (take (length f)) (drop-append n pre (f ++ 44 ∷ r) refl)
      ∙ take-append (length f) f (44 ∷ r) refl in
    let there : n + length f + 1 + 1 ≡ length (pre ++ (f ++ 44 ∷ 32 ∷ [])) =
      omega (arith, length-append pre (f ++ 44 ∷ 32 ∷ []), length-append f (44 ∷ 32 ∷ [])) in
    scan-format header cs n h n (44 ∷ r) c
    ∙ scan-cut header cs n (n + length f) r (rw blanks (joined-scheme h' hs))
    ∙ ap (λ o. scan header (n + length f + 1) r o)
        (ap₂ (λ l m. outside (cs ++ l ∷ []) (n + length f + 1 + m)) cut blanks)
    ∙ scan-IsCalm header (cs ++ f ∷ []) (n + length f + 1 + 1) (n + length f + 1) (32 ∷ [])
        (joined h' hs) ((omega arith, omega arith), tt)
    ∙ ap (λ m. scan header m (joined h' hs) (outside (cs ++ f ∷ []) m)) there

-- From the front of the first of them on, the scan cuts at the commas between them.
scan-joined :
    (pre : Bytes) (cs : List Bytes) (h : ChallengeHeader) (hs : List ChallengeHeader)
    (header : Bytes)
    → IsCarried h
    → All IsCarried hs
    → header ≡ pre ++ joined h hs
    → close header (scan header (length pre) (joined h hs) (outside cs (length pre)))
      ≡ cs ++ map format (h ∷ hs)
scan-joined pre cs h [] header c cs' e =
    let n = length pre in
    let s = outside cs n in
    ap (close header) (
      ap (λ l. scan header n l s) (sym (append-nil (format h)))
      ∙ scan-format header cs n h n [] c
      ∙ scan-nil header (n + length (format h)) s)
    ∙ ap (λ l. cs ++ l ∷ []) (ap (drop n) e ∙ drop-append n pre (format h) refl)
scan-joined pre cs h (h' ∷ hs) header c (c', cs') e =
    let f = format h in
    let r = joined h' hs in
    let pre' : Bytes = pre ++ (f ++ 44 ∷ 32 ∷ []) in
    let e' : header ≡ pre' ++ r =
      e
      ∙ (ap (λ l. pre ++ l) (sym (append_assoc f (44 ∷ 32 ∷ []) r))
          ∙ sym (append_assoc pre (f ++ 44 ∷ 32 ∷ []) r)) in
    ap (close header) (to_next pre cs h h' hs header c e)
    ∙ scan-joined pre' (cs ++ f ∷ []) h' hs header c' cs' e'
    ∙ append_assoc cs (f ∷ []) (map format (h' ∷ hs))

split-joined :
    (h : ChallengeHeader) (hs : List ChallengeHeader)
    → IsCarried h
    → All IsCarried hs
    → split_private_token_challenges (joined h hs) ≡ map format (h ∷ hs)
unfolding split_private_token_challenges
split-joined h hs c cs = scan-joined [] [] h hs (joined h hs) c cs refl

parse_each-format :
    (hs results : List ChallengeHeader)
    → All IsCarried hs
    → parse_each (map format hs) results ≡ ok (results ++ hs)
unfolding parse_each
parse_each-format [] results c = rw append-nil
parse_each-format (h ∷ hs) results (c, cs) =
    rw (parse_one-format h c)
      (parse_each-format hs (results ++ h ∷ []) cs ∙ ap ok (append_assoc results (h ∷ []) hs))

-- Challenges whose texts hold no quote and no backslash, that are not empty, and whose ages have 32
-- bits, are all read back in order from a header that joins their texts with commas; `parse`
-- answers the first of them.
pub parse_all-joined :
    (h : ChallengeHeader) (hs : List ChallengeHeader)
    → IsCarried h
    → All IsCarried hs
    → (parse_all (joined h hs) ≡ ok (h ∷ hs)) × (parse (joined h hs) ≡ ok h)
unfolding parse_all parse
parse_all-joined h hs c cs =
    let all : parse_all (joined h hs) ≡ ok (h ∷ hs) =
      ap (λ l. parse_each l []) (split-joined h hs c cs) ∙ parse_each-format (h ∷ hs) [] (c, cs) in
    (all, rw all refl)
