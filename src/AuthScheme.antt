-- ===== src/AuthScheme.antt =====
-- src/http/auth_scheme.cpp: the parameters of an HTTP authentication header. A header is the list of
-- its bytes, and a `std::string_view&` argument is returned with what is left of it.
pub mod Split
pub mod Challenge
pub mod Authorization
pub mod Params
use mathlib.Core.Option
use mathlib.Core.List.{reverse}
use privacypass_cpp.Prelude.{
  ℕ, zero, suc, ◌+◌, Bool, true, false, ◌||◌, not, Option, none, some, List, [], ◌∷◌, ◌++◌, ◌==◌,
  leb, if◌then◌else◌, length, take, drop,
}
use privacypass_cpp.Types.{Bytes}

-- OWS: a space or a tab.
pub is_ows : ℕ → Bool
is_ows c = c == 32 || c == 9

-- `while (!input.empty() && (input[0] == ' ' || input[0] == '\t')) input.remove_prefix(1);`
pub skip_ows : Bytes → Bytes
unfolding is_ows
skip_ows [] = []
skip_ows (c ∷ cs) = if is_ows c then skip_ows cs else c ∷ cs

-- The same at the end, by `key.pop_back()`.
pub trim_end : Bytes → Bytes
unfolding skip_ows
trim_end key = reverse (skip_ows (reverse key))

-- `input.find(c)`
pub find_char : ℕ → Bytes → Option ℕ
find_char c [] = none
find_char c (x ∷ xs) = if x == c then some 0 else Option.map suc (find_char c xs)

-- The test that refuses a key. `char` is signed, so `c <= 0x20` holds of the bytes from 0x80 on.
pub is_separator : ℕ → Bool
is_separator c =
    (leb c 0x20 || leb 0x80 c)
    || c == 0x7F
    || c == b'"'
    || c == b'('
    || c == b')'
    || c == b','
    || c == b'/'
    || c == b':'
    || c == b';'
    || c == b'<'
    || c == b'='
    || c == b'>'
    || c == b'?'
    || c == b'@'
    || c == b'['
    || c == 92
    || c == b']'
    || c == b'{'
    || c == b'}'

pub has_separator : Bytes → Bool
unfolding is_separator
has_separator [] = false
has_separator (c ∷ key) = if is_separator c then true else has_separator key

-- The loop over a quoted string, behind its first quote: the value and what is left. `none` is a
-- string that does not end.
pub quoted : Bool → Bytes → Bytes → Option (Bytes × Bytes)
quoted escaped value [] = none
quoted escaped value (c ∷ input) =
    let pushed = quoted false (value ++ c ∷ []) input in
    let escaping = quoted true value input in
    if escaped
    then pushed
    else if c == 92
    then escaping
    else if c == b'"'
    then some (value, input)
    else pushed

-- `while (end < input.size() && input[end] != ',' && input[end] != ' ' && input[end] != '\t')`
pub token_end : Bytes → ℕ
unfolding is_ows
token_end [] = 0
token_end (c ∷ cs) = if c == b',' || is_ows c then 0 else suc (token_end cs)

-- The value, quoted or not.
pub value_from : Bytes → Option (Bytes × Bytes)
unfolding quoted token_end
value_from [] = none
value_from (c ∷ input) =
    if c == b'"'
    then quoted false [] input
    else some (take (token_end (c ∷ input)) (c ∷ input), drop (token_end (c ∷ input)) (c ∷ input))

abbrev pub skip_comma : Bytes → Bytes
skip_comma [] = []
skip_comma (c ∷ input) = if c == b',' then input else c ∷ input

-- `// Skip OWS and comma`
pub skip_separator : Bytes → Bytes
unfolding skip_ows
skip_separator input = skip_ows (skip_comma (skip_ows input))

abbrev pub Param : Type 0
Param = Bytes × Bytes

-- The pair, and what is left behind it.
abbrev finish : Bytes → Bytes × Bytes → Param × Bytes
finish key (value, input) = ((key, value), skip_separator input)

-- From the key and the text behind the `=` on.
pub param_from : Bytes → Bytes → Option (Param × Bytes)
unfolding has_separator value_from skip_separator
param_from key input =
    if has_separator key
    then none
    else if length key == 0
    then none
    else Option.map (finish key) (value_from (skip_ows input))

pub key_and_value : Option ℕ → Bytes → Option (Param × Bytes)
unfolding trim_end param_from
key_and_value none input = none
key_and_value (some zero) input = none
key_and_value (some (suc n)) input =
    param_from (trim_end (take (suc n) input)) (drop (suc n + 1) input)

-- Where the answer is `none`, no caller looks at the view again.
pub parse_auth_param : Bytes → Option (Param × Bytes)
unfolding skip_ows find_char key_and_value
parse_auth_param view = let input = skip_ows view in key_and_value (find_char b'=' input) input

-- `while (!view.empty()) { auto param = parse_auth_param(view); if (!param) break; … }`: the
-- parameters of the rounds, at most `rounds` of them.
pub params : ℕ → Bytes → List Param
params rounds [] = []
params zero (c ∷ view) = []
params (suc rounds) (c ∷ view) = elim (parse_auth_param (c ∷ view)) [
  | some (param, rest) ↦ param ∷ params rounds rest
  | none ↦ []
]

-- A parameter takes a byte at least, so that a round for each byte is enough.
pub all_params : Bytes → List Param
unfolding params parse_auth_param
all_params view = params (length view) view
