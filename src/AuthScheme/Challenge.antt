-- ===== src/AuthScheme/Challenge.antt =====
-- `ChallengeHeader` of include/privacy_pass/http/auth_scheme.hpp and src/http/auth_scheme.cpp, and
-- `build_www_authenticate`.
pub mod Carried
pub mod Fields
pub mod RoundTrip
pub mod Build
use privacypass_cpp.Prelude.{
  ℕ, ◌-◌, ◌^◌, Bool, not, Option, none, some, List, [], ◌∷◌, ◌++◌, ◌==◌, ltb, leb, if◌then◌else◌,
  length, drop,
}
use privacypass_cpp.Types.{
  Bytes, text, invalid_header, missing_parameter, error, Result, ok, err, ◌>>=◌,
}
use privacypass_cpp.Text.{to_string, stoul, starts_with}
use privacypass_cpp.NonceSet.{same}
use privacypass_cpp.Base64Url
use privacypass_cpp.TokenChallenge
use privacypass_cpp.TokenChallenge.{TokenChallenge}
use privacypass_cpp.AuthScheme.{Param, all_params}
use privacypass_cpp.AuthScheme.Split.{scheme, split_private_token_challenges}

pub record ChallengeHeader : Type 0 where
  pub challenge : Bytes
  pub token_key : Option Bytes
  pub max_age : Option ℕ

abbrev pub token_key_text : Option Bytes → Bytes
token_key_text none = []
token_key_text (some key) = text ", token-key=\"" ++ (key ++ text "\"")

abbrev pub max_age_text : Option ℕ → Bytes
max_age_text none = []
max_age_text (some age) = text ", max-age=" ++ to_string age

unfoldable pub format : ChallengeHeader → Bytes
format h =
    text "PrivateToken challenge=\""
    ++ (h.challenge ++ (text "\"" ++ (token_key_text h.token_key ++ max_age_text h.max_age)))

-- `std::stoul` with the bound of 32 bits; an exception is caught and leaves the field.
abbrev pub set_max_age : Option ℕ → ChallengeHeader → ChallengeHeader
set_max_age none h = h
set_max_age (some val) h = if leb val (2 ^ 32 - 1) then record h { max_age = some val } else h

-- What a round does with its parameter.
pub assign : Param → ChallengeHeader → ChallengeHeader
assign (key, value) h =
    if same key (text "challenge")
    then record h { challenge = value }
    else if same key (text "token-key")
    then record h { token_key = some value }
    else if same key (text "max-age")
    then set_max_age (stoul value) h
    else h

pub assign_all : List Param → ChallengeHeader → ChallengeHeader
assign_all [] h = h
assign_all (param ∷ params) h = assign_all params (assign param h)

abbrev pub no_header : ChallengeHeader
no_header = record { challenge = []; token_key = none; max_age = none }

-- The round of `parse_all` for one challenge.
pub parse_one : Bytes → Result ChallengeHeader
unfolding all_params assign_all
parse_one challenge =
    if not (starts_with scheme challenge)
    then err (error invalid_header "Not a PrivateToken header")
    else let result = assign_all (all_params (drop 13 challenge)) no_header in
      if length result.challenge == 0
      then err (error missing_parameter "Missing challenge parameter")
      else ok result

pub parse_each : List Bytes → List ChallengeHeader → Result (List ChallengeHeader)
parse_each [] results = ok results
parse_each (challenge ∷ challenges) results =
    parse_one challenge >>= λ result. parse_each challenges (results ++ result ∷ [])

pub parse_all : Bytes → Result (List ChallengeHeader)
parse_all header = parse_each (split_private_token_challenges header) []

abbrev first_of : List ChallengeHeader → Result ChallengeHeader
first_of [] = err (error invalid_header "No PrivateToken challenge")
first_of (h ∷ all) = ok h

unfoldable pub parse : Bytes → Result ChallengeHeader
parse header = parse_all header >>= first_of

pub decode_challenge : ChallengeHeader → Result TokenChallenge
decode_challenge h = Base64Url.decode h.challenge >>= TokenChallenge.deserialize

abbrev decode_key : Option Bytes → Result Bytes
decode_key none = err (error missing_parameter "Missing token-key parameter")
decode_key (some key) = Base64Url.decode key

pub decode_token_key : ChallengeHeader → Result Bytes
decode_token_key h = decode_key h.token_key

abbrev pub header_for : Bytes → Bytes → Option ℕ → ChallengeHeader
header_for serialized token_key max_age = record {
  challenge = Base64Url.encode_padded serialized;
  token_key = some (Base64Url.encode_padded token_key);
  max_age = max_age;
}

pub build_www_authenticate : TokenChallenge → Bytes → Option ℕ → Result Bytes
build_www_authenticate challenge token_key max_age =
    TokenChallenge.serialize challenge >>= λ serialized.
    ok (format (header_for serialized token_key max_age))
