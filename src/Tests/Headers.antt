-- ===== src/Tests/Headers.antt =====
-- The headers of the HTTP authentication scheme at concrete values.
use privacypass_cpp.Prelude.{◌≡◌, refl, none, some, [], ◌∷◌, arith}
use privacypass_cpp.Types.{for_type, to_u16, Bytes, IsBytes, ok, text}
use privacypass_cpp.Token.{Token}
use privacypass_cpp.Token
use privacypass_cpp.Token.RoundTrip.{wire}
use privacypass_cpp.TokenChallenge
use privacypass_cpp.TokenChallenge.{TokenChallenge}
use privacypass_cpp.TokenChallenge.RoundTrip.{serialize-wire}
use privacypass_cpp.AuthScheme.{params}
use privacypass_cpp.AuthScheme.Params.{one_round, params-round}
use privacypass_cpp.AuthScheme.Challenge
use privacypass_cpp.AuthScheme.Challenge.{
  ChallengeHeader, parse_all, decode_challenge, decode_token_key, build_www_authenticate,
}
use privacypass_cpp.AuthScheme.Challenge.Carried.{IsCarried}
use privacypass_cpp.AuthScheme.Challenge.RoundTrip.{joined, parse_all-joined}
use privacypass_cpp.AuthScheme.Challenge.Build.{parse-build_www_authenticate}
use privacypass_cpp.AuthScheme.Authorization
use privacypass_cpp.AuthScheme.Authorization.{build_authorization, parse_authorization}
use privacypass_cpp.AuthScheme.Authorization.RoundTrip.{parse_authorization-build_authorization}
use privacypass_cpp.AuthScheme.Authorization.Answers.{Answers, parse-Answers}
use privacypass_cpp.Tests.Formats.{
  token, challenge, challenge-IsValid, all_bytes, all_bytes-IsBytes,
}

token-IsValid : Token.RoundTrip.IsValid token
unfolding Token.validate for_type to_u16
token-IsValid = record { nonce = refl; digest = refl; key_id = refl; validated = refl }

wire-IsBytes : IsBytes (wire token)
unfolding all_bytes to_u16
wire-IsBytes = all_bytes-IsBytes (wire token) refl

parse_authorization-build_authorization_example :
    (header : Bytes) × (build_authorization token ≡ ok header)
    × (parse_authorization header ≡ ok token)
parse_authorization-build_authorization_example =
    parse_authorization-build_authorization token token-IsValid wire-IsBytes

parse-Answers_example :
    Answers (text "PrivateToken key=") (Authorization.parse (text "PrivateToken key="))
parse-Answers_example = parse-Answers (text "PrivateToken key=")

abbrev two_keys : ChallengeHeader
two_keys = record { challenge = text "AAI="; token_key = some (text "Aw=="); max_age = some 60 }

abbrev bare : ChallengeHeader
bare = record { challenge = text "AAE="; token_key = none; max_age = none }

two_keys-IsCarried : IsCarried two_keys
unfolding text
two_keys-IsCarried = record {
  plain = omega arith;
  present = omega arith;
  key = omega arith;
  age = omega arith;
}

bare-IsCarried : IsCarried bare
unfolding text
bare-IsCarried = record { plain = omega arith; present = omega arith; key = tt; age = tt }

parse_all-joined_example :
    (parse_all (joined two_keys (bare ∷ [])) ≡ ok (two_keys ∷ bare ∷ []))
    × (Challenge.parse (joined two_keys (bare ∷ [])) ≡ ok two_keys)
parse_all-joined_example =
    parse_all-joined two_keys (bare ∷ []) two_keys-IsCarried (bare-IsCarried, tt)

params-round_example : params 20 (text "token=\"ab\"") ≡ one_round (text "token=\"ab\"")
unfolding text
params-round_example = params-round (text "token=\"ab\"") 20 (omega arith)

abbrev challenge_bytes : Bytes
challenge_bytes = TokenChallenge.RoundTrip.wire challenge

challenge-written : TokenChallenge.serialize challenge ≡ ok challenge_bytes
unfolding TokenChallenge.join TokenChallenge.join_rest
challenge-written = serialize-wire challenge (omega arith, omega arith) (omega arith)

parse-build_www_authenticate_example :
    (header : Bytes) × (h : ChallengeHeader) × (build_www_authenticate challenge
        (text "key")
        (some 60)
      ≡ ok header)
    × (Challenge.parse header ≡ ok h)
    × (decode_challenge h ≡ ok challenge)
    × (decode_token_key h ≡ ok (text "key"))
    × (h.max_age ≡ some 60)
unfolding all_bytes text to_u16 TokenChallenge.join TokenChallenge.join_rest
parse-build_www_authenticate_example =
    parse-build_www_authenticate challenge (text "key") (some 60) challenge_bytes challenge-IsValid
      challenge-written (all_bytes-IsBytes challenge_bytes refl) (omega arith) (omega arith)
