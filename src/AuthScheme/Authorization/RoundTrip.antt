-- ===== src/AuthScheme/Authorization/RoundTrip.antt =====
-- A header that `build_authorization` makes is read back.
use privacypass_cpp.Prelude.{
  ◌<◌, ◌≡◌, refl, ap, ◌∙◌, false, some, [], ◌∷◌, ◌++◌, ◌==◌, length, arith,
}
use privacypass_cpp.Types.{Bytes, IsBytes, text, ok}
use privacypass_cpp.Text.{starts_with}
use privacypass_cpp.NonceSet.{same}
use privacypass_cpp.Base64Url
use privacypass_cpp.Base64Url.RoundTrip.{decode-encode}
use privacypass_cpp.Base64Url.Alphabet.{encode_padded-plain}
use privacypass_cpp.Token.{Token}
use privacypass_cpp.Token.RoundTrip.{IsValid, wire, serialize-wire, deserialize_token-eq-ok_iff}
use privacypass_cpp.AuthScheme.{all_params, parse_auth_param, skip_separator}
use privacypass_cpp.AuthScheme.Params.{IsPlain, quoted-IsPlain, all_params-cons, all_params-nil}
use privacypass_cpp.AuthScheme.Authorization.{
  AuthorizationHeader, format, parse, decode_token, build_authorization, parse_authorization,
}

token_param :
    (token : Bytes)
    → IsPlain token
    → parse_auth_param (text "token=\"" ++ (token ++ 34 ∷ [])) ≡ some ((text "token", token), [])
unfolding parse_auth_param text skip_separator
token_param token plain = rw (quoted-IsPlain [] token [] plain) refl

token_params :
    (token : Bytes)
    → IsPlain token
    → all_params (text "token=\"" ++ (token ++ 34 ∷ [])) ≡ (text "token", token) ∷ []
unfolding text
token_params token plain =
    all_params-cons _ _ (text "token", token) [] (token_param token plain)
    ∙ ap (λ l. (text "token", token) ∷ l) all_params-nil

-- A header with a token, none of whose bytes is a quote or a backslash, is read back.
parse-format :
    (h : AuthorizationHeader) → IsPlain h.token → 0 < length h.token → parse (format h) ≡ ok h
unfolding parse format text starts_with same
parse-format h plain long =
    let e : (length h.token == 0) ≡ false = ground arith in
    rw (token_params h.token plain) (rw e refl)

-- A valid token of bytes goes through the header: `build_authorization` answers one, and
-- `parse_authorization` reads the token back from it.
pub parse_authorization-build_authorization :
    (token : Token)
    → IsValid token
    → IsBytes (wire token)
    → (header : Bytes) × (build_authorization token ≡ ok header)
      × (parse_authorization header ≡ ok token)
unfolding build_authorization parse_authorization decode_token
parse_authorization-build_authorization token valid bytes =
    let encoded = Base64Url.encode_padded (wire token) in
    let long : 0 < length (wire token) = omega arith in
    let (plain, some_bytes) = encode_padded-plain (wire token) bytes in
    (
      format (record { token = encoded }),
      rw (serialize-wire token) refl,
      rw (parse-format (record { token = encoded }) plain (some_bytes long), parse_authorization)
          (rw (decode-encode (wire token) bytes).1 (
            (deserialize_token-eq-ok_iff (wire token) token bytes).1
              (serialize-wire token, valid))),
    )
