-- ===== src/AuthScheme/Authorization.antt =====
-- `AuthorizationHeader`, `build_authorization` and `parse_authorization`.
pub mod RoundTrip
pub mod Answers
use privacypass_cpp.Prelude.{ℕ, Bool, not, List, [], ◌∷◌, ◌++◌, ◌==◌, if◌then◌else◌, length, drop}
use privacypass_cpp.Types.{
  Bytes, text, invalid_header, missing_parameter, error, Result, ok, err, ◌>>=◌,
}
use privacypass_cpp.Text.{starts_with}
use privacypass_cpp.NonceSet.{same}
use privacypass_cpp.Base64Url
use privacypass_cpp.Token
use privacypass_cpp.Token.{Token}
use privacypass_cpp.AuthScheme.{Param, all_params}
use privacypass_cpp.AuthScheme.Split.{scheme}

-- `AuthorizationHeader` has the one field `token`.
pub record AuthorizationHeader : Type 0 where
  pub token : Bytes

unfoldable pub format : AuthorizationHeader → Bytes
format h = text "PrivateToken token=\"" ++ (h.token ++ text "\"")

-- The rounds of the loop: each sets `token` if that is its key.
pub assign_token : List Param → Bytes → Bytes
assign_token [] token = token
assign_token ((key, value) ∷ params) token =
    assign_token params (if same key (text "token") then value else token)

unfoldable pub parse : Bytes → Result AuthorizationHeader
unfolding all_params assign_token
parse header =
    if not (starts_with scheme header)
    then err (error invalid_header "Not a PrivateToken header")
    else let token = assign_token (all_params (drop 13 header)) [] in
      if length token == 0
      then err (error missing_parameter "Missing token parameter")
      else ok (record { token = token })

pub decode_token : AuthorizationHeader → Result Token
decode_token h = Base64Url.decode h.token >>= Token.deserialize

pub build_authorization : Token → Result Bytes
build_authorization token = Token.serialize token >>= λ serialized.
    ok (format (record { token = Base64Url.encode_padded serialized }))

pub parse_authorization : Bytes → Result Token
parse_authorization header = parse header >>= decode_token
