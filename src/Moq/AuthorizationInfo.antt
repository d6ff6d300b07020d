-- ===== src/Moq/AuthorizationInfo.antt =====
-- `AuthorizationInfo` of extensions/moq/include/privacy_pass/extensions/moq/authorization_info.hpp
-- and extensions/moq/src/authorization_info.cpp.
pub mod Parse
pub mod Presets
pub mod Authorizes
use privacypass_cpp.Prelude.{
  ℕ, ◌+◌, ◌%◌, ◌^◌, Bool, true, false, not, List, [], ◌∷◌, ◌++◌, if◌then◌else◌, length,
}
use privacypass_cpp.Types.{Bytes, Result, ok, ◌>>=◌}
use privacypass_cpp.Base64Url
use privacypass_cpp.Serialization.Writer.{
  ByteWriter, writer, write_u8, write_u16, write_bytes, take_data, ◌▷◌,
}
use privacypass_cpp.Moq.{Action, Namespace, TrackName}
use privacypass_cpp.Moq.AuthScope.{AuthScope}
use privacypass_cpp.Moq.AuthScope

pub record AuthorizationInfo : Type 0 where
  pub scopes : List AuthScope

-- `Builder::add_scope` and `Builder::add_scopes`, on `scopes_`; `build()` copies it.
abbrev pub add_scope : AuthScope → List AuthScope → List AuthScope
add_scope scope scopes_ = scopes_ ++ scope ∷ []

pub add_scopes : List AuthScope → List AuthScope → List AuthScope
add_scopes [] scopes_ = scopes_
add_scopes (scope ∷ scopes) scopes_ = add_scopes scopes (add_scope scope scopes_)

abbrev pub build_info : List AuthScope → AuthorizationInfo
build_info scopes_ = record { scopes = scopes_ }

-- `for (const auto& scope : scopes) if (scope.authorizes(…)) return true; return false;`
pub any_authorizes : List AuthScope → Action → Namespace → TrackName → Bool
any_authorizes [] action ns track = false
any_authorizes (scope ∷ scopes) action ns track =
    if AuthScope.authorizes scope action ns track
    then true
    else any_authorizes scopes action ns track

unfoldable pub authorizes : AuthorizationInfo → Action → Namespace → TrackName → Bool
unfolding any_authorizes
authorizes info action ns track = any_authorizes info.scopes action ns track

pub authorizes_all : AuthorizationInfo → List Action → Namespace → TrackName → Bool
authorizes_all info [] ns track = true
authorizes_all info (action ∷ actions) ns track =
    if not (authorizes info action ns track) then false else authorizes_all info actions ns track

pub write_scopes : List AuthScope → ByteWriter → Result ByteWriter
write_scopes [] w = ok w
write_scopes (scope ∷ scopes) w = AuthScope.serialize scope >>= λ bytes.
    write_scopes scopes (w ▷ write_u16 (length bytes % 2 ^ 16) ▷ write_bytes bytes)

unfoldable pub serialize : AuthorizationInfo → Result Bytes
unfolding write_scopes
serialize info = write_scopes info.scopes (writer ▷ write_u8 (length info.scopes % 2 ^ 8)) >>= λ w.
    ok (take_data w)

pub encode_for_origin_info : AuthorizationInfo → Result Bytes
encode_for_origin_info info = serialize info >>= λ serialized. ok (Base64Url.encode serialized)
