-- ===== src/Moq/AuthorizationInfo/Parse/RoundTrip.antt =====
-- An information within the limits of its format comes back, also as the text of `origin_info`.
use privacypass_cpp.Prelude.{
  ◌%◌, ◌^◌, ◌≤◌, ◌≡◌, refl, ap, ◌∙◌, List, [], ◌∷◌, ◌++◌, length, append_assoc, append-nil, All,
  arith,
}
use privacypass_cpp.Types.{Bytes, IsBytes, ok}
use privacypass_cpp.Base64Url
use privacypass_cpp.Base64Url.RoundTrip.{decode-encode}
use privacypass_cpp.Serialization.Reader.Window.{
  u16_bytes, read_u8-Takes, read_u16-Takes, read_bytes-Takes,
}
use privacypass_cpp.Serialization.Writer.{write_u16, write_bytes, ◌▷◌}
use privacypass_cpp.Serialization.Writer.Own.{
  holding, push_u8, own_writes, writer-holding, take_data-holding,
}
use privacypass_cpp.Serialization.Parser.Rules.{
  Reads, pure-Reads, run-Reads, read-Reads, >>=-Reads, lift-Reads,
}
use privacypass_cpp.Serialization.Collect.{encodings}
use privacypass_cpp.Serialization.Counted.{times-encodings}
use privacypass_cpp.Moq.AuthScope.{AuthScope}
use privacypass_cpp.Moq.AuthScope.Parse.RoundTrip
use privacypass_cpp.Moq.AuthScope.Parse.RoundTrip.{Fits, serialize-wire, deserialize-wire}
use privacypass_cpp.Moq.AuthorizationInfo.{
  AuthorizationInfo, write_scopes, serialize, encode_for_origin_info,
}
use privacypass_cpp.Moq.AuthorizationInfo.Parse.{
  next_scope, deserialize_from, deserialize, decode_from_origin_info,
}

-- A scope that fits its own format, in at most 65535 bytes.
abbrev pub FitsInfo : AuthScope → Type 0
FitsInfo scope = Fits scope × (length (RoundTrip.wire scope) ≤ 65535)

abbrev scope_wire : AuthScope → Bytes
scope_wire scope = u16_bytes (length (RoundTrip.wire scope)) ++ RoundTrip.wire scope

abbrev pub info_wire : AuthorizationInfo → Bytes
info_wire info = length info.scopes ∷ encodings scope_wire info.scopes

write_scopes-holding :
    (scopes : List AuthScope) (xs : Bytes)
    → All FitsInfo scopes
    → write_scopes scopes (holding xs) ≡ ok (holding (xs ++ encodings scope_wire scopes))
unfolding write_scopes
write_scopes-holding [] xs h = rw append-nil
write_scopes-holding (scope ∷ scopes) xs ((fits, short), hs) =
    let n = length (RoundTrip.wire scope) in
    let e : n % 2 ^ 16 ≡ n = omega arith in
    let step : (holding xs ▷ write_u16 (n % 2 ^ 16) ▷ write_bytes (RoundTrip.wire scope))
        ≡ holding (xs ++ scope_wire scope) =
      rw e (simp own_writes) in
    rw (serialize-wire scope fits, step) (write_scopes-holding scopes (xs ++ scope_wire scope) hs)
    ∙ ap (λ l. ok (holding l)) (append_assoc xs (scope_wire scope) (encodings scope_wire scopes))

serialize-info_wire :
    (info : AuthorizationInfo)
    → All FitsInfo info.scopes
    → length info.scopes ≤ 255
    → serialize info ≡ ok (info_wire info)
unfolding serialize
serialize-info_wire info h few =
    let e : length info.scopes % 2 ^ 8 ≡ length info.scopes = omega arith in
    rw (e, writer-holding, push_u8 [] (length info.scopes))
      (rw (write_scopes-holding info.scopes (length info.scopes ∷ []) h, take_data-holding) refl)

next_scope-Reads :
    (scope : AuthScope)
    → FitsInfo scope
    → (w : Bytes) → Reads next_scope (scope_wire scope ++ w) scope w
unfolding next_scope
next_scope-Reads scope (fits, short) w =
    read-Reads _ _ _ _ _ _ _ _ (read_u16-Takes _ _ (omega arith)) (
      read-Reads _ _ _ _ _ _ _ _ (read_bytes-Takes _ (RoundTrip.wire scope) w refl)
        (lift-Reads _ scope w (deserialize-wire scope fits)))

scopes-Reads :
    (scopes : List AuthScope)
    → All FitsInfo scopes
    → All (λ s. (w : Bytes) → Reads next_scope (scope_wire s ++ w) s w) scopes
scopes-Reads [] h = tt
scopes-Reads (s ∷ scopes) (h, hs) = (next_scope-Reads s h, scopes-Reads scopes hs)

deserialize_from-Reads :
    (info : AuthorizationInfo) (w : Bytes)
    → All FitsInfo info.scopes
    → Reads deserialize_from (info_wire info ++ w) info w
unfolding deserialize_from
deserialize_from-Reads info w h =
    read-Reads _ _ _ _ _ _ _ _ (read_u8-Takes (length info.scopes) _) (
      >>=-Reads _ _ _ _ _ _ _
        (times-encodings next_scope scope_wire [] info.scopes w (scopes-Reads info.scopes h))
        (pure-Reads info w))

-- An information with at most 255 scopes, each within its format and 65535 bytes, serialises, and
-- `deserialize` reads it back. If what is written are bytes, its base64url text is read back too.
pub deserialize_info-serialize :
    (info : AuthorizationInfo)
    → All FitsInfo info.scopes
    → length info.scopes ≤ 255
    → IsBytes (info_wire info)
    → (bytes : Bytes) × (serialize info ≡ ok bytes)
      × (deserialize bytes ≡ ok info)
      × (encode_for_origin_info info ≡ ok (Base64Url.encode bytes))
      × (decode_from_origin_info (Base64Url.encode bytes) ≡ ok info)
unfolding deserialize encode_for_origin_info decode_from_origin_info
deserialize_info-serialize info h few b =
    let bytes = info_wire info in
    let wrote = serialize-info_wire info h few in
    let back : deserialize bytes ≡ ok info =
      run-Reads _ _ info [] (rw (append-nil bytes) at (deserialize_from-Reads info [] h)) in
    (
      bytes,
      wrote,
      back,
      rw wrote refl,
      rw ((decode-encode bytes b).0, decode_from_origin_info) back,
    )
