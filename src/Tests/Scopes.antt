-- ===== src/Tests/Scopes.antt =====
-- Scopes of the Media over QUIC extension at concrete values: a subscriber to the track `v` in the
-- namespace `a`, `b`, and a publisher in that namespace.
use privacypass_cpp.Prelude.{◌≡◌, ◌↔◌, refl, true, [], ◌∷◌, ◌++◌, arith}
use privacypass_cpp.Types.{Bytes, IsBytes, ok, text}
use privacypass_cpp.Base64Url
use privacypass_cpp.Tests.Formats.{all_bytes, all_bytes-IsBytes}
use privacypass_cpp.Moq.{
  subscribe, publish, fetch, Namespace, is_named_action, is_named_match, match_exact, match_prefix,
  action_code, match_code,
}
use privacypass_cpp.Moq.AuthScope
use privacypass_cpp.Moq.AuthScope.{AuthScope, namespace_rule, track_rule, any_track}
use privacypass_cpp.Moq.AuthScope.Authorizes.{Grants, authorizes-true_iff}
use privacypass_cpp.Moq.AuthScope.Parse.RoundTrip.{Fits, deserialize_scope-serialize}
use privacypass_cpp.Moq.AuthorizationInfo
use privacypass_cpp.Moq.AuthorizationInfo.{AuthorizationInfo}
use privacypass_cpp.Moq.AuthorizationInfo.Parse.RoundTrip.{info_wire, deserialize_info-serialize}

abbrev ab : Namespace
ab = text "a" ∷ text "b" ∷ []

abbrev subscriber : AuthScope
subscriber = record {
  actions = subscribe ∷ fetch ∷ [];
  namespace_match = namespace_rule (record { match_type = match_exact; pattern = ab });
  track_name_match = track_rule (record { match_type = match_exact; pattern = text "v" });
}

abbrev publisher : AuthScope
publisher = record {
  actions = publish ∷ [];
  namespace_match = namespace_rule (record { match_type = match_prefix; pattern = ab });
  track_name_match = any_track;
}

authorizes-true_iff_example :
    (AuthScope.authorizes subscriber fetch ab (text "v") ≡ true)
    ↔ Grants subscriber fetch ab (text "v")
authorizes-true_iff_example = authorizes-true_iff subscriber fetch ab (text "v")

subscriber-Fits : Fits subscriber
unfolding is_named_action is_named_match text
subscriber-Fits = record {
  few = omega arith;
  named = (refl, (refl, tt));
  in_namespace = (refl, omega arith, (omega arith, (omega arith, tt)));
  in_track = (refl, omega arith);
}

publisher-Fits : Fits publisher
unfolding is_named_action is_named_match text
publisher-Fits = record {
  few = omega arith;
  named = (refl, tt);
  in_namespace = (refl, omega arith, (omega arith, (omega arith, tt)));
  in_track = tt;
}

deserialize_scope-serialize_example :
    (bytes : Bytes) × (AuthScope.serialize subscriber ≡ ok bytes)
    × (AuthScope.Parse.deserialize (bytes ++ 9 ∷ []) ≡ ok subscriber)
deserialize_scope-serialize_example =
    deserialize_scope-serialize subscriber (9 ∷ []) subscriber-Fits

abbrev both : AuthorizationInfo
both = record { scopes = subscriber ∷ publisher ∷ [] }

both-IsBytes : IsBytes (info_wire both)
unfolding all_bytes text action_code match_code
both-IsBytes = all_bytes-IsBytes (info_wire both) refl

deserialize_info-serialize_example :
    (bytes : Bytes) × (AuthorizationInfo.serialize both ≡ ok bytes)
    × (AuthorizationInfo.Parse.deserialize bytes ≡ ok both)
    × (AuthorizationInfo.encode_for_origin_info both ≡ ok (Base64Url.encode bytes))
    × (AuthorizationInfo.Parse.decode_from_origin_info (Base64Url.encode bytes) ≡ ok both)
unfolding text
deserialize_info-serialize_example =
    deserialize_info-serialize both
      ((subscriber-Fits, omega arith), ((publisher-Fits, omega arith), tt)) (omega arith)
      both-IsBytes
