-- ===== src/Issuer.antt =====
-- include/privacy_pass/core/issuer.hpp and src/core/issuer.cpp: the issuers.
pub mod PublicIssuer
pub mod PrivateIssuer
pub mod KeyStore
pub mod MultiKeyIssuer
use privacypass_cpp.Prelude.{Option}
use privacypass_cpp.Types.{Result, ok, err}
use privacypass_cpp.TokenResponse.{TokenResponse}
use privacypass_cpp.OptionalTokenResponse.{OptionalTokenResponse, absent, present_response}

-- What a batch holds for a request: the response, or that there is none.
abbrev pub optional_response : Result TokenResponse → OptionalTokenResponse
optional_response (ok response) = present_response response
optional_response (err e) = absent
