-- ===== src/Lib.antt =====
-- privacypass-cpp, a C++ implementation of the Privacy Pass issuance and redemption protocols
-- (RFC 9576, 9577, 9578), as functions with theorems about them.
--
-- The program. An origin challenges a client (`TokenChallenge`), the client asks an issuer for a
-- token (`TokenRequest`, `TokenResponse`, or batches of these), and redeems the token (`Token`) at
-- the origin. The origin compares the token with the challenge, looks for the issuer's key by the
-- token's key id, checks the signature of the `AuthenticatorInput`, and refuses a nonce that it has
-- seen (`ReplayCache`). All messages are read with `ByteReader` and written with `ByteWriter`.
-- `Origin` holds an origin for each kind of key, and `TokenAuthenticator` validates and redeems
-- tokens over an `Origin` and the issuers that it trusts. Challenges and tokens travel in HTTP
-- headers; the Media over QUIC extension puts the scopes of an authorization into a challenge.
--
-- Which file models which part (paths from the repository's root):
--   Types                 include/privacy_pass/core/types.hpp, src/core/types.cpp
--   Text                  `std::to_string`, `std::stoul` and `starts_with`; Decimal relates them
--   Serialization         include/privacy_pass/core/serialization.hpp: Reader is `ByteReader`,
--                         Writer is `ByteWriter`, Varint is `varint_size`; Parser is the shape that
--                         the `deserialize` functions share, Collect the loop of the batches,
--                         Counted the loops behind a count
--   Base64Url             src/core/serialization.cpp
--   AuthenticatorInput    src/core/token.cpp, as is Token
--   TokenChallenge        src/core/token_challenge.cpp
--   TokenRequest          src/core/token_request.cpp, as is BatchedTokenRequest
--   TokenResponse         src/core/token_response.cpp, as are OptionalTokenResponse and
--                         BatchedTokenResponse
--   NonceSet, ReplayCache src/core/origin.cpp: the set of nonces, and the cache of buckets
--   PublicOrigin          src/core/origin.cpp: keys, `verify`, `verify_and_redeem`
--   PrivateOrigin         src/core/origin.cpp: `validate_structure` and the redeemed nonces
--   Origin                src/core/origin.cpp: the origin over both, with its own replay cache
--   RedeemedNonces        src/core/token_authenticator.cpp: the nonces that `TokenAuthenticator`
--                         has redeemed, with the times at which it did
--   TokenAuthenticator    src/core/token_authenticator.cpp: validation, redemption, trusted issuers
--   AuthScheme            src/http/auth_scheme.cpp: the parameters of a header; Split finds the
--                         challenges, Challenge and Authorization are the two headers
--   Moq                   extensions/moq: the actions and match types of types.hpp; Match is the
--                         rules, AuthScope src/auth_scope.cpp, AuthorizationInfo
--                         src/authorization_info.cpp, each with a Parse for `deserialize`
--   Client                src/core/client.cpp: PublicClient, PrivateClient, and UnifiedClient, which
--                         is `Client`
--   Issuer                src/core/issuer.cpp: PublicIssuer, PrivateIssuer, and MultiKeyIssuer, whose
--                         maps are in KeyStore
--   TokenProvider         src/core/token_provider.cpp: the keys and the cache of tokens; Requests is
--                         what it does over the clients
--   Protocol              a run of client, issuer and origin with an RSA key
--   Tests                 the definitions and theorems at concrete values
-- A definition has the name of the function that it models, and a record the fields of its struct.
--
-- The model. Bytes are natural numbers, and what needs them below 256 says so (`IsBytes`); a value of
-- w bits has its wrap-around written out. Errors are values of `Result`, with the code and the
-- message of the source. A reader or writer is its state, and each method returns the next one. The
-- replay cache's mutex makes each call one step, and the tick that the clock gives it is an argument.
-- A set of nonces is a list without duplicates, a map is a list of entries. The order of these has no
-- influence but on the list of `public_keys` and on which of several matching keys
-- `TokenProvider.finalize` takes; there it is that in which the entries came.
--
-- The hash, the methods of the keys and the text form of a key (`to_spki` and `from_spki`, `to_bytes`
-- and `from_bytes`) are parameters: `RsaCrypto`, `KeyCodec`, `BlindRsaKeys`, `VoprfKeys`,
-- `BlindRsaSigner`, `VoprfSigner`. The random bytes that a call draws are an argument. `char` is
-- signed and `unsigned long` has 64 bits, as on the usual platforms.
--
-- Fuel. The loops of the two batches run on one round more than the payload has bytes, and `none`
-- would say that this was not enough; each round takes one byte at least. The loop over a header's
-- parameters has a round for each byte, and the search for a pattern one for each place where it can
-- start; neither needs more.
--
-- Not modelled: the wrappers of the cryptographic libraries (src/crypto). src/http/header_parser.cpp
-- holds no code. `SecureBytes` and the names of codes, actions and match types are left out, since no
-- modelled part uses them.
pub mod Prelude
pub mod Types
pub mod Tests
pub mod Text
pub mod AuthScheme
pub mod Base64Url
pub mod Serialization
pub mod AuthenticatorInput
pub mod Token
pub mod TokenRequest
pub mod TokenResponse
pub mod Moq
pub mod Client
pub mod Issuer
pub mod Protocol
pub mod TokenProvider
pub mod NonceSet
pub mod ReplayCache
pub mod RedeemedNonces
pub mod PublicOrigin
pub mod Origin
pub mod TokenAuthenticator
pub mod PrivateOrigin
pub mod OptionalTokenResponse
pub mod BatchedTokenResponse
pub mod TokenChallenge
pub mod BatchedTokenRequest
