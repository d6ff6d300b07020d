-- ===== src/Tests.antt =====
-- Tests of the definitions, and the theorems at concrete inputs.
pub mod Formats
pub mod Cache
pub mod Nonces
pub mod Origins
pub mod Structure
pub mod Scopes
pub mod Headers
pub mod Authenticator
pub mod Issuance
pub mod Provider
