-- ===== src/Serialization.antt =====
-- include/privacy_pass/core/serialization.hpp and src/core/serialization.cpp: the byte reader, the
-- byte writer, the variable-length integers and base64url.
pub mod Reader
pub mod Writer
pub mod Parser
pub mod Varint
pub mod Collect
pub mod Counted
