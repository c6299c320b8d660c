-- ===== src/Crypto.antt =====
-- lib/crypto: how a file becomes an encrypted byte stream and comes back.
pub mod Types
pub mod Bytes
pub mod Packet
pub mod Cipher
pub mod Aad
pub mod Stream
pub mod Tests
