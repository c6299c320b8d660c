-- ===== src/Crypto/Stream.antt =====
-- lib/crypto/stream.ts: a file as a stream of encrypted packets, and a byte stream back to a file.
-- The packet size is a parameter here; the program's is `Types.chunk_size`. The caller's abort
-- signal is not raised. A generator is the list of what it yields with the way it ended.
pub mod Reader
pub mod Encrypt
pub mod Decrypt
pub mod RoundTrip
