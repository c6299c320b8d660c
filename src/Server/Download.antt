-- ===== src/Server/Download.antt =====
-- server/routes/download and server/routes/file: what a share lists, and a file's bytes.
pub mod Listing
pub mod Range
pub mod File
pub mod Counting
