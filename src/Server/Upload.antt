-- ===== src/Server/Upload.antt =====
-- server/routes/upload: start a session, send its parts, complete it.
pub mod Session
pub mod Start
pub mod Chunk
pub mod PartAck
pub mod Complete
