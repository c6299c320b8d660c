-- ===== src/Server.antt =====
-- server/routes/upload, server/routes/file and server/routes/download, with lib/share-auth.ts.
pub mod State
pub mod ShareAuth
pub mod Upload
pub mod Download
mod Tests
