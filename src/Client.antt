-- ===== src/Client.antt =====
-- lib/upload and lib/download: the browser's side of an upload and of a download.
pub mod Repartition
pub mod Windows
pub mod Download
pub mod Uploader
pub mod BufferAhead
mod Tests
mod DownloadTests
mod UploadTests
mod BufferTests
