-- ===== src/Resource.antt =====
-- ResourceServer: the transfer of files in chunks.
mod Tests
pub mod Disk
pub mod Upload
pub mod Download
pub mod Logic
