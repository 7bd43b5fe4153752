-- ===== src/StateFile.antt =====
-- pkg/outputpathpersistency: the format of an output path state file (header.go, file_writer.go,
-- file_reader.go). The children hold the format, the writer, the reader, and the theorems.
pub mod Overwrite
pub mod Format
pub mod Buffered
pub mod Writer
pub mod Reader
pub mod RoundTrip
mod Tests
