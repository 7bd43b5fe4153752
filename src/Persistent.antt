-- ===== src/Persistent.antt =====
-- pkg/filesystem/virtual/persistent_output_path_factory.go: output paths whose contents are saved
-- to a state file after each build, and restored from it.
pub mod Messages
pub mod Save
pub mod Restore
pub mod Leaves
pub mod Stored
pub mod Saved
pub mod Filling
pub mod Populate
pub mod Factory
pub mod Backed
pub mod Steps
pub mod RoundTrip
pub mod Restart
pub mod Ends
pub mod Removal
pub mod Leaks
mod Codec
mod Tests
