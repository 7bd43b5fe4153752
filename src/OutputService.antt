-- ===== src/OutputService.antt =====
-- pkg/filesystem/virtual/bazel_output_service_directory.go.
pub mod Ring
pub mod Order
pub mod State
pub mod Invariant
pub mod Creation
pub mod Unlinking
pub mod Reuse
pub mod Builds
pub mod Cleaning
pub mod Sessions
pub mod Refinement
pub mod Refines
pub mod Starting
pub mod Promises
pub mod Attributes
pub mod ReadDir
pub mod Filter
pub mod Requests
pub mod Staging
pub mod Stat
mod Tests
