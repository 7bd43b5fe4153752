-- ===== src/Lib.antt =====
-- bb_clientd: a verification library for the daemon's own logic.
--
-- The program runs next to a build client. It offers a virtual file system whose files and
-- directories come from a Content Addressable Storage (CAS), and in it the Bazel Output Service,
-- where builds put their outputs. The parts that are modelled, with their files in the
-- repository:
--
--   OutputService  pkg/filesystem/virtual/bazel_output_service_directory.go. State holds the two
--                  maps and the circular list of output paths as a heap, and one function for
--                  what each method does under the lock: start_build_locked for StartBuild(),
--                  detach for Clean(), finalize_build_locked for FinalizeBuild(). Builds
--                  interleaves them as steps; Sessions is about build IDs, ReadDir about
--                  VirtualReadDir(). Refinement states the service without its objects, list and
--                  cookies; Refines, Starting and Promises relate the two. Filter is
--                  filterMissingChildren(), which StartBuild() calls after that; Staging is
--                  StageArtifacts() and Stat is BatchStat(), which both start from the build ID's
--                  object. Cleaning and Requests are Clean() and StartBuild() from the request to
--                  the answer; Attributes is VirtualGetAttributes() and VirtualOpenChild().
--   StateFile      pkg/outputpathpersistency: header.go, file_writer.go, file_reader.go.
--                  Overwrite and Format are the file and its header; Buffered is bufio.Writer
--                  over offsetWriter; Writer and Reader are fileWriter and fileReader.
--   Store          pkg/outputpathpersistency: directory_backed_store.go, on a directory that is a
--                  record of operations (Directory), and maximum_age_store.go (Age). Untouched
--                  and Atomic are about what a session leaves of the directory, Persisted and
--                  Cleaning about reading after it.
--   Persistent     pkg/filesystem/virtual/persistent_output_path_factory.go. Save and Restore are
--                  saveDirectoryRecursive() and restoreDirectoryRecursive(), Factory the factory
--                  and the output path; Backed puts it on the store of Store. Stored and Saved
--                  say how a tree stands in a state file, Filling what a directory is to be
--                  filled with, and Populate relates restoring to it.
--   Uploads        pkg/filesystem/virtual/local_file_uploading_output_path_factory.go: the
--                  traversal of an output path at the end of a build (Visits) and FinalizeBuild()
--                  (Outcome).
--   CommandFile    pkg/filesystem/virtual/blob_access_command_file_factory.go: shell scripts that
--                  are made anew for each read.
--   Retry          pkg/blobstore/error_retrying_blob_access.go: exponential backoff around the
--                  CAS.
--   CasDirectory   pkg/filesystem/virtual/cas_directory.go: a read-only directory for a Directory
--                  message, with its handles, VirtualLookup(), VirtualOpenChild() (Open) and
--                  VirtualReadDir().
--   CasFactories   pkg/filesystem/virtual/tree_cas_directory_factory.go; Decomposed is
--                  decomposed_cas_directory_factory.go and Walker
--                  pkg/cas/tree_directory_walker.go. They give CasDirectory its contexts.
--   Parsing        pkg/filesystem/virtual/digest_parsing_directory.go (Digests), the directories
--                  whose names are hashes and sizes, and instance_name_parsing_directory.go with
--                  non_iterable_directory.go (InstanceNames), those that collect an instance
--                  name.
--   Vfs            the vocabulary of the virtual file system that the files above share.
--   Prelude        notation, lists, machine words, maps and results.
--
-- How they interact: the output service keeps the directories of its output paths, whose contents
-- Persistent saves to state files between builds: through Store, which keeps the files, and
-- StateFile, which is their format. CAS directories and command files are other parts of the same
-- file system. All of them read the CAS, the output service through the retrying decorator.
--
-- Conventions. Bytes are numbers; an int64 or uint64 is a number below 2 ^ 64 whose sums wrap,
-- and an int32 one below 2 ^ 32. Code outside the repository is an argument: the storage, the
-- clock, protobuf, files, digests, symbolic links and handles. What a proof needs of it is a
-- named hypothesis. An error is a value that names its cause; its text is left out. Panics and
-- nil dereferences are values of their own, `none` or `panicked`.
--
-- Fuel. virtual_read_dir of OutputService has fuel for one more than changeID objects: every
-- object of the list has its own cookie below changeID. The retry loop has fuel for two calls
-- more than the maximum delay in nanoseconds. Restoring has fuel for two more levels than the
-- state file has bytes: every level of directories lies below the one that refers to it. search
-- has fuel for one more than the length of the list.
--
-- Bounds. changeID stays below 2 ^ 64, the maximum size of a state file below 2 ^ 63 - 2 ^ 31,
-- and the maximum retry interval below 2 ^ 62 nanoseconds; time itself is not bounded, and the
-- maximum delay is not negative. The object that StartBuild() makes also keeps a factory of CAS
-- files, which is left out with the calls that use it. Attributes of the children that a
-- directory reports are the children's own, and are left to the caller.
--
-- Not modelled: the in-memory output paths and the handles of command files, which only call
-- constructors of other repositories; main.go, which reads the configuration and wires the parts;
-- the generated configuration schema and the mocks.
mod Prelude
pub mod Vfs
pub mod CommandFile
pub mod StateFile
pub mod Persistent
pub mod Store
pub mod Uploads
pub mod OutputService
pub mod Retry
pub mod Parsing
pub mod CasDirectory
pub mod CasFactories
