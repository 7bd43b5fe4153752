-- ===== src/Parsing.antt =====
-- The directories of pkg/filesystem/virtual whose names are parsed: digest_parsing_directory.go,
-- instance_name_parsing_directory.go and non_iterable_directory.go.
pub mod Digests
pub mod Decimal
pub mod Filenames
pub mod InstanceNames
pub mod Identifiers
mod Tests
