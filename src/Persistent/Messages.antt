-- ===== src/Persistent/Messages.antt =====
-- The messages of a state file that pkg/filesystem/virtual/persistent_output_path_factory.go reads
-- and writes. They are generated from schemas of other repositories; a digest is the message `P`.
use Prim.Native.String.{String}
use bb_clientd.Prelude.{Bool, Option, List, []}
use bb_clientd.StateFile.Format.{FileRegion}

pub record DirectoryNode : Type 0 where
  pub name : String
  pub file_region : Option FileRegion

pub record FileNode (P : Type 0) : Type 0 where
  pub name : String
  pub digest : P
  pub is_executable : Bool

pub record SymlinkNode : Type 0 where
  pub name : String
  pub target : String

-- outputpathpersistency.Directory
pub record Directory (P : Type 0) : Type 0 where
  pub directories : List DirectoryNode
  pub files : List (FileNode P)
  pub symlinks : List SymlinkNode

abbrev pub empty_directory : {P : Type 0} → Directory P
empty_directory = record { directories = []; files = []; symlinks = [] }

-- What ApplyAppendOutputPathPersistencyDirectoryNode appends for a leaf that supports it.
pub data Applied (P : Type 0) : Type 0 where
  file : P → Bool → Applied P
  symlink : String → Applied P
