-- ===== src/Parsing/InstanceNames.antt =====
-- pkg/filesystem/virtual/instance_name_parsing_directory.go and non_iterable_directory.go: pathname
-- components that make up an instance name, up to a reserved keyword.
--
-- A component is its bytes. NewInstanceNameFromComponents(), the lookup functions of the keywords
-- and the directories that they return are in other repositories: they are arguments. The handle
-- allocator makes a directory whose identity is what WriteTo() writes for its path.
use bb_clientd.Prelude.{ℕ, ◌+◌, Option, none, some, List, [], ◌∷◌, ◌++◌, length}
use bb_clientd.Prelude.Results.{Result, ok, err}
use bb_clientd.Vfs.{Status}

abbrev pub slash : ℕ
slash = 47

-- WriteTo(): the writes of its loop, then the last one.
unfoldable pub write_to : List (List ℕ) → List ℕ
write_to [] = slash ∷ []
write_to (component ∷ path) = component ++ (slash ∷ write_to path)

-- nTotal, as an int64
unfoldable pub written_by : List (List ℕ) → ℕ
written_by [] = 1
written_by (component ∷ path) = length component + 1 + written_by path

-- instanceNameParsingDirectory, with the handle that the allocator gave it.
pub record ParsingDirectory : Type 0 where
  pub path : List (List ℕ)
  pub handle : List ℕ

-- createDirectory()
unfoldable pub create_directory : List (List ℕ) → ParsingDirectory
create_directory path = record { path = path; handle = write_to path }

-- NewInstanceNameParsingDirectory()
unfoldable pub new_parsing_directory : ParsingDirectory
new_parsing_directory = create_directory []

-- VirtualReadDir() of nonIterableDirectory
abbrev pub virtual_read_dir : ParsingDirectory → ℕ → Status
virtual_read_dir d first_cookie = Status.err_access

-- A child: another parsing directory, or the target of a keyword.
pub data Found (Dir : Type 0) : Type 0 where
  parsing : ParsingDirectory → Found Dir
  target : Dir → Found Dir

module _ {InstanceName Dir : Type 0} (lookup_funcs : List ℕ → Option (InstanceName → Dir))
    (new_instance_name : List (List ℕ) → Option InstanceName) where
  -- VirtualLookup(); the attributes are those of the child.
  unfoldable pub virtual_lookup : ParsingDirectory → List ℕ → Result Status (Found Dir)
  virtual_lookup d name = elim (lookup_funcs name) [
    | some lookup_func ↦ elim (new_instance_name d.path) [
      | none ↦ err Status.err_no_ent
      | some instance_name ↦ ok (target (lookup_func instance_name))
    ]
    | none ↦ ok (parsing (create_directory (d.path ++ (name ∷ []))))
  ]

  -- Lookups one after another, as long as there is another parsing directory. A name below the
  -- target is the target's own.
  unfoldable pub walk : ParsingDirectory → List (List ℕ) → Result Status (Found Dir)
  walk d [] = ok (parsing d)
  walk d (name ∷ names) = elim (virtual_lookup d name) [
    | err s ↦ err s
    | ok (target found) ↦ ok (target found)
    | ok (parsing child) ↦ walk child names
  ]
