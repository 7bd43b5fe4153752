-- ===== src/CasDirectory/Attributes.antt =====
-- VirtualGetAttributes() of casDirectory in pkg/filesystem/virtual/cas_directory.go.
use bb_clientd.Prelude.{ℕ, true, false, some}
use bb_clientd.Vfs.{Attributes, FileType}

-- The link count is the constant ImplicitDirectoryLinkCount, the size that of the object the
-- directory is in.
unfoldable pub virtual_get_attributes : ℕ → ℕ → Attributes → Attributes
virtual_get_attributes implicit_directory_link_count size_bytes attributes = record attributes {
  change_id = some 0;
  file_type = some FileType.directory;
  has_named_attributes = some false;
  is_in_named_attribute_directory = some false;
  link_count = some implicit_directory_link_count;
  permissions = some (record { read = true; write = false; execute = true });
  size_bytes = some size_bytes;
}
