-- ===== src/Vfs.antt =====
-- The vocabulary of the virtual file system that the nodes under pkg/filesystem/virtual speak:
-- status codes, attributes and open options, as far as those files name them. Their definitions
-- are in another repository; only the names and the fields that are read or set are used here.
use bb_clientd.Prelude.{ℕ, Bool, true, false, Option, none, some}

-- virtual.Status
pub data Status : Type 0 where
  ok err_access err_bad_handle err_exist err_io err_is_dir err_no_ent err_nxio : Status
  err_perm err_symlink err_wrong_type : Status

-- filesystem.FileType
pub data FileType : Type 0 where
  directory regular_file symlink : FileType

-- virtual.Permissions, a set of three bits
pub record Permissions : Type 0 where
  pub read : Bool
  pub write : Bool
  pub execute : Bool

-- virtual.Attributes: each setter fills in one field.
pub record Attributes : Type 0 where
  pub change_id : Option ℕ
  pub file_type : Option FileType
  pub has_named_attributes : Option Bool
  pub is_in_named_attribute_directory : Option Bool
  pub link_count : Option ℕ
  pub permissions : Option Permissions
  pub size_bytes : Option ℕ
  pub owner_user_id : Option ℕ
  pub owner_group_id : Option ℕ

abbrev pub no_attributes : Attributes
no_attributes = record {
  change_id = none;
  file_type = none;
  has_named_attributes = none;
  is_in_named_attribute_directory = none;
  link_count = none;
  permissions = none;
  size_bytes = none;
  owner_user_id = none;
  owner_group_id = none;
}

-- virtual.ShareMask, a set of two bits
pub record ShareMask : Type 0 where
  pub read : Bool
  pub write : Bool

-- virtual.OpenExistingOptions
pub record OpenExistingOptions : Type 0 where
  pub truncate : Bool

-- filesystem.RegionType
pub data RegionType : Type 0 where
  data_region hole_region : RegionType

-- Whether a getter finds its field set.
abbrev pub is_some {ℓ} : {A : Type ℓ} → Option A → Bool
is_some none = false
is_some (some a) = true
