-- ===== src/CommandFile.antt =====
-- pkg/filesystem/virtual/blob_access_command_file_factory.go: files that hold a shell script
-- which is generated anew on every read.
--
-- The Content Addressable Storage and builder.ConvertCommandToShellScript() are in other
-- repositories. A load is an argument: what Get().ToProto() returns at a given moment. The
-- converter is an argument too: the strings that it writes, and whether it then fails. A writer
-- is a state and a WriteString() that returns the next one; the two writers of the file never
-- fail. Bytes are numbers; a uint64 is a number below 2 ^ 64.
pub mod Writers
pub mod Read
pub mod Tests
use bb_clientd.Prelude.{
  ℕ, ◌+◌, ◌-◌, ◌%◌, ◌^◌, Bool, true, false, ◌||◌, Option, none, some, List, [], ◌∷◌, ◌++◌, length,
  take, drop, min, leb, ltb, if◌then◌else◌,
}
use bb_clientd.Vfs
use bb_clientd.Vfs.{
  Status, Attributes, ShareMask, OpenExistingOptions, RegionType, data_region, hole_region,
}

-- WriteString() adds the length to a uint64.
pub record SizeCountingWriter : Type 0 where
  pub size : ℕ

pub count_string : SizeCountingWriter → List ℕ → SizeCountingWriter
count_string w s = record { size = (w.size + length s) % 2 ^ 64 }

-- The slice `buf` is a window of the caller's buffer: `room` is its length, and `copied` is what
-- stands in the buffer in front of it.
pub record RegionExtractingWriter : Type 0 where
  pub copied : List ℕ
  pub room : ℕ
  pub offset : ℕ

pub extract_string : RegionExtractingWriter → List ℕ → RegionExtractingWriter
extract_string w s =
    if leb (length s) w.offset then record w { offset = w.offset - length s } else record {
      copied = w.copied ++ take w.room (drop w.offset s);
      room = w.room - min w.room (length (drop w.offset s));
      offset = 0;
    }

-- The calls of WriteString() that the converter makes, in order.
pub write_all {ℓ} : {W : Type ℓ} → (W → List ℕ → W) → W → List (List ℕ) → W
write_all write w [] = w
write_all write w (s ∷ ss) = write_all write (write w s) ss

-- What the converter wrote, and whether it then returned an error.
pub record Script : Type 0 where
  pub strings : List (List ℕ)
  pub failed : Bool

-- A message to the error logger.
pub data Logged : Type 0 where
  load_failed convert_failed : Logged

pub record Written {ℓ} (W : Type ℓ) : Type ℓ where
  pub status : Status
  pub writer : W
  pub log : List Logged

-- A file of the factory: the digest of its Command message, and the size that LookupFile() found.
pub record CommandFile (Digest : Type 0) : Type 0 where
  pub blob_digest : Digest
  pub size : ℕ

-- What VirtualRead() does: it returns a count, an end of file flag and the buffer's new front,
-- or an error, or it panics because the script came out shorter than its size.
pub data ReadResult : Type 0 where
  read : List ℕ → ℕ → Bool → ReadResult
  refused : Status → ReadResult
  panicked : ReadResult

-- The rest of VirtualRead() once the script was written into the region.
read_of : ℕ → Bool → Written RegionExtractingWriter → ReadResult
read_of n eof w = elim w.status [
  | Status.ok ↦ if ltb 0 w.writer.room then panicked else read w.writer.copied n eof
  | s ↦ refused s
]

module _ {Command : Type 0} (convert : Command → Script) where
  pub convert_into {ℓ} : {W : Type ℓ} → (W → List ℕ → W) → W → Command → Written W
  convert_into write w command = record {
    status = if (convert command).failed then Status.err_io else Status.ok;
    writer = write_all write w (convert command).strings;
    log = if (convert command).failed then convert_failed ∷ [] else [];
  }

  -- writeShellScript(). `load` is what the storage returns for the digest this time.
  pub write_shell_script {ℓ} : {W : Type ℓ} → (W → List ℕ → W) → W → Option Command → Written W
  write_shell_script write w none = record {
    status = Status.err_io;
    writer = w;
    log = load_failed ∷ [];
  }
  write_shell_script write w (some command) = convert_into write w command

  module _ {Digest : Type 0} where
    file_of : Digest → Written SizeCountingWriter → Status × Option (CommandFile Digest)
    file_of digest w = elim w.status [
      | Status.ok ↦ (Status.ok, some (record { blob_digest = digest; size = w.writer.size }))
      | s ↦ (s, none)
    ]

    -- LookupFile()
    pub lookup_file : Digest → Option Command → Status × Option (CommandFile Digest)
    lookup_file digest load =
        file_of digest (write_shell_script count_string (record { size = 0 }) load)

    -- VirtualRead(), `n` being the length of `buf`. `bound` is virtual.BoundReadToFileSize(): the
    -- length that it cuts the buffer to, and its end of file flag.
    pub virtual_read :
        (ℕ → ℕ → ℕ → ℕ × Bool) → CommandFile Digest → Option Command → ℕ → ℕ → ReadResult
    virtual_read bound f load n offset =
        let (m, eof) = bound n offset f.size in
        if ltb 0 m
        then read_of m eof (
            write_shell_script extract_string (record { copied = []; room = m; offset = offset })
              load)
        else read [] 0 eof

module _ {Digest : Type 0} where
  -- VirtualGetAttributes()
  pub virtual_get_attributes : CommandFile Digest → Attributes → Attributes
  virtual_get_attributes f attributes = record attributes {
    change_id = some 0;
    file_type = some Vfs.regular_file;
    has_named_attributes = some false;
    is_in_named_attribute_directory = some false;
    permissions = some (record { read = true; write = false; execute = true });
    size_bytes = some f.size;
  }

  -- VirtualSetAttributes(): `out` is filled in only where nothing is to be changed.
  pub virtual_set_attributes : CommandFile Digest → Attributes → Attributes → Attributes × Status
  virtual_set_attributes f in_ out =
      if Vfs.is_some in_.permissions
      then (out, Status.err_perm)
      else if Vfs.is_some in_.owner_user_id
      then (out, Status.err_perm)
      else if Vfs.is_some in_.owner_group_id
      then (out, Status.err_perm)
      else if Vfs.is_some in_.size_bytes
      then (out, Status.err_access)
      else (virtual_get_attributes f out, Status.ok)

  -- VirtualSeek()
  pub virtual_seek : CommandFile Digest → ℕ → RegionType → Option ℕ × Status
  virtual_seek f offset data_region =
      if leb f.size offset then (none, Status.err_nxio) else (some offset, Status.ok)
  virtual_seek f offset hole_region =
      if leb f.size offset then (none, Status.err_nxio) else (some f.size, Status.ok)

  -- VirtualOpenSelf()
  pub virtual_open_self :
      CommandFile Digest → ShareMask → OpenExistingOptions → Attributes → Attributes × Status
  virtual_open_self f share_access options attributes =
      if share_access.write || options.truncate
      then (attributes, Status.err_access)
      else (virtual_get_attributes f attributes, Status.ok)
