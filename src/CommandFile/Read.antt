-- ===== src/CommandFile/Read.antt =====
-- Reading a command file of pkg/filesystem/virtual/blob_access_command_file_factory.go.
use bb_clientd.Prelude.{
  ℕ, ◌-◌, ◌^◌, ◌≤◌, ◌<◌, ◌≡◌, ◌≢◌, ◌⊎◌, inl, inr, Bool, false, Option, none, some, List, [], length,
  length-drop, take, drop, min, flatten, take-min, arith,
}
use bb_clientd.Vfs.{Status}
use bb_clientd.CommandFile.{
  Script, CommandFile, read, panicked, convert_into, write_shell_script, lookup_file, file_of,
  virtual_read, read_of, extract_string, RegionExtractingWriter,
}
use bb_clientd.CommandFile.Writers.{size-count, copied-extract, room-extract}

-- What the documentation of virtual.BoundReadToFileSize() promises: the buffer is cut to the
-- part of the file that is left.
abbrev pub Bounds : (ℕ → ℕ → ℕ → ℕ × Bool) → Type 0
Bounds bound = (n offset size : ℕ) → (bound n offset size).0 ≡ min n (size - offset)

-- The text of a script.
abbrev pub text : Script → List ℕ
text script = flatten script.strings

module _ {Command : Type 0} (convert : Command → Script) where
  -- A read of at least one byte, the script still being what it was at lookup.
  read_region :
      (command : Command) (m offset : ℕ) (eof : Bool)
      → (convert command).failed ≡ false
      → m ≤ length (text (convert command)) - offset
      → read_of m eof (
          write_shell_script convert extract_string
            (record { copied = []; room = m; offset = offset })
            (some command))
        ≡ read (take m (drop offset (text (convert command)))) m eof
  unfolding read_of write_shell_script convert_into
  read_region command m offset eof fine fits = ground (
    arith,
    copied-extract region (convert command).strings,
    room-extract region (convert command).strings,
  )
    where
      region : RegionExtractingWriter
      region = record { copied = []; room = m; offset = offset }

module _ {Command : Type 0} {Digest : Type 0} (convert : Command → Script) where
  pub lookup_file-success :
      (digest : Digest) (command : Command) (f : CommandFile Digest)
      → length (text (convert command)) < 2 ^ 64
      → lookup_file convert digest (some command) ≡ (Status.ok, some f)
      → ((convert command).failed ≡ false) × (f.size ≡ length (text (convert command)))
  unfolding lookup_file write_shell_script convert_into file_of
  lookup_file-success digest command f fits h =
      ground (arith, size-count (record { size = 0 }) (convert command).strings (omega arith))

  -- Where the storage has the Command message, a file that LookupFile() returned for it reads as
  -- the slice of the script's text that starts at the offset, cut to the length of the buffer;
  -- the count is the length that BoundReadToFileSize() allows. The text is below 2 ^ 64 bytes.
  pub virtual_read-eq-slice :
      (bound : ℕ → ℕ → ℕ → ℕ × Bool) (digest : Digest) (command : Command) (f : CommandFile Digest)
      (n offset : ℕ)
      → Bounds bound
      → length (text (convert command)) < 2 ^ 64
      → lookup_file convert digest (some command) ≡ (Status.ok, some f)
      → virtual_read convert bound f (some command) n offset
        ≡ read
            (take n (drop offset (text (convert command))))
            (min n (length (text (convert command)) - offset))
            (bound n offset f.size).1
  unfolding virtual_read
  virtual_read-eq-slice bound digest command f n offset law fits found = ground (
    arith,
    cut,
    read_region convert command m offset (bound n offset f.size).1,
    take-min n m (drop offset (text (convert command))),
    length-drop offset (text (convert command)),
    lookup_file-success digest command f fits found,
  )
    where
      m : ℕ
      m = (bound n offset f.size).0

      cut : m ≡ min n (length (text (convert command)) - offset)
      cut = omega (arith, law n offset f.size, (lookup_file-success digest command f fits found).1)

  -- Whatever the storage returns for the digest when a file of LookupFile() is read, its Command
  -- message or an error, VirtualRead() does not panic. The text is below 2 ^ 64 bytes.
  pub virtual_read-ne-panicked :
      (bound : ℕ → ℕ → ℕ → ℕ × Bool) (digest : Digest) (command : Command) (f : CommandFile Digest)
      (n offset : ℕ) (load : Option Command)
      → Bounds bound
      → length (text (convert command)) < 2 ^ 64
      → lookup_file convert digest (some command) ≡ (Status.ok, some f)
      → (load ≡ none) ⊎ (load ≡ some command)
      → virtual_read convert bound f load n offset ≢ panicked
  unfolding virtual_read
  virtual_read-ne-panicked bound digest command f n offset load law fits found (inl e) =
      rw e (unfold write_shell_script read_of in ground arith)
  virtual_read-ne-panicked bound digest command f n offset load law fits found (inr e) =
      rw e (rw (virtual_read-eq-slice bound digest command f n offset law fits found) (λ p. cc))
