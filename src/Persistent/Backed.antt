-- ===== src/Persistent/Backed.antt =====
-- The store of pkg/outputpathpersistency/directory_backed_store.go as the store that
-- pkg/filesystem/virtual/persistent_output_path_factory.go saves to.
use Prim.Native.String.{String}
use mathlib.Core.Path.{subst}
use bb_clientd.Prelude.{
  ℕ, ◌+◌, ◌^◌, ◌<◌, ◌≡◌, inl, inr, sym, ap, Bool, Option, none, some, Option-cases, List, [], ◌++◌,
  length, arith,
}
use bb_clientd.Prelude.Results.{Result, ok, err}
use bb_clientd.StateFile.Format
use bb_clientd.StateFile.Format.{FileRegion, RoundTrips}
use bb_clientd.StateFile.Writer.{new_file_writer, write_message}
use bb_clientd.StateFile.Writer.Preserves.{write_message-keeps}
use bb_clientd.StateFile.Writer.Holds.{
  IsWriting, write_message-IsWriting, new_file_writer-IsWriting, region_of,
}
use bb_clientd.StateFile.Reader.{FileReader, read_directory}
use bb_clientd.Store.Directory.{FileSystem, IsFileSystem}
use bb_clientd.Store
use bb_clientd.Store.{
  DirectoryBackedWriter, StoreError, OpenFile, file_write_at, close_writer, write_directory,
}
use bb_clientd.Store.Untouched.{temporary_of, Kept, write_at-Kept, write-Fresh}
use bb_clientd.Store.Persisted.{held_by, file_write_at-IsWriterAt}
use bb_clientd.Persistent.Messages.{Directory, empty_directory}
use bb_clientd.Persistent.Saved.{IsDirectoryWriter}
use bb_clientd.Persistent.Factory
use bb_clientd.Persistent.Factory.{RootDirectory}

-- The reader and the closer of a ReadCloser, as a pair.
abbrev pub regroup :
    {W C H R E : Type 0} → Option (W × Result E (C × H × R)) → Option (W × Result E ((C × H) × R))
regroup none = none
regroup (some (w, err e)) = some (w, err e)
regroup (some (w, ok (c, h, root))) = some (w, ok ((c, h), root))

module _ {W H Stamp P : Type 0} (fs : FileSystem W H) (marshal : Directory P → Option (List ℕ))
    (unmarshal : List ℕ → Option (Directory P))
    (marshal_root : RootDirectory Stamp P → Option (List ℕ))
    (unmarshal_root : List ℕ → Option (RootDirectory Stamp P)) (is_component : String → Bool)
    (maximum : ℕ) where
  unfoldable pub backed_store :
      Factory.Store W
        (DirectoryBackedWriter W H)
        (FileReader × H)
        FileReader
        StoreError
        Format.Error
        Stamp
        P
  backed_store = record {
    read = λ w base. regroup (Store.read fs unmarshal_root maximum w base);
    reader_of = λ c. c.0;
    read_directory = read_directory unmarshal empty_directory;
    close_reader = λ w c. (fs.close w c.1).0;
    write = Store.write fs is_component;
    write_directory = λ x m. write_directory fs x (marshal m);
    finalize = λ x root. Store.finalize fs x (marshal_root root);
    close_writer = λ x. (close_writer fs x).0;
    clean = Store.clean fs is_component;
  }

module _ {W H : Type 0} (fs : FileSystem W H) (view : W → String → Option (List ℕ))
    (held : W → H → List ℕ) (Opened : W → H → String → Type 0)
    (laws : IsFileSystem fs view held Opened) (w0 : W) (base : String) where
  -- A session of the store, with what it has written so far.
  pub record IsSaving (x : DirectoryBackedWriter W H) (body : List ℕ) : Type 0 where
    pub writing : IsWriting (file_write_at fs) (held_by fs view held Opened laws) x.writer body
    pub kept : Kept fs view held Opened laws w0 (temporary_of base) x.writer.buffered_writer.file
    pub same_base : x.output_base_id ≡ base
    pub temporary : x.temporary_name ≡ temporary_of base

  new_file-Kept :
      (file : OpenFile W H)
      → Kept fs view held Opened laws w0 (temporary_of base) file
      → Kept fs view held Opened laws w0
          (temporary_of base)
          (new_file_writer file).buffered_writer.file
  unfolding new_file_writer
  new_file-Kept file kept = kept

  pub Fresh-IsSaving :
      (is_component : String → Bool) (w1 : W) (x : DirectoryBackedWriter W H)
      → Store.write fs is_component w0 base ≡ (w1, ok x)
      → IsSaving x []
  Fresh-IsSaving is_component w1 x e =
      let f = write-Fresh fs view held Opened laws is_component w0 w1 base x e in
      let writing =
        new_file_writer-IsWriting (file_write_at fs) (held_by fs view held Opened laws) f.file
          f.is_empty in
      record {
        writing =
            subst (λ v. IsWriting (file_write_at fs) (held_by fs view held Opened laws) v [])
              (sym f.is_new) writing;
        kept =
            subst (λ v. Kept fs view held Opened laws w0 (temporary_of base) v.buffered_writer.file)
              (sym f.is_new) (new_file-Kept f.file f.kept);
        same_base = f.same_base;
        temporary = f.temporary;
      }

  module _ {P : Type 0} (marshal : Directory P → Option (List ℕ))
      (small : (m : Directory P) (bytes : List ℕ)
        → marshal m ≡ some bytes
        → length bytes < 2 ^ 31) where
    write_message-IsSaving :
        (x x' : DirectoryBackedWriter W H) (body bytes : List ℕ) (region : Option FileRegion)
        → IsSaving x body
        → 16 + length body + length bytes < 2 ^ 64
        → write_directory fs x (some bytes) ≡ (x', ok region)
        → IsSaving x' (body ++ bytes) × (region ≡ region_of (16 + length body) bytes)
    unfolding write_directory
    write_message-IsSaving x x' body bytes region h fits e =
        let (v, r) = write_message (file_write_at fs) x.writer (some bytes) in
        let fine : r ≡ ok region = ap (λ (u : DirectoryBackedWriter W H × _). u.1) e in
        let (writing, at) =
          write_message-IsWriting (file_write_at fs) (held_by fs view held Opened laws)
            (file_write_at-IsWriterAt fs view held Opened laws) x.writer v body bytes region
            h.writing fits (ap (λ y. (v, y)) fine) in
        (
          subst (λ y. IsSaving y (body ++ bytes))
              (ap (λ (u : DirectoryBackedWriter W H × _). u.0) e)
              (record {
                writing = writing;
                kept =
                    write_message-keeps (file_write_at fs)
                      (Kept fs view held Opened laws w0 (temporary_of base))
                      (write_at-Kept fs view held Opened laws w0 (temporary_of base)) x.writer
                      (some bytes) h.kept;
                same_base = h.same_base;
                temporary = h.temporary;
              }),
          at,
        )

    -- A message that cannot be marshalled is not written.
    written_marshalled :
        (x x' : DirectoryBackedWriter W H) (m : Directory P) (region : Option FileRegion)
        → write_directory fs x (marshal m) ≡ (x', ok region)
        → (bytes : List ℕ) × (marshal m ≡ some bytes)
    unfolding write_directory write_message
    written_marshalled x x' m region e = elim (Option-cases (marshal m)) [
      | inr found ↦ found
      | inl failed ↦ cc (
          ap (λ (u : DirectoryBackedWriter W H × _). u.1)
            (rw (failed, write_directory, write_message) at e))
    ]

    pub write_directory-IsDirectoryWriter :
        IsDirectoryWriter (λ x m. write_directory fs x (marshal m)) marshal IsSaving
    write_directory-IsDirectoryWriter = record {
      written_lem = λ x x' m region body h fits e.
          let (bytes, marshalled) = written_marshalled x x' m region e in
          let (saving, at) =
            write_message-IsSaving x x' body bytes region h
              (omega (arith, small m bytes marshalled)) (rw (← marshalled) e) in
          (bytes, marshalled, small m bytes marshalled, saving, at);
    }
