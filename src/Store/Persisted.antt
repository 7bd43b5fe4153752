-- ===== src/Store/Persisted.antt =====
-- A session of directoryBackedWriter that succeeds, and the Read() of
-- pkg/outputpathpersistency/directory_backed_store.go that follows it.
use Prim.Native.String.{String}
use mathlib.Core.Path.{subst}
use bb_clientd.Prelude.{
  ℕ, ◌+◌, ◌≡◌, ◌≤◌, ◌<◌, ◌^◌, inl, inr, sym, ap, ◌∙◌, Bool, Option, none, some, List, [], length,
}
use bb_clientd.Prelude.Results.{Result-cases, ok}
use bb_clientd.StateFile.Format.{IsWriterAt, IsReaderAt, FileRegion, RoundTrips}
use bb_clientd.StateFile.Writer
use bb_clientd.StateFile.Writer.{FileWriter, write_message}
use bb_clientd.StateFile.Writer.Preserves.{write_message-keeps}
use bb_clientd.StateFile.Reader.{FileReader, new_file_reader, read_directory}
use bb_clientd.StateFile.Reader.Bounds.{IsModest}
use bb_clientd.StateFile.RoundTrip
use bb_clientd.StateFile.RoundTrip.{Writes, start, next, total, session_round_trip}
use bb_clientd.Store.Directory.{FileSystem, IsFileSystem}
use bb_clientd.Store.{
  DirectoryBackedWriter, OpenFile, file_write_at, write_directory, finalize, write, read,
}
use bb_clientd.Store.Untouched.{temporary_ne, Kept, write_at-Kept, Fresh, write-Fresh}
use bb_clientd.Store.Atomic.{Outcome, replaced, failed, final_contents, finalize-Outcome}

module _ {W H : Type 0} (fs : FileSystem W H) (view : W → String → Option (List ℕ))
    (held : W → H → List ℕ) (Opened : W → H → String → Type 0)
    (laws : IsFileSystem fs view held Opened) where
  abbrev pub held_by : OpenFile W H → List ℕ
  held_by f = held f.world f.handle

  -- The temporary file is what the file writer asks of its writer.
  pub file_write_at-IsWriterAt : IsWriterAt (file_write_at fs) held_by
  file_write_at-IsWriterAt = record {
    count_lem = λ f p offset fine. (laws.write_at_held f.world f.handle p offset fine).0;
    contents_lem = λ f p offset fine. (laws.write_at_held f.world f.handle p offset fine).1;
  }

  pub Writes-Kept :
      {v v' : FileWriter (OpenFile W H)} {n : ℕ} (w0 : W) (temporary : String)
      → Kept fs view held Opened laws w0 temporary v.buffered_writer.file
      → Writes (file_write_at fs) v n v'
      → Kept fs view held Opened laws w0 temporary v'.buffered_writer.file
  Writes-Kept w0 temporary kept start = kept
  Writes-Kept w0 temporary kept (next {u = u} {v = v'} n k bytes region e before call) =
      subst (Kept fs view held Opened laws w0 temporary) (ap (λ t. t.0.buffered_writer.file) call) (
        write_message-keeps (file_write_at fs) (Kept fs view held Opened laws w0 temporary)
          (write_at-Kept fs view held Opened laws w0 temporary) u (some bytes)
          (Writes-Kept w0 temporary kept before))

  -- Where Finalize() succeeds, that of the file writer has.
  pub finalize-written :
      (x : DirectoryBackedWriter W H) (root : Option (List ℕ)) (w : W)
      → finalize fs x root ≡ (w, none)
      → (Writer.finalize (file_write_at fs) x.writer root).1 ≡ ok tt
  unfolding finalize
  finalize-written x root w e =
      let (v, r) = Writer.finalize (file_write_at fs) x.writer root in
      elim (Result-cases r) [
        | inl (u, fine) ↦ fine
        | inr (e', bad) ↦ cc (ap (λ t. t.1) (rw (bad, finalize) at e))
      ]

  pub replaced_content :
      {w0 w : W} {base temporary : String} {content : Option (List ℕ)}
      → Outcome fs view held Opened laws w0 base temporary content (w, none)
      → view w base ≡ content
  replaced_content (replaced e stored gone others) = stored
  replaced_content (failed e' e same) = cc

  -- A state file that can be opened and read.
  pub read_opened :
      {R : Type 0} (unmarshal_root : List ℕ → Option R) (w w' : W) (base : String) (h : H)
      (maximum : ℕ) (r : FileReader) (root : R)
      → fs.open_read w base ≡ (w', ok h)
      → new_file_reader unmarshal_root (fs.read_at w' h) maximum ≡ some (ok (r, root))
      → read fs unmarshal_root maximum w base ≡ some (w', ok (r, h, root))
  unfolding read
  read_opened unmarshal_root w w' base h maximum r root opened fine =
      let same : (fs.open_read w base).0 ≡ w' = ap (λ t. t.0) opened in
      rw (opened, read) (rw same (rw fine (ap (λ v. some (v, ok (r, h, root))) same)))

  module _ {D R : Type 0} (marshal : D → Option (List ℕ)) (unmarshal : List ℕ → Option D)
      (marshal_root : R → Option (List ℕ)) (unmarshal_root : List ℕ → Option R)
      (trips : RoundTrips marshal unmarshal) (root_trips : RoundTrips marshal_root unmarshal_root)
      (is_component : String → Bool) where
    -- Write(), WriteDirectory() for `d` between others, and Finalize(), all with no error. `before`
    -- and `after` count the bytes that the others write.
    pub record Run (w0 : W) (base : String) (d : D) (root : R) : Type 0 where
      pub w1 : W
      pub x : DirectoryBackedWriter W H
      pub opened : write fs is_component w0 base ≡ (w1, ok x)
      pub before : ℕ
      pub v1 : FileWriter (OpenFile W H)
      pub wrote_before : Writes (file_write_at fs) x.writer before v1
      pub bytes : List ℕ
      pub marshalled : marshal d ≡ some bytes
      pub v2 : FileWriter (OpenFile W H)
      pub region : Option FileRegion
      pub wrote :
          write_directory fs (record x { writer = v1 }) (marshal d)
          ≡ (record x { writer = v2 }, ok region)
      pub after : ℕ
      pub v3 : FileWriter (OpenFile W H)
      pub wrote_after : Writes (file_write_at fs) v2 after v3
      pub root_bytes : List ℕ
      pub root_marshalled : marshal_root root ≡ some root_bytes
      pub w2 : W
      pub finalized : finalize fs (record x { writer = v3 }) (marshal_root root) ≡ (w2, none)

    module _ (w0 : W) (base : String) (d : D) (root : R) (run : Run w0 base d root) where
      abbrev fresh : Fresh fs view held Opened laws is_component w0 base run.x
      fresh = write-Fresh fs view held Opened laws is_component w0 run.w1 base run.x run.opened

      -- The writer on which Finalize() is called.
      abbrev last : DirectoryBackedWriter W H
      last = record (run.x) { writer = run.v3 }

      wrote_message : write_message (file_write_at fs) run.v1 (marshal d) ≡ (run.v2, ok run.region)
      unfolding write_directory
      wrote_message = ap (λ (t : DirectoryBackedWriter W H × _). (t.0.writer, t.1)) run.wrote

      -- The session of the file writer in a run.
      session_of :
          RoundTrip.Session
            (file_write_at fs)
            held_by
            file_write_at-IsWriterAt
            marshal
            unmarshal
            marshal_root
            unmarshal_root
            trips
            root_trips
            d
            root
      session_of =
          let finalized = Writer.finalize (file_write_at fs) run.v3 (marshal_root root) in
          record {
            file = fresh.file;
            is_new = fresh.is_empty;
            before = run.before;
            w1 = run.v1;
            wrote_before =
                subst (λ v. Writes (file_write_at fs) v run.before run.v1) fresh.is_new
                  run.wrote_before;
            bytes = run.bytes;
            marshalled = run.marshalled;
            w2 = run.v2;
            region = run.region;
            wrote = wrote_message;
            after = run.after;
            w3 = run.v3;
            wrote_after = run.wrote_after;
            root_bytes = run.root_bytes;
            root_marshalled = run.root_marshalled;
            w4 = finalized.0;
            finalized =
                ap (λ t. (finalized.0, t))
                  (finalize-written last (marshal_root root) run.w2 run.finalized);
          }

      last-Kept :
          Kept fs view held Opened laws w0 run.x.temporary_name last.writer.buffered_writer.file
      unfolding Writer.new_file_writer
      last-Kept =
          let first : Kept fs view held Opened laws w0 run.x.temporary_name
              run.x.writer.buffered_writer.file =
            rw (fresh.temporary, fresh.is_new) fresh.kept in
          let then_d =
            write_message-keeps (file_write_at fs)
              (Kept fs view held Opened laws w0 run.x.temporary_name)
              (write_at-Kept fs view held Opened laws w0 run.x.temporary_name) run.v1 (marshal d)
              (Writes-Kept w0 run.x.temporary_name first run.wrote_before) in
          Writes-Kept w0 run.x.temporary_name
            (subst
              (λ (t : FileWriter (OpenFile W H) × _).
                Kept fs view held Opened laws w0 run.x.temporary_name t.0.buffered_writer.file)
              wrote_message then_d)
            run.wrote_after

      -- The state file is what the session of the file writer has left.
      stored :
          view run.w2 base ≡ some (final_contents fs view held Opened laws last (marshal_root root))
      stored =
          let ends =
            finalize-Outcome fs view held Opened laws w0 last (marshal_root root)
              (λ e. temporary_ne base (sym fresh.same_base ∙ e ∙ fresh.temporary)) last-Kept in
          ap (view run.w2) (sym fresh.same_base)
          ∙ replaced_content (
              subst
                (Outcome fs view held Opened laws w0 run.x.output_base_id run.x.temporary_name
                  (some (final_contents fs view held Opened laws last (marshal_root root))))
                run.finalized ends)

    -- Where Write(), WriteDirectory() for `d` between others and Finalize() succeed and the state
    -- file can then be opened, Read() returns the root directory that was written, and
    -- ReadDirectory() on its reader gives `d` for the region that WriteDirectory() returned. The
    -- reader's maximum admits the whole file, no message exceeds an int32, the root directory's
    -- message is not empty, the directory and its files behave as documented, and what was
    -- marshalled is unmarshalled to the same message.
    pub store_round_trip :
        (w0 w3 : W) (base : String) (h : H) (d : D) (root : R) (run : Run w0 base d root)
        (empty : D) (maximum : ℕ)
        → fs.open_read run.w2 base ≡ (w3, ok h)
        → unmarshal [] ≡ some empty
        → length run.bytes < 2 ^ 31
        → length run.root_bytes < 2 ^ 31
        → 0 < length run.root_bytes
        → IsModest maximum
        → 16 + run.before + length run.bytes + run.after + length run.root_bytes ≤ maximum
        → (r r' : FileReader) × (read fs unmarshal_root maximum run.w2 base
            ≡ some (w3, ok (r, h, root)))
          × (read_directory unmarshal empty r run.region ≡ some (ok (r', d)))
    unfolding session_of
    store_round_trip w0 w3 base h d root run empty maximum opened no_fields small root_small
          root_some modest fits =
        let file =
          final_contents fs view held Opened laws (last w0 base d root run) (marshal_root root) in
        let same : file ≡ held w3 h =
          cc (stored w0 base d root run, laws.open_read_held run.w2 w3 base h opened) in
        let readable : IsReaderAt (fs.read_at w3 h) file =
          subst (IsReaderAt (fs.read_at w3 h)) (sym same) (laws.read_at_lem w3 h) in
        let (r, r', read_root, read_d) =
          session_round_trip (file_write_at fs) held_by file_write_at-IsWriterAt marshal unmarshal
            marshal_root unmarshal_root trips root_trips d root (session_of w0 base d root run)
            empty (fs.read_at w3 h) maximum no_fields readable small root_small root_some modest
            fits in
        (r, r', read_opened unmarshal_root run.w2 w3 base h maximum r root opened read_root, read_d)
