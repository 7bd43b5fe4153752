-- ===== src/Store/Atomic.antt =====
-- Finalize() and Close() of directoryBackedWriter in
-- pkg/outputpathpersistency/directory_backed_store.go: the state file is replaced as a whole, or
-- the call fails and it is as before.
use Prim.Native.String.{String}
use bb_clientd.Prelude.{
  ℕ, ◌≡◌, ◌≢◌, inl, inr, refl, sym, ap, ◌∙◌, Bool, Option, none, some, Option-cases, List,
}
use bb_clientd.Prelude.Results.{Result-cases}
use bb_clientd.StateFile.Writer
use bb_clientd.StateFile.Writer.Preserves.{finalize-keeps}
use bb_clientd.Store.Directory.{FileSystem, IsFileSystem}
use bb_clientd.Store.{
  DirectoryBackedWriter, StoreError, world_of, file_write_at, close_writer, rename_temporary,
  close_temporary, sync_temporary, with_world, finalize,
}
use bb_clientd.Store.Untouched.{
  temporary_of, temporary_ne, SameBut, Kept, Session, Session-Kept, write_at-Kept, remove-SameBut,
  close-SameBut, close_writer-SameBut,
}

module _ {W H : Type 0} (fs : FileSystem W H) (view : W → String → Option (List ℕ))
    (held : W → H → List ℕ) (Opened : W → H → String → Type 0)
    (laws : IsFileSystem fs view held Opened) where
  -- How a call may end: the state file is the new content, the temporary file is gone and all
  -- else is the same; or there is an error and only the temporary file may differ.
  pub data Outcome (w0 : W) (base temporary : String) (content : Option (List ℕ))
      (r : W × Option StoreError) : Type 0 where
    replaced :
        r.1 ≡ none
        → view r.0 base ≡ content
        → view r.0 temporary ≡ none
        → ((m : String) → m ≢ base → m ≢ temporary → view r.0 m ≡ view w0 m)
        → Outcome w0 base temporary content r
    failed :
        (e : StoreError)
        → r.1 ≡ some e
        → SameBut fs view held Opened laws w0 temporary r.0
        → Outcome w0 base temporary content r

  module _ (w0 : W) (x : DirectoryBackedWriter W H)
      (differ : x.output_base_id ≢ x.temporary_name) where
    abbrev Same : W → Type 0
    Same = SameBut fs view held Opened laws w0 x.temporary_name

    abbrev Ends : Option (List ℕ) → W × Option StoreError → Type 0
    Ends = Outcome w0 x.output_base_id x.temporary_name

    rename_temporary-Outcome :
        (w : W) → Same w → Ends (view w x.temporary_name) (rename_temporary fs x w)
    unfolding rename_temporary
    rename_temporary-Outcome w same =
        let (w1, e) = fs.rename w x.temporary_name x.output_base_id in
        elim (Option-cases e) [
          | inl fine ↦
              let (moved, gone, others) =
                laws.rename_moved w w1 x.temporary_name x.output_base_id (ap (λ t. (w1, t)) fine)
                  (λ eq. differ (sym eq)) in
              rw (fine, rename_temporary)
                (replaced refl moved gone (λ m a b. others m b a ∙ same m b))
          | inr (e', bad) ↦
              rw (bad, rename_temporary)
                (failed _ refl (
                  remove-SameBut fs view held Opened laws w0 w1 x.temporary_name (λ m a.
                    laws.rename_failed w w1 x.temporary_name x.output_base_id m e'
                      (ap (λ t. (w1, t)) bad)
                    ∙ same m a)))
        ]

    close_temporary-Outcome :
        (w : W) → Same w → Ends (view w x.temporary_name) (close_temporary fs x w)
    unfolding close_temporary
    close_temporary-Outcome w same =
        let h = x.writer.buffered_writer.file.handle in
        let (w1, e) = fs.close w h in
        let same1 : Same w1 = close-SameBut fs view held Opened laws w0 w h x.temporary_name same in
        elim (Option-cases e) [
          | inl fine ↦
              rw (fine, close_temporary)
                (rw (← laws.close_view w h x.temporary_name) (rename_temporary-Outcome w1 same1))
          | inr (e', bad) ↦
              rw (bad, close_temporary)
                (failed _ refl
                  (remove-SameBut fs view held Opened laws w0 w1 x.temporary_name same1))
        ]

    sync_temporary-Outcome :
        Opened (world_of x) x.writer.buffered_writer.file.handle x.temporary_name
        → Same (world_of x)
        → Ends (some (held (world_of x) x.writer.buffered_writer.file.handle)) (sync_temporary fs x)
    unfolding sync_temporary
    sync_temporary-Outcome opened same =
        let h = x.writer.buffered_writer.file.handle in
        let (w1, e) = fs.sync (world_of x) h in
        let same1 : Same w1 =
          λ m a. laws.sync_view (world_of x) h x.temporary_name m opened ∙ same m a in
        elim (Option-cases e) [
          | inl fine ↦
              rw (fine, sync_temporary)
                (rw
                  (
                    ← laws.opened_view (world_of x) h x.temporary_name opened,
                    ← laws.sync_view (world_of x) h x.temporary_name x.temporary_name opened,
                  )
                  (close_temporary-Outcome w1 same1))
          | inr (e', bad) ↦
              rw (bad, sync_temporary)
                (failed _ refl
                  (close_writer-SameBut fs view held Opened laws w0 (with_world fs x w1) same1))
        ]

  -- The file that Finalize() of the file writer leaves.
  abbrev pub final_contents : DirectoryBackedWriter W H → Option (List ℕ) → List ℕ
  final_contents x root =
      let (v, r) = Writer.finalize (file_write_at fs) x.writer root in
      held v.buffered_writer.file.world v.buffered_writer.file.handle

  pub finalize-Outcome :
      (w0 : W) (x : DirectoryBackedWriter W H) (root : Option (List ℕ))
      → x.output_base_id ≢ x.temporary_name
      → Kept fs view held Opened laws w0 x.temporary_name x.writer.buffered_writer.file
      → Outcome w0 x.output_base_id x.temporary_name
          (some (final_contents x root))
          (finalize fs x root)
  unfolding finalize
  finalize-Outcome w0 x root differ kept =
      let (v, r) = Writer.finalize (file_write_at fs) x.writer root in
      let y : DirectoryBackedWriter W H = record x { writer = v } in
      let (opened, same) =
        finalize-keeps (file_write_at fs) (Kept fs view held Opened laws w0 x.temporary_name)
          (write_at-Kept fs view held Opened laws w0 x.temporary_name) x.writer root kept in
      elim (Result-cases r) [
        | inl (u, fine) ↦ rw (fine, finalize) (sync_temporary-Outcome w0 y differ opened same)
        | inr (e, bad) ↦
            rw (bad, finalize)
              (failed _ refl (close_writer-SameBut fs view held Opened laws w0 y same))
      ]

  -- After Write() and any calls of WriteDirectory(), failed ones too: Finalize() either succeeds,
  -- with the state file being what the file writer wrote, no temporary file and all other files
  -- the same, or fails with all files but the temporary one as before Write(). Close() leaves
  -- all files but the temporary one as before Write().
  pub session-Outcome :
      (is_component : String → Bool) {w0 : W} {base : String} {x : DirectoryBackedWriter W H}
      → Session fs view held Opened laws is_component w0 base x
      → (root : Option (List ℕ))
      → Outcome w0 base (temporary_of base) (some (final_contents x root)) (finalize fs x root)
        × SameBut fs view held Opened laws w0 (temporary_of base) (close_writer fs x).0
  session-Outcome is_component {w0 = w0} {base = base} {x = x} s root =
      let (same_base, temporary, kept) = Session-Kept fs view held Opened laws is_component s in
      let kept' : Kept fs view held Opened laws w0 x.temporary_name x.writer.buffered_writer.file =
        rw temporary kept in
      let differ : x.output_base_id ≢ x.temporary_name =
        λ e. temporary_ne base (sym same_base ∙ e ∙ temporary) in
      let closed : SameBut fs view held Opened laws w0 x.temporary_name (close_writer fs x).0 =
        close_writer-SameBut fs view held Opened laws w0 x kept'.1 in
      (
        rw (← temporary, ← same_base) (finalize-Outcome w0 x root differ kept'),
        rw (← temporary) closed,
      )
