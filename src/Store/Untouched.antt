-- ===== src/Store/Untouched.antt =====
-- What a session of directoryBackedWriter leaves of the directory, on every branch of
-- pkg/outputpathpersistency/directory_backed_store.go: the state file is replaced as a whole or
-- not at all.
use Prim.Native.String.{String, ◌++◌ as str_append}
use mathlib.Core.Path.{subst}
use text.Mathlib.TextPositions.{len-append}
use bb_clientd.Prelude.{
  ℕ, ◌≡◌, ◌≢◌, inl, inr, refl, sym, ap, ◌∙◌, Bool, Bool-cases, Option, Option-cases, List, [],
  arith,
}
use bb_clientd.Prelude.Results.{Result, Result-cases, ok, ok-injective}
use bb_clientd.StateFile.Writer.{new_file_writer}
use bb_clientd.StateFile.Writer.Preserves.{write_message-keeps}
use bb_clientd.Store.Directory.{FileSystem, IsFileSystem}
use bb_clientd.Store.{
  DirectoryBackedWriter, OpenFile, StoreError, world_of, get_temporary_name, but_enoent,
  file_write_at, close_writer, write_directory, create_temporary, write,
}

abbrev pub temporary_of : String → String
temporary_of base = str_append base ".tmp"

-- The temporary file is not the state file.
pub temporary_ne : (base : String) → base ≢ temporary_of base
temporary_ne base e = omega (arith, len-append base ".tmp", ap Prim.Native.String.len e)

module _ {W H : Type 0} (fs : FileSystem W H) (view : W → String → Option (List ℕ))
    (held : W → H → List ℕ) (Opened : W → H → String → Type 0)
    (laws : IsFileSystem fs view held Opened) where
  -- The names other than the temporary one are as in the world `w0`.
  abbrev pub SameBut : W → String → W → Type 0
  SameBut w0 temporary w = (m : String) → m ≢ temporary → view w m ≡ view w0 m

  abbrev pub Kept : W → String → OpenFile W H → Type 0
  Kept w0 temporary f = Opened f.world f.handle temporary × SameBut w0 temporary f.world

  pub write_at-Kept :
      (w0 : W) (temporary : String) (f : OpenFile W H) (p : List ℕ) (offset : ℕ)
      → Kept w0 temporary f
      → Kept w0 temporary (file_write_at fs f p offset).file
  write_at-Kept w0 temporary f p offset (opened, same) = (
    laws.write_at_opened f.world f.handle temporary p offset opened,
    λ m other. laws.write_at_view f.world f.handle temporary m p offset opened other ∙ same m other,
  )

  pub remove-SameBut :
      (w0 w : W) (temporary : String)
      → SameBut w0 temporary w
      → SameBut w0 temporary (fs.remove w temporary).0
  remove-SameBut w0 w temporary same m other = laws.remove_view w temporary m other ∙ same m other

  pub close-SameBut :
      (w0 w : W) (h : H) (temporary : String)
      → SameBut w0 temporary w
      → SameBut w0 temporary (fs.close w h).0
  close-SameBut w0 w h temporary same m other = laws.close_view w h m ∙ same m other

  -- Close() only touches the temporary file.
  pub close_writer-SameBut :
      (w0 : W) (x : DirectoryBackedWriter W H)
      → SameBut w0 x.temporary_name (world_of x)
      → SameBut w0 x.temporary_name (close_writer fs x).0
  unfolding close_writer
  close_writer-SameBut w0 x same =
      remove-SameBut w0 (fs.close (world_of x) x.writer.buffered_writer.file.handle).0
        x.temporary_name
        (close-SameBut w0 (world_of x) x.writer.buffered_writer.file.handle x.temporary_name same)

  module _ (is_component : String → Bool) where
    -- Write(), and any number of calls of WriteDirectory(), failed ones too.
    pub data Session (w0 : W) (base : String) : DirectoryBackedWriter W H → Type 0 where
      started :
          {x : DirectoryBackedWriter W H} (w1 : W)
          → write fs is_component w0 base ≡ (w1, ok x)
          → Session w0 base x
      wrote :
          {x : DirectoryBackedWriter W H} (message : Option (List ℕ))
          → Session w0 base x
          → Session w0 base (write_directory fs x message).0

    -- What Write() has done when it returns a writer: it has an empty temporary file.
    pub record Fresh (w0 : W) (base : String) (x : DirectoryBackedWriter W H) : Type 0 where
      pub same_base : x.output_base_id ≡ base
      pub temporary : x.temporary_name ≡ temporary_of base
      pub file : OpenFile W H
      pub is_new : x.writer ≡ new_file_writer file
      pub kept : Kept w0 (temporary_of base) file
      pub is_empty : held file.world file.handle ≡ []

    create_temporary-Fresh :
        (w0 w w1 : W) (base : String) (x : DirectoryBackedWriter W H)
        → SameBut w0 (temporary_of base) w
        → create_temporary fs w base (temporary_of base) ≡ (w1, ok x)
        → Fresh w0 base x
    unfolding create_temporary
    create_temporary-Fresh w0 w w1 base x same e =
        let (w2, r) = fs.open_write w (temporary_of base) in
        elim (Result-cases r) [
          | inr (e', failed) ↦ cc (ap (λ t. t.1) (rw (failed, create_temporary) at e))
          | inl (h, opened) ↦
              created w2 h (ap (λ t. (w2, t)) opened)
                (ap (λ t. t.1) (rw (opened, create_temporary) at e))
        ]
      where
        created :
            (w2 : W) (h : H)
            → fs.open_write w (temporary_of base) ≡ (w2, ok h)
            → ◌≡◌ {A = Result StoreError (DirectoryBackedWriter W H)}
                (ok (record {
                  output_base_id = base;
                  temporary_name = temporary_of base;
                  writer = new_file_writer (record { world = w2; handle = h });
                }))
                (ok x)
            → Fresh w0 base x
        created w2 h opened e' = subst (Fresh w0 base) (ok-injective e') (record {
          same_base = refl;
          temporary = refl;
          file = record { world = w2; handle = h };
          is_new = refl;
          kept = (
            (laws.open_write_opened w w2 (temporary_of base) h opened).0,
            λ m other.
                ap (λ t. view t.0 m) (sym opened)
                ∙ laws.open_write_view w (temporary_of base) m other
                ∙ same m other,
          );
          is_empty = (laws.open_write_opened w w2 (temporary_of base) h opened).1;
        })

    pub write-Fresh :
        (w0 w1 : W) (base : String) (x : DirectoryBackedWriter W H)
        → write fs is_component w0 base ≡ (w1, ok x)
        → Fresh w0 base x
    unfolding write get_temporary_name
    write-Fresh w0 w1 base x e = elim (Bool-cases (is_component (temporary_of base))) [
      | inr bad ↦ cc (ap (λ t. t.1) (rw (bad, write, get_temporary_name) at e))
      | inl good ↦
          let removed = fs.remove w0 (temporary_of base) in
          elim (Option-cases (but_enoent removed.1)) [
            | inr (e', failed) ↦
                cc (ap (λ t. t.1) (rw (good, failed, write, get_temporary_name) at e))
            | inl fine ↦
                create_temporary-Fresh w0 removed.0 w1 base x
                  (remove-SameBut w0 w0 (temporary_of base) (λ m other. refl))
                  (rw (good, fine, write, get_temporary_name) at e)
          ]
    ]

    pub Session-Kept :
        {w0 : W} {base : String} {x : DirectoryBackedWriter W H}
        → Session w0 base x
        → (x.output_base_id ≡ base)
          × (x.temporary_name ≡ temporary_of base)
          × Kept w0 (temporary_of base) x.writer.buffered_writer.file
    unfolding write_directory new_file_writer
    Session-Kept {w0 = w0} {base = base} (started {x = x} w1 e) =
        let f = write-Fresh w0 w1 base x e in (f.same_base, f.temporary, rw f.is_new f.kept)
    Session-Kept {w0 = w0} {base = base} (wrote {x = x} message s) =
        let (same, temporary, kept) = Session-Kept s in
        (
          same,
          temporary,
          write_message-keeps (file_write_at fs) (Kept w0 (temporary_of base))
              (write_at-Kept w0 (temporary_of base)) x.writer message kept,
        )
