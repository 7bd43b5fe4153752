-- ===== src/Store/Directory.antt =====
-- filesystem.Directory of another repository, as far as
-- pkg/outputpathpersistency/directory_backed_store.go calls it, and what its documentation says of
-- the calls: the files that the names of the directory stand for, before and after.
use Prim.Native.String.{String}
use bb_clientd.Prelude.{ℕ, ◌≡◌, ◌≢◌, Bool, false, Option, none, some, List, [], length}
use bb_clientd.Prelude.Results.{Result, ok}
use bb_clientd.StateFile.Format.{IsReaderAt}
use bb_clientd.StateFile.Overwrite.{overwrite}

-- syscall.ENOENT, and any other error.
pub data FsError : Type 0 where
  enoent : FsError
  other : ℕ → FsError

pub record FileSystem (W H : Type 0) : Type 0 where
  pub open_read : W → String → W × Result FsError H
  -- OpenWrite() with filesystem.CreateExcl(0o666)
  pub open_write : W → String → W × Result FsError H
  pub remove : W → String → W × Option FsError
  pub rename : W → String → String → W × Option FsError
  pub write_at : W → H → List ℕ → ℕ → W × ℕ × Bool
  pub read_at : W → H → ℕ → ℕ → List ℕ
  pub sync : W → H → W × Option FsError
  pub close : W → H → W × Option FsError

-- `view` is what a name stands for, `held` the bytes of an open file, and `Opened` says that a
-- file is open for writing and has the name. A call that fails leaves the names as they were; a
-- write that fails may have changed the file that it is on.
pub record IsFileSystem {W H : Type 0} (fs : FileSystem W H) (view : W → String → Option (List ℕ))
    (held : W → H → List ℕ) (Opened : W → H → String → Type 0) : Type 0 where
  pub opened_view : (w : W) (h : H) (n : String) → Opened w h n → view w n ≡ some (held w h)
  pub open_read_view : (w : W) (n m : String) → view (fs.open_read w n).0 m ≡ view w m
  pub open_read_held :
      (w w' : W) (n : String) (h : H) → fs.open_read w n ≡ (w', ok h) → view w n ≡ some (held w' h)
  pub read_at_lem : (w : W) (h : H) → IsReaderAt (fs.read_at w h) (held w h)
  pub open_write_view : (w : W) (n m : String) → m ≢ n → view (fs.open_write w n).0 m ≡ view w m
  pub open_write_opened :
      (w w' : W) (n : String) (h : H)
      → fs.open_write w n ≡ (w', ok h)
      → Opened w' h n × (held w' h ≡ [])
  pub write_at_view :
      (w : W) (h : H) (n m : String) (p : List ℕ) (offset : ℕ)
      → Opened w h n
      → m ≢ n
      → view (fs.write_at w h p offset).0 m ≡ view w m
  pub write_at_opened :
      (w : W) (h : H) (n : String) (p : List ℕ) (offset : ℕ)
      → Opened w h n
      → Opened (fs.write_at w h p offset).0 h n
  pub write_at_held :
      (w : W) (h : H) (p : List ℕ) (offset : ℕ)
      → (fs.write_at w h p offset).2 ≡ false
      → ((fs.write_at w h p offset).1 ≡ length p)
        × (held (fs.write_at w h p offset).0 h ≡ overwrite (held w h) p offset)
  pub sync_view : (w : W) (h : H) (n m : String) → Opened w h n → view (fs.sync w h).0 m ≡ view w m
  pub close_view : (w : W) (h : H) (m : String) → view (fs.close w h).0 m ≡ view w m
  pub remove_view : (w : W) (n m : String) → m ≢ n → view (fs.remove w n).0 m ≡ view w m
  pub remove_gone : (w w' : W) (n : String) → fs.remove w n ≡ (w', none) → view w' n ≡ none
  pub remove_enoent : (w w' : W) (n : String) → fs.remove w n ≡ (w', some enoent) → view w' n ≡ none
  pub rename_failed :
      (w w' : W) (a b m : String) (e : FsError)
      → fs.rename w a b ≡ (w', some e)
      → view w' m ≡ view w m
  pub rename_moved :
      (w w' : W) (a b : String)
      → fs.rename w a b ≡ (w', none)
      → a ≢ b
      → (view w' b ≡ view w a)
        × (view w' a ≡ none)
        × ((m : String) → m ≢ a → m ≢ b → view w' m ≡ view w m)
