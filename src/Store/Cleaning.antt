-- ===== src/Store/Cleaning.antt =====
-- Clean() of pkg/outputpathpersistency/directory_backed_store.go, and a Read() after it.
use Prim.Native.String.{String}
use bb_clientd.Prelude.{
  ℕ, ◌≡◌, ◌≢◌, inl, inr, refl, sym, ap, ◌∙◌, Bool, Bool-cases, Option, none, some, Option-cases,
  List,
}
use bb_clientd.Prelude.Results.{Result-cases, ok, err}
use bb_clientd.StateFile.Reader.{FileReader}
use bb_clientd.Store.Directory.{FileSystem, FsError, enoent, other, IsFileSystem}
use bb_clientd.Store.{wrapped, opening_state, but_enoent, get_temporary_name, clean, read}
use bb_clientd.Store.Untouched.{temporary_of, temporary_ne}

module _ {W H : Type 0} (fs : FileSystem W H) (view : W → String → Option (List ℕ))
    (held : W → H → List ℕ) (Opened : W → H → String → Type 0)
    (laws : IsFileSystem fs view held Opened) where
  -- A removal that succeeds or finds no file leaves no file.
  removed :
      (w w' : W) (n : String) (e : Option FsError)
      → fs.remove w n ≡ (w', e)
      → but_enoent e ≡ none
      → view w' n ≡ none
  unfolding but_enoent
  removed w w' n none call fine = laws.remove_gone w w' n call
  removed w w' n (some enoent) call fine = laws.remove_enoent w w' n call
  removed w w' n (some (other k)) call fine = cc

  -- Without a file of its name, Read() returns no reader.
  unread :
      {R : Type 0} (unmarshal_root : List ℕ → Option R) (maximum : ℕ) (w w' : W) (base : String)
      (r : FileReader × H × R)
      → view w base ≡ none
      → read fs unmarshal_root maximum w base ≢ some (w', ok r)
  unfolding read
  unread unmarshal_root maximum w w' base r gone e =
      let (w1, opened) = fs.open_read w base in
      elim (Result-cases opened) [
        | inl (h, fine) ↦ cc (gone, laws.open_read_held w w1 base h (ap (λ t. (w1, t)) fine))
        | inr (e', bad) ↦ cc (rw (bad, read) at e)
      ]

  -- Read() then reports the error of opening the file.
  pub read-missing :
      {R : Type 0} (unmarshal_root : List ℕ → Option R) (maximum : ℕ) (w : W) (base : String)
      → view w base ≡ none
      → (w' : W) × (e : FsError) × (read fs unmarshal_root maximum w base
          ≡ some (w', err (wrapped (some e) opening_state)))
  unfolding read
  read-missing unmarshal_root maximum w base gone =
      let (w1, opened) = fs.open_read w base in
      elim (Result-cases opened) [
        | inl (h, fine) ↦ cc (gone, laws.open_read_held w w1 base h (ap (λ t. (w1, t)) fine))
        | inr (e', bad) ↦ (w1, e', rw (bad, read) refl)
      ]

  -- The files other than the two of an output base ID are the same.
  abbrev pub OthersSame : W → String → W → Type 0
  OthersSame w base w' = (m : String) → m ≢ base → m ≢ temporary_of base → view w' m ≡ view w m

  module _ (is_component : String → Bool) where
    -- The calls of a Clean() that succeeds.
    clean-steps :
        (w w' : W) (base : String)
        → clean fs is_component w base ≡ (w', none)
        → (but_enoent (fs.remove w base).1 ≡ none)
          × (but_enoent (fs.remove (fs.remove w base).0 (temporary_of base)).1 ≡ none)
          × ((fs.remove (fs.remove w base).0 (temporary_of base)).0 ≡ w')
    unfolding clean get_temporary_name
    clean-steps w w' base e = elim (Bool-cases (is_component (temporary_of base))) [
      | inr bad ↦ cc (ap (λ t. t.1) (rw (bad, clean, get_temporary_name) at e))
      | inl good ↦ elim (Option-cases (but_enoent (fs.remove w base).1)) [
        | inr (x, bad) ↦ cc (ap (λ t. t.1) (rw (good, bad, clean, get_temporary_name) at e))
        | inl fine ↦
            let second = fs.remove (fs.remove w base).0 (temporary_of base) in
            elim (Option-cases (but_enoent second.1)) [
              | inr (x, bad) ↦
                  cc (ap (λ t. t.1) (rw (good, fine, bad, clean, get_temporary_name) at e))
              | inl fine2 ↦ (
                fine,
                fine2,
                ap (λ t. t.0) (rw (good, fine, fine2, clean, get_temporary_name) at e),
              )
            ]
      ]
    ]

    pub clean-gone :
        (w w' : W) (base : String) → clean fs is_component w base ≡ (w', none) → view w' base ≡ none
    clean-gone w w' base e =
        let (fine1, fine2, last) = clean-steps w w' base e in
        let (w1, e1) = fs.remove w base in
        ap (λ v. view v base) (sym last)
        ∙ laws.remove_view w1 (temporary_of base) base (temporary_ne base)
        ∙ removed w w1 base e1 refl fine1

    -- When Clean() succeeds, there is neither a state file nor a temporary file of the output base
    -- ID, all other files are the same, and Read() for the output base ID returns no reader.
    pub clean-forgets :
        {R : Type 0} (unmarshal_root : List ℕ → Option R) (maximum : ℕ) (w w' w'' : W)
        (base : String) (r : FileReader × H × R)
        → clean fs is_component w base ≡ (w', none)
        → (view w' base ≡ none)
          × (view w' (temporary_of base) ≡ none)
          × OthersSame w base w'
          × (read fs unmarshal_root maximum w' base ≢ some (w'', ok r))
    clean-forgets unmarshal_root maximum w w' w'' base r e =
        let (fine1, fine2, last) = clean-steps w w' base e in
        let (w1, e1) = fs.remove w base in
        let (w2, e2) = fs.remove w1 (temporary_of base) in
        let gone = clean-gone w w' base e in
        (
          gone,
          removed w1 w' (temporary_of base) e2 (ap (λ v. (v, e2)) last) fine2,
          λ m a b.
              ap (λ v. view v m) (sym last)
              ∙ laws.remove_view w1 (temporary_of base) m b
              ∙ laws.remove_view w base m a,
          unread unmarshal_root maximum w' w'' base r gone,
        )
