-- ===== src/Uploads/Visits.antt =====
-- What uploadLocalFilesRecursive() of
-- pkg/filesystem/virtual/local_file_uploading_output_path_factory.go comes across, in order.
use Prim.Native.String.{String}
use bb_clientd.Prelude.{
  Option-cases, ◌≢◌, ◌≡◌, refl, sym, ◌∙◌, true, false, Bool-cases, inl, inr, none, some, List, [],
  ◌∷◌, ◌++◌,
}
use bb_clientd.Prelude.Results.{Result, ok, err}
use bb_clientd.Prelude.Calls.{Call, and_then, and_then_congr, and_then_assoc}
use bb_clientd.Persistent.Save.{Tree, Forest, unreadable, node, leafless, child}
use bb_clientd.Uploads.{
  UploadError, look_up_failed, upload_failed, Uploading, after_apply, upload_leaves,
  upload_local_files_recursive, upload_directories,
}

-- A directory whose children cannot be looked up, or a leaf, with its path.
pub data Visit (L : Type 0) : Type 0 where
  lost : List String → Visit L
  leaf : List String → L → Visit L

module _ {L : Type 0} where
  abbrev pub leaf_visits : List String → List (String × L) → List (Visit L)
  leaf_visits path [] = []
  leaf_visits path (l ∷ ls) = leaf (path ++ l.0 ∷ []) l.1 ∷ leaf_visits path ls

  unfoldable mutual
    -- The directories below a directory come before its leaves.
    pub visits : List String → Tree L → List (Visit L)
    visits path unreadable = lost path ∷ []
    visits path (node directories leaves) =
        directory_visits path directories ++ leaf_visits path leaves

    pub directory_visits : List String → Forest L → List (Visit L)
    directory_visits path leafless = []
    directory_visits path (child name directory others) =
        visits (path ++ name ∷ []) directory ++ directory_visits path others

module _ {W D L E : Type 0} (uploading : Uploading W D L E) where
  -- Visits in order, up to the first error: a leaf is uploaded, or cannot be, or fails.
  pub data Visited : W → List (Visit L) → W → Result (UploadError E) (Unit {0}) → Type 0 where
    finished : {w : W} → Visited w [] w (ok tt)
    uploaded :
        {w w1 w2 : W} {r : Result (UploadError E) (Unit {0})} {vs : List (Visit L)}
        (path : List String) (l : L)
        → uploading.apply w l ≡ some (w1, none)
        → Visited w1 vs w2 r
        → Visited w (leaf path l ∷ vs) w2 r
    passed_over :
        {w w1 w2 : W} {r : Result (UploadError E) (Unit {0})} {vs : List (Visit L)}
        (path : List String) (l : L) (e : E)
        → uploading.apply w l ≡ some (w1, some e)
        → uploading.is_invalid_argument e ≡ true
        → Visited w1 vs w2 r
        → Visited w (leaf path l ∷ vs) w2 r
    failed :
        {w w1 : W} {vs : List (Visit L)} (path : List String) (l : L) (e : E)
        → uploading.apply w l ≡ some (w1, some e)
        → uploading.is_invalid_argument e ≡ false
        → Visited w (leaf path l ∷ vs) w1 (err (upload_failed path e))
    not_found :
        {w : W} {vs : List (Visit L)} (path : List String)
        → Visited w (lost path ∷ vs) w (err (look_up_failed path))

  -- One loop over the visits.
  unfoldable pub upload_visit : W → Visit L → Call W (UploadError E) (Unit {0})
  upload_visit w (lost path) = some (w, err (look_up_failed path))
  upload_visit w (leaf path l) = after_apply uploading path (uploading.apply w l)

  unfoldable pub upload_visits : W → List (Visit L) → Call W (UploadError E) (Unit {0})
  upload_visits w [] = some (w, ok tt)
  upload_visits w (v ∷ vs) = and_then (upload_visit w v) (λ w1 u. upload_visits w1 vs)

  upload_visits-append :
      (w : W) (us vs : List (Visit L))
      → upload_visits w (us ++ vs) ≡ and_then (upload_visits w us) (λ w1 u. upload_visits w1 vs)
  unfolding upload_visits and_then
  upload_visits-append w [] vs = refl
  upload_visits-append w (u ∷ us) vs =
      and_then_congr refl (λ w1 _. upload_visits-append w1 us vs)
      ∙ sym (
          and_then_assoc (upload_visit w u) (λ w1 _. upload_visits w1 us)
            (λ w1 _. upload_visits w1 vs))

  leaves-eq-visits :
      (w : W) (path : List String) (ls : List (String × L))
      → upload_leaves uploading w path ls ≡ upload_visits w (leaf_visits path ls)
  unfolding upload_leaves upload_visits upload_visit
  leaves-eq-visits w path [] = refl
  leaves-eq-visits w path (l ∷ ls) = and_then_congr refl (λ w1 _. leaves-eq-visits w1 path ls)

  mutual
    unfolding upload_local_files_recursive visits upload_visits upload_visit and_then

    recursive-eq-visits :
        (w : W) (path : List String) (t : Tree L)
        → upload_local_files_recursive uploading w path t ≡ upload_visits w (visits path t)
    recursive-eq-visits w path unreadable = refl
    recursive-eq-visits w path (node directories leaves) =
        and_then_congr (directories-eq-visits w path directories)
          (λ w1 _. leaves-eq-visits w1 path leaves)
        ∙ sym (upload_visits-append w (directory_visits path directories) (leaf_visits path leaves))

    directories-eq-visits :
        (w : W) (path : List String) (ds : Forest L)
        → upload_directories uploading w path ds ≡ upload_visits w (directory_visits path ds)
    directories-eq-visits w path leafless = refl
    directories-eq-visits w path (child name directory others) =
        and_then_congr (recursive-eq-visits w (path ++ name ∷ []) directory)
          (λ w1 _. directories-eq-visits w1 path others)
        ∙ sym (
            upload_visits-append w (visits (path ++ name ∷ []) directory)
              (directory_visits path others))

  -- The recursion amounts to one loop.
  pub upload-eq-visits :
      (w : W) (path : List String) (t : Tree L)
      → upload_local_files_recursive uploading w path t ≡ upload_visits w (visits path t)
  upload-eq-visits w path t = recursive-eq-visits w path t

  pub upload_visits-Visited :
      (w : W) (vs : List (Visit L))
      → ((w0 : W) (l : L) → uploading.apply w0 l ≢ none)
      → (w2 : W) × (r : Result (UploadError E) (Unit {0})) × (upload_visits w vs ≡ some (w2, r))
        × Visited w vs w2 r
  unfolding upload_visits upload_visit after_apply and_then
  upload_visits-Visited w [] supports = (w, ok tt, refl, finished)
  upload_visits-Visited w (lost path ∷ vs) supports =
      (w, err (look_up_failed path), refl, not_found path)
  upload_visits-Visited w (leaf path l ∷ vs) supports = elim (Option-cases (uploading.apply w l)) [
    | inl panics ↦ absurd (supports w l panics)
    | inr ((w1, none), done) ↦
        let (w2, r, runs, rest) = upload_visits-Visited w1 vs supports in
        (w2, r, rw done runs, uploaded path l done rest)
    | inr ((w1, some e), fails) ↦ elim (Bool-cases (uploading.is_invalid_argument e)) [
      | inl invalid ↦
          let (w2, r, runs, rest) = upload_visits-Visited w1 vs supports in
          (w2, r, rw fails (rw invalid runs), passed_over path l e fails invalid rest)
      | inr valid ↦
          (w1, err (upload_failed path e), rw fails (rw valid refl), failed path l e fails valid)
    ]
  ]
