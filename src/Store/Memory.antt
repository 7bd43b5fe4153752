-- ===== src/Store/Memory.antt =====
-- A directory in memory for the tests of the stores of pkg/outputpathpersistency.
use Prim.Native.String.{String}
use text.Mathlib.TextEquality.{eq_iff}
use text.Mathlib.TextPositions.{eq_refl}
use bb_clientd.Prelude.{
  ℕ, ◌≡◌, ◌≢◌, refl, sym, ap, ◌∙◌, Bool, true, false, Option, none, some, List, [], length, take,
  drop, inl, inr, Option-cases, if◌then◌else◌, arith,
}
use bb_clientd.Prelude.Maps.{StringMap, lookup, insert, delete, lookup-insert, lookup-delete}
use bb_clientd.Prelude.Results.{Result, ok, err, ok-injective}
use bb_clientd.StateFile.Overwrite.{overwrite}
use bb_clientd.Store.Directory.{FileSystem, FsError, enoent, other, IsFileSystem}

-- A directory in memory. A handle is the name of its file. Renaming fails by a flag.
abbrev pub Files : Type 0
Files = StringMap (List ℕ)

abbrev bytes_of : Option (List ℕ) → List ℕ
bytes_of none = []
bytes_of (some c) = c

abbrev pub view : Files → String → Option (List ℕ)
view w n = lookup n w

abbrev pub held : Files → String → List ℕ
held w h = bytes_of (lookup h w)

abbrev pub Opened : Files → String → String → Type 0
Opened w h n = (h ≡ n) × (c : List ℕ) × (lookup n w ≡ some c)

abbrev open_read : Files → String → Files × Result FsError String
open_read w n = elim (lookup n w) [ none ↦ (w, err enoent) | some c ↦ (w, ok n) ]

abbrev open_write : Files → String → Files × Result FsError String
open_write w n = elim (lookup n w) [ none ↦ (insert n [] w, ok n) | some c ↦ (w, err (other 17)) ]

abbrev remove : Files → String → Files × Option FsError
remove w n = elim (lookup n w) [ none ↦ (w, some enoent) | some c ↦ (delete n w, none) ]

abbrev rename : Bool → Files → String → String → Files × Option FsError
rename fails w a b =
    if fails
    then (w, some (other 5))
    else elim (lookup a w) [ none ↦ (w, some enoent) | some c ↦ (insert b c (delete a w), none) ]

abbrev write_at : Files → String → List ℕ → ℕ → Files × ℕ × Bool
write_at w h p offset = elim (lookup h w) [
  | none ↦ (w, 0, true)
  | some c ↦ (insert h (overwrite c p offset) w, length p, false)
]

abbrev pub file_system : Bool → FileSystem Files String
file_system rename_fails = record {
  open_read = open_read;
  open_write = open_write;
  remove = remove;
  rename = rename rename_fails;
  write_at = write_at;
  read_at = λ w h n offset. take n (drop offset (held w h));
  sync = λ w h. (w, none);
  close = λ w h. (w, none);
}

lookup-insert_same : (n : String) (c : List ℕ) (w : Files) → lookup n (insert n c w) ≡ some c
lookup-insert_same n c w = ground (arith, lookup-insert n n c w, eq_refl n)

lookup-insert_other :
    (n m : String) (c : List ℕ) (w : Files) → m ≢ n → lookup m (insert n c w) ≡ lookup m w
lookup-insert_other n m c w h =
    ground (arith, lookup-insert n m c w, eq_iff n m, λ (e : n ≡ m). h (sym e))

lookup-delete_same : (n : String) (w : Files) → lookup n (delete n w) ≡ none
lookup-delete_same n w = ground (arith, lookup-delete n n w, eq_refl n)

lookup-delete_other : (n m : String) (w : Files) → m ≢ n → lookup m (delete n w) ≡ lookup m w
lookup-delete_other n m w h =
    ground (arith, lookup-delete n m w, eq_iff n m, λ (e : n ≡ m). h (sym e))

open_write-other : (w : Files) (n m : String) → m ≢ n → view (open_write w n).0 m ≡ view w m
open_write-other w n m h = elim (Option-cases (lookup n w)) [
  | inl e ↦ rw (e, open_write) (lookup-insert_other n m [] w h)
  | inr (c, e) ↦ rw (e, open_write) refl
]

open_write-Opened :
    (w w' : Files) (n h : String) → open_write w n ≡ (w', ok h) → Opened w' h n × (held w' h ≡ [])
open_write-Opened w w' n h e = elim (Option-cases (lookup n w)) [
  | inr (c, found) ↦ cc (ap (λ t. t.1) (rw (found, open_write) at e))
  | inl free ↦
      let same_world : insert n [] w ≡ w' = ap (λ t. t.0) (rw (free, open_write) at e) in
      let same : n ≡ h = ok-injective (ap (λ t. t.1) (rw (free, open_write) at e)) in
      rw (← same, ← same_world)
        ((refl, [], lookup-insert_same n [] w), rw (lookup-insert_same n [] w) refl)
]

open_read-held :
    (w w' : Files) (n h : String) → open_read w n ≡ (w', ok h) → view w n ≡ some (held w' h)
open_read-held w w' n h e = elim (Option-cases (lookup n w)) [
  | inl none_there ↦ cc (ap (λ t. t.1) (rw (none_there, open_read) at e))
  | inr (c, found) ↦
      let same_world : w ≡ w' = ap (λ t. t.0) (rw (found, open_read) at e) in
      let same : n ≡ h = ok-injective (ap (λ t. t.1) (rw (found, open_read) at e)) in
      rw (← same, ← same_world, found) refl
]

open_read-same : (w : Files) (n m : String) → view (open_read w n).0 m ≡ view w m
open_read-same w n m = elim (Option-cases (lookup n w)) [
  | inl e ↦ rw (e, open_read) refl
  | inr (c, e) ↦ rw (e, open_read) refl
]

remove-other : (w : Files) (n m : String) → m ≢ n → view (remove w n).0 m ≡ view w m
remove-other w n m h = elim (Option-cases (lookup n w)) [
  | inl e ↦ rw (e, remove) refl
  | inr (c, e) ↦ rw (e, remove) (lookup-delete_other n m w h)
]

remove-gone : (w : Files) (n : String) → view (remove w n).0 n ≡ none
remove-gone w n = elim (Option-cases (lookup n w)) [
  | inl e ↦ rw (e, remove) e
  | inr (c, e) ↦ rw (e, remove) (lookup-delete_same n w)
]

write_at-other :
    (w : Files) (h n m : String) (p : List ℕ) (offset : ℕ)
    → Opened w h n
    → m ≢ n
    → view (write_at w h p offset).0 m ≡ view w m
write_at-other w h n m p offset (same, c, found) differ =
    let found_h : lookup h w ≡ some c = rw same found in
    rw (found_h, write_at)
      (lookup-insert_other h m (overwrite c p offset) w (λ e. differ (e ∙ same)))

write_at-Opened :
    (w : Files) (h n : String) (p : List ℕ) (offset : ℕ)
    → Opened w h n
    → Opened (write_at w h p offset).0 h n
write_at-Opened w h n p offset (same, c, found) =
    let found_h : lookup h w ≡ some c = rw same found in
    let stored : lookup h (write_at w h p offset).0 ≡ some (overwrite c p offset) =
      rw (found_h, write_at) (lookup-insert_same h (overwrite c p offset) w) in
    (same, overwrite c p offset, rw (← same) stored)

write_at-held :
    (w : Files) (h : String) (p : List ℕ) (offset : ℕ)
    → (write_at w h p offset).2 ≡ false
    → ((write_at w h p offset).1 ≡ length p)
      × (held (write_at w h p offset).0 h ≡ overwrite (held w h) p offset)
write_at-held w h p offset fine = elim (Option-cases (lookup h w)) [
  | inl gone ↦ cc (rw (gone, write_at) at fine)
  | inr (c, found) ↦
      rw (found, write_at) (refl, rw (lookup-insert_same h (overwrite c p offset) w) refl)
]

rename-moved :
    (fails : Bool) (w w' : Files) (a b : String)
    → rename fails w a b ≡ (w', none)
    → a ≢ b
    → (view w' b ≡ view w a)
      × (view w' a ≡ none)
      × ((m : String) → m ≢ a → m ≢ b → view w' m ≡ view w m)
rename-moved true w w' a b e differ = cc (ap (λ t. t.1) e)
rename-moved false w w' a b e differ = elim (Option-cases (lookup a w)) [
  | inl gone ↦ cc (ap (λ t. t.1) (rw (gone, rename) at e))
  | inr (c, found) ↦
      let same : insert b c (delete a w) ≡ w' = ap (λ t. t.0) (rw (found, rename) at e) in
      rw (← same) (
        lookup-insert_same b c (delete a w) ∙ sym found,
        lookup-insert_other b a c (delete a w) differ ∙ lookup-delete_same a w,
        λ m not_a not_b.
            lookup-insert_other b m c (delete a w) not_b ∙ lookup-delete_other a m w not_a,
      )
]

rename-failed :
    (fails : Bool) (w w' : Files) (a b m : String) (e : FsError)
    → rename fails w a b ≡ (w', some e)
    → view w' m ≡ view w m
rename-failed true w w' a b m e h = ap (λ t. view t.0 m) (sym h)
rename-failed false w w' a b m e h = elim (Option-cases (lookup a w)) [
  | inl gone ↦ ap (λ t. view t.0 m) (sym (rw (gone, rename) at h))
  | inr (c, found) ↦ cc (ap (λ t. t.1) (rw (found, rename) at h))
]

opened-held : (w : Files) (h n : String) → Opened w h n → view w n ≡ some (held w h)
opened-held w h n (same, c, found) =
    let found_h : lookup h w ≡ some c = rw same found in rw (found, found_h) refl

pub file_system-Is : (fails : Bool) → IsFileSystem (file_system fails) view held Opened
file_system-Is fails = record {
  opened_view = opened-held;
  open_read_view = open_read-same;
  open_read_held = open_read-held;
  read_at_lem = λ w h n offset. refl;
  open_write_view = open_write-other;
  open_write_opened = open_write-Opened;
  write_at_view = write_at-other;
  write_at_opened = write_at-Opened;
  write_at_held = write_at-held;
  sync_view = λ w h n m opened. refl;
  close_view = λ w h m. refl;
  remove_view = remove-other;
  remove_gone = λ w w' n e. ap (λ t. view t.0 n) (sym e) ∙ remove-gone w n;
  remove_enoent = λ w w' n e. ap (λ t. view t.0 n) (sym e) ∙ remove-gone w n;
  rename_failed = rename-failed fails;
  rename_moved = rename-moved fails;
}
