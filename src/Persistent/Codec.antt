-- ===== src/Persistent/Codec.antt =====
-- Messages as bytes, for the tests of pkg/filesystem/virtual/persistent_output_path_factory.go:
-- those of one child or one file, with fixed names.
use Prim.Native.String.{String}
use text.Mathlib.Text.{◌==◌ as str_eq}
use text.Mathlib.TextEquality.{eq_iff}
use bb_clientd.Prelude.{
  ℕ, ◌<◌, ◌^◌, ◌≡◌, refl, inl, inr, Bool, true, false, Bool-cases, Option, none, some, Option-cases,
  List, [], ◌∷◌, length, if◌then◌else◌, arith,
}
use bb_clientd.StateFile.Format.{FileRegion, RoundTrips}
use bb_clientd.Persistent.Messages.{
  Directory, DirectoryNode, FileNode, SymlinkNode, empty_directory,
}
use bb_clientd.Persistent.Factory.{RootDirectory}

abbrev of_child : String → Option FileRegion → Option (List ℕ)
of_child name none = none
of_child name (some region) =
    if str_eq name "a" then some (region.offset_bytes ∷ region.size_bytes ∷ []) else none

abbrev of_file : String → ℕ → Bool → Option (List ℕ)
of_file name digest false = none
of_file name digest true = if str_eq name "f" then some (digest ∷ []) else none

abbrev marshal_lists : List DirectoryNode → List (FileNode ℕ) → List SymlinkNode → Option (List ℕ)
marshal_lists [] [] [] = some []
marshal_lists (entry ∷ []) [] [] = of_child entry.name entry.file_region
marshal_lists [] (entry ∷ []) [] = of_file entry.name entry.digest entry.is_executable
marshal_lists _ _ _ = none

abbrev pub marshal : Directory ℕ → Option (List ℕ)
marshal m = marshal_lists m.directories m.files m.symlinks

abbrev child_message : FileRegion → Directory ℕ
child_message region = record empty_directory {
  directories = record { name = "a"; file_region = some region } ∷ [];
}

abbrev file_message : ℕ → Directory ℕ
file_message digest = record empty_directory {
  files = record { name = "f"; digest = digest; is_executable = true } ∷ [];
}

abbrev pub unmarshal : List ℕ → Option (Directory ℕ)
unmarshal [] = some empty_directory
unmarshal (offset ∷ size ∷ []) =
    some (child_message (record { offset_bytes = offset; size_bytes = size }))
unmarshal (digest ∷ []) = some (file_message digest)
unmarshal (x ∷ y ∷ z ∷ more) = none

abbrev of_lists : List DirectoryNode → List (FileNode ℕ) → List SymlinkNode → Directory ℕ
of_lists directories files symlinks = record {
  directories = directories;
  files = files;
  symlinks = symlinks;
}

child_trips :
    (name : String) (region : Option FileRegion) (bytes : List ℕ)
    → of_child name region ≡ some bytes
    → unmarshal bytes ≡ some (of_lists (record { name = name; file_region = region } ∷ []) [] [])
child_trips name none bytes e = cc
child_trips name (some region) bytes e = elim (Bool-cases (str_eq name "a")) [
  | inr other ↦ cc (rw (other, of_child) at e)
  | inl same ↦
      let at : region.offset_bytes ∷ region.size_bytes ∷ [] ≡ bytes =
        cc (rw (same, of_child) at e) in
      rw (← at, (eq_iff name "a").0 same) refl
]

file_trips :
    (name : String) (digest : ℕ) (is_executable : Bool) (bytes : List ℕ)
    → of_file name digest is_executable ≡ some bytes
    → unmarshal bytes
      ≡ some (
          of_lists []
            (record { name = name; digest = digest; is_executable = is_executable } ∷ [])
            [])
file_trips name digest false bytes e = cc
file_trips name digest true bytes e = elim (Bool-cases (str_eq name "f")) [
  | inr other ↦ cc (rw (other, of_file) at e)
  | inl same ↦
      let at : digest ∷ [] ≡ bytes = cc (rw (same, of_file) at e) in
      rw (← at, (eq_iff name "f").0 same) refl
]

lists_trip :
    (ds : List DirectoryNode) (fs : List (FileNode ℕ)) (ss : List SymlinkNode) (bytes : List ℕ)
    → marshal_lists ds fs ss ≡ some bytes
    → unmarshal bytes ≡ some (of_lists ds fs ss)
lists_trip [] [] [] bytes e = let at : [] ≡ bytes = cc e in rw (← at) refl
lists_trip (entry ∷ []) [] [] bytes e = child_trips entry.name entry.file_region bytes e
lists_trip [] (entry ∷ []) [] bytes e =
    file_trips entry.name entry.digest entry.is_executable bytes e
lists_trip [] [] (s ∷ ss) bytes e = cc
lists_trip [] (f ∷ []) (s ∷ ss) bytes e = cc
lists_trip [] (f ∷ g ∷ fs) ss bytes e = cc
lists_trip (d ∷ []) [] (s ∷ ss) bytes e = cc
lists_trip (d ∷ []) (f ∷ fs) ss bytes e = cc
lists_trip (d ∷ c ∷ ds) fs ss bytes e = cc

pub trips : RoundTrips marshal unmarshal
trips m bytes e = lists_trip m.directories m.files m.symlinks bytes e

-- A root directory: its creation time in front of its message, and no bytes where it has no
-- fields.
abbrev timed : ℕ → Option (List ℕ) → Option (List ℕ)
timed time none = none
timed time (some bytes) = some (time ∷ bytes)

abbrev marshal_fields : Option ℕ → Option (Directory ℕ) → Option (List ℕ)
marshal_fields none none = some []
marshal_fields none (some m) = none
marshal_fields (some time) none = none
marshal_fields (some time) (some m) = timed time (marshal m)

abbrev pub marshal_root : RootDirectory ℕ ℕ → Option (List ℕ)
marshal_root root = marshal_fields root.initial_creation_time root.contents

abbrev with_time : ℕ → Option (Directory ℕ) → Option (RootDirectory ℕ ℕ)
with_time time none = none
with_time time (some m) = some (record { initial_creation_time = some time; contents = some m })

abbrev pub unmarshal_root : List ℕ → Option (RootDirectory ℕ ℕ)
unmarshal_root [] = some (record { initial_creation_time = none; contents = none })
unmarshal_root (time ∷ bytes) = with_time time (unmarshal bytes)

root_trip :
    (time : Option ℕ) (contents : Option (Directory ℕ)) (bytes : List ℕ)
    → marshal_fields time contents ≡ some bytes
    → unmarshal_root bytes ≡ some (record { initial_creation_time = time; contents = contents })
root_trip none none bytes e = let at : [] ≡ bytes = cc e in rw (← at) refl
root_trip none (some m) bytes e = cc
root_trip (some time) none bytes e = cc
root_trip (some time) (some m) bytes e = elim (Option-cases (marshal m)) [
  | inl failed ↦ cc (rw (failed, timed) at e)
  | inr (b, found) ↦
      let at : time ∷ b ≡ bytes = cc (rw (found, timed) at e) in rw (← at, trips m b found) refl
]

pub root_trips : RoundTrips marshal_root unmarshal_root
root_trips root bytes e = root_trip root.initial_creation_time root.contents bytes e

unmarshal-short : (bytes : List ℕ) (m : Directory ℕ) → unmarshal bytes ≡ some m → length bytes < 3
unmarshal-short [] m e = omega arith
unmarshal-short (x ∷ []) m e = omega arith
unmarshal-short (x ∷ y ∷ []) m e = omega arith
unmarshal-short (x ∷ y ∷ z ∷ more) m e = cc

small-length : (m : Directory ℕ) (bytes : List ℕ) → marshal m ≡ some bytes → length bytes < 3
small-length m bytes e = unmarshal-short bytes m (trips m bytes e)

pub small : (m : Directory ℕ) (bytes : List ℕ) → marshal m ≡ some bytes → length bytes < 2 ^ 31
small m bytes e = omega (arith, small-length m bytes e)

-- A root directory with both fields has a byte for its creation time.
pub small_root :
    (time : ℕ) (m : Directory ℕ) (bytes : List ℕ)
    → timed time (marshal m) ≡ some bytes
    → (length bytes < 2 ^ 31) × (0 < length bytes)
small_root time m bytes e = elim (Option-cases (marshal m)) [
  | inl failed ↦ cc (rw (failed, timed) at e)
  | inr (b, found) ↦
      let at : time ∷ b ≡ bytes = cc (rw (found, timed) at e) in
      rw (← at) (omega (arith, small-length m b found), omega arith)
]
