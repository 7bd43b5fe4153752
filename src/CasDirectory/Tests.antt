-- ===== src/CasDirectory/Tests.antt =====
-- Runs and instances for pkg/filesystem/virtual/cas_directory.go.
use bb_clientd.Prelude.{
  ℕ, zero, suc, ◌+◌, ◌≡◌, ◌<◌, refl, Bool, true, some, List, [], ◌∷◌, ◌++◌, arith, drop, get_elem?,
  ltb,
}
use bb_clientd.Prelude.Results.{ok, err}
use bb_clientd.Vfs.{Status, no_attributes}
use bb_clientd.CasDirectory.Attributes.{virtual_get_attributes}
use bb_clientd.CasDirectory.{
  Context, Directory, DirectoryNode, FileNode, SymlinkNode, Child, from_directory, from_leaf,
  name_lt, search, find_entry, put_uvarint, create_symlink, resolve_handle, lookup_directory_node,
  lookup_file_node, lookup_found, lookup_in, virtual_lookup,
}
use bb_clientd.CasDirectory.Lookup.{IsCanonical, lookup_every, virtual_lookup-eq-lookup_every}
use bb_clientd.CasDirectory.Open.{
  Opening, opened, open_file_node, open_found, open_in, virtual_open_child,
  virtual_open_child-lookup,
}
use bb_clientd.CasDirectory.Handles.{resolve_handle-create_symlink}
use bb_clientd.CasDirectory.ReadDir.{
  named, directory_child, file_child, report_child, report_directories, report_files,
  report_contents, virtual_read_dir,
}
use bb_clientd.CasDirectory.ReadDir.Nodes.{children}
use bb_clientd.CasDirectory.ReadDir.Children.{
  report_nodes, status_of, virtual_read_dir-eq-report_nodes,
}

-- Two directories "a" and "b", a file "c" and a symbolic link "d".
abbrev contents : Directory ℕ
contents = record {
  directories = record { name = 97 ∷ []; digest = 1 } ∷ record { name = 98 ∷ []; digest = 2 } ∷ [];
  files = record { name = 99 ∷ []; digest = 3; is_executable = true } ∷ [];
  symlinks = record { name = 100 ∷ []; target = 46 ∷ [] } ∷ [];
}

-- The world is what has been reported, by cookie. A leaf is a number and a handle.
abbrev context : Context (List ℕ) ℕ ℕ ℕ (ℕ × List ℕ) ℕ
context = record {
  get_directory_contents = λ w. (ok contents, w);
  log_error = λ e w. w;
  lookup_directory = λ d. d;
  lookup_file = λ d x. (d, []);
  new_digest_from_proto = λ m. some m;
  lookup_symlink = λ t. some 9;
  as_linkable_leaf = λ h s. (s, h);
  as_stateless_directory = λ h. 0;
  is_component = λ n. true;
}

-- A reporter that takes one entry after the first.
abbrev report : List ℕ → ℕ → List ℕ → Child ℕ (ℕ × List ℕ) → Bool × List ℕ
report w cookie name child = (ltb cookie 3, w ++ cookie ∷ [])

lookup_b : virtual_lookup context (98 ∷ []) [] ≡ (ok (from_directory 2), [])
unfolding virtual_lookup lookup_in lookup_found find_entry search lookup_directory_node
lookup_b = refl

lookup_d : virtual_lookup context (100 ∷ []) [] ≡ (ok (from_leaf (9, 1 ∷ [])), [])
unfolding virtual_lookup lookup_in lookup_found find_entry search create_symlink put_uvarint
lookup_d = refl

read_run : virtual_read_dir context report 1 [] ≡ (Status.ok, 2 ∷ 3 ∷ [])
unfolding virtual_read_dir report_contents report_directories report_files report_child
    directory_child file_child named lookup_directory_node lookup_file_node
read_run = refl

sorted : IsCanonical contents
sorted = record {
  directories_sorted = λ i j x y less a b. directories_sorted i j x y less a b;
  files_sorted = λ i j x y less a b. one (FileNode ℕ) _ (λ e. e.name) i j x y less a b;
  symlinks_sorted = λ i j x y less a b. one SymlinkNode _ (λ e. e.name) i j x y less a b;
}
  where
    one :
        (A : Type 0) (z : A) (name : A → List ℕ) (i j : ℕ) (x y : A)
        → i < j
        → get_elem? (z ∷ []) i ≡ some x
        → get_elem? (z ∷ []) j ≡ some y
        → name_lt (name x) (name y) ≡ true
    one A z name i zero x y less a b = absurd (omega arith)
    one A z name i (suc j) x y less a b = cc

    directories_sorted :
        (i j : ℕ) (x y : DirectoryNode ℕ)
        → i < j
        → get_elem? contents.directories i ≡ some x
        → get_elem? contents.directories j ≡ some y
        → name_lt x.name y.name ≡ true
    directories_sorted i zero x y less a b = absurd (omega arith)
    directories_sorted zero (suc zero) x y less a b = ground arith
    directories_sorted (suc i) (suc zero) x y less a b = absurd (omega arith)
    directories_sorted i (suc (suc j)) x y less a b = cc

virtual_lookup-eq-lookup_every_example :
    virtual_lookup context (98 ∷ []) [] ≡ lookup_every context contents (98 ∷ []) []
virtual_lookup-eq-lookup_every_example =
    virtual_lookup-eq-lookup_every context contents (98 ∷ []) [] [] sorted refl

resolve_handle-create_symlink_example :
    (handle : List ℕ) × (create_symlink context 0 (46 ∷ []) []
      ≡ (ok (context.as_linkable_leaf handle 9), []))
    × (resolve_handle context handle [] ≡ (ok (from_leaf (context.as_linkable_leaf handle 9)), []))
resolve_handle-create_symlink_example =
    resolve_handle-create_symlink context [] [] contents 0 (100 ∷ []) (46 ∷ []) 9 refl refl refl
      (omega arith)

virtual_read_dir-eq-report_nodes_example :
    let (s, v) = report_nodes context report (1 + 1) (drop 1 (children contents)) [] in
    virtual_read_dir context report 1 [] ≡ (status_of s, v)
virtual_read_dir-eq-report_nodes_example =
    virtual_read_dir-eq-report_nodes context report contents 1 [] [] refl

abbrev opening : Opening (List ℕ) (ℕ × List ℕ) ℕ
opening = record {
  wrong_file_type = λ o s. s;
  doesnt_exist = λ c. Status.err_no_ent;
  open_self = λ l o w. (Status.ok, w ++ l.0 ∷ o ∷ []);
}

open_c : virtual_open_child context opening (99 ∷ []) true (some 5) [] ≡ (ok (3, []), 3 ∷ 5 ∷ [])
unfolding virtual_open_child open_in open_found open_file_node opened find_entry search
open_c = refl

open_a : virtual_open_child context opening (97 ∷ []) true (some 5) [] ≡ (err Status.err_is_dir, [])
unfolding virtual_open_child open_in open_found find_entry search
open_a = refl

virtual_open_child-lookup_example :
    (virtual_lookup context (99 ∷ []) [] ≡ (ok (from_leaf (3, [])), []))
    × ((o : ℕ) × (some 5 ≡ some o) × (opening.open_self (3, []) o [] ≡ (Status.ok, 3 ∷ 5 ∷ [])))
virtual_open_child-lookup_example =
    virtual_open_child-lookup context opening (99 ∷ []) true (some 5) [] (3 ∷ 5 ∷ []) (3, []) open_c

attributes_size : (virtual_get_attributes 9999 42 no_attributes).size_bytes ≡ some 42
unfolding virtual_get_attributes
attributes_size = refl
