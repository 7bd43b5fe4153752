-- ===== src/OutputService/Attributes.antt =====
-- VirtualGetAttributes() and VirtualOpenChild() of
-- pkg/filesystem/virtual/bazel_output_service_directory.go.
use Prim.Native.String.{String}
use bb_clientd.Prelude.{
  ℕ, ◌+◌, ◌%◌, ◌≤◌, ◌<◌, ◌^◌, ◌≡◌, refl, sym, ◌∙◌, inl, inr, Bool, true, false, ◌||◌, Bool-cases,
  Option, none, some, Option-cases, some-injective, arith, if◌then◌else◌, ◌==◌, length,
}
use bb_clientd.Prelude.Maps.{lookup}
use bb_clientd.Vfs.{Attributes, FileType, OpenExistingOptions, Status}
use bb_clientd.OutputService.State.{
  BuildState, Service, forget_build, set_build, create_output_path, use_output_path, register,
  start_build_locked, unlink, detach, virtual_lookup,
}
use bb_clientd.OutputService.Builds.{Step, starts, detaches, finalizes, Reach, here, step}
use bb_clientd.OutputService.Refines.{forget-outputs}
use bb_clientd.OutputService.Sessions.{finalize_build_cases}

-- The two bits of virtual.AttributesMask that the code looks at.
pub record Requested : Type 0 where
  pub change_id : Bool
  pub link_count : Bool

module _ {Root Fn Scope : Type 0} where
  -- VirtualGetAttributes(). `handle` is GetAttributes() of the directory's handle, and
  -- `empty_directory_link_count` the constant of that name. The length of the map and the link
  -- count are uint32.
  unfoldable pub virtual_get_attributes :
      ℕ → (Attributes → Attributes) → Service Root Fn Scope → Requested → Attributes → Attributes
  virtual_get_attributes empty_directory_link_count handle d requested attributes =
      let fixed = record attributes {
        file_type = some FileType.directory;
        has_named_attributes = some false;
        is_in_named_attribute_directory = some false;
        permissions = some (record { read = true; write = false; execute = true });
        size_bytes = some 0;
      } in
      let counted = record fixed {
        change_id = some d.change_id;
        link_count =
            some ((empty_directory_link_count + length d.output_base_ids % 2 ^ 32) % 2 ^ 32);
      } in
      handle (if requested.change_id || requested.link_count then counted else fixed)

  -- VirtualOpenChild(), which only fails. The arguments are
  -- ReadOnlyDirectoryOpenChildWrongFileType() and ReadOnlyDirectoryOpenChildDoesntExist(), which is
  -- given whether there are attributes to create a file with.
  unfoldable pub virtual_open_child :
      (Option OpenExistingOptions → Status → Status)
      → (Bool → Status)
      → Service Root Fn Scope
      → String
      → Bool
      → Option OpenExistingOptions
      → Status
  virtual_open_child wrong_file_type doesnt_exist d name creates existing_options =
      elim (lookup name d.output_base_ids) [
        | some p ↦ wrong_file_type existing_options Status.err_is_dir
        | none ↦ doesnt_exist creates
      ]

  -- changeID does not fall, and lookups change only if it rises.
  abbrev Tracks : Service Root Fn Scope → Service Root Fn Scope → Type 0
  Tracks d d' =
      (d.change_id ≤ d'.change_id)
      × (d'.change_id ≡ d.change_id → (k : String) → virtual_lookup d' k ≡ virtual_lookup d k)

  same_id :
      (d d' : Service Root Fn Scope)
      → d'.change_id ≡ d.change_id
      → ((k : String) → virtual_lookup d' k ≡ virtual_lookup d k)
      → Tracks d d'
  same_id d d' e keeps = (omega (arith, e), λ _. keeps)

  forget-Tracks :
      (d : Service Root Fn Scope) (p : ℕ) (s : Option (BuildState Fn Scope))
      → Tracks d (forget_build d p s)
  unfolding forget_build
  forget-Tracks d p none = same_id d _ refl (λ k. refl)
  forget-Tracks d p (some s) = same_id d _ refl (forget-outputs d p (some s))

  use-Tracks :
      (d : Service Root Fn Scope) (base : String) (root : Root) (build : BuildState Fn Scope)
      (found : Option ℕ)
      → d.change_id + 1 < 2 ^ 64
      → let (d', p) = use_output_path d base root found in Tracks d (set_build d' p build)
  unfolding use_output_path set_build create_output_path virtual_lookup
  use-Tracks d base root build (some p) room = forget-Tracks d p (d.build_state p)
  use-Tracks d base root build none room =
      (omega (arith, room), λ e. absurd (omega (arith, room, e)))

  register-Tracks :
      (d : Service Root Fn Scope) (base : String) (root : Root) (build : BuildState Fn Scope)
      (found : Option ℕ)
      → d.change_id + 1 < 2 ^ 64
      → Tracks d (register d base root build found).0
  unfolding register
  register-Tracks d base root build (some p) room = same_id d d refl (λ k. refl)
  register-Tracks d base root build none room =
      use-Tracks d base root build (lookup base d.output_base_ids) room

  unlink-Tracks :
      (d : Service Root Fn Scope) (base : String) (p : ℕ) (s : Option (BuildState Fn Scope))
      → d.change_id + 1 < 2 ^ 64
      → Tracks d (forget_build (unlink d base p) p s)
  unfolding unlink
  unlink-Tracks d base p s room =
      let (low, _) = forget-Tracks (unlink d base p) p s in
      (omega (arith, low, room), λ e. absurd (omega (arith, low, room, e)))

  detach-Tracks :
      (d : Service Root Fn Scope) (base : String) (p : ℕ)
      → d.change_id + 1 < 2 ^ 64
      → Tracks d (detach d base p)
  unfolding detach
  detach-Tracks d base p room = elim (Option-cases (lookup base d.output_base_ids)) [
    | inl missing ↦ rw (missing, detach) (same_id d d refl (λ k. refl))
    | inr (q, found) ↦ elim (Bool-cases (p == q)) [
      | inl current ↦
          rw (found, detach) (rw current (unlink-Tracks d base p (d.build_state p) room))
      | inr stale ↦ rw (found, detach) (rw stale (same_id d d refl (λ k. refl)))
    ]
  ]

  Step-Tracks : {d d' : Service Root Fn Scope} → Step d d' → Tracks d d'
  unfolding start_build_locked
  Step-Tracks {d} (starts base root build room) =
      register-Tracks d base root build (lookup build.id d.build_ids) room
  Step-Tracks {d} (detaches base p room) = detach-Tracks d base p room
  Step-Tracks {d} (finalizes build_id d' ended e) =
      elim (finalize_build_cases d build_id d' ended e) [
        | inl (unknown, same) ↦ rw same (same_id d d refl (λ k. refl))
        | inr (p, s, known, busy, same) ↦ rw same (forget-Tracks d p (some s))
      ]

  Reach-Tracks : {d d' : Service Root Fn Scope} → Reach d d' → Tracks d d'
  Reach-Tracks {d} here = same_id d d refl (λ k. refl)
  Reach-Tracks {d} (step {d = e} {d' = f} r s) =
      let (low, before) = Reach-Tracks r in
      let (high, after) = Step-Tracks s in
      (
        omega (arith, low, high),
        λ same k.
            after (omega (arith, low, high, same)) k ∙ before (omega (arith, low, high, same)) k,
      )

  reported :
      (links : ℕ) (handle : Attributes → Attributes) (d : Service Root Fn Scope)
      (requested : Requested) (attributes : Attributes)
      → ((a : Attributes) → (handle a).change_id ≡ a.change_id)
      → (requested.change_id || requested.link_count) ≡ true
      → (virtual_get_attributes links handle d requested attributes).change_id ≡ some d.change_id
  unfolding virtual_get_attributes
  reported links handle d requested attributes keeps asked =
      rw (asked, virtual_get_attributes) (keeps _)

  -- Between two states of which the second is reached from the first by calls while changeID stays
  -- below 2 ^ 64: if VirtualGetAttributes() reports the same change ID for both, being asked for it
  -- or for the link count, then VirtualLookup() gives the same for every name. The condition is
  -- that GetAttributes() of the handle leaves the change ID alone.
  pub change_id-virtual_lookup :
      (empty_directory_link_count : ℕ) (handle : Attributes → Attributes)
      (d d' : Service Root Fn Scope) (requested : Requested) (attributes : Attributes)
      (name : String)
      → ((a : Attributes) → (handle a).change_id ≡ a.change_id)
      → Reach d d'
      → (requested.change_id || requested.link_count) ≡ true
      → (virtual_get_attributes empty_directory_link_count handle d requested attributes).change_id
        ≡ (virtual_get_attributes empty_directory_link_count handle d' requested
            attributes).change_id
      → virtual_lookup d' name ≡ virtual_lookup d name
  change_id-virtual_lookup links handle d d' requested attributes name keeps r asked same =
      let before = reported links handle d requested attributes keeps asked in
      let after = reported links handle d' requested attributes keeps asked in
      let equal : d.change_id ≡ d'.change_id =
        some-injective d.change_id d'.change_id (sym before ∙ same ∙ after) in
      (Reach-Tracks r).1 (sym equal) name
