-- ===== src/Parsing/Identifiers.antt =====
-- What the directories of pkg/filesystem/virtual/instance_name_parsing_directory.go are identified
-- by, and where a path leads.
use bb_clientd.Prelude.{
  ℕ, ◌≡◌, ◌≢◌, refl, sym, ap, ◌∙◌, inl, inr, Option, none, some, Option-cases, List, [], ◌∷◌, ◌++◌,
  length, length-append, append-nil, append_assoc, arith,
}
use bb_clientd.Prelude.Results.{Result, ok, err}
use bb_clientd.Vfs.{Status}
use bb_clientd.Parsing.InstanceNames.{
  slash, write_to, written_by, create_directory, new_parsing_directory, target, Found,
  virtual_lookup, walk,
}

-- A pathname component has no slash and is not empty.
abbrev pub HasNoSlash : List ℕ → Type 0
HasNoSlash [] = Unit
HasNoSlash (c ∷ cs) = (c ≢ slash) × HasNoSlash cs

abbrev pub AreComponents : List (List ℕ) → Type 0
AreComponents [] = Unit
AreComponents (c ∷ cs) = (c ≢ []) × HasNoSlash c × AreComponents cs

-- Bytes up to the first slash.
split_at_slash :
    (a b x y : List ℕ)
    → HasNoSlash a
    → HasNoSlash b
    → a ++ (slash ∷ x) ≡ b ++ (slash ∷ y)
    → (a ≡ b) × (x ≡ y)
split_at_slash [] [] x y ha hb e = (refl, cc e)
split_at_slash [] (d ∷ b) x y ha (hd, hb) e = absurd (hd (cc e))
split_at_slash (c ∷ a) [] x y (hc, ha) hb e = absurd (hc (cc e))
split_at_slash (c ∷ a) (d ∷ b) x y (hc, ha) (hd, hb) e =
    let (same, rest) = split_at_slash a b x y ha hb (cc e) in (cc (e, same), rest)

-- A component in front of a slash does not begin like the end of a path.
not_slash : (c x y : List ℕ) → c ≢ [] → HasNoSlash c → slash ∷ x ≢ c ++ y
not_slash [] x y some_c h e = some_c refl
not_slash (b ∷ c) x y some_c (hb, h) e = hb (cc e)

-- What WriteTo() writes for paths of components is prefix free: behind it, whatever follows, it can
-- be told where it ends and which path it was for.
pub write_to-prefix_free :
    (p q : List (List ℕ)) (x y : List ℕ)
    → AreComponents p
    → AreComponents q
    → write_to p ++ x ≡ write_to q ++ y
    → (p ≡ q) × (x ≡ y)
unfolding write_to
write_to-prefix_free [] [] x y hp hq e = (refl, cc e)
write_to-prefix_free [] (d ∷ q) x y hp (some_d, hd, hq) e =
    absurd (not_slash d x ((slash ∷ write_to q) ++ y) some_d hd (e ∙ append_assoc d _ y))
write_to-prefix_free (c ∷ p) [] x y (some_c, hc, hp) hq e =
    absurd (not_slash c y ((slash ∷ write_to p) ++ x) some_c hc (sym e ∙ append_assoc c _ x))
write_to-prefix_free (c ∷ p) (d ∷ q) x y (some_c, hc, hp) (some_d, hd, hq) e =
    let (same, rest) =
      split_at_slash c d (write_to p ++ x) (write_to q ++ y) hc hd
        (sym (append_assoc c _ x) ∙ e ∙ append_assoc d _ y) in
    let (same_path, same_rest) = write_to-prefix_free p q x y hp hq rest in
    (cc (same, same_path), same_rest)

-- The number of bytes that WriteTo() returns is that of the bytes that it wrote.
pub written_by-length : (p : List (List ℕ)) → written_by p ≡ length (write_to p)
unfolding written_by write_to
written_by-length [] = refl
written_by-length (c ∷ p) = omega (arith, written_by-length p, length-append c (slash ∷ write_to p))

module _ {InstanceName Dir : Type 0} (lookup_funcs : List ℕ → Option (InstanceName → Dir))
    (new_instance_name : List (List ℕ) → Option InstanceName) where
  abbrev pub NoKeywords : List (List ℕ) → Type 0
  NoKeywords [] = Unit
  NoKeywords (c ∷ cs) = (lookup_funcs c ≡ none) × NoKeywords cs

  -- What a keyword does with the components in front of it.
  abbrev pub target_of : (InstanceName → Dir) → Option InstanceName → Result Status (Found Dir)
  target_of lookup_func none = err Status.err_no_ent
  target_of lookup_func (some instance_name) = ok (target (lookup_func instance_name))

  walk-from :
      (front names rest : List (List ℕ)) (keyword : List ℕ) (lookup_func : InstanceName → Dir)
      → NoKeywords names
      → lookup_funcs keyword ≡ some lookup_func
      → walk lookup_funcs new_instance_name (create_directory front) (names ++ (keyword ∷ rest))
        ≡ target_of lookup_func (new_instance_name (front ++ names))
  unfolding walk virtual_lookup create_directory
  walk-from front [] rest keyword lookup_func plain known = rw (append-nil front) (
      rw (known, walk)
        (elim (Option-cases (new_instance_name front)) [
          | inl refused ↦ rw (refused) refl
          | inr (i, made) ↦ rw (made) refl
        ]))
  walk-from front (name ∷ names) rest keyword lookup_func (plain, others) known =
      rw (plain, walk)
        (walk-from (front ++ (name ∷ [])) names rest keyword lookup_func others known
          ∙ ap (λ p. target_of lookup_func (new_instance_name p))
              (append_assoc front (name ∷ []) names))

  -- From the root, a path of components that are no keywords and then a keyword, and whatever
  -- follows, leads to what the keyword's function gives for the instance name of these
  -- components, or to ENOENT where they make none.
  pub walk-keyword :
      (names rest : List (List ℕ)) (keyword : List ℕ) (lookup_func : InstanceName → Dir)
      → NoKeywords names
      → lookup_funcs keyword ≡ some lookup_func
      → walk lookup_funcs new_instance_name new_parsing_directory (names ++ (keyword ∷ rest))
        ≡ target_of lookup_func (new_instance_name names)
  unfolding new_parsing_directory
  walk-keyword names rest keyword lookup_func plain known =
      walk-from [] names rest keyword lookup_func plain known
