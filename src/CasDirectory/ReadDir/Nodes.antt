-- ===== src/CasDirectory/ReadDir/Nodes.antt =====
-- All children of a directory as VirtualReadDir() of pkg/filesystem/virtual/cas_directory.go goes
-- through them.
use bb_clientd.Prelude.{
  ℕ, zero, suc, ◌+◌, ◌-◌, ◌≡◌, refl, ap, ◌∙◌, Option, none, some, List, [], ◌∷◌, ◌++◌, map, arith,
  length, drop,
}
use bb_clientd.Vfs.{Status}
use bb_clientd.CasDirectory.{DirectoryNode, FileNode, SymlinkNode, Directory}
use bb_clientd.CasDirectory.ReadDir.{after, and_then}

-- An entry of any of the three lists. A symbolic link has its index.
pub data Node (M : Type 0) : Type 0 where
  a_directory : DirectoryNode M → Node M
  a_file : FileNode M → Node M
  a_symlink : ℕ → SymlinkNode → Node M

abbrev pub number : {M : Type 0} → ℕ → List SymlinkNode → List (Node M)
number i [] = []
number i (e ∷ es) = a_symlink i e ∷ number (i + 1) es

-- All children: directories, then files, then symbolic links.
abbrev pub children : {M : Type 0} → Directory M → List (Node M)
children directory =
    map a_directory directory.directories
    ++ (map a_file directory.files ++ number 0 directory.symlinks)

drop-map {ℓ κ} :
    {A : Type ℓ} {B : Type κ} (f : A → B) (n : ℕ) (xs : List A)
    → drop n (map f xs) ≡ map f (drop n xs)
drop-map f zero xs = refl
drop-map f (suc n) [] = refl
drop-map f (suc n) (x ∷ xs) = drop-map f n xs

drop-number :
    {M : Type 0} (n i : ℕ) (es : List SymlinkNode)
    → drop n (number {M = M} i es) ≡ number (i + n) (drop n es)
drop-number zero i es = ap (λ k. number k es) (omega arith)
drop-number (suc n) i [] = refl
drop-number (suc n) i (e ∷ es) =
    drop-number n (i + 1) es ∙ ap (λ k. number k (drop n es)) (omega arith)

drop-append {ℓ} :
    {A : Type ℓ} (n : ℕ) (xs ys : List A) → drop n (xs ++ ys) ≡ drop n xs ++ drop (n - length xs) ys
drop-append zero xs ys = let e : 0 ≡ 0 - length xs = omega arith in ap (λ k. xs ++ drop k ys) e
drop-append (suc n) [] ys = let e : suc n ≡ suc n - 0 = omega arith in ap (λ k. drop k ys) e
drop-append (suc n) (x ∷ xs) ys =
    drop-append n xs ys
    ∙ (let e : n - length xs ≡ suc n - suc (length xs) = omega arith in
        ap (λ k. drop n xs ++ drop k ys) e)

length-map {ℓ κ} :
    {A : Type ℓ} {B : Type κ} (f : A → B) (xs : List A) → length (map f xs) ≡ length xs
length-map f [] = refl
length-map f (x ∷ xs) = omega (arith, length-map f xs)

pub by_cases :
    {W : Type 0} (x : Option Status × W) (k : W → Option Status × W)
    → elim x.0 as (λ s. Option Status × W) [ none ↦ k x.1 | some status ↦ (some status, x.1) ]
      ≡ and_then x k
by_cases (none, w) k = refl
by_cases (some s, w) k = refl

pub and_then_assoc :
    {W : Type 0} (x : Option Status × W) (k l : W → Option Status × W)
    → and_then (and_then x k) l ≡ and_then x (λ w. and_then (k w) l)
and_then_assoc (none, w) k l = refl
and_then_assoc (some s, w) k l = refl

pub and_then-cong :
    {W : Type 0} (x : Option Status × W) (k l : W → Option Status × W)
    → ((w : W) → k w ≡ l w)
    → and_then x k ≡ and_then x l
and_then-cong (none, w) k l h = h w
and_then-cong (some s, w) k l h = refl

pub drop-children :
    {M : Type 0} (first : ℕ) (directory : Directory M)
    → let j = after first (length directory.directories) - length directory.directories in
      let k = after j (length directory.files) - length directory.files in
      drop first (children directory)
      ≡ map a_directory (drop first directory.directories)
        ++ (map a_file (drop j directory.files) ++ number k (drop k directory.symlinks))
drop-children {M} first directory =
    let ds : List (Node M) = map a_directory directory.directories in
    let fs : List (Node M) = map a_file directory.files in
    let ss : List (Node M) = number 0 directory.symlinks in
    let n = length directory.directories in
    let m = length directory.files in
    let j = after first n - n in
    let k = after j m - m in
    let e : first - length ds ≡ j = omega (arith, length-map a_directory directory.directories) in
    let f : j - length fs ≡ k = omega (arith, length-map a_file directory.files) in
    drop-append first ds (fs ++ ss)
    ∙ ap (λ i. drop first ds ++ drop i (fs ++ ss)) e
    ∙ ap (λ l. drop first ds ++ l) (drop-append j fs ss)
    ∙ ap (λ i. drop first ds ++ (drop j fs ++ drop i ss)) f
    ∙ ap (λ l. l ++ (drop j fs ++ drop k ss)) (drop-map a_directory first directory.directories)
    ∙ ap (λ l. map a_directory (drop first directory.directories) ++ (l ++ drop k ss))
        (drop-map a_file j directory.files)
    ∙ ap
        (λ l.
          map a_directory (drop first directory.directories)
          ++ (map a_file (drop j directory.files) ++ l))
        (drop-number k 0 directory.symlinks
          ∙ ap (λ i. number i (drop k directory.symlinks)) zero_plus)
  where
    zero_plus : {k : ℕ} → 0 + k ≡ k
    zero_plus = omega arith
