-- ===== src/OutputService/Order.antt =====
-- Facts on lists of objects that the invariant of BazelOutputServiceDirectory in
-- pkg/filesystem/virtual/bazel_output_service_directory.go uses: rising cookies, and objects that
-- have been allocated.
use bb_clientd.Prelude.{ℕ, suc, ◌+◌, ◌≤◌, ◌<◌, ◌≡◌, List, [], ◌∷◌, ◌++◌, arith}
use bb_clientd.OutputService.Ring.{update, NotIn}

-- The cookies rise strictly along the list, from `lo` on and below `hi`.
abbrev pub Ascends : (ℕ → ℕ) → ℕ → List ℕ → ℕ → Type 0
Ascends cookie lo [] hi = lo ≤ hi
Ascends cookie lo (x ∷ xs) hi = (lo ≤ cookie x) × Ascends cookie (cookie x + 1) xs hi

abbrev pub Below : ℕ → List ℕ → Type 0
Below n [] = Unit
Below n (x ∷ xs) = (x < n) × Below n xs

pub Below-NotIn : (n : ℕ) (xs : List ℕ) → Below n xs → NotIn n xs
Below-NotIn n [] b = tt
Below-NotIn n (x ∷ xs) b = (omega arith, Below-NotIn n xs b.1)

pub Below-snoc : (n : ℕ) (xs : List ℕ) → Below n xs → Below (suc n) (xs ++ n ∷ [])
Below-snoc n [] b = omega arith
Below-snoc n (x ∷ xs) b = (omega arith, Below-snoc n xs b.1)

pub Below-remove : (n : ℕ) (ys zs : List ℕ) (p : ℕ) → Below n (ys ++ p ∷ zs) → Below n (ys ++ zs)
Below-remove n [] zs p b = b.1
Below-remove n (y ∷ ys) zs p b = (b.0, Below-remove n ys zs p b.1)

-- The object with the last cookie goes to the end.
pub Ascends-snoc :
    (cookie : ℕ → ℕ) (lo : ℕ) (xs : List ℕ) (hi p : ℕ)
    → NotIn p xs
    → Ascends cookie lo xs hi
    → Ascends (update cookie p hi) lo (xs ++ p ∷ []) (hi + 1)
Ascends-snoc cookie lo [] hi p n a = ground arith
Ascends-snoc cookie lo (x ∷ xs) hi p n a =
    let e : update cookie p hi x ≡ cookie x = ground arith in
    rw e (a.0, Ascends-snoc cookie (cookie x + 1) xs hi p n.1 a.1)

pub Ascends-weaken :
    (cookie : ℕ → ℕ) (lo lo' : ℕ) (xs : List ℕ) (hi hi' : ℕ)
    → lo' ≤ lo
    → hi ≤ hi'
    → Ascends cookie lo xs hi
    → Ascends cookie lo' xs hi'
Ascends-weaken cookie lo lo' [] hi hi' l h a = omega arith
Ascends-weaken cookie lo lo' (x ∷ xs) hi hi' l h a =
    (omega arith, Ascends-weaken cookie (cookie x + 1) (cookie x + 1) xs hi hi' (omega arith) h a.1)

pub Ascends-remove :
    (cookie : ℕ → ℕ) (lo : ℕ) (ys zs : List ℕ) (p hi : ℕ)
    → Ascends cookie lo (ys ++ p ∷ zs) hi
    → Ascends cookie lo (ys ++ zs) (hi + 1)
Ascends-remove cookie lo [] zs p hi a =
    Ascends-weaken cookie (cookie p + 1) lo zs hi (hi + 1) (omega arith) (omega arith) a.1
Ascends-remove cookie lo (y ∷ ys) zs p hi a =
    (a.0, Ascends-remove cookie (cookie y + 1) ys zs p hi a.1)
