-- ===== src/OutputService/ReadDir.antt =====
-- VirtualReadDir() of pkg/filesystem/virtual/bazel_output_service_directory.go.
--
-- The two loops follow the pointers of the list on fuel; `none` means that it ran out. The reporter
-- is a state and a ReportEntry() that returns the next one, and whether it took the entry.
use Prim.Native.String.{String}
use bb_clientd.Prelude.{
  ℕ, zero, suc, ◌+◌, ◌≤◌, ◌<◌, ◌≡◌, refl, inl, inr, Option, none, some, List, [], ◌∷◌, ◌++◌, arith,
  if◌then◌else◌, ◌==◌, Bool-cases, leb, length, Bool,
}
use mathlib.Core.Path.{subst}
use bb_clientd.OutputService.Ring.{NotIn, Chain}
use bb_clientd.OutputService.State.{Service, new_service}
use bb_clientd.OutputService.Invariant.{Inv}
use bb_clientd.OutputService.Order.{Ascends}
use bb_clientd.OutputService.Builds.{Reach, Reach-Inv}

-- What ReportEntry() is given: the cookie to go on with, the name and the directory.
pub record Entry (Root : Type 0) : Type 0 where
  pub next_cookie : ℕ
  pub name : String
  pub child : Root

module _ {Root Fn Scope : Type 0} where
  unfoldable pub entry : Service Root Fn Scope → ℕ → Entry Root
  entry d p = record {
    next_cookie = d.cookie p + 1;
    name = d.output_base_id p;
    child = d.root_directory p;
  }

  -- The first output path whose cookie is at least the one provided, or the head of the list.
  unfoldable pub find_first : ℕ → Service Root Fn Scope → ℕ → ℕ → Option ℕ
  find_first zero d p first_cookie = none
  find_first (suc fuel) d p first_cookie =
      let rest = find_first fuel d (d.next p) first_cookie in
      if p == 0 then some 0 else if leb first_cookie (d.cookie p) then some p else rest

  module _ {R : Type 0} (report : R → Entry Root → R × Bool) where
    -- One entry after the other, until the reporter refuses one.
    unfoldable pub report_from : ℕ → Service Root Fn Scope → ℕ → R → Option R
    report_from zero d p r = none
    report_from (suc fuel) d p r =
        let (r', more) = report r (entry d p) in
        let rest = report_from fuel d (d.next p) r' in
        if p == 0 then some r else if more then rest else some r'

    unfoldable pub virtual_read_dir : ℕ → Service Root Fn Scope → ℕ → R → Option R
    virtual_read_dir fuel d first_cookie r = elim (find_first fuel d (d.next 0) first_cookie) [
      | none ↦ none
      | some p ↦ report_from fuel d p r
    ]

    -- What a reporter makes of a list of entries.
    unfoldable pub report_all : Service Root Fn Scope → List ℕ → R → R
    report_all d [] r = r
    report_all d (x ∷ xs) r =
        let (r', more) = report r (entry d x) in
        let rest = report_all d xs r' in if more then rest else r'

    report_from-Chain :
        (fuel : ℕ) (d : Service Root Fn Scope) (a : ℕ) (xs : List ℕ) (r : R)
        → Chain d.next d.previous a xs 0
        → NotIn 0 xs
        → length xs < fuel
        → report_from fuel d (d.next a) r ≡ some (report_all d xs r)
    unfolding report_from report_all
    report_from-Chain zero d a xs r c n f = absurd (omega arith)
    report_from-Chain (suc fuel) d a [] r c n f = ground arith
    report_from-Chain (suc fuel) d a (x ∷ xs) r c n f =
        rw c.0 (ground (arith, report_from-Chain fuel d x xs (report r (entry d x)).0 c.2 n.1))

-- The objects of a list from a cookie on.
abbrev pub from_cookie : (ℕ → ℕ) → ℕ → List ℕ → List ℕ
from_cookie cookie first [] = []
from_cookie cookie first (x ∷ xs) =
    if leb first (cookie x) then x ∷ from_cookie cookie first xs else from_cookie cookie first xs

pub from_cookie-all :
    (cookie : ℕ → ℕ) (first lo : ℕ) (xs : List ℕ) (hi : ℕ)
    → first ≤ lo
    → Ascends cookie lo xs hi
    → from_cookie cookie first xs ≡ xs
from_cookie-all cookie first lo [] hi h a = refl
from_cookie-all cookie first lo (x ∷ xs) hi h a =
    ground (arith, from_cookie-all cookie first (cookie x + 1) xs hi (omega arith) a.1)

pub length-Ascends :
    (cookie : ℕ → ℕ) (lo : ℕ) (xs : List ℕ) (hi : ℕ) → Ascends cookie lo xs hi → lo + length xs ≤ hi
length-Ascends cookie lo [] hi a = omega arith
length-Ascends cookie lo (x ∷ xs) hi a =
    omega (arith, length-Ascends cookie (cookie x + 1) xs hi a.1)

module _ {Root Fn Scope : Type 0} {R : Type 0} (report : R → Entry Root → R × Bool) where
  -- Both loops one after the other, from any place in the list.
  abbrev both : ℕ → ℕ → Service Root Fn Scope → ℕ → ℕ → R → Option R
  both fuel fuel' d p first r = elim (find_first fuel d p first) [
    | none ↦ none
    | some q ↦ report_from report fuel' d q r
  ]

  both-Chain :
      (fuel fuel' : ℕ) (d : Service Root Fn Scope) (a : ℕ) (xs : List ℕ) (first lo hi : ℕ) (r : R)
      → Chain d.next d.previous a xs 0
      → NotIn 0 xs
      → Ascends d.cookie lo xs hi
      → length xs < fuel
      → length xs < fuel'
      → both fuel fuel' d (d.next a) first r
        ≡ some (report_all report d (from_cookie d.cookie first xs) r)
  unfolding find_first
  both-Chain zero fuel' d a xs first lo hi r c n s f f' = absurd (omega arith)
  both-Chain (suc fuel) fuel' d a [] first lo hi r c n s f f' =
      let empty = report_from-Chain report fuel' d a [] r c n f' in ground (arith, c.0, empty)
  both-Chain (suc fuel) fuel' d a (x ∷ xs) first lo hi r c n s f f' =
      elim (Bool-cases (leb first (d.cookie x))) [
        | inl here ↦
            let rest = from_cookie-all d.cookie first (d.cookie x + 1) xs hi (ground arith) s.1 in
            let all = report_from-Chain report fuel' d a (x ∷ xs) r c n f' in
            let at : report_from report fuel' d x r ≡ some (report_all report d (x ∷ xs) r) =
              subst (λ q. report_from report fuel' d q r ≡ some (report_all report d (x ∷ xs) r))
                c.0 all in
            rw c.0 (ground (arith, n, here, rest, at))
        | inr later ↦
            let rest =
              both-Chain fuel fuel' d x xs first (d.cookie x + 1) hi r c.2 n.1 s.1 (omega arith)
                (omega arith) in
            rw c.0 (ground (arith, n, later, rest))
      ]

module _ {Root Fn Scope : Type 0} (root : Root) (d : Service Root Fn Scope)
    (reach : Reach (new_service root) d) where
  -- In a state that the service can reach, VirtualReadDir() from any cookie comes to an end. It
  -- reports, until the reporter refuses one, exactly those output paths of `outputBaseIDs` whose
  -- cookies are not below the one provided, each once and in the order of their cookies.
  pub virtual_read_dir-eq-report_all :
      {R : Type 0} (report : R → Entry Root → R × Bool) (first_cookie : ℕ) (r : R)
      → (xs : List ℕ) × Inv d xs
        × (virtual_read_dir report (d.change_id + 1) d first_cookie r
            ≡ some (report_all report d (from_cookie d.cookie first_cookie xs) r))
  unfolding virtual_read_dir
  virtual_read_dir-eq-report_all report first r =
      let (xs, h) = Reach-Inv root d reach in
      let bound = length-Ascends d.cookie 0 xs d.change_id h.ascends in
      let fuel = d.change_id + 1 in
      (
        xs,
        h,
        both-Chain report fuel fuel d 0 xs first 0 d.change_id r h.ring h.distinct.0 h.ascends
            (omega arith) (omega arith),
      )

-- A reader that comes back with the cookie that an entry was reported with goes on after it.
pub from_cookie-resume :
    (cookie : ℕ → ℕ) (lo : ℕ) (ys : List ℕ) (x : ℕ) (zs : List ℕ) (hi : ℕ)
    → Ascends cookie lo (ys ++ x ∷ zs) hi
    → from_cookie cookie (cookie x + 1) (ys ++ x ∷ zs) ≡ zs
from_cookie-resume cookie lo [] x zs hi a =
    ground (arith, from_cookie-all cookie (cookie x + 1) (cookie x + 1) zs hi (omega arith) a.1)
from_cookie-resume cookie lo (y ∷ ys) x zs hi a = ground (
  arith,
  below cookie (cookie y + 1) ys x zs hi a.1,
  from_cookie-resume cookie (cookie y + 1) ys x zs hi a.1,
)
  where
    below :
        (cookie : ℕ → ℕ) (lo : ℕ) (ys : List ℕ) (x : ℕ) (zs : List ℕ) (hi : ℕ)
        → Ascends cookie lo (ys ++ x ∷ zs) hi
        → lo ≤ cookie x
    below cookie lo [] x zs hi a = a.0
    below cookie lo (y ∷ ys) x zs hi a = omega (arith, below cookie (cookie y + 1) ys x zs hi a.1)
