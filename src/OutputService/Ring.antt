-- ===== src/OutputService/Ring.antt =====
-- The circular linked list of output paths in
-- pkg/filesystem/virtual/bazel_output_service_directory.go, on the fields of the heap's objects:
-- the maps `next` and `previous` give the two pointers of each object, and object 0 is the list's
-- own head, `d.outputPaths`.
use mathlib.Core.Path.{subst}
use bb_clientd.Prelude.{
  ℕ, ◌≡◌, ◌≢◌, sym, ap, ◌∙◌, ◌⊎◌, inl, inr, List, [], ◌∷◌, ◌++◌, arith, ◌==◌, if◌then◌else◌,
}

-- A write to a field of one object.
abbrev pub update {ℓ} : {A : Type ℓ} → (ℕ → A) → ℕ → A → ℕ → A
update f p v q = if p == q then v else f q

abbrev pub In : ℕ → List ℕ → Type 0
In x [] = ⊥
In x (y ∷ ys) = (x ≡ y) ⊎ In x ys

abbrev pub NotIn : ℕ → List ℕ → Type 0
NotIn x [] = Unit
NotIn x (y ∷ ys) = (x ≢ y) × NotIn x ys

abbrev pub IsDistinct : List ℕ → Type 0
IsDistinct [] = Unit
IsDistinct (x ∷ xs) = NotIn x xs × IsDistinct xs

-- From object `a` the pointers lead through `xs` to object `b`, and back.
abbrev pub Chain : (ℕ → ℕ) → (ℕ → ℕ) → ℕ → List ℕ → ℕ → Type 0
Chain next previous a [] b = (next a ≡ b) × (previous b ≡ a)
Chain next previous a (x ∷ xs) b = (next a ≡ x) × (previous x ≡ a) × Chain next previous x xs b

pub ne_of_notin : (x y : ℕ) (xs : List ℕ) → NotIn x xs → In y xs → x ≢ y
ne_of_notin x y [] n i = elim i [ ]
ne_of_notin x y (z ∷ zs) n (inl e) = λ p. n.0 (cc)
ne_of_notin x y (z ∷ zs) n (inr i) = ne_of_notin x y zs n.1 i

-- The last object before the end.
pub previous-In :
    (next previous : ℕ → ℕ) (a : ℕ) (xs : List ℕ) (b : ℕ)
    → Chain next previous a xs b
    → In (previous b) (a ∷ xs)
previous-In next previous a [] b c = inl c.1
previous-In next previous a (x ∷ xs) b c = inr (previous-In next previous x xs b c.2)

pub NotIn-append : (x : ℕ) (xs ys : List ℕ) → NotIn x (xs ++ ys) → NotIn x xs × NotIn x ys
NotIn-append x [] ys n = (tt, n)
NotIn-append x (z ∷ xs) ys n = let (l, r) = NotIn-append x xs ys n.1 in ((n.0, l), r)

pub NotIn-of_append : (x : ℕ) (xs ys : List ℕ) → NotIn x xs → NotIn x ys → NotIn x (xs ++ ys)
NotIn-of_append x [] ys l r = r
NotIn-of_append x (z ∷ xs) ys l r = (l.0, NotIn-of_append x xs ys l.1 r)

-- state.previous = last; state.next = head; state.previous.next = state; state.next.previous =
-- state
pub insert-Chain :
    (next previous : ℕ → ℕ) (a : ℕ) (xs : List ℕ) (b p : ℕ)
    → Chain next previous a xs b
    → NotIn p (a ∷ xs)
    → p ≢ b
    → IsDistinct (a ∷ xs)
    → NotIn b xs
    → Chain
        (update (update next p b) (previous b) p)
        (update (update previous p (previous b)) b p)
        a
        (xs ++ p ∷ [])
        b
insert-Chain next previous a [] b p c n e d nb = ground arith
insert-Chain next previous a (x ∷ xs) b p c n e d nb =
    let i = ne_of_notin a (previous b) (x ∷ xs) d.0 (previous-In next previous x xs b c.2) in
    (ground arith, ground arith, insert-Chain next previous x xs b p c.2 n.1 e d.1 nb.1)

-- Writes to fields that the chain does not read.
update-Chain :
    (next previous : ℕ → ℕ) (a : ℕ) (xs : List ℕ) (b q v r w : ℕ)
    → Chain next previous a xs b
    → NotIn q (a ∷ xs)
    → NotIn r xs
    → r ≢ b
    → Chain (update next q v) (update previous r w) a xs b
update-Chain next previous a [] b q v r w c nq nr e = ground arith
update-Chain next previous a (x ∷ xs) b q v r w c nq nr e =
    (ground arith, ground arith, update-Chain next previous x xs b q v r w c.2 nq.1 nr.1 e)

-- The neighbours of an object in the chain.
previous-In_middle :
    (next previous : ℕ → ℕ) (a : ℕ) (ys zs : List ℕ) (p b : ℕ)
    → Chain next previous a (ys ++ p ∷ zs) b
    → In (previous p) (a ∷ ys)
previous-In_middle next previous a [] zs p b c = inl c.1
previous-In_middle next previous a (y ∷ ys) zs p b c =
    inr (previous-In_middle next previous y ys zs p b c.2)

next-In_middle :
    (next previous : ℕ → ℕ) (a : ℕ) (ys zs : List ℕ) (p b : ℕ)
    → Chain next previous a (ys ++ p ∷ zs) b
    → In (next p) zs ⊎ (next p ≡ b)
next-In_middle next previous a [] [] p b c = inr c.2.0
next-In_middle next previous a [] (z ∷ zs) p b c = inl (inl c.2.0)
next-In_middle next previous a (y ∷ ys) zs p b c = next-In_middle next previous y ys zs p b c.2

ne_next : (y n : ℕ) (zs : List ℕ) (b : ℕ) → NotIn y zs → y ≢ b → In n zs ⊎ (n ≡ b) → y ≢ n
ne_next y n zs b away e (inl i) = ne_of_notin y n zs away i
ne_next y n zs b away e (inr p) = λ h. e (h ∙ p)

-- state.previous.next = state.next; state.next.previous = state.previous
pub remove-Chain :
    (next previous : ℕ → ℕ) (a : ℕ) (ys zs : List ℕ) (p b : ℕ)
    → Chain next previous a (ys ++ p ∷ zs) b
    → IsDistinct (a ∷ (ys ++ p ∷ zs))
    → NotIn b (ys ++ p ∷ zs)
    → Chain
        (update next (previous p) (next p))
        (update previous (next p) (previous p))
        a
        (ys ++ zs)
        b
remove-Chain next previous a [] [] p b c d nb = ground arith
remove-Chain next previous a [] (z ∷ zs) p b c d nb = (
  ground arith,
  ground arith,
  update-Chain next previous z zs b (previous p) (next p) (next p) (previous p) c.2.2
      (subst (λ t. NotIn t (z ∷ zs)) (sym c.1) d.0.1) (subst (λ t. NotIn t zs) (sym c.2.0) d.1.1.0)
      (ground arith),
)
remove-Chain next previous a (y ∷ ys) zs p b c d nb =
    let i =
      ne_of_notin a (previous p) (y ∷ ys) (NotIn-append a (y ∷ ys) (p ∷ zs) d.0).0
        (previous-In_middle next previous y ys zs p b c.2) in
    let j : y ≢ next p =
      ne_next y (next p) zs b (NotIn-append y ys (p ∷ zs) d.1.0).1.1 (ground arith)
        (next-In_middle next previous y ys zs p b c.2) in
    (ground arith, ground arith, remove-Chain next previous y ys zs p b c.2 d.1 nb.1)

pub In-append_left : (x : ℕ) (xs ys : List ℕ) → In x xs → In x (xs ++ ys)
In-append_left x [] ys i = elim i [ ]
In-append_left x (z ∷ xs) ys (inl e) = inl e
In-append_left x (z ∷ xs) ys (inr i) = inr (In-append_left x xs ys i)

pub In-append_right : (x : ℕ) (xs ys : List ℕ) → In x ys → In x (xs ++ ys)
In-append_right x [] ys i = i
In-append_right x (z ∷ xs) ys i = inr (In-append_right x xs ys i)

pub In-append : (x : ℕ) (xs ys : List ℕ) → In x (xs ++ ys) → In x xs ⊎ In x ys
In-append x [] ys i = inr i
In-append x (z ∷ xs) ys (inl e) = inl (inl e)
In-append x (z ∷ xs) ys (inr i) = elim (In-append x xs ys i) [ inl l ↦ inl (inr l) | inr r ↦ inr r ]

-- Where an object stands in the list.
pub In-split : (x : ℕ) (xs : List ℕ) → In x xs → (ys : List ℕ) × (zs : List ℕ) × (xs ≡ ys ++ x ∷ zs)
In-split x [] i = elim i [ ]
In-split x (z ∷ xs) (inl e) = ([], xs, ap (λ y. y ∷ xs) (sym e))
In-split x (z ∷ xs) (inr i) = let (ys, zs, e) = In-split x xs i in (z ∷ ys, zs, ap (◌∷◌ z) e)

pub Distinct-snoc : (p : ℕ) (xs : List ℕ) → NotIn p xs → IsDistinct xs → IsDistinct (xs ++ p ∷ [])
Distinct-snoc p [] n d = (tt, tt)
Distinct-snoc p (x ∷ xs) n d =
    (NotIn-of_append x xs (p ∷ []) d.0 (ground arith, tt), Distinct-snoc p xs n.1 d.1)

pub Distinct-remove : (ys zs : List ℕ) (p : ℕ) → IsDistinct (ys ++ p ∷ zs) → IsDistinct (ys ++ zs)
Distinct-remove [] zs p d = d.1
Distinct-remove (y ∷ ys) zs p d =
    let (l, r) = NotIn-append y ys (p ∷ zs) d.0 in
    (NotIn-of_append y ys zs l r.1, Distinct-remove ys zs p d.1)

pub NotIn-remove : (x : ℕ) (ys zs : List ℕ) (p : ℕ) → NotIn x (ys ++ p ∷ zs) → NotIn x (ys ++ zs)
NotIn-remove x ys zs p n =
    let (l, r) = NotIn-append x ys (p ∷ zs) n in NotIn-of_append x ys zs l r.1

-- An object that was taken out is no longer there.
pub removed-NotIn : (ys zs : List ℕ) (p : ℕ) → IsDistinct (ys ++ p ∷ zs) → NotIn p (ys ++ zs)
removed-NotIn [] zs p d = d.0
removed-NotIn (y ∷ ys) zs p d =
    (λ e. (NotIn-append y ys (p ∷ zs) d.0).1.0 (sym e), removed-NotIn ys zs p d.1)

pub In-remove : (x : ℕ) (ys zs : List ℕ) (p : ℕ) → In x (ys ++ p ∷ zs) → x ≢ p → In x (ys ++ zs)
In-remove x [] zs p (inl e) n = absurd (n e)
In-remove x [] zs p (inr i) n = i
In-remove x (y ∷ ys) zs p (inl e) n = inl e
In-remove x (y ∷ ys) zs p (inr i) n = inr (In-remove x ys zs p i n)

pub In-of_remove : (x : ℕ) (ys zs : List ℕ) (p : ℕ) → In x (ys ++ zs) → In x (ys ++ p ∷ zs)
In-of_remove x [] zs p i = inr i
In-of_remove x (y ∷ ys) zs p (inl e) = inl e
In-of_remove x (y ∷ ys) zs p (inr i) = inr (In-of_remove x ys zs p i)
