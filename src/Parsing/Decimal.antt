-- ===== src/Parsing/Decimal.antt =====
-- Decimal numbers, as sizes are printed in the names of
-- pkg/filesystem/virtual/digest_parsing_directory.go, and what strconv.ParseInt() makes of them.
use bb_clientd.Prelude.{
  ℕ, zero, suc, ◌+◌, ◌-◌, ◌*◌, ◌/◌, ◌%◌, ◌^◌, ◌≤◌, ◌<◌, ◌≡◌, refl, ap, ◌∙◌, inl, inr, false,
  Bool-cases, none, some, List, [], ◌∷◌, ◌++◌, length, Option-cases, ltb, ◌==◌, if◌then◌else◌,
  arith,
}
use bb_clientd.Prelude.Integers.{pos}
use bb_clientd.Parsing.Digests.{dash, last_index, is_digit, digits_from, parse_int}

-- The digits of a number, on fuel: fmt's %d for a number that is not negative.
unfoldable pub decimal_on : ℕ → ℕ → List ℕ
decimal_on zero n = []
decimal_on (suc fuel) n =
    let front = decimal_on fuel (n / 10) in
    if ltb n 10 then (48 + n) ∷ [] else front ++ ((48 + n % 10) ∷ [])

abbrev pub decimal : ℕ → List ℕ
decimal n = decimal_on (suc n) n

-- Digits behind others.
digits_from-append :
    (xs ys : List ℕ) (n m : ℕ)
    → digits_from n xs ≡ some m
    → digits_from n (xs ++ ys) ≡ digits_from m ys
unfolding digits_from
digits_from-append [] ys n m e = ap (λ k. digits_from k ys) (cc e)
digits_from-append (x ∷ xs) ys n m e = elim (Bool-cases (is_digit x)) [
  | inl d ↦ rw d (digits_from-append xs ys (10 * n + (x - 48)) m (rw (d, digits_from) at e))
  | inr bad ↦ cc (rw (bad, digits_from) at e)
]

one_digit : (n d : ℕ) → d < 10 → digits_from n ((48 + d) ∷ []) ≡ some (10 * n + d)
unfolding digits_from
one_digit n d h = ground arith

parsed_first :
    (c : ℕ) (cs : List ℕ) (n : ℕ)
    → 48 ≤ c
    → digits_from 0 (c ∷ cs) ≡ some n
    → n < 2 ^ 63
    → parse_int (c ∷ cs) ≡ some (pos n)
unfolding parse_int
parsed_first c cs n digit value h =
    let not_plus : (c == 43) ≡ false = ground arith in
    let not_minus : (c == dash) ≡ false = ground arith in
    rw (not_plus, not_minus, parse_int) (rw value (ground arith))

digits_from-decimal : (fuel n : ℕ) → n < fuel → digits_from 0 (decimal_on fuel n) ≡ some n
unfolding decimal_on digits_from
digits_from-decimal zero n h = absurd (omega arith)
digits_from-decimal (suc fuel) n h = elim (Bool-cases (ltb n 10)) [
  | inl small ↦ rw small (one_digit 0 n (ground arith) ∙ ap some (omega arith))
  | inr big ↦ rw big (
      digits_from-append (decimal_on fuel (n / 10)) ((48 + n % 10) ∷ []) 0 (n / 10)
        (digits_from-decimal fuel (n / 10) (ground arith))
      ∙ one_digit (n / 10) (n % 10) (omega arith)
      ∙ ap some (omega arith))
]

-- The first digit is one, and there is one.
decimal-first :
    (fuel n : ℕ) → n < fuel → (c : ℕ) × (cs : List ℕ) × (decimal_on fuel n ≡ c ∷ cs) × (48 ≤ c)
unfolding decimal_on
decimal-first zero n h = absurd (omega arith)
decimal-first (suc fuel) n h = elim (Bool-cases (ltb n 10)) [
  | inl small ↦ (48 + n, [], rw small refl, omega arith)
  | inr big ↦
      let (c, cs, e, digit) = decimal-first fuel (n / 10) (ground arith) in
      (c, cs ++ ((48 + n % 10) ∷ []), rw (big, e) refl, digit)
]

-- What is printed for an int64 that is not negative is parsed.
pub parse_int-decimal : (n : ℕ) → n < 2 ^ 63 → parse_int (decimal n) ≡ some (pos n)
unfolding parse_int
parse_int-decimal n h =
    let (c, cs, e, digit) = decimal-first (suc n) n (omega arith) in
    let value : digits_from 0 (c ∷ cs) ≡ some n =
      rw (← e) (digits_from-decimal (suc n) n (omega arith)) in
    rw e (parsed_first c cs n digit value h)

last_index-digit :
    (xs : List ℕ) (d : ℕ) → 48 ≤ d → last_index xs ≡ none → last_index (xs ++ (d ∷ [])) ≡ none
unfolding last_index
last_index-digit [] d h e = ground arith
last_index-digit (x ∷ xs) d h e = elim (Option-cases (last_index xs)) [
  | inr (i, found) ↦ cc (rw (found, last_index) at e)
  | inl front ↦ rw (last_index-digit xs d h front) (rw (front, last_index) at e)
]

-- There is no dash among digits.
last_index-decimal : (fuel n : ℕ) → last_index (decimal_on fuel n) ≡ none
unfolding decimal_on last_index
last_index-decimal zero n = refl
last_index-decimal (suc fuel) n = elim (Bool-cases (ltb n 10)) [
  | inl small ↦ rw small (ground arith)
  | inr big ↦ rw big (
      last_index-digit (decimal_on fuel (n / 10)) (48 + n % 10) (omega arith)
        (last_index-decimal fuel (n / 10)))
]

last_index-dash :
    (xs ys : List ℕ) → last_index ys ≡ none → last_index (xs ++ (dash ∷ ys)) ≡ some (length xs)
unfolding last_index
last_index-dash [] ys e = rw (e, last_index) refl
last_index-dash (x ∷ xs) ys e = rw (last_index-dash xs ys e, last_index) refl

pub last_index-append :
    (xs : List ℕ) (n : ℕ) → last_index (xs ++ (dash ∷ decimal n)) ≡ some (length xs)
last_index-append xs n = last_index-dash xs (decimal n) (last_index-decimal (suc n) n)
