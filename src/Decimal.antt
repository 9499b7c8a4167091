-- ===== src/Decimal.antt =====
-- Decimal numbers as the C library reads and prints them: atoi and "%d".
use raft_rx.Prelude.{
  ℕ, zero, suc, ◌+◌, ◌-◌, ◌*◌, ◌/◌, ◌%◌, ◌^◌, ◌≤◌, ◌<◌, ◌≡◌, Bool, true, false, ◌&&◌, ◌||◌, [], ◌∷◌,
  ◌++◌, Text, if◌then◌else◌, ltb, leb, ◌==◌, arith, refl, is_empty, ◌∙◌, Bool-cases, inl, inr,
  length, length-append,
}

-- atoi. A number below zero reads as 0, which the code treats alike.
atoi_digits : ℕ → Text → ℕ
atoi_digits acc [] = acc
atoi_digits acc (c ∷ s) = elim (leb b'0' c && leb c b'9') [
  | true ↦ atoi_digits (acc * 10 + (c - b'0')) s
  | false ↦ acc
]

atoi_signed : Text → ℕ
unfolding atoi_digits
atoi_signed [] = 0
atoi_signed (c ∷ s) =
    if c == b'-' then 0 else (if c == b'+' then atoi_digits 0 s else atoi_digits 0 (c ∷ s))

unfoldable pub is_blank : ℕ → Bool
is_blank c = c == 32 || leb 9 c && leb c 13

unfoldable pub atoi : Text → ℕ
unfolding atoi_signed is_blank
atoi [] = 0
atoi (c ∷ s) = elim (is_blank c) [ true ↦ atoi s | false ↦ atoi_signed (c ∷ s) ]

-- "%d" of a number that is not negative. The fuel is the number itself, which the quotient is below.
print_from : ℕ → ℕ → Text
print_from zero n = []
print_from (suc fuel) n = elim (ltb n 10) [
  | true ↦ (b'0' + n) ∷ []
  | false ↦ print_from fuel (n / 10) ++ (b'0' + n % 10) ∷ []
]

unfoldable pub print_int : ℕ → Text
unfolding print_from
print_int n = print_from (suc n) n

abbrev pub AllDigits : Text → Type 0
AllDigits [] = Unit
AllDigits (c ∷ s) = (b'0' ≤ c) × (c ≤ b'9') × AllDigits s

-- The text does not go on with a digit.
abbrev pub EndsNumber : Text → Type 0
EndsNumber [] = Unit
EndsNumber (c ∷ s) = (leb b'0' c && leb c b'9') ≡ false

-- The number that digits stand for, after `acc`.
value_from : ℕ → Text → ℕ
value_from acc [] = acc
value_from acc (c ∷ s) = value_from (acc * 10 + (c - b'0')) s

atoi_digits-append :
    (acc : ℕ) (s rest : Text)
    → AllDigits s
    → EndsNumber rest
    → atoi_digits acc (s ++ rest) ≡ value_from acc s
unfolding atoi_digits value_from
atoi_digits-append acc [] [] d e = refl
atoi_digits-append acc [] (c ∷ rest) d e = rw (e, atoi_digits)
atoi_digits-append acc (c ∷ s) rest d e =
    ground (arith, atoi_digits-append (acc * 10 + (c - b'0')) s rest d.2 e)

value_from-snoc :
    (acc c : ℕ) (s : Text) → value_from acc (s ++ c ∷ []) ≡ value_from acc s * 10 + (c - b'0')
unfolding value_from
value_from-snoc acc c [] = refl
value_from-snoc acc c (x ∷ s) = value_from-snoc (acc * 10 + (x - b'0')) c s

AllDigits-snoc : (c : ℕ) (s : Text) → AllDigits s → b'0' ≤ c → c ≤ b'9' → AllDigits (s ++ c ∷ [])
AllDigits-snoc c [] d lo hi = (lo, hi, tt)
AllDigits-snoc c (x ∷ s) d lo hi = (d.0, d.1, AllDigits-snoc c s d.2 lo hi)

print_from-lem :
    (fuel n : ℕ) → n < fuel → AllDigits (print_from fuel n) × (value_from 0 (print_from fuel n) ≡ n)
unfolding print_from value_from
print_from-lem zero n h = absurd (omega arith)
print_from-lem (suc fuel) n h = elim (Bool-cases (ltb n 10)) [
  | inl small ↦ rw (small, print_from) ((ground arith, ground arith, tt), omega arith)
  | inr large ↦
      let (d, v) = print_from-lem fuel (n / 10) (ground arith) in
      rw (large, print_from)
        (
          AllDigits-snoc _ _ d (omega arith) (omega arith),
          omega (arith, value_from-snoc 0 (b'0' + n % 10) (print_from fuel (n / 10)), v),
        )
]

is_empty-snoc : (c : ℕ) (s : Text) → is_empty (s ++ c ∷ []) ≡ false
is_empty-snoc c [] = refl
is_empty-snoc c (x ∷ s) = refl

pub is_empty-print_int : (n : ℕ) → is_empty (print_int n) ≡ false
unfolding print_int
is_empty-print_int n = elim (Bool-cases (ltb n 10)) [
  | inl small ↦ rw (small, print_from)
  | inr large ↦ rw (large, print_from) (is_empty-snoc _ (print_from n (n / 10)))
]

atoi-digits :
    (s rest : Text)
    → AllDigits s
    → is_empty s ≡ false
    → atoi (s ++ rest) ≡ atoi_digits 0 (s ++ rest)
unfolding atoi
atoi-digits [] rest d h = cc
atoi-digits (c ∷ s) rest d h = ground arith

-- A printed number is read back, whatever follows it other than a digit.
pub atoi-print_int : (n : ℕ) (rest : Text) → EndsNumber rest → atoi (print_int n ++ rest) ≡ n
unfolding print_int
atoi-print_int n rest e =
    let (d, v) = print_from-lem (suc n) n (omega arith) in
    atoi-digits (print_int n) rest d (is_empty-print_int n)
    ∙ atoi_digits-append 0 (print_int n) rest d e
    ∙ v

length-print_from : (fuel k n : ℕ) → n < 10 ^ suc k → length (print_from fuel n) ≤ suc k
unfolding print_from
length-print_from zero k n h = omega arith
length-print_from (suc fuel) zero n h =
    let small : ltb n 10 ≡ true = ground (arith, h) in rw (small, print_from) (omega arith)
length-print_from (suc fuel) (suc k) n h = elim (Bool-cases (ltb n 10)) [
  | inl small ↦ rw (small, print_from) (omega arith)
  | inr large ↦
      let tail = (b'0' + n % 10) ∷ [] in
      rw (large, print_from)
        (omega (
          arith,
          length-append (print_from fuel (n / 10)) tail,
          length-print_from fuel k (n / 10) (omega (arith, h)),
        ))
]

-- A number below a power of ten has at most as many digits as its exponent.
pub length-print_int : (k n : ℕ) → n < 10 ^ suc k → length (print_int n) ≤ suc k
unfolding print_int
length-print_int k n h = length-print_from (suc n) k n h

pub AllDigits-print_int : (n : ℕ) → AllDigits (print_int n)
unfolding print_int
AllDigits-print_int n = (print_from-lem (suc n) n (omega arith)).0
