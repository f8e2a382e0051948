-- ===== src/Rounding/Division.antt =====
-- What the rounded division returns: the nearest whole number, halves away from zero.
use trade_pal_africa.Base.{ℕ, suc, ◌+◌, ◌*◌, ◌≤◌, ◌<◌, ◌≡◌, ok, ap, ◌∙◌, arith}
use trade_pal_africa.Base.Int.{ℤ, pos, negsuc, pos_part, neg_part, neg, neg_parts, eq_of_parts}
use trade_pal_africa.Rounding.{half_up, div_round_half_up}

-- On naturals: within half a unit, and a half goes up.
pub half_up_nearest :
    (n d : ℕ) → 0 < d → (2 * (half_up n d * d) ≤ 2 * n + d) × (2 * n < 2 * (half_up n d * d) + d)
unfolding half_up
half_up_nearest n d h = grind arith

half_up-zero : (d : ℕ) → 0 < d → half_up 0 d ≡ 0
unfolding half_up
half_up-zero d h = grind arith

-- The quotient that a call with a positive denominator returns.
unfoldable pub rounded : ℤ → ℕ → ℤ
rounded (pos k) d = pos (half_up k d)
rounded (negsuc k) d = neg (pos (half_up (suc k) d))

pub div_round_half_up-rounded :
    (n : ℤ) (d : ℕ) → 0 < d → div_round_half_up n (pos d) ≡ ok (rounded n d)
unfolding div_round_half_up rounded neg
div_round_half_up-rounded (pos k) d h = ground arith
div_round_half_up-rounded (negsuc k) d h = ground arith

rounded_parts :
    (n : ℤ) (d : ℕ)
    → 0 < d
    → (pos_part (rounded n d) ≡ half_up (pos_part n) d)
      × (neg_part (rounded n d) ≡ half_up (neg_part n) d)
unfolding rounded
rounded_parts (pos k) d h = ground (arith, half_up-zero d)
rounded_parts (negsuc k) d h = ground (arith, half_up-zero d, neg_parts (pos (half_up (suc k) d)))

-- The distance between an amount and a quotient's multiple is at most half the denominator, and
-- a half is rounded away from zero.
abbrev pub IsNearest : ℕ → ℕ → ℕ → Type 0
IsNearest n d q = (2 * (q * d) ≤ 2 * n + d) × (2 * n < 2 * (q * d) + d)

-- With a positive denominator the call returns a quotient: the nearest to n / d on either side of
-- zero, and a half is rounded away from zero.
pub div_round_half_up-IsNearest :
    (n : ℤ) (d : ℕ)
    → 0 < d
    → (q : ℤ) × (div_round_half_up n (pos d) ≡ ok q)
      × IsNearest (pos_part n) d (pos_part q)
      × IsNearest (neg_part n) d (neg_part q)
div_round_half_up-IsNearest n d h = (
  rounded n d,
  div_round_half_up-rounded n d h,
  rw ((rounded_parts n d h).0) (half_up_nearest (pos_part n) d h),
  rw ((rounded_parts n d h).1) (half_up_nearest (neg_part n) d h),
)

pos_part-neg : (n : ℤ) → pos_part (neg n) ≡ neg_part n
unfolding neg
pos_part-neg n = ground arith

neg_part-neg : (n : ℤ) → neg_part (neg n) ≡ pos_part n
unfolding neg
neg_part-neg n = ground arith

neg-rounded : (n : ℤ) (d : ℕ) → 0 < d → rounded (neg n) d ≡ neg (rounded n d)
neg-rounded n d h = eq_of_parts _ _ (
    omega (
      arith,
      rounded_parts n d h,
      rounded_parts (neg n) d h,
      neg_parts (rounded n d),
      ap (λ (k : ℕ). half_up k d) (pos_part-neg n),
      ap (λ (k : ℕ). half_up k d) (neg_part-neg n),
    ))

-- Division is odd: the quotient of -n is the negated quotient of n.
pub div_round_half_up-neg :
    (n : ℤ) (d : ℕ)
    → 0 < d
    → (q : ℤ) × (div_round_half_up n (pos d) ≡ ok q)
      × (div_round_half_up (neg n) (pos d) ≡ ok (neg q))
div_round_half_up-neg n d h = (
  rounded n d,
  div_round_half_up-rounded n d h,
  div_round_half_up-rounded (neg n) d h ∙ ap ok (neg-rounded n d h),
)
