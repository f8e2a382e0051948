-- ===== src/Trade/Charging.antt =====
-- src/domain/trade/common.ts, `cumulativeValue`: the charges of the shipments of a line.
use trade_pal_africa.Base.{
  ℕ, ◌+◌, ◌*◌, ◌≤◌, ◌<◌, List, [], ◌∷◌, leb, ◌==◌, if◌then◌else◌, ok, sum, All, ◌≡◌, refl, ap,
  arith, Bool-cases, inl, inr,
}
use native.Mathlib.Nat.{mul-le-mul_left, le-div_iff_mul-le, div-lt_iff_lt-mul, div-mul-le_self}
use trade_pal_africa.Base.Int.{ℤ, pos, pos_part, neg_part, ◌+ℤ◌, ◌-ℤ◌, ◌≤ℤ◌, *ℤ-pos, int_laws}
use trade_pal_africa.Rounding.{half_up}
use trade_pal_africa.Rounding.Division.{rounded, div_round_half_up-rounded}
use trade_pal_africa.Trade.Value.{cumulative_value, charge, charge_each, sum_ℤ}

-- The value of the first `c` units, of a line worth `t`, as a number.
unfoldable pub worth : ℕ → ℕ → ℕ → ℕ
worth t o c = if c == 0 then 0 else if leb o c then t else half_up (t * c) o

cumulative_value-worth : (t o c : ℕ) → cumulative_value (pos t) o c ≡ ok (pos (worth t o c))
unfolding cumulative_value worth rounded
cumulative_value-worth t o c = elim (Bool-cases (c == 0)) [
  | inl z ↦ rw z refl
  | inr z ↦ elim (Bool-cases (leb o c)) [
    | inl e ↦ rw (z, e) refl
    | inr e ↦ rw (z, e, *ℤ-pos t c) (div_round_half_up-rounded (pos (t * c)) o (ground arith))
  ]
]

double_pos : (d : ℕ) → 0 < d → 0 < 2 * d
double_pos d h = omega (arith, h)

half_up_mono : (m n d : ℕ) → 0 < d → m ≤ n → half_up m d ≤ half_up n d
unfolding half_up
half_up_mono m n d z h =
    (le-div_iff_mul-le {x = half_up m d} {y = 2 * n + d} (double_pos d z)).1
      (omega (arith, h, div-mul-le_self (2 * m + d) (2 * d)))

half_up_le : (t c o : ℕ) → c < o → half_up (t * c) o ≤ t
unfolding half_up
half_up_le t c o h =
    let most : t * c ≤ t * o = mul-le-mul_left t (omega (arith, h)) in
    let short : 2 * (t * c) + o < (t + 1) * (2 * o) = grind (arith, most, h) in
    omega (
      arith,
      (div-lt_iff_lt-mul {x = 2 * (t * c) + o} {y = t + 1} (double_pos o (omega (arith, h)))).1
          short,
    )

worth_mono : (t o b c : ℕ) → b ≤ c → worth t o b ≤ worth t o c
unfolding worth
worth_mono t o b c h =
    let below = mul-le-mul_left t h in
    let grows = λ (z : 0 < o). half_up_mono (t * b) (t * c) o z below in
    ground (arith, grows, half_up_le t b o)

-- The charges of shipments, one after the other, as differences.
diffs : ℕ → ℕ → ℕ → List ℕ → List ℤ
diffs t o c [] = []
diffs t o c (q ∷ qs) = (pos (worth t o (c + q)) -ℤ pos (worth t o c)) ∷ diffs t o (c + q) qs

charge_each-diffs : (t o c : ℕ) (qs : List ℕ) → charge_each (pos t) o c qs ≡ ok (diffs t o c qs)
unfolding charge_each charge diffs
charge_each-diffs t o c [] = refl
charge_each-diffs t o c (q ∷ qs) =
    rw
      (
        cumulative_value-worth t o (c + q),
        cumulative_value-worth t o c,
        charge_each-diffs t o (c + q) qs,
      )
      refl

parts : {a b : ℤ} → a ≡ b → (pos_part a ≡ pos_part b) × (neg_part a ≡ neg_part b)
parts e = (ap pos_part e, ap neg_part e)

diffs_telescope :
    (t o c n : ℕ) (qs : List ℕ)
    → n ≡ c + sum qs
    → sum_ℤ (diffs t o c qs) +ℤ pos (worth t o c) ≡ pos (worth t o n)
unfolding diffs
diffs_telescope t o c n [] e = omega (int_laws, ap (worth t o) (at_end e))
  where
    at_end : n ≡ c + 0 → n ≡ c
    at_end e = omega (arith, e)
diffs_telescope t o c n (q ∷ qs) e =
    omega (int_laws, parts (diffs_telescope t o (c + q) n qs (omega (arith, e))))

worth_whole : (t o n : ℕ) → 0 < o → o ≤ n → worth t o n ≡ t
unfolding worth
worth_whole t o n h k = ground arith

diffs_natural : (t o c : ℕ) (qs : List ℕ) → All (λ a. pos 0 ≤ℤ a) (diffs t o c qs)
unfolding diffs
diffs_natural t o c [] = tt
diffs_natural t o c (q ∷ qs) =
    (omega (int_laws, worth_mono t o c (c + q) (omega arith)), diffs_natural t o (c + q) qs)

-- A line of some units, worth a natural amount, is charged shipment by shipment: once everything has
-- been shipped the charges add up to the worth of the line exactly, and none is negative.
pub charge_each_exact :
    (line_total ordered : ℕ) (quantities : List ℕ)
    → 0 < ordered
    → ordered ≤ sum quantities
    → (charges : List ℤ) × (charge_each (pos line_total) ordered 0 quantities ≡ ok charges)
      × (sum_ℤ charges ≡ pos line_total)
      × All (λ a. pos 0 ≤ℤ a) charges
charge_each_exact t o qs some all =
    let none_yet : worth t o 0 ≡ 0 = unfold worth in refl in
    let end : worth t o (sum qs) ≡ t = worth_whole t o (sum qs) some all in
    let whole : sum_ℤ (diffs t o 0 qs) ≡ pos t =
      omega (int_laws, none_yet, end, parts (diffs_telescope t o 0 (sum qs) qs (omega arith))) in
    (diffs t o 0 qs, charge_each-diffs t o 0 qs, whole, diffs_natural t o 0 qs)
