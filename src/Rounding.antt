-- ===== src/Rounding.antt =====
-- src/domain/rounding.ts: division to the nearest minor unit, and the split of an amount over
-- weights by the largest remainder. A `bigint` is ℤ; behind the guards an amount is natural.
pub mod Division
mod Order
mod HandOut
pub mod Shares
pub mod Contract
mod Examples
use trade_pal_africa.Base.{
  ℕ, zero, suc, ◌+◌, ◌-◌, ◌*◌, ◌/◌, ◌%◌, Bool, List, [], ◌∷◌, map, Result, err, ok, ltb, leb, ◌==◌,
  if◌then◌else◌, any, sum, ◌>>◌, throw_if,
}
use trade_pal_africa.Base.Int.{ℤ, pos, pos_part, neg, leb_ℤ, ltb_ℤ, ◌*ℤ◌}

-- The messages of the `RangeError`s.
pub data RangeError : Type 0 where
  denominator_not_positive negative_bps negative_total negative_weight no_positive_weight :
      RangeError

-- `(2n * n + denominator) / (2n * denominator)`, of a natural number
unfoldable pub half_up : ℕ → ℕ → ℕ
half_up n d = (2 * n + d) / (2 * d)

unfoldable pub div_round_half_up : ℤ → ℤ → Result RangeError ℤ
div_round_half_up numerator denominator =
    if leb_ℤ denominator (pos 0)
    then err denominator_not_positive
    else let negative = ltb_ℤ numerator (pos 0) in
      let n = if negative then neg numerator else numerator in
      let q = pos (half_up (pos_part n) (pos_part denominator)) in
      ok (if negative then neg q else q)

unfoldable pub percent_of_bps : ℤ → ℤ → Result RangeError ℤ
percent_of_bps amount bps =
    if ltb_ℤ bps (pos 0) then err negative_bps else div_round_half_up (amount *ℤ bps) (pos 10000)

-- `weights.map((w, index) => ({ index, rem }))`, with the index counted from `i`
pub remainders : ℕ → ℕ → ℕ → List ℕ → List (ℕ × ℕ)
remainders total s i [] = []
remainders total s i (w ∷ ws) = (i, (total * w) % s) ∷ remainders total s (i + 1) ws

-- The comparator of `sort`: the larger remainder first, then the earlier line.
abbrev pub before : ℕ × ℕ → ℕ × ℕ → Bool
before (i, r) (j, q) = if r == q then leb i j else ltb q r

-- `Array.sort` puts the items in the comparator's order.
pub insert : ℕ × ℕ → List (ℕ × ℕ) → List (ℕ × ℕ)
insert e [] = e ∷ []
insert e (x ∷ xs) = if before e x then e ∷ x ∷ xs else x ∷ insert e xs

pub sort : List (ℕ × ℕ) → List (ℕ × ℕ)
sort [] = []
sort (e ∷ es) = insert e (sort es)

-- `out[index] = out[index]! + 1n`
pub bump : ℕ → List ℕ → List ℕ
bump i [] = []
bump zero (x ∷ xs) = (x + 1) ∷ xs
bump (suc i) (x ∷ xs) = x ∷ bump i xs

-- The loop that hands out what is left over.
pub hand_out : List (ℕ × ℕ) → ℕ → List ℕ → List ℕ
hand_out [] leftover out = out
hand_out ((i, _) ∷ rest) leftover out =
    let more = hand_out rest (leftover - 1) (bump i out) in if leftover == 0 then out else more

pub base_shares : ℕ → ℕ → List ℕ → List ℕ
base_shares total s [] = []
base_shares total s (w ∷ ws) = ((total * w) / s) ∷ base_shares total s ws

pub allocate : ℕ → List ℕ → List ℕ
allocate total weights =
    let s = sum weights in
    let base = base_shares total s weights in
    hand_out (sort (remainders total s 0 weights)) (total - sum base) base

unfoldable pub allocate_proportionally : ℤ → List ℤ → Result RangeError (List ℕ)
allocate_proportionally total weights =
    if ltb_ℤ total (pos 0)
    then err negative_total
    else if any (λ w. ltb_ℤ w (pos 0)) weights
    then err negative_weight
    else if sum (map pos_part weights) == 0
    then err no_positive_weight
    else ok (allocate (pos_part total) (map pos_part weights))
