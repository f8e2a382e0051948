-- ===== src/Rounding/Examples.antt =====
-- Runs of the rounding functions on inputs that are followed in the source.
use trade_pal_africa.Base.{
  ℕ, ◌+◌, ◌*◌, ◌<◌, ◌≡◌, refl, List, [], ◌∷◌, map, ok, arith, length, get_or, sum,
}
use trade_pal_africa.Base.Int.{ℤ, pos, negsuc, neg, pos_part, neg_part}
use trade_pal_africa.Rounding.Division.{
  IsNearest, div_round_half_up-IsNearest, div_round_half_up-neg,
}
use trade_pal_africa.Rounding.Contract.{allocate_proportionally_exact}
use trade_pal_africa.Rounding.{
  div_round_half_up, half_up, allocate_proportionally, allocate, base_shares, remainders, sort,
  insert, hand_out, bump,
}

two_and_a_half : div_round_half_up (pos 5) (pos 2) ≡ ok (pos 3)
unfolding div_round_half_up half_up
two_and_a_half = refl

minus_two_and_a_half : div_round_half_up (negsuc 4) (pos 2) ≡ ok (negsuc 2)
unfolding div_round_half_up half_up neg
minus_two_and_a_half = refl

ten_over_three :
    allocate_proportionally (pos 10) (pos 1 ∷ pos 0 ∷ pos 1 ∷ pos 1 ∷ []) ≡ ok (4 ∷ 0 ∷ 3 ∷ 3 ∷ [])
unfolding allocate_proportionally allocate base_shares remainders sort insert hand_out bump
ten_over_three = refl

abbrev weights : List ℕ
weights = 1 ∷ 0 ∷ 1 ∷ 1 ∷ []

allocate_proportionally_exact_example :
    (parts : List ℕ) × (allocate_proportionally (pos 10) (map pos weights) ≡ ok parts)
    × (sum parts ≡ 10)
    × (length parts ≡ length weights)
    × ((j : ℕ)
        → (get_or parts j 0 * sum weights < 10 * get_or weights j 0 + sum weights)
          × (10 * get_or weights j 0 < get_or parts j 0 * sum weights + sum weights))
allocate_proportionally_exact_example = allocate_proportionally_exact 10 weights (omega arith)

div_round_half_up-IsNearest_example :
    (q : ℤ) × (div_round_half_up (negsuc 4) (pos 2) ≡ ok q)
    × IsNearest (pos_part (negsuc 4)) 2 (pos_part q)
    × IsNearest (neg_part (negsuc 4)) 2 (neg_part q)
div_round_half_up-IsNearest_example = div_round_half_up-IsNearest (negsuc 4) 2 (omega arith)

div_round_half_up-neg_example :
    (q : ℤ) × (div_round_half_up (pos 5) (pos 2) ≡ ok q)
    × (div_round_half_up (neg (pos 5)) (pos 2) ≡ ok (neg q))
div_round_half_up-neg_example = div_round_half_up-neg (pos 5) 2 (omega arith)
