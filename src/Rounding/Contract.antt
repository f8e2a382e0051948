-- ===== src/Rounding/Contract.antt =====
-- `allocateProportionally` behind its guards.
use trade_pal_africa.Base.{
  ℕ, ◌+◌, ◌*◌, ◌<◌, ◌≡◌, refl, ap, List, [], ◌∷◌, map, arith, length, get_or, sum, ok, any, false,
}
use trade_pal_africa.Base.Int.{pos, pos_part, ltb_ℤ}
use trade_pal_africa.Rounding.{allocate_proportionally, allocate}
use trade_pal_africa.Rounding.Shares.{sum-allocate, allocate_quota}

any-negative-pos : (ws : List ℕ) → any (λ w. ltb_ℤ w (pos 0)) (map pos ws) ≡ false
any-negative-pos [] = refl
any-negative-pos (w ∷ ws) = ground (arith, any-negative-pos ws)

map-pos_part-pos : (ws : List ℕ) → map pos_part (map pos ws) ≡ ws
map-pos_part-pos [] = refl
map-pos_part-pos (w ∷ ws) = ap (λ (r : List ℕ). w ∷ r) (map-pos_part-pos ws)

allocate_proportionally-allocate :
    (total : ℕ) (ws : List ℕ)
    → 0 < sum ws
    → allocate_proportionally (pos total) (map pos ws) ≡ ok (allocate total ws)
unfolding allocate_proportionally
allocate_proportionally-allocate total ws h =
    rw (any-negative-pos ws, map-pos_part-pos ws) (ground arith)

-- For an amount and weights of zero or more, one of them positive, the call returns one part for
-- each weight; the parts add up to the amount, and each is less than one minor unit away from its
-- exact share.
pub allocate_proportionally_exact :
    (total : ℕ) (ws : List ℕ)
    → 0 < sum ws
    → (parts : List ℕ) × (allocate_proportionally (pos total) (map pos ws) ≡ ok parts)
      × (sum parts ≡ total)
      × (length parts ≡ length ws)
      × ((j : ℕ)
          → (get_or parts j 0 * sum ws < total * get_or ws j 0 + sum ws)
            × (total * get_or ws j 0 < get_or parts j 0 * sum ws + sum ws))
allocate_proportionally_exact total ws h = (
  allocate total ws,
  allocate_proportionally-allocate total ws h,
  (sum-allocate total ws h).0,
  (sum-allocate total ws h).1,
  allocate_quota total ws h,
)
