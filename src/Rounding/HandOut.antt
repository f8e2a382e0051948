-- ===== src/Rounding/HandOut.antt =====
-- The loop that hands out what is left over: how much it adds in all, and to each line.
use trade_pal_africa.Base.{
  ℕ, zero, suc, ◌+◌, ◌-◌, ◌*◌, ◌≤◌, ◌<◌, ◌≡◌, refl, List, [], ◌∷◌, arith, length, get_or, sum, All,
  ◌==◌, if◌then◌else◌,
}
use trade_pal_africa.Rounding.{bump, hand_out, base_shares}
use trade_pal_africa.Rounding.Order.{Below, Descending, live, remainder_sum}

pub sum-bump : (i : ℕ) (xs : List ℕ) → i < length xs → sum (bump i xs) ≡ sum xs + 1
unfolding bump
sum-bump i [] h = absurd (omega arith)
sum-bump zero (x ∷ xs) h = omega arith
sum-bump (suc i) (x ∷ xs) h = omega (arith, sum-bump i xs)

pub length-bump : (i : ℕ) (xs : List ℕ) → length (bump i xs) ≡ length xs
unfolding bump
length-bump i [] = refl
length-bump zero (x ∷ xs) = refl
length-bump (suc i) (x ∷ xs) = omega (arith, length-bump i xs)

pub length-base_shares : (total s : ℕ) (ws : List ℕ) → length (base_shares total s ws) ≡ length ws
unfolding base_shares
length-base_shares total s [] = refl
length-base_shares total s (w ∷ ws) = omega (arith, length-base_shares total s ws)

-- The loop adds one for each unit that is left over, as long as there are lines.
pub sum-hand_out :
    (es : List (ℕ × ℕ)) (k : ℕ) (out : List ℕ)
    → Below (length out) es
    → k ≤ length es
    → sum (hand_out es k out) ≡ sum out + k
unfolding hand_out
sum-hand_out [] k out h b = omega arith
sum-hand_out ((i, r) ∷ es) k out h b =
    ground
      (arith, sum-hand_out es (k - 1) (bump i out) (rw (length-bump i out) h.1), sum-bump i out h.0)

pub length-hand_out :
    (es : List (ℕ × ℕ)) (k : ℕ) (out : List ℕ) → length (hand_out es k out) ≡ length out
unfolding hand_out
length-hand_out [] k out = refl
length-hand_out ((i, r) ∷ es) k out =
    ground (arith, length-hand_out es (k - 1) (bump i out), length-bump i out)

get_or-bump :
    (i j : ℕ) (xs : List ℕ)
    → (get_or xs j 0 ≤ get_or (bump i xs) j 0)
      × (get_or (bump i xs) j 0 ≤ get_or xs j 0 + (if i == j then 1 else 0))
unfolding bump
get_or-bump i j [] = omega arith
get_or-bump zero zero (x ∷ xs) = ground arith
get_or-bump zero (suc j) (x ∷ xs) = ground arith
get_or-bump (suc i) zero (x ∷ xs) = ground arith
get_or-bump (suc i) (suc j) (x ∷ xs) = ground (arith, get_or-bump i j xs)

-- No line loses anything.
pub le-hand_out :
    (es : List (ℕ × ℕ)) (k j : ℕ) (out : List ℕ) → get_or out j 0 ≤ get_or (hand_out es k out) j 0
unfolding hand_out
le-hand_out [] k j out = omega arith
le-hand_out ((i, r) ∷ es) k j out =
    ground (arith, le-hand_out es (k - 1) j (bump i out), get_or-bump i j out)

remainder_sum-zero : (es : List (ℕ × ℕ)) → All (λ e. e.1 ≤ 0) es → remainder_sum es ≡ 0
remainder_sum-zero [] h = refl
remainder_sum-zero (e ∷ es) h = omega (arith, remainder_sum-zero es h.1)

-- While the units left are covered by the remainders, only lines with a remainder gain, and only
-- one each.
pub hand_out-le :
    (es : List (ℕ × ℕ)) (k j s : ℕ) (out : List ℕ)
    → Descending es
    → All (λ e. e.1 < s) es
    → k * s ≤ remainder_sum es
    → get_or (hand_out es k out) j 0 ≤ get_or out j 0 + live j es
unfolding hand_out
hand_out-le [] k j s out d h c = omega arith
hand_out-le ((i, r) ∷ es) zero j s out d h c = omega arith
hand_out-le ((i, zero) ∷ es) (suc k) j s out d h c =
    absurd (grind (arith, remainder_sum-zero es d.0))
hand_out-le ((i, suc r) ∷ es) (suc k) j s out d h c =
    ground (arith, hand_out-le es k j s (bump i out) d.1 h.1 (grind arith), get_or-bump i j out)
