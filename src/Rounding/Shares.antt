-- ===== src/Rounding/Shares.antt =====
-- The split of an amount: its parts add up to it, and each part is within one minor unit of the
-- exact share.
use trade_pal_africa.Base.{
  ℕ, zero, suc, ◌+◌, ◌-◌, ◌*◌, ◌/◌, ◌%◌, ◌≤◌, ◌<◌, ◌≡◌, refl, ap, ◌∙◌, ◌⊎◌, inl, inr, List, [], ◌∷◌,
  arith, length, get_or, sum, All, ltb, if◌then◌else◌,
}
use trade_pal_africa.Rounding.{remainders, sort, base_shares, allocate}
use trade_pal_africa.Rounding.Order.{
  Below, live, remainder_sum, remainders-Below, length-remainders, sort-All, sort-Below,
  length-sort, sort-Descending, live-sort, remainder_sum-sort,
}
use trade_pal_africa.Rounding.HandOut.{
  sum-hand_out, length-hand_out, length-base_shares, le-hand_out, hand_out-le,
}

remainders-lt : (total s i : ℕ) (ws : List ℕ) → 0 < s → All (λ e. e.1 < s) (remainders total s i ws)
unfolding remainders
remainders-lt total s i [] h = tt
remainders-lt total s i (w ∷ ws) h = (omega arith, remainders-lt total s (i + 1) ws h)

live-remainders_lt : (total s i j : ℕ) (ws : List ℕ) → j < i → live j (remainders total s i ws) ≡ 0
unfolding remainders
live-remainders_lt total s i j [] h = refl
live-remainders_lt total s i j (w ∷ ws) h = ground (arith, live-remainders_lt total s (i + 1) j ws)

live-remainders :
    (total s i m j : ℕ) (ws : List ℕ)
    → i + m ≡ j
    → live j (remainders total s i ws) ≤ (if ltb 0 ((total * get_or ws m 0) % s) then 1 else 0)
unfolding remainders
live-remainders total s i m j [] e = ground arith
live-remainders total s i zero j (w ∷ ws) e =
    ground (arith, live-remainders_lt total s (i + 1) j ws)
live-remainders total s i (suc m) j (w ∷ ws) e =
    ground (arith, live-remainders total s (i + 1) m j ws)

get_or-base_shares :
    (total s j : ℕ) (ws : List ℕ) → get_or (base_shares total s ws) j 0 ≡ total * get_or ws j 0 / s
unfolding base_shares
get_or-base_shares total s j [] = grind arith
get_or-base_shares total s zero (w ∷ ws) = refl
get_or-base_shares total s (suc j) (w ∷ ws) = get_or-base_shares total s j ws

-- The base shares and the remainders make up the whole.
base-add-remainders :
    (total s i : ℕ) (ws : List ℕ)
    → sum (base_shares total s ws) * s + remainder_sum (remainders total s i ws) ≡ total * sum ws
unfolding base_shares remainders
base-add-remainders total s i [] = omega arith
base-add-remainders total s i (w ∷ ws) = grind (arith, base-add-remainders total s (i + 1) ws)

remainder_sum-le :
    (s : ℕ) (es : List (ℕ × ℕ)) → All (λ e. e.1 < s) es → remainder_sum es ≤ length es * s
remainder_sum-le s [] h = omega arith
remainder_sum-le s (e ∷ es) h = omega (arith, remainder_sum-le s es h.1)

within_one :
    (n s p : ℕ)
    → 0 < s
    → (n / s ≤ p) × (p ≤ n / s + (if ltb 0 (n % s) then 1 else 0))
    → (p * s < n + s) × (n < p * s + s)
within_one n s p h b = elim cases [
  | inl e ↦ rw e (grind arith)
  | inr (e, some_left) ↦ rw e (grind arith)
]
  where
    cases : (p ≡ n / s) ⊎ ((p ≡ n / s + 1) × (0 < n % s))
    cases = ground arith

remaining-mul : (a t s r : ℕ) → a * s + r ≡ t * s → a ≤ t → (t - a) * s ≡ r
remaining-mul a t s r e h =
    let whole : t ≡ a + (t - a) = omega arith in omega (arith, ap (λ (k : ℕ). k * s) whole)

-- What is left over after the base shares.
module _ (total : ℕ) (ws : List ℕ) (some_weight : 0 < sum ws) where
  abbrev left_over : ℕ
  left_over = total - sum (base_shares total (sum ws) ws)

  abbrev entries : List (ℕ × ℕ)
  entries = remainders total (sum ws) 0 ws

  base-le-total : sum (base_shares total (sum ws) ws) ≤ total
  base-le-total = grind (arith, base-add-remainders total (sum ws) 0 ws)

  left_over-remainder_sum : left_over * sum ws ≡ remainder_sum entries
  left_over-remainder_sum =
      remaining-mul _ total (sum ws) _ (base-add-remainders total (sum ws) 0 ws) base-le-total

  left_over-le-length : left_over ≤ length ws
  left_over-le-length = grind (
    arith,
    left_over-remainder_sum,
    remainder_sum-le (sum ws) entries (remainders-lt total (sum ws) 0 ws some_weight),
    length-remainders total (sum ws) 0 ws,
  )

  sorted-Below : Below (length (base_shares total (sum ws) ws)) (sort entries)
  sorted-Below =
      sort-Below _ entries (
        remainders-Below total (sum ws) 0 _ ws
          (omega (arith, length-base_shares total (sum ws) ws)))

  -- A part is the base share, and one more at most if the base share falls short.
  part_bounds :
      (j : ℕ)
      → (total * get_or ws j 0 / sum ws ≤ get_or (allocate total ws) j 0)
        × (get_or (allocate total ws) j 0
            ≤ total * get_or ws j 0 / sum ws
              + (if ltb 0 ((total * get_or ws j 0) % sum ws) then 1 else 0))
  unfolding allocate
  part_bounds j = (
    omega (arith, base, le-hand_out (sort entries) left_over j (base_shares total (sum ws) ws)),
    omega (
      arith,
      base,
      hand_out-le (sort entries) left_over j (sum ws) (base_shares total (sum ws) ws)
          (sort-Descending entries)
          (sort-All (λ e. e.1 < sum ws) entries (remainders-lt total (sum ws) 0 ws some_weight))
          (omega (arith, left_over-remainder_sum, remainder_sum-sort entries)),
      live-sort j entries,
      live-remainders total (sum ws) 0 j j ws (omega arith),
    ),
  )
    where
      base : get_or (base_shares total (sum ws) ws) j 0 ≡ total * get_or ws j 0 / sum ws
      base = get_or-base_shares total (sum ws) j ws

  -- The parts of an amount add up to it exactly, one for each weight.
  pub sum-allocate : (sum (allocate total ws) ≡ total) × (length (allocate total ws) ≡ length ws)
  unfolding allocate
  sum-allocate = (
    omega (
      arith,
      base-le-total,
      sum-hand_out (sort entries) left_over (base_shares total (sum ws) ws) sorted-Below (
          omega (
            arith,
            left_over-le-length,
            length-sort entries,
            length-remainders total (sum ws) 0 ws,
          )),
    ),
    length-hand_out (sort entries) left_over (base_shares total (sum ws) ws)
        ∙ length-base_shares total (sum ws) ws,
  )

  -- Each part is within one minor unit of its exact share.
  pub allocate_quota :
      (j : ℕ)
      → let part = get_or (allocate total ws) j 0 in
        (part * sum ws < total * get_or ws j 0 + sum ws)
        × (total * get_or ws j 0 < part * sum ws + sum ws)
  allocate_quota j = within_one (total * get_or ws j 0) (sum ws) _ some_weight (part_bounds j)
