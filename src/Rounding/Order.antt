-- ===== src/Rounding/Order.antt =====
-- The list of remainders and its sort: what the sort keeps, and the order that it makes.
use trade_pal_africa.Base.{
  ℕ, suc, ◌+◌, ◌≤◌, ◌<◌, ◌≡◌, refl, List, [], ◌∷◌, arith, length, All, ltb, ◌==◌, if◌then◌else◌,
}
use trade_pal_africa.Rounding.{remainders, insert, sort}

-- Every index of a list of remainders lies below `n`.
abbrev pub Below : ℕ → List (ℕ × ℕ) → Type 0
Below n = All (λ e. e.0 < n)

pub insert-Below :
    (n : ℕ) (e : ℕ × ℕ) (es : List (ℕ × ℕ)) → e.0 < n → Below n es → Below n (insert e es)
unfolding insert
insert-Below n e [] h k = (h, tt)
insert-Below n e (x ∷ xs) h k = ground (arith, insert-Below n e xs)

pub sort-Below : (n : ℕ) (es : List (ℕ × ℕ)) → Below n es → Below n (sort es)
unfolding sort
sort-Below n [] h = tt
sort-Below n (e ∷ es) h = insert-Below n e (sort es) h.0 (sort-Below n es h.1)

pub length-insert : (e : ℕ × ℕ) (es : List (ℕ × ℕ)) → length (insert e es) ≡ suc (length es)
unfolding insert
length-insert e [] = refl
length-insert e (x ∷ xs) = ground (arith, length-insert e xs)

pub length-sort : (es : List (ℕ × ℕ)) → length (sort es) ≡ length es
unfolding sort
length-sort [] = refl
length-sort (e ∷ es) = omega (arith, length-insert e (sort es), length-sort es)

pub remainders-Below :
    (total s i n : ℕ) (ws : List ℕ) → i + length ws ≤ n → Below n (remainders total s i ws)
unfolding remainders
remainders-Below total s i n [] h = tt
remainders-Below total s i n (w ∷ ws) h =
    (omega arith, remainders-Below total s (i + 1) n ws (omega arith))

pub length-remainders : (total s i : ℕ) (ws : List ℕ) → length (remainders total s i ws) ≡ length ws
unfolding remainders
length-remainders total s i [] = refl
length-remainders total s i (w ∷ ws) = omega (arith, length-remainders total s (i + 1) ws)

abbrev pub remainder_sum : List (ℕ × ℕ) → ℕ
remainder_sum [] = 0
remainder_sum ((_, r) ∷ es) = r + remainder_sum es

-- How many entries with a positive remainder stand for line `j`.
abbrev pub live : ℕ → List (ℕ × ℕ) → ℕ
live j [] = 0
live j ((i, r) ∷ es) = (if i == j then (if ltb 0 r then 1 else 0) else 0) + live j es

-- The larger remainder comes first.
abbrev pub Descending : List (ℕ × ℕ) → Type 0
Descending [] = Unit
Descending (x ∷ xs) = All (λ e. e.1 ≤ x.1) xs × Descending xs

module _ (P : ℕ × ℕ → Type 0) where
  pub insert-All : (e : ℕ × ℕ) (es : List (ℕ × ℕ)) → P e → All P es → All P (insert e es)
  unfolding insert
  insert-All e [] p h = (p, tt)
  insert-All e (x ∷ xs) p h = ground (arith, insert-All e xs p h.1)

  pub sort-All : (es : List (ℕ × ℕ)) → All P es → All P (sort es)
  unfolding sort
  sort-All [] h = tt
  sort-All (e ∷ es) h = insert-All e (sort es) h.0 (sort-All es h.1)

pub All-le_trans :
    (m n : ℕ) (es : List (ℕ × ℕ)) → m ≤ n → All (λ e. e.1 ≤ m) es → All (λ e. e.1 ≤ n) es
All-le_trans m n [] h k = tt
All-le_trans m n (e ∷ es) h k = (omega arith, All-le_trans m n es h k.1)

pub insert-Descending : (e : ℕ × ℕ) (es : List (ℕ × ℕ)) → Descending es → Descending (insert e es)
unfolding insert
insert-Descending e [] h = (tt, tt)
insert-Descending e (x ∷ xs) h =
    ground
      (arith, All-le_trans x.1 e.1 xs, insert-All (λ y. y.1 ≤ x.1) e xs, insert-Descending e xs h.1)

pub sort-Descending : (es : List (ℕ × ℕ)) → Descending (sort es)
unfolding sort
sort-Descending [] = tt
sort-Descending (e ∷ es) = insert-Descending e (sort es) (sort-Descending es)

pub live-insert : (j : ℕ) (e : ℕ × ℕ) (es : List (ℕ × ℕ)) → live j (insert e es) ≡ live j (e ∷ es)
unfolding insert
live-insert j e [] = refl
live-insert j e (x ∷ xs) = ground (arith, live-insert j e xs)

pub live-sort : (j : ℕ) (es : List (ℕ × ℕ)) → live j (sort es) ≡ live j es
unfolding sort
live-sort j [] = refl
live-sort j (e ∷ es) = omega (arith, live-insert j e (sort es), live-sort j es)

pub remainder_sum-insert :
    (e : ℕ × ℕ) (es : List (ℕ × ℕ)) → remainder_sum (insert e es) ≡ e.1 + remainder_sum es
unfolding insert
remainder_sum-insert e [] = refl
remainder_sum-insert e (x ∷ xs) = ground (arith, remainder_sum-insert e xs)

pub remainder_sum-sort : (es : List (ℕ × ℕ)) → remainder_sum (sort es) ≡ remainder_sum es
unfolding sort
remainder_sum-sort [] = refl
remainder_sum-sort (e ∷ es) = omega (arith, remainder_sum-insert e (sort es), remainder_sum-sort es)
