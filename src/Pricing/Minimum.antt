-- ===== src/Pricing/Minimum.antt =====
-- src/domain/pricing.ts, `resolvePrice`: the minimum that a refusal states.
use trade_pal_africa.Base.{
  ℕ, suc, ◌+◌, ◌-◌, ◌*◌, ◌/◌, ◌≤◌, ◌<◌, min, Option, none, some, List, [], ◌∷◌, ◌++◌, leb, All,
  All-map, All-append, ◌≡◌, refl, sym, subst, ◌⊎◌, inl, inr, arith, Bool-cases, Option-cases,
}
use mathlib.Core.Option.{some-injective}
use native.Mathlib.Nat.{le-div_iff_mul-le, suc-mul}
use trade_pal_africa.Pricing.Rows.{PriceRule, PackConversion}
use trade_pal_africa.Pricing.Best.{best_rule}
use trade_pal_africa.Pricing.BestRule.{Among, IsBest, best_rule-IsBest}
use trade_pal_africa.Pricing.Resolve.{
  chosen, choose, derive, own_rules, base_rules, minima, base_minima, map_rules, minimum_of,
  ceil_div, above, least, pack_size,
}

-- The least of a list is in it and below the rest.
abbrev pub Holds : ℕ → List ℕ → Type 0
Holds m [] = ⊥
Holds m (n ∷ ns) = (m ≡ n) ⊎ Holds m ns

least-none : (ms : List ℕ) → least ms ≡ none → ms ≡ []
unfolding least
least-none [] h = refl
least-none (n ∷ ns) h = cc

pub least-Holds : (ms : List ℕ) (m : ℕ) → least ms ≡ some m → Holds m ms × All (λ n. m ≤ n) ms
unfolding least
least-Holds [] m h = cc
least-Holds (n ∷ ns) m h = elim (Option-cases (least ns)) [
  | inl e ↦
      let only = some-injective n m (rw e at h) in
      let empty = least-none ns e in
      (inl (sym only), (omega (arith, only), subst (All (λ k. m ≤ k)) (sym empty) tt))
  | inr (k, e) ↦
      let rest = least-Holds ns k e in
      let it = some-injective (min n k) m (rw e at h) in
      (
        elim (Bool-cases (leb n k)) [
          | inl c ↦ inl (ground (arith, it))
          | inr c ↦ inr (subst (λ j. Holds j ns) (ground (arith, it)) rest.0)
        ],
        (
          omega (arith, it),
          All-map (λ j. k ≤ j) (λ j. m ≤ j) ns (λ j g. omega (arith, it, g)) rest.1,
        ),
      )
]

pub above_every : (q : ℕ) (ms : List ℕ) → All (λ n. q < n) ms → above q ms ≡ ms
above_every q [] h = refl
above_every q (n ∷ ns) h = ground (arith, above_every q ns h.1)

pub All-Holds : (P : ℕ → Type 0) (ms : List ℕ) (m : ℕ) → All P ms → Holds m ms → P m
All-Holds P [] m h k = elim k [ ]
All-Holds P (n ∷ ns) m h (inl e) = subst P (sym e) h.0
All-Holds P (n ∷ ns) m h (inr k) = All-Holds P ns m h.1 k

All-Among :
    (P : PriceRule → Type 0) (xs : List PriceRule) (r : PriceRule) → All P xs → Among r xs → P r
All-Among P [] r h k = elim k [ ]
All-Among P (x ∷ xs) r h (inl e) = subst P (sym e) h.0
All-Among P (x ∷ xs) r h (inr k) = All-Among P xs r h.1 k

-- No rule wins exactly where the quantity is below every minimum.
best_rule-none :
    (rules : List PriceRule) (q : ℕ)
    → best_rule rules q ≡ none
    → All (λ r. q < r.min_quantity) rules
best_rule-none rules q h = subst (IsBest rules q) h (best_rule-IsBest rules q)

none-best_rule :
    (rules : List PriceRule) (q : ℕ)
    → All (λ r. q < r.min_quantity) rules
    → best_rule rules q ≡ none
none-best_rule rules q h = elim (Option-cases (best_rule rules q)) [
  | inl e ↦ e
  | inr (r, e) ↦
      let best = subst (IsBest rules q) e (best_rule-IsBest rules q) in
      let more : q < r.min_quantity = All-Among (λ x. q < x.min_quantity) rules r h best.0 in
      ground (arith, best.1, more)
]

ceil-lt : (q a b : ℕ) → 0 < b → q * b < a → q < ceil_div a b
ceil-lt q a b pos h =
    let most : suc q * b ≤ a + (b - 1) = omega (arith, suc-mul q b, h) in
    omega (arith, (le-div_iff_mul-le {x = suc q} {y = a + (b - 1)} pos).1 most)

lt-ceil : (q a b : ℕ) → 0 < b → q < ceil_div a b → q * b < a
lt-ceil q a b pos h =
    let most : suc q ≤ (a + (b - 1)) / b = omega (arith, h) in
    omega (arith, suc-mul q b, (le-div_iff_mul-le {x = suc q} {y = a + (b - 1)} pos).0 most)

All-map_rules :
    (P : ℕ → Type 0) (f : PriceRule → ℕ) (rs : List PriceRule)
    → All (λ r. P (f r)) rs
    → All P (map_rules f rs)
All-map_rules P f [] h = tt
All-map_rules P f (r ∷ rs) h = (h.0, All-map_rules P f rs h.1)

map_rules-All :
    (P : ℕ → Type 0) (f : PriceRule → ℕ) (rs : List PriceRule)
    → All P (map_rules f rs)
    → All (λ r. P (f r)) rs
map_rules-All P f [] h = tt
map_rules-All P f (r ∷ rs) h = (h.0, map_rules-All P f rs h.1)

append-All : (P : ℕ → Type 0) (xs ys : List ℕ) → All P (xs ++ ys) → All P xs × All P ys
append-All P [] ys h = (tt, h)
append-All P (x ∷ xs) ys h = let rest = append-All P xs ys h.1 in ((h.0, rest.0), rest.1)

module _ (valid : List PriceRule) (q : ℕ) where
  underivable :
      (pack : Option PackConversion)
      → 0 < pack_size pack
      → derive pack (best_rule (base_rules valid) (q * pack_size pack)) ≡ none
      → All (λ n. q < n) (base_minima pack valid)
  unfolding derive
  underivable none pos h = tt
  underivable (some p) pos h =
      elim (Option-cases (best_rule (base_rules valid) (q * p.base_quantity))) [
        | inl e ↦
            All-map_rules (λ n. q < n) (λ r. ceil_div r.min_quantity p.base_quantity)
              (base_rules valid)
              (All-map (λ r. q * p.base_quantity < r.min_quantity)
                (λ r. q < ceil_div r.min_quantity p.base_quantity) (base_rules valid)
                (λ r k. ceil-lt q r.min_quantity p.base_quantity pos k)
                (best_rule-none (base_rules valid) (q * p.base_quantity) e))
        | inr (r, e) ↦ let q = rw e at h in cc
      ]

  below_base :
      (pack : Option PackConversion)
      → 0 < pack_size pack
      → All (λ n. q < n) (base_minima pack valid)
      → derive pack (best_rule (base_rules valid) (q * pack_size pack)) ≡ none
  unfolding derive
  below_base none pos h = refl
  below_base (some p) pos h =
      rw
        (none-best_rule (base_rules valid) (q * p.base_quantity) (
          All-map (λ r. q < ceil_div r.min_quantity p.base_quantity)
            (λ r. q * p.base_quantity < r.min_quantity) (base_rules valid)
            (λ r k. lt-ceil q r.min_quantity p.base_quantity pos k)
            (map_rules-All (λ n. q < n) (λ r. ceil_div r.min_quantity p.base_quantity)
              (base_rules valid) h)))
        refl

  module _ (pack : Option PackConversion) (pos : 0 < pack_size pack) where
    -- Nothing is chosen exactly where the quantity is below every minimum.
    pub chosen-none : chosen pack valid q ≡ none → All (λ n. q < n) (minima pack valid)
    unfolding chosen choose
    chosen-none h = elim (Option-cases (best_rule (own_rules pack valid) q)) [
      | inl e ↦
          All-append (λ n. q < n) (map_rules minimum_of (own_rules pack valid))
            (base_minima pack valid)
            (All-map_rules (λ n. q < n) minimum_of (own_rules pack valid)
              (best_rule-none (own_rules pack valid) q e))
            (underivable pack pos (rw e at h))
      | inr (r, e) ↦ let q = rw e at h in cc
    ]

    pub none-chosen : All (λ n. q < n) (minima pack valid) → chosen pack valid q ≡ none
    unfolding chosen choose
    none-chosen h =
        let both =
          append-All (λ n. q < n) (map_rules minimum_of (own_rules pack valid))
            (base_minima pack valid) h in
        let own =
          none-best_rule (own_rules pack valid) q
            (map_rules-All (λ n. q < n) minimum_of (own_rules pack valid) both.0) in
        rw own (below_base pack pos both.1)
