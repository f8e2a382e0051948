-- ===== src/Pricing/BestRule.antt =====
-- src/domain/pricing.ts, `bestRule`: the rule that wins is the best of those that the quantity reaches.
use trade_pal_africa.Base.{
  ℕ, ◌≤◌, ◌<◌, Bool, true, false, Option, none, some, List, [], ◌∷◌, if◌then◌else◌, keep, All,
  All-map, ◌≡◌, refl, sym, ap, ◌∙◌, subst, ◌⊎◌, inl, inr, arith, leb→le, Bool-cases,
}
use trade_pal_africa.Base.Int.{◌<ℤ◌, eq_of_parts}
use trade_pal_africa.Pricing.Rows.{PriceRule}
use trade_pal_africa.Pricing.Best.{sooner, insert_rule, sort_rules, first, reaches, best_rule}

-- That `r` is one of the rules.
abbrev pub Among : PriceRule → List PriceRule → Type 0
Among r [] = ⊥
Among r (x ∷ xs) = (r ≡ x) ⊎ Among r xs

-- `r` goes before `x`: by its higher minimum, then its lower price, then its id.
abbrev pub Precedes : PriceRule → PriceRule → Type 0
Precedes r x =
    (x.min_quantity < r.min_quantity)
    ⊎ ((x.min_quantity ≡ r.min_quantity)
        × ((r.unit_price_minor <ℤ x.unit_price_minor)
            ⊎ ((r.unit_price_minor ≡ x.unit_price_minor) × (r.id ≤ x.id))))

not_sooner-Precedes : (r x : PriceRule) → sooner x r ≡ false → Precedes r x
not_sooner-Precedes r x h = ground (arith, eq_of_parts r.unit_price_minor x.unit_price_minor)

pick : PriceRule → Option PriceRule → Option PriceRule
pick x none = some x
pick x (some y) = if sooner y x then some y else some x

first-insert_rule :
    (x : PriceRule) (ys : List PriceRule) → first (insert_rule x ys) ≡ pick x (first ys)
unfolding insert_rule pick
first-insert_rule x [] = refl
first-insert_rule x (y ∷ ys) = ground arith

sooner_trans : (x y z : PriceRule) → sooner y x ≡ false → sooner z y ≡ false → sooner z x ≡ false
sooner_trans x y z h k = ground arith

sooner_irrefl : (x : PriceRule) → sooner x x ≡ false
sooner_irrefl x = ground arith

not_sooner_self : (x y : PriceRule) → sooner y x ≡ true → sooner x y ≡ false
not_sooner_self x y h = ground arith

first-sort_rules :
    (x : PriceRule) (xs : List PriceRule)
    → first (sort_rules (x ∷ xs)) ≡ pick x (first (sort_rules xs))
unfolding sort_rules
first-sort_rules x xs = first-insert_rule x (sort_rules xs)

-- Of the first of the sorted rules.
abbrev Leads : List PriceRule → Option PriceRule → Type 0
Leads xs none = xs ≡ []
Leads xs (some r) = Among r xs × All (λ x. sooner x r ≡ false) xs

pick-Leads :
    (x : PriceRule) (xs : List PriceRule) (o : Option PriceRule)
    → Leads xs o
    → Leads (x ∷ xs) (pick x o)
unfolding pick
pick-Leads x xs none h =
    (inl refl, (sooner_irrefl x, subst (All (λ y. sooner y x ≡ false)) (sym h) tt))
pick-Leads x xs (some y) h = elim (Bool-cases (sooner y x)) [
  | inl e ↦ rw e (inr h.0, (not_sooner_self x y e, h.1))
  | inr e ↦ rw e (
    inl refl,
    (
      sooner_irrefl x,
      All-map (λ z. sooner z y ≡ false) (λ z. sooner z x ≡ false) xs (λ z k. sooner_trans x y z e k)
          h.1,
    ),
  )
]

sort_rules-Leads : (xs : List PriceRule) → Leads xs (first (sort_rules xs))
unfolding sort_rules
sort_rules-Leads [] = refl
sort_rules-Leads (x ∷ xs) =
    subst (Leads (x ∷ xs)) (sym (first-sort_rules x xs))
      (pick-Leads x xs (first (sort_rules xs)) (sort_rules-Leads xs))

pub Among-keep :
    (p : PriceRule → Bool) (xs : List PriceRule) (r : PriceRule)
    → Among r (keep p xs)
    → Among r xs × (p r ≡ true)
Among-keep p [] r h = elim h [ ]
Among-keep p (x ∷ xs) r h = elim (Bool-cases (p x)) [
  | inl e ↦ elim (rw e at h) [
    | inl q ↦ (inl q, ap p q ∙ e)
    | inr q ↦ let rest = Among-keep p xs r q in (inr rest.0, rest.1)
  ]
  | inr e ↦ let rest = Among-keep p xs r (rw e at h) in (inr rest.0, rest.1)
]

keep-none :
    (p : PriceRule → Bool) (xs : List PriceRule) → keep p xs ≡ [] → All (λ x. p x ≡ false) xs
keep-none p [] h = tt
keep-none p (x ∷ xs) h = ground (arith, keep-none p xs)

All-of-keep :
    (P : PriceRule → Type 0) (p : PriceRule → Bool) (xs : List PriceRule)
    → All P (keep p xs)
    → All (λ x. (p x ≡ false) ⊎ P x) xs
All-of-keep P p [] h = tt
All-of-keep P p (x ∷ xs) h = elim (Bool-cases (p x)) [
  | inl e ↦ (inr (rw e at h).0, All-of-keep P p xs (rw e at h).1)
  | inr e ↦ (inl e, All-of-keep P p xs (rw e at h))
]

-- What it is to be the best of the rules for a quantity, or that there is none.
abbrev pub IsBest : List PriceRule → ℕ → Option PriceRule → Type 0
IsBest rules quantity none = All (λ x. quantity < x.min_quantity) rules
IsBest rules quantity (some r) =
    Among r rules
    × (r.min_quantity ≤ quantity)
    × All (λ x. (quantity < x.min_quantity) ⊎ Precedes r x) rules

beyond : (quantity : ℕ) (x : PriceRule) → reaches quantity x ≡ false → quantity < x.min_quantity
beyond quantity x h = ground arith

Leads-IsBest :
    (rules : List PriceRule) (quantity : ℕ) (o : Option PriceRule)
    → Leads (keep (reaches quantity) rules) o
    → IsBest rules quantity o
Leads-IsBest rules q none h =
    All-map (λ x. reaches q x ≡ false) (λ x. q < x.min_quantity) rules (beyond q)
      (keep-none (reaches q) rules h)
Leads-IsBest rules q (some r) h =
    let kept = Among-keep (reaches q) rules r h.0 in
    (
      kept.0,
      leb→le r.min_quantity q kept.1,
      All-map (λ x. (reaches q x ≡ false) ⊎ (sooner x r ≡ false))
          (λ x. (q < x.min_quantity) ⊎ Precedes r x) rules
          (λ x k. elim k [ inl a ↦ inl (beyond q x a) | inr b ↦ inr (not_sooner-Precedes r x b) ])
          (All-of-keep (λ x. sooner x r ≡ false) (reaches q) rules h.1),
    )

-- The rule that wins is one of the rules, the quantity reaches its minimum, and every other rule that
-- the quantity reaches comes after it: by a lower minimum, then a higher price, then its id. No rule wins
-- only where the quantity is below every minimum.
pub best_rule-IsBest :
    (rules : List PriceRule) (quantity : ℕ) → IsBest rules quantity (best_rule rules quantity)
unfolding best_rule
best_rule-IsBest rules quantity =
    Leads-IsBest rules quantity (first (sort_rules (keep (reaches quantity) rules)))
      (sort_rules-Leads (keep (reaches quantity) rules))
