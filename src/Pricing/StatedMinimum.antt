-- ===== src/Pricing/StatedMinimum.antt =====
-- src/domain/pricing.ts, `resolvePrice`: a refused quantity, and the minimum that the refusal states.
use trade_pal_africa.Base.{
  ℕ, ◌≤◌, ◌<◌, Bool, true, false, Option, none, some, List, ◌==◌, find, All, All-map, find-All, ◌≡◌,
  refl, sym, ap, ◌∙◌, inl, inr, arith, Bool-cases, Option-cases, Result, ok, err, Call, ◌>>=◌, ◌>>◌,
  throw_if, or_throw,
}
use trade_pal_africa.Pricing.Rows.{
  PriceError, PriceErrorCode, plain, PackConversion, Prices, Variant,
}
use trade_pal_africa.Pricing.Minimum.{
  Holds, All-Holds, least-Holds, above_every, chosen-none, none-chosen,
}
use trade_pal_africa.Pricing.Resolve.{
  ResolvePriceInput, Offer, Choice, find_offer, price_offer, resolve_price, chosen, minima, least,
  refusal, pack_size, resolved, wanted_pack, is_pack_of, both, has_list, has_variant, wanted_unit,
}

-- What finding an offer answers: an error that states no minimum, or an offer whose pack holds something, without a write.
abbrev Offered : ResolvePriceInput → Prices → Result PriceError Offer × Prices → Type 0
Offered i s (err e, t) = e.minimum_quantity ≡ none
Offered i s (ok o, t) = (t ≡ s) × (0 < i.quantity) × (0 < pack_size o.pack)

Offered-guard :
    (i : ResolvePriceInput) (s : Prices) (b : Bool) (c : PriceErrorCode)
    (k : Call Prices PriceError Offer)
    → (b ≡ false → Offered i s (k s))
    → Offered i s ((throw_if b (plain c) >> k) s)
Offered-guard i s true c k h = refl
Offered-guard i s false c k h = h refl

Offered-or_throw :
    {A : Type 0} (i : ResolvePriceInput) (s : Prices) (o : Option A) (c : PriceErrorCode)
    (k : A → Call Prices PriceError Offer)
    → ((a : A) → Offered i s (k a s))
    → Offered i s ((or_throw o (plain c) >>= k) s)
Offered-or_throw i s none c k h = refl
Offered-or_throw i s (some a) c k h = h a

wanted_pack-pos :
    (wanted : ℕ) (v : Variant) (packs : List PackConversion)
    → All (λ p. 0 < p.base_quantity) packs
    → 0 < pack_size (wanted_pack wanted v packs)
wanted_pack-pos wanted v packs h = elim (Bool-cases (wanted == v.base_unit)) [
  | inl e ↦ rw e (omega arith)
  | inr e ↦ elim (Option-cases (find (is_pack_of v wanted) packs)) [
    | inl m ↦ rw (e, m) (omega arith)
    | inr (p, m) ↦ rw (e, m) (find-All (λ q. 0 < q.base_quantity) (is_pack_of v wanted) packs p h m)
  ]
]

find_offer-Offered :
    (normalize : ℕ → ℕ) (now : ℕ) (i : ResolvePriceInput) (s : Prices)
    → All (λ p. 0 < p.base_quantity) s.packs
    → Offered i s (find_offer normalize now i s)
unfolding find_offer
find_offer-Offered normalize now i s h =
    let rows =
      both (find (has_list i.price_list_id) s.lists) (find (has_variant i.variant_id) s.variants) in
    elim (Bool-cases (i.quantity == 0)) [
      | inl z ↦ rw z refl
      | inr z ↦ elim (Option-cases rows) [
        | inl m ↦ rw (z, m) refl
        | inr ((l, v), m) ↦
            let size = wanted_pack-pos (wanted_unit normalize i.unit v) v s.packs h in
            rw (z, m) (ground (arith, size))
      ]
    ]

abbrev pub asking : ℕ → ResolvePriceInput → ResolvePriceInput
asking q i = record i { quantity = q }

-- Any two quantities above zero find the same offer.
find_offer-asking :
    (normalize : ℕ → ℕ) (now q : ℕ) (i : ResolvePriceInput) (s : Prices)
    → 0 < i.quantity
    → 0 < q
    → find_offer normalize now (asking q i) s ≡ find_offer normalize now i s
unfolding find_offer
find_offer-asking normalize now q i s h k =
    let one : (i.quantity == 0) ≡ false = ground arith in
    let two : (q == 0) ≡ false = ground arith in rw (one, two) refl

abbrev minima_of : Offer → List ℕ
minima_of o = minima o.pack o.valid

-- Below every minimum the offer is refused with the least of them.
price_offer-below :
    (o : Offer) (q : ℕ) (s : Prices)
    → 0 < pack_size o.pack
    → All (λ n. q < n) (minima_of o)
    → price_offer o q s ≡ (err (refusal (least (minima_of o))), s)
unfolding price_offer
price_offer-below o q s pos h =
    rw (none-chosen o.valid q o.pack pos h, above_every q (minima_of o) h) refl

price_offer-above :
    (o : Offer) (m : ℕ) (s : Prices)
    → 0 < pack_size o.pack
    → Holds m (minima_of o)
    → (c : Choice) × (price_offer o m s ≡ (ok (resolved o m c), s))
unfolding price_offer
price_offer-above o m s pos h = elim (Option-cases (chosen o.pack o.valid m)) [
  | inl e ↦
      let less = All-Holds (λ n. m < n) (minima_of o) m (chosen-none o.valid m o.pack pos e) h in
      let never : ⊥ = omega (arith, less) in elim never [ ]
  | inr (c, e) ↦ (c, rw e refl)
]

error_of : {A : Type 0} → Result PriceError A × Prices → Option ℕ
error_of (ok _, _) = none
error_of (err e, _) = e.minimum_quantity

refusal-some : (o : Option ℕ) (m : ℕ) → (refusal o).minimum_quantity ≡ some m → o ≡ some m
unfolding refusal
refusal-some none m h = cc
refusal-some (some n) m h = h

-- A refusal that states a minimum is of a quantity below every minimum, and states the least of them.
price_offer-stated :
    (o : Offer) (q m : ℕ) (s : Prices)
    → 0 < pack_size o.pack
    → error_of (price_offer o q s) ≡ some m
    → All (λ n. q < n) (minima_of o) × (least (minima_of o) ≡ some m)
unfolding price_offer error_of
price_offer-stated o q m s pos h = elim (Option-cases (chosen o.pack o.valid q)) [
  | inl e ↦
      let below = chosen-none o.valid q o.pack pos e in
      (below, refusal-some (least (minima_of o)) m (rw (e, above_every q (minima_of o) below) at h))
  | inr (c, e) ↦ let k = rw e at h in cc
]

-- The answer of an offer that was found, at any quantity.
Stated : Offer → ℕ → ℕ → ℕ → Prices → Type 0
Stated o q k m s =
    (q < m)
    × (price_offer o k s ≡ price_offer o q s)
    × ((c : Choice) × (price_offer o m s ≡ (ok (resolved o m c), s)))

price_offer-Stated :
    (o : Offer) (q k m : ℕ) (s : Prices)
    → 0 < pack_size o.pack
    → error_of (price_offer o q s) ≡ some m
    → k < m
    → Stated o q k m s
unfolding Stated
price_offer-Stated o q k m s pos h less =
    let below = price_offer-stated o q m s pos h in
    let it = least-Holds (minima_of o) m below.1 in
    let under =
      All-map (λ n. m ≤ n) (λ n. k < n) (minima_of o) (λ n g. omega (arith, less, g)) it.1 in
    (
      All-Holds (λ n. q < n) (minima_of o) m below.0 it.0,
      price_offer-below o k s pos under ∙ sym (price_offer-below o q s pos below.0),
      price_offer-above o m s pos it.0,
    )

resolve-offered :
    (normalize : ℕ → ℕ) (now : ℕ) (i : ResolvePriceInput) (s : Prices) (o : Offer)
    → find_offer normalize now i s ≡ (ok o, s)
    → resolve_price normalize now i s ≡ price_offer o i.quantity s
unfolding resolve_price
resolve-offered normalize now i s o h = rw h refl

resolve-not_offered :
    (normalize : ℕ → ℕ) (now : ℕ) (i : ResolvePriceInput) (s t : Prices) (e : PriceError)
    → find_offer normalize now i s ≡ (err e, t)
    → error_of (resolve_price normalize now i s) ≡ e.minimum_quantity
unfolding resolve_price error_of
resolve-not_offered normalize now i s t e h = rw h refl

stated_error :
    {A : Type 0} (r : Result PriceError A × Prices) (s : Prices) (e : PriceError) (m : ℕ)
    → r ≡ (err e, s)
    → e.minimum_quantity ≡ some m
    → error_of r ≡ some m
unfolding error_of
stated_error r s e m h k = rw h k

module _ (normalize : ℕ → ℕ) (now : ℕ) (i : ResolvePriceInput) (s : Prices) where
  -- What is found decides what any quantity above zero is answered.
  found_minimum :
      (k m : ℕ) (r : Result PriceError Offer × Prices)
      → find_offer normalize now i s ≡ r
      → Offered i s r
      → error_of (resolve_price normalize now i s) ≡ some m
      → 0 < k
      → k < m
      → (i.quantity < m)
        × (resolve_price normalize now (asking k i) s ≡ resolve_price normalize now i s)
        × ((o : Offer) × (c : Choice) × (resolve_price normalize now (asking m i) s
              ≡ (ok (resolved o m c), s)))
  unfolding Stated
  found_minimum k m (err e, t) found h stated one less =
      let never = sym h ∙ sym (resolve-not_offered normalize now i s t e found) ∙ stated in cc
  found_minimum k m (ok o, t) found h stated one less =
      let here : find_offer normalize now i s ≡ (ok o, s) = found ∙ ap (λ u. (ok o, u)) h.0 in
      let answer = resolve-offered normalize now i s o here in
      let all =
        price_offer-Stated o i.quantity k m s h.2 (sym (ap error_of answer) ∙ stated) less in
      let at = λ (q : ℕ) (z : 0 < q).
        resolve-offered normalize now (asking q i) s o
          (find_offer-asking normalize now q i s h.1 z ∙ here) in
      (
        all.0,
        at k one ∙ all.1 ∙ sym answer,
        (o, all.2.0, at m (omega (arith, one, less)) ∙ all.2.1),
      )

  -- Where every pack holds something and a quantity is refused with the statement of a minimum, the
  -- quantity is below that minimum, every other quantity above zero and below the minimum is refused
  -- alike, and the minimum itself is priced, with nothing written.
  pub resolve_price_minimum :
      (e : PriceError) (k m : ℕ)
      → All (λ p. 0 < p.base_quantity) s.packs
      → resolve_price normalize now i s ≡ (err e, s)
      → e.minimum_quantity ≡ some m
      → 0 < k
      → k < m
      → (i.quantity < m)
        × (resolve_price normalize now (asking k i) s ≡ (err e, s))
        × ((o : Offer) × (c : Choice) × (resolve_price normalize now (asking m i) s
              ≡ (ok (resolved o m c), s)))
  resolve_price_minimum e k m packs refused stated one less =
      let all =
        found_minimum k m (find_offer normalize now i s) refl
          (find_offer-Offered normalize now i s packs)
          (stated_error (resolve_price normalize now i s) s e m refused stated) one less in
      (all.0, all.1 ∙ refused, all.2)
