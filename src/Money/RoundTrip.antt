-- ===== src/Money/RoundTrip.antt =====
-- src/domain/money.ts: a formatted amount is parsed back.
use trade_pal_africa.Base.{
  ℕ, zero, suc, ◌+◌, ◌-◌, ◌*◌, ◌/◌, ◌%◌, ◌^◌, ◌<◌, Bool, true, false, ◌||◌, some, List, [], ◌∷◌,
  ◌++◌, ltb, ◌==◌, if◌then◌else◌, length, All, All-append, All-map, ok, ◌≡◌, refl, sym, ap, ◌∙◌,
  subst, arith, length-append,
}
use native.Mathlib.Nat.{one-le-pow, mod-lt, div-add-mod'}
use mathlib.Core.List.{append-nil}
use trade_pal_africa.Base.Int.{ℤ, pos, negsuc, neg, ltb_ℤ}
use trade_pal_africa.Money.Text.{
  hyphen, point, decimal, zeros, signed, pad_start, pad_end, absolute, format_money, is_digit, span,
  number_from, Match, matched, to_end, match_rest, match_whole, match_amount, minor_of, amount_of,
  parse_amount_to_minor_units,
}
use trade_pal_africa.Money.Digits.{
  AllDigits, Starts, number_from-decimal, decimal-AllDigits, decimal-Starts, length-decimal,
  zeros-AllDigits, length-zeros, number_from-zeros, span-digits,
}

-- The fraction of an amount, as it is formatted.
abbrev fraction_of : ℕ → ℕ → List ℕ
fraction_of exp f = pad_start exp (decimal f)

fraction_of-AllDigits : (exp f : ℕ) → AllDigits (fraction_of exp f)
fraction_of-AllDigits exp f =
    All-append (λ c. is_digit c ≡ true) (zeros (exp - length (decimal f))) (decimal f)
      (zeros-AllDigits (exp - length (decimal f))) (decimal-AllDigits f)

length-fraction_of : (k f : ℕ) → f < 10 ^ suc k → length (fraction_of (suc k) f) ≡ suc k
length-fraction_of k f h =
    let n = suc k - length (decimal f) in
    omega (arith, length-append (zeros n) (decimal f), length-zeros n, length-decimal k f h)

-- Read from the padded fraction.
number_from-fraction_of :
    (k f : ℕ) → f < 10 ^ suc k → number_from 0 (pad_end (suc k) (fraction_of (suc k) f)) ≡ f
unfolding zeros
number_from-fraction_of k f h =
    let t = fraction_of (suc k) f in
    let full : suc k - length t ≡ 0 = omega (arith, length-fraction_of k f h) in
    rw full (
      ap (number_from 0) (append-nil t)
      ∙ number_from-zeros (suc k - length (decimal f)) (decimal f)
      ∙ number_from-decimal f)

Starts-append : (s t : List ℕ) → Starts t → Starts (s ++ t)
Starts-append [] t h = h
Starts-append (c ∷ cs) t h = (c, cs ++ t, refl)

-- Where digits are matched up to what follows them.
match_amount-signed :
    (negative : Bool) (c : ℕ) (cs tail : List ℕ)
    → AllDigits (c ∷ cs)
    → span tail ≡ ([], tail)
    → match_amount (signed negative (c ∷ cs ++ tail)) ≡ match_rest negative (c ∷ cs) tail
unfolding match_amount match_whole
match_amount-signed true c cs tail h k = ap (match_whole true) (span-digits (c ∷ cs) tail h k)
match_amount-signed false c cs tail h k =
    let digit : (c == hyphen) ≡ false = ground (arith, h.0) in
    rw digit (ap (match_whole false) (span-digits (c ∷ cs) tail h k))

match_amount-whole :
    (negative : Bool) (w tail : List ℕ)
    → Starts w
    → AllDigits w
    → span tail ≡ ([], tail)
    → match_amount (signed negative (w ++ tail)) ≡ match_rest negative w tail
match_amount-whole negative w tail (c, cs, e) h k =
    subst (λ v. match_amount (signed negative (v ++ tail)) ≡ match_rest negative v tail) (sym e)
      (match_amount-signed negative c cs tail (subst AllDigits e h) k)

span-point : (t : List ℕ) → span (point ∷ t) ≡ ([], point ∷ t)
unfolding span
span-point t = refl

span_nil : span [] ≡ ([], [])
unfolding span
span_nil = refl

to_end-all :
    (negative : Bool) (w t : List ℕ)
    → Starts t
    → to_end negative w (t, []) ≡ some (matched negative w t)
unfolding to_end
to_end-all negative w t (c, cs, e) =
    subst (λ u. to_end negative w (u, []) ≡ some (matched negative w u)) (sym e) refl

match_rest-point :
    (negative : Bool) (w t : List ℕ)
    → Starts t
    → AllDigits t
    → match_rest negative w (point ∷ t) ≡ some (matched negative w t)
unfolding match_rest
match_rest-point negative w t h k =
    ap (to_end negative w) (ap span (sym (append-nil t)) ∙ span-digits t [] k span_nil)
    ∙ to_end-all negative w t h

-- An amount from its sign and its magnitude.
signed_amount : (a : ℤ) → (if ltb_ℤ a (pos 0) then neg (pos (absolute a)) else pos (absolute a)) ≡ a
unfolding neg
signed_amount (pos n) = ground arith
signed_amount (negsuc n) = ground arith

amount_of-fraction :
    (k : ℕ) (a : ℤ) (w f : ℕ)
    → f < 10 ^ suc k
    → w * 10 ^ suc k + f ≡ absolute a
    → amount_of (suc k) (some (matched (ltb_ℤ a (pos 0)) (decimal w) (fraction_of (suc k) f)))
      ≡ ok a
unfolding amount_of
amount_of-fraction k a w f h e =
    let fits : ltb (suc k) (length (fraction_of (suc k) f)) ≡ false =
      ground (arith, length-fraction_of k f h) in
    let m = matched (ltb_ℤ a (pos 0)) (decimal w) (fraction_of (suc k) f) in
    let minor : minor_of (suc k) m ≡ absolute a =
      omega (
        arith,
        e,
        ap (λ v. v * 10 ^ suc k) (number_from-decimal w),
        number_from-fraction_of k f h,
      ) in
    rw (fits, minor) (ap ok (signed_amount a))

amount_of-whole :
    (a : ℤ) → amount_of 0 (some (matched (ltb_ℤ a (pos 0)) (decimal (absolute a)) [])) ≡ ok a
unfolding amount_of
amount_of-whole a =
    let m = matched (ltb_ℤ a (pos 0)) (decimal (absolute a)) [] in
    let minor : minor_of 0 m ≡ absolute a = omega (arith, number_from-decimal (absolute a)) in
    rw minor (ap ok (signed_amount a))

-- The characters of an amount.
abbrev pub is_printed : ℕ → Bool
is_printed c = is_digit c || (c == hyphen || c == point)

-- What trimming is relied on for: it leaves an amount as it is.
abbrev pub Trims : (List ℕ → List ℕ) → Type 0
Trims trim = (t : List ℕ) → All (λ c. is_printed c ≡ true) t → trim t ≡ t

AllPrinted : (t : List ℕ) → AllDigits t → All (λ c. is_printed c ≡ true) t
AllPrinted t h = All-map (λ c. is_digit c ≡ true) (λ c. is_printed c ≡ true) t (λ c k. rw k refl) h

signed-AllPrinted :
    (b : Bool) (t : List ℕ)
    → All (λ c. is_printed c ≡ true) t
    → All (λ c. is_printed c ≡ true) (signed b t)
signed-AllPrinted true t h = (refl, h)
signed-AllPrinted false t h = h

parsed :
    (trim : List ℕ → List ℕ) (t : List ℕ) (exp : ℕ) (m : Match) (a : ℤ)
    → Trims trim
    → All (λ c. is_printed c ≡ true) t
    → match_amount t ≡ some m
    → amount_of exp (some m) ≡ ok a
    → parse_amount_to_minor_units trim t exp ≡ ok a
unfolding parse_amount_to_minor_units
parsed trim t exp m a trims printed h k = rw (trims t printed, h) k

power_pos : (k : ℕ) → 0 < 10 ^ k
power_pos k = one-le-pow k 10 (omega arith)

module _ (trim : List ℕ → List ℕ) (trims : Trims trim) (a : ℤ) where
  whole_text : parse_amount_to_minor_units trim (format_money a 0) 0 ≡ ok a
  unfolding format_money match_rest
  whole_text =
      let b = ltb_ℤ a (pos 0) in
      let w = decimal (absolute a) in
      parsed trim (signed b w) 0 (matched b w []) a trims
        (signed-AllPrinted b w (AllPrinted w (decimal-AllDigits (absolute a))))
        (ap (λ t. match_amount (signed b t)) (sym (append-nil w))
          ∙ match_amount-whole b w [] (decimal-Starts (absolute a)) (decimal-AllDigits (absolute a))
              span_nil)
        (amount_of-whole a)

  fraction_text : (k : ℕ) → parse_amount_to_minor_units trim (format_money a (suc k)) (suc k) ≡ ok a
  unfolding format_money
  fraction_text k =
      let b = ltb_ℤ a (pos 0) in
      let n = absolute a in
      let d = 10 ^ suc k in
      let w = decimal (n / d) in
      let t = fraction_of (suc k) (n % d) in
      let some_digits =
        Starts-append (zeros (suc k - length (decimal (n % d)))) (decimal (n % d))
          (decimal-Starts (n % d)) in
      let digits = fraction_of-AllDigits (suc k) (n % d) in
      let below : n % d < d = mod-lt n (power_pos (suc k)) in
      let places : (suc k == 0) ≡ false = ground arith in
      rw places (
        parsed trim (signed b (w ++ point ∷ t)) (suc k) (matched b w t) a trims
          (signed-AllPrinted b (w ++ point ∷ t) (
            All-append (λ c. is_printed c ≡ true) w (point ∷ t)
              (AllPrinted w (decimal-AllDigits (n / d))) (refl, AllPrinted t digits)))
          (match_amount-whole b w (point ∷ t) (decimal-Starts (n / d)) (decimal-AllDigits (n / d))
              (span-point t)
            ∙ match_rest-point b w t some_digits digits)
          (amount_of-fraction k a (n / d) (n % d) below (div-add-mod' n d)))

  -- With a trim that leaves an amount as it is, an amount that is formatted with any number of
  -- decimal places is parsed back with the same number.
  pub parse_amount-format_money :
      (exp : ℕ) → parse_amount_to_minor_units trim (format_money a exp) exp ≡ ok a
  parse_amount-format_money zero = whole_text
  parse_amount-format_money (suc k) = fraction_text k
