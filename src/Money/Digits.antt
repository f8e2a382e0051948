-- ===== src/Money/Digits.antt =====
-- src/domain/money.ts: the decimal digits of a number, read back.
use trade_pal_africa.Base.{
  ℕ, zero, suc, ◌+◌, ◌/◌, ◌%◌, ◌^◌, ◌≤◌, ◌<◌, true, List, [], ◌∷◌, ◌++◌, ltb, length, All, ◌≡◌,
  refl, ap, ◌∙◌, arith, Bool-cases, inl, inr,
}
use native.Mathlib.Nat.{div-lt_iff_lt-mul, pow-suc}
use trade_pal_africa.Money.Text.{digits_from, decimal, zeros, naught, is_digit, span, number_from}

abbrev pub AllDigits : List ℕ → Type 0
AllDigits = All (λ c. is_digit c ≡ true)

digit_below : (d : ℕ) → d < 10 → is_digit (naught + d) ≡ true
digit_below d h = ground arith

digits_from-AllDigits :
    (fuel n : ℕ) (acc : List ℕ) → AllDigits acc → AllDigits (digits_from fuel n acc)
unfolding digits_from
digits_from-AllDigits zero n acc h = h
digits_from-AllDigits (suc fuel) n acc h = elim (Bool-cases (ltb n 10)) [
  | inl e ↦ rw e (digit_below n (ground arith), h)
  | inr e ↦ rw e (
      digits_from-AllDigits fuel (n / 10) ((naught + n % 10) ∷ acc)
        (digit_below (n % 10) (ground arith), h))
]

number_from-digits_from :
    (fuel n : ℕ) (acc : List ℕ)
    → n < fuel
    → number_from 0 (digits_from fuel n acc) ≡ number_from n acc
unfolding digits_from number_from
number_from-digits_from zero n acc h = ground (arith, h)
number_from-digits_from (suc fuel) n acc h = elim (Bool-cases (ltb n 10)) [
  | inl e ↦ rw e (ap (λ v. number_from v acc) (omega arith))
  | inr e ↦ rw e (
      number_from-digits_from fuel (n / 10) ((naught + n % 10) ∷ acc) (ground arith)
      ∙ ap (λ v. number_from v acc) (omega arith))
]

-- Reading the digits of a number gives it back.
pub number_from-decimal : (n : ℕ) → number_from 0 (decimal n) ≡ n
unfolding decimal number_from
number_from-decimal n = number_from-digits_from (n + 1) n [] (omega arith)

pub decimal-AllDigits : (n : ℕ) → AllDigits (decimal n)
unfolding decimal
decimal-AllDigits n = digits_from-AllDigits (n + 1) n [] tt

pow_one : 10 ^ suc 0 ≡ 10
pow_one = refl

length-digits_from :
    (k fuel n : ℕ) (acc : List ℕ)
    → n < 10 ^ suc k
    → length (digits_from fuel n acc) ≤ suc k + length acc
unfolding digits_from
length-digits_from k zero n acc h = omega arith
length-digits_from zero (suc fuel) n acc h =
    let small : ltb n 10 ≡ true = ground (arith, pow_one, h) in rw small (omega arith)
length-digits_from (suc k) (suc fuel) n acc h = elim (Bool-cases (ltb n 10)) [
  | inl e ↦ rw e (omega arith)
  | inr e ↦
      let less : n / 10 < 10 ^ suc k =
        (div-lt_iff_lt-mul {k = 10} {x = n} {y = 10 ^ suc k} (omega arith)).1
          (omega (arith, h, pow-suc 10 (suc k))) in
      rw e (omega (arith, length-digits_from k fuel (n / 10) ((naught + n % 10) ∷ acc) less))
]

pub length-decimal : (k n : ℕ) → n < 10 ^ suc k → length (decimal n) ≤ suc k
unfolding decimal
length-decimal k n h = omega (arith, length-digits_from k (n + 1) n [] h)

-- A text of at least one character.
abbrev pub Starts : List ℕ → Type 0
Starts t = (c : ℕ) × (cs : List ℕ) × (t ≡ c ∷ cs)

digits_from-Starts : (fuel n c : ℕ) (acc : List ℕ) → Starts (digits_from fuel n (c ∷ acc))
unfolding digits_from
digits_from-Starts zero n c acc = (c, acc, refl)
digits_from-Starts (suc fuel) n c acc = elim (Bool-cases (ltb n 10)) [
  | inl e ↦ rw e (naught + n, c ∷ acc, refl)
  | inr e ↦ rw e (digits_from-Starts fuel (n / 10) (naught + n % 10) (c ∷ acc))
]

first_digit : (fuel n : ℕ) → 0 < fuel → Starts (digits_from fuel n [])
unfolding digits_from
first_digit zero n h = ground (arith, h)
first_digit (suc fuel) n h = elim (Bool-cases (ltb n 10)) [
  | inl e ↦ rw e (naught + n, [], refl)
  | inr e ↦ rw e (digits_from-Starts fuel (n / 10) (naught + n % 10) [])
]

pub decimal-Starts : (n : ℕ) → Starts (decimal n)
unfolding decimal
decimal-Starts n = first_digit (n + 1) n (omega arith)

pub zeros-AllDigits : (n : ℕ) → AllDigits (zeros n)
unfolding zeros
zeros-AllDigits zero = tt
zeros-AllDigits (suc n) = (refl, zeros-AllDigits n)

pub length-zeros : (n : ℕ) → length (zeros n) ≡ n
unfolding zeros
length-zeros zero = refl
length-zeros (suc n) = ap suc (length-zeros n)

pub number_from-zeros : (n : ℕ) (t : List ℕ) → number_from 0 (zeros n ++ t) ≡ number_from 0 t
unfolding zeros number_from
number_from-zeros zero t = refl
number_from-zeros (suc n) t = number_from-zeros n t

-- The digits at the front are taken off whole.
pub span-digits : (ds t : List ℕ) → AllDigits ds → span t ≡ ([], t) → span (ds ++ t) ≡ (ds, t)
unfolding span
span-digits [] t h e = e
span-digits (d ∷ ds) t h e = rw (h.0, span-digits ds t h.1 e) refl
