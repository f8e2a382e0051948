-- ===== src/Money/Text.antt =====
-- src/domain/money.ts. A text is the list of its character codes.
use trade_pal_africa.Base.{
  ℕ, zero, suc, ◌+◌, ◌-◌, ◌*◌, ◌/◌, ◌%◌, ◌^◌, Bool, true, false, ◌&&◌, Option, none, some, List, [],
  ◌∷◌, ◌++◌, leb, ltb, ◌==◌, if◌then◌else◌, length, Result, ok, err,
}
use trade_pal_africa.Base.Int.{ℤ, pos, pos_part, neg_part, neg, ◌+ℤ◌, ltb_ℤ}

pub data InvalidAmount : Type 0 where
  not_valid too_many_places : InvalidAmount

abbrev pub hyphen : ℕ
hyphen = 45

abbrev pub point : ℕ
point = 46

-- `0`
abbrev pub naught : ℕ
naught = 48

pub sum_money : List ℤ → ℤ
sum_money [] = pos 0
sum_money (a ∷ bs) = a +ℤ sum_money bs

-- `n.toString()`: the last digit first found, in front of what is there. A number has fewer digits
-- than itself and one, so the fuel is enough.
unfoldable pub digits_from : ℕ → ℕ → List ℕ → List ℕ
digits_from zero n acc = acc
digits_from (suc fuel) n acc =
    let rest = digits_from fuel (n / 10) ((naught + n % 10) ∷ acc) in
    if ltb n 10 then (naught + n) ∷ acc else rest

unfoldable pub decimal : ℕ → List ℕ
unfolding digits_from
decimal n = digits_from (n + 1) n []

unfoldable pub zeros : ℕ → List ℕ
zeros zero = []
zeros (suc n) = naught ∷ zeros n

-- `padStart` and `padEnd` with `0`.
abbrev pub pad_start : ℕ → List ℕ → List ℕ
pad_start n t = zeros (n - length t) ++ t

abbrev pub pad_end : ℕ → List ℕ → List ℕ
pad_end n t = t ++ zeros (n - length t)

abbrev pub signed : Bool → List ℕ → List ℕ
signed true t = hyphen ∷ t
signed false t = t

-- The magnitude of an amount.
abbrev pub absolute : ℤ → ℕ
absolute a = pos_part a + neg_part a

unfoldable pub format_money : ℤ → ℕ → List ℕ
unfolding decimal zeros
format_money amount exp =
    if exp == 0
    then signed (ltb_ℤ amount (pos 0)) (decimal (absolute amount))
    else signed (ltb_ℤ amount (pos 0)) (
        decimal (absolute amount / 10 ^ exp)
        ++ point ∷ pad_start exp (decimal (absolute amount % 10 ^ exp)))

abbrev pub is_digit : ℕ → Bool
is_digit c = leb naught c && leb c 57

-- `\d+` at the front, as long as it goes, and what follows.
unfoldable pub span : List ℕ → List ℕ × List ℕ
span [] = ([], [])
span (c ∷ cs) = let rest = span cs in if is_digit c then (c ∷ rest.0, rest.1) else ([], c ∷ cs)

-- `BigInt(text)` of digits.
unfoldable pub number_from : ℕ → List ℕ → ℕ
number_from n [] = n
number_from n (c ∷ cs) = number_from (10 * n + (c - naught)) cs

-- The groups of the match: the sign, the whole part and the fraction.
pub record Match : Type 0 where
  pub negative : Bool
  pub whole : List ℕ
  pub fraction : List ℕ

abbrev pub matched : Bool → List ℕ → List ℕ → Match
matched n w f = record { negative = n; whole = w; fraction = f }

-- The fraction goes on to the end of the text.
unfoldable pub to_end : Bool → List ℕ → List ℕ × List ℕ → Option Match
to_end n w ([], _) = none
to_end n w (d ∷ ds, []) = some (matched n w (d ∷ ds))
to_end n w (d ∷ ds, _ ∷ _) = none

-- What follows the whole part: nothing, or a point and a fraction.
unfoldable pub match_rest : Bool → List ℕ → List ℕ → Option Match
unfolding span to_end
match_rest n w [] = some (matched n w [])
match_rest n w (c ∷ cs) = if c == point then to_end n w (span cs) else none

unfoldable pub match_whole : Bool → List ℕ × List ℕ → Option Match
unfolding match_rest
match_whole n ([], _) = none
match_whole n (d ∷ ds, rest) = match_rest n (d ∷ ds) rest

unfoldable pub match_amount : List ℕ → Option Match
unfolding span match_whole
match_amount [] = none
match_amount (c ∷ cs) =
    if c == hyphen then match_whole true (span cs) else match_whole false (span (c ∷ cs))

abbrev pub minor_of : ℕ → Match → ℕ
minor_of exp m = number_from 0 m.whole * 10 ^ exp + number_from 0 (pad_end exp m.fraction)

unfoldable pub amount_of : ℕ → Option Match → Result InvalidAmount ℤ
unfolding number_from zeros
amount_of exp none = err not_valid
amount_of exp (some m) =
    if ltb exp (length m.fraction)
    then err too_many_places
    else ok (if m.negative then neg (pos (minor_of exp m)) else pos (minor_of exp m))

-- `trim` is the runtime's.
unfoldable pub parse_amount_to_minor_units : (List ℕ → List ℕ) → List ℕ → ℕ → Result InvalidAmount ℤ
unfolding match_amount amount_of
parse_amount_to_minor_units trim text exp = amount_of exp (match_amount (trim text))
