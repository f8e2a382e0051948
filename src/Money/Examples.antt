-- ===== src/Money/Examples.antt =====
-- src/domain/money.ts: amounts as text.
use trade_pal_africa.Base.{
  ℕ, true, false, List, [], ◌∷◌, ◌≡◌, refl, arith, ok, err, if◌then◌else◌, ◌==◌,
}
use trade_pal_africa.Base.Int.{negsuc}
use trade_pal_africa.Money.Text.{
  format_money, parse_amount_to_minor_units, not_valid, too_many_places,
}
use trade_pal_africa.Money.RoundTrip.{Trims, is_printed, parse_amount-format_money}

-- Of the spaces at the front; a runtime's also takes those at the end.
abbrev trim_start : List ℕ → List ℕ
trim_start [] = []
trim_start (c ∷ cs) = let rest = trim_start cs in if c == 32 then rest else c ∷ cs

not_space : (c : ℕ) → is_printed c ≡ true → (c == 32) ≡ false
not_space c h = ground arith

trim_start-Trims : Trims trim_start
trim_start-Trims [] h = refl
trim_start-Trims (c ∷ cs) h = rw (not_space c h.0) refl

-- -5 with two places is -0.05.
five_below : format_money (negsuc 4) 2 ≡ 45 ∷ 48 ∷ 46 ∷ 48 ∷ 53 ∷ []
unfolding format_money
five_below = refl

-- 12.345 has too many places for two.
three_places :
    parse_amount_to_minor_units trim_start (49 ∷ 50 ∷ 46 ∷ 51 ∷ 52 ∷ 53 ∷ []) 2
    ≡ err too_many_places
unfolding parse_amount_to_minor_units
three_places = refl

no_fraction : parse_amount_to_minor_units trim_start (49 ∷ 50 ∷ 46 ∷ []) 2 ≡ err not_valid
unfolding parse_amount_to_minor_units
no_fraction = refl

parse_amount-format_money_example :
    parse_amount_to_minor_units trim_start (format_money (negsuc 4) 2) 2 ≡ ok (negsuc 4)
parse_amount-format_money_example =
    parse_amount-format_money trim_start trim_start-Trims (negsuc 4) 2
