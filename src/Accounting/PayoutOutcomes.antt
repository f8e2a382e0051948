-- ===== src/Accounting/PayoutOutcomes.antt =====
-- How a refund and a settlement of a provider end.
use trade_pal_africa.Base.{
  ◌≡◌, refl, ◌⊎◌, inl, inr, true, false, ◌||◌, Option, [], ◌∷◌, Bool-cases, any, err, arith,
}
use trade_pal_africa.Base.Int.{ℤ, pos, ◌+ℤ◌, ◌-ℤ◌, ◌<ℤ◌, ◌≤ℤ◌, leb_ℤ, ltb_ℤ, int_laws}
use trade_pal_africa.Accounting.Chart.{
  SystemKey, sales_returns, inventory, cogs, provider_clearing, payment_fees, PaymentMethod,
  account_for_method,
}
use trade_pal_africa.Accounting.Books.{Books, EntryKind, invalid}
use trade_pal_africa.Accounting.Posting.{debit_line, credit_line, has_key, post_journal}
use trade_pal_africa.Accounting.Rules.{
  Common, header, Destination, destination_account, refund_lines, post_refund, settlement_lines,
  post_provider_settlement,
}
use trade_pal_africa.Accounting.Balancing.{
  input_sum, AreBalanced, IsPosted, post_journal_new, IsPosted-same,
}
use trade_pal_africa.Accounting.Charting.{IsStandard}
use trade_pal_africa.Accounting.RuleOutcomes.{
  Adds, Adds-append, Adds-AreBalanced, cost_lines-Adds, rest_line-Adds, credit_line-Adds,
}

debit_line-Adds : (x : ℤ) (k : SystemKey) → pos 0 <ℤ x → Adds (debit_line k x ∷ []) x (pos 0)
unfolding input_sum ◌+ℤ◌
debit_line-Adds x k h = (omega int_laws, refl, (inl (h, refl), tt))

refund_lines-AreBalanced :
    (x : ℤ) (m : PaymentMethod) (cost : Option ℤ) → pos 0 <ℤ x → AreBalanced (refund_lines x m cost)
unfolding refund_lines
refund_lines-AreBalanced x m cost p =
    let (y, some_cost, costs) = cost_lines-Adds inventory cogs cost in
    Adds-AreBalanced _ _ _ (omega int_laws) (omega int_laws) (
      Adds-append (debit_line sales_returns x ∷ []) _ _ _ _ _ (debit_line-Adds x sales_returns p) (
        Adds-append (credit_line (account_for_method m) x ∷ []) _ _ _ _ _
          (credit_line-Adds x (account_for_method m) p) costs))

settlement_lines-AreBalanced :
    (gross fee : ℤ) (d : Destination)
    → pos 0 <ℤ gross
    → pos 0 ≤ℤ fee
    → fee <ℤ gross
    → AreBalanced (settlement_lines gross fee d)
unfolding settlement_lines
settlement_lines-AreBalanced gross fee d p q r =
    Adds-AreBalanced _ _ _ (omega int_laws) (omega int_laws) (
      Adds-append (debit_line (destination_account d) (gross -ℤ fee) ∷ []) _ _ _ _ _
        (debit_line-Adds (gross -ℤ fee) (destination_account d) (omega int_laws))
        (Adds-append (credit_line provider_clearing gross ∷ []) _ _ _ _ _
          (credit_line-Adds gross provider_clearing p) (rest_line-Adds fee payment_fees q)))

fee_refused :
    (gross fee : ℤ)
    → (ltb_ℤ fee (pos 0) || leb_ℤ gross fee) ≡ true
    → (fee <ℤ pos 0) ⊎ (gross ≤ℤ fee)
fee_refused gross fee h = elim (Bool-cases (ltb_ℤ fee (pos 0))) [
  | inl e ↦ inl (ground arith)
  | inr e ↦ inr (ground arith)
]

module _ (c : Common) (b : Books) where
  -- A refund above zero, on a chart where system codes stand for system accounts and under a key
  -- that is new, is posted: one new entry, whose lines are those of the refund. It is refused, and
  -- nothing is written, only where its amount is zero or less.
  pub post_refund_outcome :
      (amount : ℤ) (paid_with : PaymentMethod) (restock_cost : Option ℤ)
      → IsStandard b.accounts
      → any (has_key c.key) b.entries ≡ false
      → ((pos 0 <ℤ amount)
          × IsPosted
              (post_refund c amount paid_with restock_cost)
              (refund_lines amount paid_with restock_cost)
              c.key
              b)
        ⊎ ((amount ≤ℤ pos 0) × (post_refund c amount paid_with restock_cost b ≡ (err invalid, b)))
  unfolding post_refund
  post_refund_outcome amount paid_with restock_cost standard fresh =
      elim (Bool-cases (leb_ℤ amount (pos 0))) [
        | inl e ↦ inr (ground arith, rw e)
        | inr e ↦
            let p : pos 0 <ℤ amount = ground arith in
            let done =
              post_journal_new (header c EntryKind.refund)
                (refund_lines amount paid_with restock_cost) b standard
                (refund_lines-AreBalanced amount paid_with restock_cost p) fresh in
            inl (
              p,
              IsPosted-same _
                  (post_journal (header c EntryKind.refund)
                    (refund_lines amount paid_with restock_cost))
                  _ c.key b (rw e refl) done,
            )
      ]

  -- A settlement above zero, with a fee of zero or more and less than it, on a chart where system
  -- codes stand for system accounts and under a key that is new, is posted: one new entry, whose
  -- lines are those of the settlement. It is refused, and nothing is written, only where its amount
  -- is zero or less, its fee is below zero, or the fee is at least the amount.
  pub post_provider_settlement_outcome :
      (gross fee : ℤ) (destination : Destination)
      → IsStandard b.accounts
      → any (has_key c.key) b.entries ≡ false
      → ((pos 0 <ℤ gross)
          × (pos 0 ≤ℤ fee)
          × (fee <ℤ gross)
          × IsPosted
              (post_provider_settlement c gross fee destination)
              (settlement_lines gross fee destination)
              c.key
              b)
        ⊎ (((gross ≤ℤ pos 0) ⊎ (fee <ℤ pos 0) ⊎ (gross ≤ℤ fee))
            × (post_provider_settlement c gross fee destination b ≡ (err invalid, b)))
  unfolding post_provider_settlement
  post_provider_settlement_outcome gross fee destination standard fresh =
      elim (Bool-cases (leb_ℤ gross (pos 0))) [
        | inl e ↦ inr (inl (ground arith), rw e)
        | inr e ↦ elim (Bool-cases (ltb_ℤ fee (pos 0) || leb_ℤ gross fee)) [
          | inl u ↦ inr (inr (fee_refused gross fee u), rw (e, u))
          | inr u ↦
              let p : pos 0 <ℤ gross = ground arith in
              let q : pos 0 ≤ℤ fee = ground arith in
              let r : fee <ℤ gross = ground arith in
              let done =
                post_journal_new (header c EntryKind.settlement)
                  (settlement_lines gross fee destination) b standard
                  (settlement_lines-AreBalanced gross fee destination p q r) fresh in
              inl (
                p,
                q,
                r,
                IsPosted-same _
                    (post_journal (header c EntryKind.settlement)
                      (settlement_lines gross fee destination))
                    _ c.key b (rw (e, u) refl) done,
              )
        ]
      ]
