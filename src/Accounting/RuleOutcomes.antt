-- ===== src/Accounting/RuleOutcomes.antt =====
-- How the posting rules end: a new entry whose lines are those of the rule, or a refusal that
-- writes nothing.
use trade_pal_africa.Base.{
  ◌≤◌, ◌≡◌, refl, sym, ◌∙◌, ◌⊎◌, inl, inr, true, false, Option, none, some, List, [], ◌∷◌, ◌++◌,
  map, arith, Bool-cases, length, any, All, All-append, if◌then◌else◌, err,
}
use trade_pal_africa.Base.Int.{ℤ, pos, ◌+ℤ◌, ◌<ℤ◌, ◌≤ℤ◌, leb_ℤ, ltb_ℤ, int_laws}
use trade_pal_africa.Accounting.Chart.{SystemKey, ar, sales_revenue, cogs, inventory}
use trade_pal_africa.Accounting.Books.{Books, EntryKind, invalid}
use trade_pal_africa.Accounting.Posting.{LineInput, debit_line, credit_line, has_key, post_journal}
use trade_pal_africa.Accounting.Rules.{
  Common, header, Receipt, received, receipt_line, cost_lines, sale_lines, post_sale,
}
use trade_pal_africa.Accounting.Balancing.{
  debit_of, credit_of, input_sum, input_sum-append, IsSingleInput, AreBalanced, IsPosted,
  post_journal_new, IsPosted-same,
}
use trade_pal_africa.Accounting.Charting.{IsStandard}

-- Lines that add up to `d` on the debit side and to `c` on the credit side, each single.
abbrev pub Adds : List LineInput → ℤ → ℤ → Type 0
Adds ls d c = (input_sum debit_of ls ≡ d) × (input_sum credit_of ls ≡ c) × All IsSingleInput ls

pub Adds-append :
    (xs ys : List LineInput) (d c d' c' : ℤ)
    → Adds xs d c
    → Adds ys d' c'
    → Adds (xs ++ ys) (d +ℤ d') (c +ℤ c')
Adds-append xs ys d c d' c' h k = (
  rw (input_sum-append debit_of xs ys, h.0, k.0),
  rw (input_sum-append credit_of xs ys, h.1, k.1),
  All-append IsSingleInput xs ys h.2 k.2,
)

pub cost_lines-Adds :
    (d c : SystemKey) (cost : Option ℤ) → (x : ℤ) × (pos 0 ≤ℤ x) × Adds (cost_lines d c cost) x x
unfolding input_sum
cost_lines-Adds d c none = (pos 0, omega arith, (refl, refl, tt))
cost_lines-Adds d c (some x) = elim (Bool-cases (ltb_ℤ (pos 0) x)) [
  | inl e ↦ (
    x,
    ground arith,
    rw e (
      omega int_laws,
      omega int_laws,
      (inl (ground arith, refl), (inr (refl, ground arith), tt)),
    ),
  )
  | inr e ↦ (pos 0, omega arith, rw e (refl, refl, tt))
]

receipts-Adds :
    (rs : List Receipt)
    → any (λ (r : Receipt). leb_ℤ r.amount (pos 0)) rs ≡ false
    → Adds (map receipt_line rs) (received rs) (pos 0)
unfolding input_sum received
receipts-Adds [] h = (refl, refl, tt)
receipts-Adds (r ∷ rs) h =
    let rest = receipts-Adds rs (ground arith) in
    let positive : pos 0 <ℤ r.amount = ground arith in
    (rw (rest.0), rw (rest.1) (omega int_laws), (inl (positive, refl), rest.2))

-- Single lines with equal sides that are not empty are two at least.
two_lines : (ls : List LineInput) (x : ℤ) → pos 0 <ℤ x → Adds ls x x → 2 ≤ length ls
unfolding input_sum
two_lines [] x p h = absurd (ground arith)
two_lines (l ∷ []) x p h = absurd (grind (int_laws, h.0, h.1, h.2.0))
two_lines (l ∷ k ∷ ls) x p h = omega arith

pub Adds-AreBalanced :
    (ls : List LineInput) (d c : ℤ) → pos 0 <ℤ d → d ≡ c → Adds ls d c → AreBalanced ls
Adds-AreBalanced ls d c p e h = (h.0 ∙ e ∙ sym h.1, two_lines ls d p (h.0, h.1 ∙ sym e, h.2), h.2)

pub rest_line-Adds :
    (x : ℤ) (k : SystemKey)
    → pos 0 ≤ℤ x
    → Adds (if ltb_ℤ (pos 0) x then debit_line k x ∷ [] else []) x (pos 0)
unfolding input_sum ◌+ℤ◌
rest_line-Adds x k h = elim (Bool-cases (ltb_ℤ (pos 0) x)) [
  | inl e ↦ rw e (omega int_laws, refl, (inl (ground arith, refl), tt))
  | inr e ↦ rw e (ground arith, refl, tt)
]

pub credit_line-Adds : (x : ℤ) (k : SystemKey) → pos 0 <ℤ x → Adds (credit_line k x ∷ []) (pos 0) x
unfolding input_sum ◌+ℤ◌
credit_line-Adds x k h = (refl, omega int_laws, (inr (refl, h), tt))

sale_lines-AreBalanced :
    (total : ℤ) (rs : List Receipt) (cost : Option ℤ)
    → pos 0 <ℤ total
    → any (λ (r : Receipt). leb_ℤ r.amount (pos 0)) rs ≡ false
    → received rs ≤ℤ total
    → AreBalanced (sale_lines total rs cost)
unfolding sale_lines
sale_lines-AreBalanced total rs cost p q r =
    let (x, some_cost, costs) = cost_lines-Adds cogs inventory cost in
    Adds-AreBalanced _ _ _ (omega int_laws) (omega int_laws) (
      Adds-append _ _ _ _ _ _ (receipts-Adds rs q) (
        Adds-append _ _ _ _ _ _ (rest_line-Adds _ ar (omega int_laws)) (
          Adds-append (credit_line sales_revenue total ∷ []) _ _ _ _ _
            (credit_line-Adds total sales_revenue p) costs)))

module _ (c : Common) (b : Books) where
  -- A sale above zero, with receipts above zero that add up to no more than its total, on a chart
  -- where system codes stand for system accounts and under a key that is new, is posted: one new
  -- entry, whose lines are those of the sale. It is refused, and nothing is written, only where its total is
  -- zero or less, a receipt is zero or less, or the receipts come to more than the total.
  pub post_sale_outcome :
      (total : ℤ) (rs : List Receipt) (cost : Option ℤ)
      → IsStandard b.accounts
      → any (has_key c.key) b.entries ≡ false
      → ((pos 0 <ℤ total)
          × (any (λ (r : Receipt). leb_ℤ r.amount (pos 0)) rs ≡ false)
          × (received rs ≤ℤ total)
          × IsPosted (post_sale c total rs cost) (sale_lines total rs cost) c.key b)
        ⊎ (((total ≤ℤ pos 0)
              ⊎ (any (λ (r : Receipt). leb_ℤ r.amount (pos 0)) rs ≡ true)
              ⊎ (total <ℤ received rs))
            × (post_sale c total rs cost b ≡ (err invalid, b)))
  unfolding post_sale
  post_sale_outcome total rs cost standard fresh = elim (Bool-cases (leb_ℤ total (pos 0))) [
    | inl e ↦ inr (inl (ground arith), rw e)
    | inr e ↦ elim (Bool-cases (any (λ (r : Receipt). leb_ℤ r.amount (pos 0)) rs)) [
      | inl q ↦ inr (inr (inl q), rw (e, q))
      | inr q ↦ elim (Bool-cases (ltb_ℤ total (received rs))) [
        | inl u ↦ inr (inr (inr (ground arith)), rw (e, q, u))
        | inr u ↦
            let p : pos 0 <ℤ total = ground arith in
            let r : received rs ≤ℤ total = ground arith in
            let done =
              post_journal_new (header c EntryKind.sale) (sale_lines total rs cost) b standard
                (sale_lines-AreBalanced total rs cost p q r) fresh in
            inl (
              p,
              q,
              r,
              IsPosted-same _ (post_journal (header c EntryKind.sale) (sale_lines total rs cost)) _
                  c.key b (rw (e, q, u) refl) done,
            )
      ]
    ]
  ]
