-- ===== src/SalesRefund/Allocation/Facts.antt =====
-- What `create_for_refund` promises: the refund is conserved and capped, and nothing is written
-- otherwise.
use stock_flow.SalesRefund.Allocation.Loop.{distribute_total, distribute_ok}
use stock_flow.Tx.{Exception, out_of_fuel, err, Result-cases, ok}
use stock_flow.SalesRefund.Allocation.{
  to_rows, is_refund_of, is_payment_of, is_allocation_of, distribute, create_for_refund,
  compute_effective_buckets, check_facts, add_allocations, SaleContext, RefundTables, sum_of,
  positive, first_pass, exceeds, amount_of, allocate, MethodMap,
}
use stock_flow.Prelude.{
  ltb_false→le, ◌≢◌, ◌∙◌, ◌++◌, suc, ap, ◌≤◌, ◌≡◌, ◌∷◌, ◌<◌, ◌-◌, ◌+◌, ℕ, refl, ltb, inr, inl,
  find_many, false, arith, any_where, [], Bool-cases, All,
}

-- Dropping the zero amounts keeps the sum.
sum_of-positive : (al : MethodMap) → sum_of (find_many positive al) ≡ sum_of al
sum_of-positive [] = refl
sum_of-positive ((m, x) ∷ r) = ground (arith, sum_of-positive r)

-- Every fact is positive, and within its bucket together with earlier refunds.
abbrev pub AreFacts : MethodMap → MethodMap → MethodMap → Type 0
AreFacts effective previous facts =
    All (λ f. (0 < f.1) × (amount_of f.0 previous + f.1 ≤ amount_of f.0 effective)) facts

facts_within :
    (effective previous al : MethodMap)
    → any_where (exceeds effective previous) (find_many positive al) ≡ false
    → AreFacts effective previous (find_many positive al)
facts_within effective previous [] h = tt
facts_within effective previous ((m, x) ∷ r) h = elim (Bool-cases (ltb 0 x)) [
  | inl t ↦
      let h' : any_where (exceeds effective previous) ((m, x) ∷ find_many positive r) ≡ false =
        rw t at h in
      rw t ((ground arith, ground arith), facts_within effective previous r (ground arith))
  | inr n ↦ rw n (facts_within effective previous r (rw n at h))
]

check_facts_ok :
    (effective previous : MethodMap) (refund : ℕ) (al facts : MethodMap)
    → check_facts effective previous refund al ≡ ok facts
    → (sum_of facts ≡ refund) × AreFacts effective previous facts
unfolding check_facts
check_facts_ok effective previous refund al facts e =
    elim (Bool-cases (any_where (exceeds effective previous) (find_many positive al))) [
      | inl over ↦ ground arith
      | inr fits ↦
          let same : find_many positive al ≡ facts = ground arith in
          (ground arith, rw same at (facts_within effective previous al fits))
    ]

check_facts-cases :
    (effective previous : MethodMap) (refund : ℕ) (al : MethodMap)
    → check_facts effective previous refund al ≢ err out_of_fuel
unfolding check_facts
check_facts-cases effective previous refund al e = ground arith

module _ (proportion : ℕ → ℕ → ℕ → ℕ) where
  -- An allocation that succeeds adds up to the refund, whatever the rounding of the first pass.
  allocate_conserves :
      (effective previous : MethodMap) (total refund : ℕ) (out : MethodMap)
      → allocate proportion effective previous total refund ≡ ok out
      → sum_of out ≡ refund
  unfolding allocate
  allocate_conserves effective previous total refund out e =
      let shares = first_pass proportion refund total effective [] in
      let rem = refund - sum_of shares in
      elim (Bool-cases (ltb refund (sum_of shares))) [
        | inl over ↦ ground arith
        | inr fits ↦
            let looped : distribute (suc rem) effective previous shares rem ≡ ok out =
              ground arith in
            let whole = (distribute_ok effective previous (suc rem) shares rem out looped).0 in
            let le = ltb_false→le refund (sum_of shares) fits in omega arith
      ]

  allocate_ends :
      (effective previous : MethodMap) (total refund : ℕ)
      → allocate proportion effective previous total refund ≢ err out_of_fuel
  unfolding allocate
  allocate_ends effective previous total refund e =
      let shares = first_pass proportion refund total effective [] in
      let rem = refund - sum_of shares in
      ground (arith, distribute_total effective previous (suc rem) shares rem)

  module _ (sale : SaleContext) (refund_id refund user : ℕ) (s : RefundTables) where
    -- The buckets of the sale, and what earlier refunds took from them.
    abbrev pub effective_of : MethodMap
    effective_of =
        compute_effective_buckets (find_many (is_payment_of sale.id) s.payments) sale.change_amount

    abbrev pub previous_of : MethodMap
    previous_of =
        add_allocations
          (find_many
            (is_allocation_of sale.company
              (find_many (is_refund_of sale.id sale.company) s.refunds))
            s.allocations)
          []

    -- When a refund is allocated, its facts are positive and add up to the refund, which is positive;
    -- no fact is above the effective bucket of its method together with earlier refunds; the buckets
    -- add up to the sale's total; and the rows of the facts, and nothing else, are appended.
    pub create_for_refund_ok :
        (facts : MethodMap)
        → (create_for_refund proportion sale refund_id refund user s).0 ≡ ok facts
        → (0 < refund)
          × (sum_of facts ≡ refund)
          × (sum_of effective_of ≡ sale.total)
          × AreFacts effective_of previous_of facts
          × ((create_for_refund proportion sale refund_id refund user s).1
              ≡ record s { allocations = s.allocations ++ to_rows sale refund_id user facts })
    unfolding create_for_refund
    create_for_refund_ok facts e =
        elim (Result-cases (allocate proportion effective_of previous_of sale.total refund)) [
          | inr (x, bad) ↦ ground (arith, bad)
          | inl (al, good) ↦ elim (Result-cases (check_facts effective_of previous_of refund al)) [
            | inr (x, bad) ↦ ground (arith, good, bad)
            | inl (out, fine) ↦
                let same : out ≡ facts = ground (arith, good, fine) in
                let (total, within) =
                  check_facts_ok effective_of previous_of refund al facts (fine ∙ ap ok same) in
                (
                  ground arith,
                  total,
                  ground (arith, good, fine),
                  within,
                  ground (arith, good, fine),
                )
          ]
        ]

    -- A refusal writes nothing, and the remainder loop never runs out of its fuel.
    pub create_for_refund_err :
        {x : Exception}
        → (create_for_refund proportion sale refund_id refund user s).0 ≡ err x
        → (x ≢ out_of_fuel) × ((create_for_refund proportion sale refund_id refund user s).1 ≡ s)
    unfolding create_for_refund
    create_for_refund_err {x} e =
        elim (Result-cases (allocate proportion effective_of previous_of sale.total refund)) [
          | inr (y, bad) ↦
              let ends = allocate_ends effective_of previous_of sale.total refund in
              let real : y ≢ out_of_fuel = λ q. ends (bad ∙ ap err q) in ground (arith, bad)
          | inl (al, good) ↦ elim (Result-cases (check_facts effective_of previous_of refund al)) [
            | inr (y, bad) ↦
                let ends = check_facts-cases effective_of previous_of refund al in
                let real : y ≢ out_of_fuel = λ q. ends (bad ∙ ap err q) in ground (arith, good, bad)
            | inl (out, fine) ↦ ground (arith, good, fine)
          ]
        ]
