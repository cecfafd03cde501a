-- ===== src/SalesRefund/Allocation/Loop.antt =====
-- The remainder distribution: it ends, it conserves, and it respects the buckets.
use stock_flow.Tx.{bad_request, out_of_fuel, ok, err}
use stock_flow.SalesRefund.Allocation.{
  take_step, sum_of, set_amount, same_method, remainder_distribution_order, distribute, cycle,
  amount_of, PaymentMethod, MethodMap,
}
use stock_flow.Prelude.{
  ◌∙◌, ◌==◌, ◌≤◌, ◌≢◌, ◌≡◌, ◌∷◌, ◌<◌, ◌+◌, ℕ, zero, true, suc, refl, inr, inl, if◌then◌else◌, arith,
  [], List, Bool-cases,
}

pub amount_of-set_amount :
    (k m : PaymentMethod) (v : ℕ) (al : MethodMap)
    → amount_of k (set_amount m v al) ≡ (if same_method m k then v else amount_of k al)
amount_of-set_amount k m v [] = refl
amount_of-set_amount k m v ((n, x) ∷ r) = ground (arith, amount_of-set_amount k m v r)

pub sum_of-set_amount :
    (m : PaymentMethod) (v : ℕ) (al : MethodMap)
    → sum_of (set_amount m v al) + amount_of m al ≡ sum_of al + v
sum_of-set_amount m v [] = omega arith
sum_of-set_amount m v ((n, x) ∷ r) = ground (arith, sum_of-set_amount m v r)

pub same_method-eq : (a b : PaymentMethod) → same_method a b ≡ true → a ≡ b
same_method-eq a b e = ground arith

module _ (effective previous : MethodMap) where
  -- No method holds more than its bucket, earlier refunds included.
  abbrev pub IsWithin : MethodMap → Type 0
  IsWithin al = (k : PaymentMethod) → amount_of k previous + amount_of k al ≤ amount_of k effective

  pub take_step_conserves :
      (m : PaymentMethod) (al : MethodMap) (rem : ℕ)
      → let (al', rem') = take_step effective previous m al rem in
        (sum_of al' + rem' ≡ sum_of al + rem) × (rem' ≤ rem)
  unfolding take_step
  take_step_conserves m al rem = ground (arith, sum_of-set_amount m (amount_of m al + 1) al)

  pub cycle_conserves :
      (ms : List PaymentMethod) (al : MethodMap) (rem : ℕ)
      → let (al', rem') = cycle effective previous ms al rem in
        (sum_of al' + rem' ≡ sum_of al + rem) × (rem' ≤ rem)
  unfolding cycle
  cycle_conserves [] al rem = (refl, omega arith)
  cycle_conserves (m ∷ ms) al rem =
      let (al', rem') = take_step effective previous m al rem in
      let (whole, less) = cycle_conserves ms al' rem' in
      let (whole', less') = take_step_conserves m al rem in (whole ∙ whole', omega arith)

  take_step-IsWithin :
      (m : PaymentMethod) (al : MethodMap) (rem : ℕ)
      → IsWithin al
      → IsWithin (take_step effective previous m al rem).0
  unfolding take_step
  take_step-IsWithin m al rem h k = elim (Bool-cases (same_method m k)) [
    | inl t ↦
        let same = same_method-eq m k t in
        rw (← same)
          (ground (arith, h m, amount_of-set_amount m m (amount_of m al + 1) al, rw (← same) at t))
    | inr n ↦ ground (arith, h k, amount_of-set_amount k m (amount_of m al + 1) al)
  ]

  pub cycle-IsWithin :
      (ms : List PaymentMethod) (al : MethodMap) (rem : ℕ)
      → IsWithin al
      → IsWithin (cycle effective previous ms al rem).0
  unfolding cycle
  cycle-IsWithin [] al rem h = h
  cycle-IsWithin (m ∷ ms) al rem h =
      let (al', rem') = take_step effective previous m al rem in
      cycle-IsWithin ms al' rem' (take_step-IsWithin m al rem h)

  -- One turn of the `while` loop, with the round as a value.
  pub distribute_step :
      (fuel : ℕ) (al : MethodMap) (rem : ℕ)
      → let (al', rem') = cycle effective previous remainder_distribution_order al rem in
        distribute (suc fuel) effective previous al rem ≡ (
          if rem == 0
          then ok al
          else (if rem' == rem
              then err bad_request
              else distribute fuel effective previous al' rem'))
  unfolding distribute
  distribute_step fuel al rem = refl

  pub distribute_zero :
      (al : MethodMap) (rem : ℕ) → distribute 0 effective previous al rem ≡ err out_of_fuel
  unfolding distribute
  distribute_zero al rem = refl

  -- With more fuel than remainder the loop does not run out of fuel.
  pub distribute_total :
      (fuel : ℕ) (al : MethodMap) (rem : ℕ)
      → rem < fuel
      → distribute fuel effective previous al rem ≢ err out_of_fuel
  distribute_total zero al rem h = absurd (omega arith)
  distribute_total (suc fuel) al rem h =
      let (al', rem') = cycle effective previous remainder_distribution_order al rem in
      ground (
        arith,
        distribute_step fuel al rem,
        cycle_conserves remainder_distribution_order al rem,
        distribute_total fuel al' rem',
      )

  -- What the loop returns holds what was allocated before and all of the remainder, and stays within
  -- the buckets if it was.
  pub distribute_ok :
      (fuel : ℕ) (al : MethodMap) (rem : ℕ) (out : MethodMap)
      → distribute fuel effective previous al rem ≡ ok out
      → (sum_of out ≡ sum_of al + rem) × (IsWithin al → IsWithin out)
  distribute_ok zero al rem out e = ground (arith, distribute_zero al rem)
  distribute_ok (suc fuel) al rem out e =
      let (al', rem') = cycle effective previous remainder_distribution_order al rem in
      let whole = cycle_conserves remainder_distribution_order al rem in
      elim (Bool-cases (rem == 0)) [
        | inl done ↦
            let same : al ≡ out = ground (arith, distribute_step fuel al rem) in
            rw (← same) (ground arith, λ h. h)
        | inr more ↦
            let next : distribute fuel effective previous al' rem' ≡ ok out =
              ground (arith, distribute_step fuel al rem) in
            let (total, within) = distribute_ok fuel al' rem' out next in
            (total ∙ whole.0, λ h. within (cycle-IsWithin remainder_distribution_order al rem h))
      ]
