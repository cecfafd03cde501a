-- ===== src/SalesRefund/Allocation/Room.antt =====
-- The remainder distribution succeeds exactly when the buckets have room for the remainder.
use stock_flow.Tx.{ok, err, bad_request}
use stock_flow.SalesRefund.Allocation.Loop.{
  distribute_ok, IsWithin, take_step_conserves, distribute_zero, distribute_step, cycle_conserves,
  same_method-eq, amount_of-set_amount,
}
use stock_flow.SalesRefund.Allocation.{
  sum_of, take_step, distribute, cycle, set_amount, same_method, remainder_distribution_order,
  amount_of, PaymentMethod, MethodMap,
}
use stock_flow.Prelude.{
  ◌⊎◌, ◌∙◌, ◌==◌, ◌<◌, ◌&&◌, zero, sym, suc, leb, ◌≤◌, ◌≡◌, ◌∷◌, ◌-◌, ◌+◌, ℕ, refl, inr, inl,
  if◌then◌else◌, arith, [], List, Bool-cases,
}

module _ (effective previous : MethodMap) where
  abbrev pub capacity_of : MethodMap → PaymentMethod → ℕ
  capacity_of al m = amount_of m effective - amount_of m previous - amount_of m al

  -- The room that is left over the methods of a list.
  abbrev pub room_over : List PaymentMethod → MethodMap → ℕ
  room_over [] al = 0
  room_over (m ∷ ms) al = capacity_of al m + room_over ms al

  abbrev pub room : MethodMap → ℕ
  room = room_over remainder_distribution_order

  capacity_of-set :
      (m k : PaymentMethod) (al : MethodMap)
      → capacity_of (set_amount m (amount_of m al + 1) al) k
        ≡ (if same_method m k then capacity_of al m - 1 else capacity_of al k)
  capacity_of-set m k al = elim (Bool-cases (same_method m k)) [
    | inl t ↦
        let same = same_method-eq m k t in
        rw (amount_of-set_amount k m (amount_of m al + 1) al, t, ← same) (omega arith)
    | inr n ↦ rw (amount_of-set_amount k m (amount_of m al + 1) al, n) refl
  ]

  -- A step takes one unit of room.
  room-set :
      (m : PaymentMethod) (al : MethodMap)
      → 1 ≤ capacity_of al m
      → room (set_amount m (amount_of m al + 1) al) + 1 ≡ room al
  room-set PaymentMethod.cash al h = simp (capacity_of-set PaymentMethod.cash) (omega arith)
  room-set m al h = simp (capacity_of-set m) (omega arith)

  -- One method's turn takes as much room as remainder, and takes nothing only where there is none.
  take_step-room :
      (m : PaymentMethod) (al : MethodMap) (rem : ℕ)
      → let (al', rem') = take_step effective previous m al rem in
        (room al' + rem ≡ room al + rem')
        × (1 ≤ rem → rem' ≡ rem → (al' ≡ al) × (capacity_of al m ≡ 0))
  unfolding take_step
  take_step-room m al rem = elim (Bool-cases (leb 1 rem && leb 1 (capacity_of al m))) [
    | inl t ↦
        let fits : 1 ≤ capacity_of al m = ground arith in
        let some_left : 1 ≤ rem = ground arith in
        let taken = room-set m al fits in rw t (omega arith, λ _ e. absurd (omega arith))
    | inr n ↦ rw n (refl, λ h _. (refl, ground arith))
  ]

  cycle-room :
      (ms : List PaymentMethod) (al : MethodMap) (rem : ℕ)
      → let (al', rem') = cycle effective previous ms al rem in room al' + rem ≡ room al + rem'
  unfolding cycle
  cycle-room [] al rem = refl
  cycle-room (m ∷ ms) al rem =
      let (al', rem') = take_step effective previous m al rem in
      let now = (take_step-room m al rem).0 in let later = cycle-room ms al' rem' in omega arith

  -- A round that takes nothing has met no room.
  cycle_stuck :
      (ms : List PaymentMethod) (al : MethodMap) (rem : ℕ)
      → 1 ≤ rem
      → (cycle effective previous ms al rem).1 ≡ rem
      → room_over ms al ≡ 0
  unfolding cycle
  cycle_stuck [] al rem h e = refl
  cycle_stuck (m ∷ ms) al rem h e =
      let (al', rem') = take_step effective previous m al rem in
      let less = (cycle_conserves effective previous ms al' rem').1 in
      let less' = (take_step_conserves effective previous m al rem).1 in
      let same : rem' ≡ rem = omega arith in
      let (kept, none_here) = (take_step-room m al rem).1 h same in
      let later = cycle_stuck ms al' rem' (omega arith) (e ∙ sym same) in
      let rest : room_over ms al ≡ 0 = rw kept at later in omega arith

  refused-room :
      (fuel : ℕ) (al : MethodMap) (rem : ℕ)
      → distribute fuel effective previous al rem ≡ err bad_request
      → room al < rem
  refused-room zero al rem e = ground (arith, distribute_zero effective previous al rem)
  refused-room (suc fuel) al rem e =
      let (al', rem') = cycle effective previous remainder_distribution_order al rem in
      let step = distribute_step effective previous fuel al rem in
      elim (Bool-cases (rem == 0)) [
        | inl done ↦ ground arith
        | inr more ↦ elim (Bool-cases (rem' == rem)) [
          | inl halt ↦
              let empty =
                cycle_stuck remainder_distribution_order al rem (ground arith) (ground arith) in
              ground arith
          | inr moved ↦
              let next : distribute fuel effective previous al' rem' ≡ err bad_request =
                ground arith in
              let less = refused-room fuel al' rem' next in
              let taken = cycle-room remainder_distribution_order al rem in omega arith
        ]
      ]

  ok-room :
      (fuel : ℕ) (al : MethodMap) (rem : ℕ) (out : MethodMap)
      → distribute fuel effective previous al rem ≡ ok out
      → rem ≤ room al
  ok-room zero al rem out e = ground (arith, distribute_zero effective previous al rem)
  ok-room (suc fuel) al rem out e =
      let (al', rem') = cycle effective previous remainder_distribution_order al rem in
      let step = distribute_step effective previous fuel al rem in
      elim (Bool-cases (rem == 0)) [
        | inl done ↦ ground arith
        | inr more ↦
            let next : distribute fuel effective previous al' rem' ≡ ok out = ground arith in
            let less = ok-room fuel al' rem' out next in
            let taken = cycle-room remainder_distribution_order al rem in omega arith
      ]

  distribute-cases :
      (fuel : ℕ) (al : MethodMap) (rem : ℕ)
      → rem < fuel
      → ((out : MethodMap) × (distribute fuel effective previous al rem ≡ ok out))
        ⊎ (distribute fuel effective previous al rem ≡ err bad_request)
  distribute-cases zero al rem h = absurd (omega arith)
  distribute-cases (suc fuel) al rem h =
      let (al', rem') = cycle effective previous remainder_distribution_order al rem in
      let step = distribute_step effective previous fuel al rem in
      let less = (cycle_conserves effective previous remainder_distribution_order al rem).1 in
      elim (Bool-cases (rem == 0)) [
        | inl done ↦ inl (al, ground arith)
        | inr more ↦ elim (Bool-cases (rem' == rem)) [
          | inl halt ↦ inr (ground arith)
          | inr moved ↦ elim (distribute-cases fuel al' rem' (ground arith)) [
            | inl (out, good) ↦ inl (out, ground (arith, good))
            | inr bad ↦ inr (ground (arith, bad))
          ]
        ]
      ]

  -- With more fuel than remainder, where the buckets have room for the remainder (counted over all
  -- methods, less what is allocated before and now) and no method is above its bucket, the loop
  -- succeeds: its result holds all that was allocated and the whole remainder, and no method is above
  -- its bucket.
  pub distribute_fits :
      (fuel : ℕ) (al : MethodMap) (rem : ℕ)
      → rem < fuel
      → rem ≤ room al
      → IsWithin effective previous al
      → (out : MethodMap) × (distribute fuel effective previous al rem ≡ ok out)
        × (sum_of out ≡ sum_of al + rem)
        × IsWithin effective previous out
  distribute_fits fuel al rem h fits start = elim (distribute-cases fuel al rem h) [
    | inl (out, good) ↦
        let (total, within) = distribute_ok effective previous fuel al rem out good in
        (out, good, total, within start)
    | inr bad ↦ let short = refused-room fuel al rem bad in absurd (omega arith)
  ]

  -- With more fuel than remainder, where the buckets have less room than the remainder, the loop ends
  -- and refuses with a bad request.
  pub distribute_short :
      (fuel : ℕ) (al : MethodMap) (rem : ℕ)
      → rem < fuel
      → room al < rem
      → distribute fuel effective previous al rem ≡ err bad_request
  distribute_short fuel al rem h short = elim (distribute-cases fuel al rem h) [
    | inl (out, good) ↦ let fits = ok-room fuel al rem out good in absurd (omega arith)
    | inr bad ↦ bad
  ]
