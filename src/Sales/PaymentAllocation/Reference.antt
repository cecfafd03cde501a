-- ===== src/Sales/PaymentAllocation/Reference.antt =====
-- The allocation against its specification: a bucket is the sum of the payments of its method.
use stock_flow.Tx.{ok, err, bad_request}
use stock_flow.Sales.PaymentAllocation.{
  shift_sales_total, no_sales, allocate_shift_sales, allocate_from, ShiftSalesAllocation,
  ShiftPayment, ShiftMethod,
}
use stock_flow.Prelude.{
  ◌∙◌, refl, inr, inl, Bool-cases, ◌≡◌, ◌∷◌, ◌||◌, ◌==◌, ℕ, if◌then◌else◌, false, arith, [], List,
  Bool,
}
use stock_flow.Prelude.Int.{int_laws, +ℤ_assoc, ◌+ℤ◌, ℤ, pos, +ℤ-zero}

abbrev pub method_code : ShiftMethod → ℕ
method_code ShiftMethod.cash = 0
method_code ShiftMethod.card = 1
method_code ShiftMethod.qr = 2
method_code ShiftMethod.bank_transfer = 3
method_code ShiftMethod.mobile_wallet = 4
method_code (ShiftMethod.unsupported _) = 5

-- The sum of the payments whose method has the code k.
abbrev pub paid_by : ℕ → List ShiftPayment → ℤ
paid_by k [] = pos 0
paid_by k (p ∷ ps) = if method_code p.method == k then p.amount +ℤ paid_by k ps else paid_by k ps

abbrev pub all_paid : List ShiftPayment → ℤ
all_paid [] = pos 0
all_paid (p ∷ ps) = p.amount +ℤ all_paid ps

abbrev pub has_unsupported : List ShiftPayment → Bool
has_unsupported [] = false
has_unsupported (p ∷ ps) = method_code p.method == 5 || has_unsupported ps

-- The buckets with the sums by method added.
abbrev pub buckets_from : ShiftSalesAllocation → List ShiftPayment → ShiftSalesAllocation
buckets_from a ps = record {
  cash = a.cash +ℤ paid_by 0 ps;
  card = a.card +ℤ paid_by 1 ps;
  qr = a.qr +ℤ paid_by 2 ps;
  bank_transfer = a.bank_transfer +ℤ paid_by 3 ps;
  mobile_wallet = a.mobile_wallet +ℤ paid_by 4 ps;
}

-- Every payment in order, from any buckets so far.
allocate_from_lem :
    (ps : List ShiftPayment) (a : ShiftSalesAllocation)
    → allocate_from ps a ≡ (if has_unsupported ps then err bad_request else ok (buckets_from a ps))
unfolding allocate_from
allocate_from_lem [] a =
    rw
      (
        +ℤ-zero a.cash,
        +ℤ-zero a.card,
        +ℤ-zero a.qr,
        +ℤ-zero a.bank_transfer,
        +ℤ-zero a.mobile_wallet,
      )
      refl
allocate_from_lem (p ∷ ps) a = step p.method p.amount (λ a'. allocate_from_lem ps a')
  where
    step :
        (m : ShiftMethod) (x : ℤ)
        → ((a' : ShiftSalesAllocation)
            → allocate_from ps a'
              ≡ (if has_unsupported ps then err bad_request else ok (buckets_from a' ps)))
        → allocate_from (record { method = m; amount = x } ∷ ps) a ≡ (
            if has_unsupported (record { method = m; amount = x } ∷ ps)
            then err bad_request
            else ok (buckets_from a (record { method = m; amount = x } ∷ ps)))
    step ShiftMethod.cash x ih = ih _ ∙ rw (+ℤ_assoc a.cash x (paid_by 0 ps)) refl
    step ShiftMethod.card x ih = ih _ ∙ rw (+ℤ_assoc a.card x (paid_by 1 ps)) refl
    step ShiftMethod.qr x ih = ih _ ∙ rw (+ℤ_assoc a.qr x (paid_by 2 ps)) refl
    step ShiftMethod.bank_transfer x ih = ih _ ∙ rw (+ℤ_assoc a.bank_transfer x (paid_by 3 ps)) refl
    step ShiftMethod.mobile_wallet x ih = ih _ ∙ rw (+ℤ_assoc a.mobile_wallet x (paid_by 4 ps)) refl
    step (ShiftMethod.unsupported k) x ih = refl

-- The allocation is refused exactly when some payment has a method without a bucket, and otherwise
-- each bucket is the sum of the payments of its method.
pub allocate_shift_sales_lem :
    (ps : List ShiftPayment)
    → allocate_shift_sales ps
      ≡ (if has_unsupported ps then err bad_request else ok (buckets_from no_sales ps))
unfolding allocate_shift_sales
allocate_shift_sales_lem ps = allocate_from_lem ps no_sales

all_paid-by_method :
    (ps : List ShiftPayment)
    → has_unsupported ps ≡ false
    → paid_by 0 ps +ℤ paid_by 1 ps +ℤ paid_by 2 ps +ℤ paid_by 3 ps +ℤ paid_by 4 ps ≡ all_paid ps
all_paid-by_method [] h = omega int_laws
all_paid-by_method (p ∷ ps) h = step p.method p.amount h (all_paid-by_method ps)
  where
    step :
        (m : ShiftMethod) (x : ℤ)
        → has_unsupported (record { method = m; amount = x } ∷ ps) ≡ false
        → (has_unsupported ps ≡ false
            → paid_by 0 ps +ℤ paid_by 1 ps +ℤ paid_by 2 ps +ℤ paid_by 3 ps +ℤ paid_by 4 ps
              ≡ all_paid ps)
        → let qs = record { method = m; amount = x } ∷ ps in
          paid_by 0 qs +ℤ paid_by 1 qs +ℤ paid_by 2 qs +ℤ paid_by 3 qs +ℤ paid_by 4 qs ≡ all_paid qs
    step ShiftMethod.cash x h ih = rw (← ih h) (omega int_laws)
    step ShiftMethod.card x h ih = rw (← ih h) (omega int_laws)
    step ShiftMethod.qr x h ih = rw (← ih h) (omega int_laws)
    step ShiftMethod.bank_transfer x h ih = rw (← ih h) (omega int_laws)
    step ShiftMethod.mobile_wallet x h ih = rw (← ih h) (omega int_laws)
    step (ShiftMethod.unsupported k) x h ih = cc

-- The shift invariant: when the payments are allocated, the five buckets add up to all that was
-- paid.
pub shift_sales_total_conserves :
    (ps : List ShiftPayment) {a : ShiftSalesAllocation}
    → allocate_shift_sales ps ≡ ok a
    → shift_sales_total a ≡ all_paid ps
unfolding shift_sales_total
shift_sales_total_conserves ps {a} e = elim (Bool-cases (has_unsupported ps)) [
  | inl bad ↦ ground (arith, allocate_shift_sales_lem ps)
  | inr good ↦
      let same : buckets_from no_sales ps ≡ a = ground (arith, allocate_shift_sales_lem ps) in
      rw (← same, ← all_paid-by_method ps good) (omega int_laws)
]
