-- ===== src/Tests/Payments.antt =====
-- Shift buckets and refund allocations at concrete payments.
use stock_flow.Prelude.Int.{◌+ℤ◌, pos}
use stock_flow.SalesRefund.Allocation.Room.{distribute_short, distribute_fits}
use stock_flow.Tx.{out_of_fuel, ok, err, bad_request}
use stock_flow.Sales.PaymentAllocation.Reference.{
  shift_sales_total_conserves, buckets_from, allocate_shift_sales_lem, all_paid,
}
use stock_flow.Sales.PaymentAllocation.{
  shift_sales_total, no_sales, allocate_shift_sales, ShiftSalesAllocation, ShiftPayment,
  ShiftMethod,
}
use stock_flow.SalesRefund.Allocation.{
  to_rows, sum_of, distribute, create_for_refund, SaleContext, RefundTables, PaymentMethod,
  MethodMap,
}
use stock_flow.Prelude.{◌≢◌, ◌≡◌, ◌∷◌, ◌<◌, ◌/◌, ◌+◌, ◌*◌, ℕ, refl, arith, [], List}
use stock_flow.SalesRefund.Allocation.Loop.{IsWithin}
use stock_flow.SalesRefund.Allocation.Facts.{
  previous_of, effective_of, create_for_refund_ok, create_for_refund_err, AreFacts,
}

abbrev till : List ShiftPayment
till =
    record { method = ShiftMethod.cash; amount = pos 500 }
    ∷ record { method = ShiftMethod.qr; amount = pos 70 }
    ∷ record { method = ShiftMethod.cash; amount = pos 30 }
    ∷ []

abbrev till_buckets : ShiftSalesAllocation
till_buckets = record {
  cash = pos 530;
  card = pos 0;
  qr = pos 70;
  bank_transfer = pos 0;
  mobile_wallet = pos 0;
}

till_runs : allocate_shift_sales till ≡ ok till_buckets
unfolding allocate_shift_sales ◌+ℤ◌
till_runs = refl

gift_card_refused :
    allocate_shift_sales (record { method = ShiftMethod.unsupported 4; amount = pos 1 } ∷ till)
    ≡ err bad_request
gift_card_refused =
    allocate_shift_sales_lem (record { method = ShiftMethod.unsupported 4; amount = pos 1 } ∷ till)

allocate_shift_sales_lem_example : allocate_shift_sales till ≡ ok (buckets_from no_sales till)
allocate_shift_sales_lem_example = allocate_shift_sales_lem till

shift_sales_total_conserves_example : shift_sales_total till_buckets ≡ all_paid till
shift_sales_total_conserves_example = shift_sales_total_conserves till till_runs

-- refundTotal * bucket / saleTotal, rounded down
abbrev floor_share : ℕ → ℕ → ℕ → ℕ
floor_share refund bucket total = refund * bucket / total

abbrev sold : SaleContext
sold = record { id = 4; company = 7; total = 1000; change_amount = 200; currency = 1 }

abbrev paid : RefundTables
paid = record {
  payments =
      record { sale = 4; method = PaymentMethod.cash; amount = 533 }
      ∷ record { sale = 5; method = PaymentMethod.card; amount = 9 }
      ∷ record { sale = 4; method = PaymentMethod.card; amount = 667 }
      ∷ [];
  refunds = record { id = 40; sale = 4; company = 7 } ∷ [];
  allocations = [];
}

abbrev shares_of_100 : MethodMap
shares_of_100 = (PaymentMethod.cash, 34) ∷ (PaymentMethod.card, 66) ∷ []

refund_runs : (create_for_refund floor_share sold 40 100 9 paid).0 ≡ ok shares_of_100
unfolding create_for_refund
refund_runs = refl

create_for_refund_ok_example :
    (0 < 100)
    × (sum_of shares_of_100 ≡ 100)
    × (sum_of (effective_of floor_share sold 40 100 9 paid) ≡ 1000)
    × AreFacts
        (effective_of floor_share sold 40 100 9 paid)
        (previous_of floor_share sold 40 100 9 paid)
        shares_of_100
    × ((create_for_refund floor_share sold 40 100 9 paid).1
        ≡ record paid { allocations = to_rows sold 40 9 shares_of_100 })
create_for_refund_ok_example =
    create_for_refund_ok floor_share sold 40 100 9 paid shares_of_100 refund_runs

too_much : (create_for_refund floor_share sold 40 1001 9 paid).0 ≡ err bad_request
unfolding create_for_refund
too_much = refl

create_for_refund_err_example :
    (bad_request ≢ out_of_fuel) × ((create_for_refund floor_share sold 40 1001 9 paid).1 ≡ paid)
create_for_refund_err_example = create_for_refund_err floor_share sold 40 1001 9 paid too_much

abbrev two_buckets : MethodMap
two_buckets = (PaymentMethod.cash, 5) ∷ (PaymentMethod.card, 3) ∷ []

two_paid-IsWithin : IsWithin two_buckets [] ((PaymentMethod.cash, 2) ∷ [])
two_paid-IsWithin PaymentMethod.cash = omega arith
two_paid-IsWithin m = omega arith

distribute_fits_example :
    (out : MethodMap) × (distribute 5 two_buckets [] ((PaymentMethod.cash, 2) ∷ []) 4 ≡ ok out)
    × (sum_of out ≡ 2 + 4)
    × IsWithin two_buckets [] out
distribute_fits_example =
    distribute_fits two_buckets [] 5 ((PaymentMethod.cash, 2) ∷ []) 4 (omega arith) (omega arith)
      two_paid-IsWithin

distribute_short_example :
    distribute 9 two_buckets [] ((PaymentMethod.cash, 2) ∷ []) 8 ≡ err bad_request
distribute_short_example =
    distribute_short two_buckets [] 9 ((PaymentMethod.cash, 2) ∷ []) 8 (omega arith) (omega arith)
