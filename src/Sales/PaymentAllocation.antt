-- ===== src/Sales/PaymentAllocation.antt =====
-- `allocateShiftSales` and `shiftSalesTotal` (backend/src/modules/sales/services/payment-allocation.ts).
-- Amounts are integers in units of 0.0001.
use stock_flow.Prelude.Int.{◌+ℤ◌, ℤ, pos}
use stock_flow.Tx.{ok, err, bad_request, Result}
use stock_flow.Prelude.{◌∷◌, ℕ, [], List}
pub mod Reference

-- The methods with a bucket of their own; any other text is a method without one.
pub data ShiftMethod : Type 0 where
  cash card qr bank_transfer mobile_wallet : ShiftMethod
  unsupported : ℕ → ShiftMethod

pub record ShiftPayment : Type 0 where
  pub method : ShiftMethod
  pub amount : ℤ

pub record ShiftSalesAllocation : Type 0 where
  pub cash : ℤ
  pub card : ℤ
  pub qr : ℤ
  pub bank_transfer : ℤ
  pub mobile_wallet : ℤ

abbrev pub no_sales : ShiftSalesAllocation
no_sales = record {
  cash = pos 0;
  card = pos 0;
  qr = pos 0;
  bank_transfer = pos 0;
  mobile_wallet = pos 0;
}

-- The `switch` of the loop.
abbrev pub add_to_bucket : ShiftMethod → ℤ → ShiftSalesAllocation → Result ShiftSalesAllocation
add_to_bucket ShiftMethod.cash x a = ok (record a { cash = a.cash +ℤ x })
add_to_bucket ShiftMethod.card x a = ok (record a { card = a.card +ℤ x })
add_to_bucket ShiftMethod.qr x a = ok (record a { qr = a.qr +ℤ x })
add_to_bucket ShiftMethod.bank_transfer x a = ok (record a { bank_transfer = a.bank_transfer +ℤ x })
add_to_bucket ShiftMethod.mobile_wallet x a = ok (record a { mobile_wallet = a.mobile_wallet +ℤ x })
add_to_bucket (ShiftMethod.unsupported _) x a = err bad_request

-- The loop over the payments, with the buckets so far.
unfoldable pub allocate_from :
    List ShiftPayment → ShiftSalesAllocation → Result ShiftSalesAllocation
allocate_from [] a = ok a
allocate_from (p ∷ ps) a = elim (add_to_bucket p.method p.amount a) [
  | err e ↦ err e
  | ok a' ↦ allocate_from ps a'
]

unfoldable pub allocate_shift_sales : List ShiftPayment → Result ShiftSalesAllocation
unfolding allocate_from
allocate_shift_sales payments = allocate_from payments no_sales

unfoldable pub shift_sales_total : ShiftSalesAllocation → ℤ
shift_sales_total a = a.cash +ℤ a.card +ℤ a.qr +ℤ a.bank_transfer +ℤ a.mobile_wallet
