-- ===== src/SalesRefund/Allocation.antt =====
-- `RefundPaymentAllocationService` (backend/src/modules/sales-refund/services/
-- refund-payment-allocation.service.ts): the split of one refund over the payment methods of its
-- sale. Amounts are numbers of 0.0001 units, which is the remainder step; the columns hold none
-- below zero. A `Map` is a list of its entries in insertion order.
pub mod Loop
pub mod Room
pub mod Facts
use stock_flow.Tx.{
  ◌>>◌, ◌>>=◌, throw_if, pure, out_of_fuel, ok, of_result, modify, gets, err, bad_request, Tx,
  Result,
}
use stock_flow.Prelude.{
  ◌++◌, zero, suc, not, find_many, any_where, ◌∷◌, ◌==◌, ◌-◌, ◌+◌, ◌&&◌, ℕ, true, ltb, leb,
  if◌then◌else◌, false, [], List, Bool,
}

pub data PaymentMethod : Type 0 where
  cash card qr bank_transfer mobile_wallet gift_card store_credit : PaymentMethod

abbrev pub method_code : PaymentMethod → ℕ
method_code PaymentMethod.cash = 0
method_code PaymentMethod.card = 1
method_code PaymentMethod.qr = 2
method_code PaymentMethod.bank_transfer = 3
method_code PaymentMethod.mobile_wallet = 4
method_code PaymentMethod.gift_card = 5
method_code PaymentMethod.store_credit = 6

abbrev pub same_method : PaymentMethod → PaymentMethod → Bool
same_method a b = method_code a == method_code b

abbrev pub remainder_distribution_order : List PaymentMethod
remainder_distribution_order =
    PaymentMethod.cash ∷ PaymentMethod.card ∷ PaymentMethod.qr ∷ PaymentMethod.bank_transfer
    ∷ PaymentMethod.mobile_wallet ∷ PaymentMethod.store_credit ∷ PaymentMethod.gift_card ∷ []

abbrev pub MethodMap : Type 0
MethodMap = List (PaymentMethod × ℕ)

-- `map.get(method) ?? ZERO`
abbrev pub amount_of : PaymentMethod → MethodMap → ℕ
amount_of k [] = 0
amount_of k ((m, x) ∷ r) = if same_method m k then x else amount_of k r

abbrev pub has_method : PaymentMethod → MethodMap → Bool
has_method k [] = false
has_method k ((m, x) ∷ r) = if same_method m k then true else has_method k r

-- `map.set(method, amount)`
abbrev pub set_amount : PaymentMethod → ℕ → MethodMap → MethodMap
set_amount k v [] = (k, v) ∷ []
set_amount k v ((m, x) ∷ r) = if same_method m k then (m, v) ∷ r else (m, x) ∷ set_amount k v r

abbrev pub sum_of : MethodMap → ℕ
sum_of [] = 0
sum_of ((_, x) ∷ r) = x + sum_of r

pub record Payment : Type 0 where
  pub sale : ℕ
  pub method : PaymentMethod
  pub amount : ℕ

pub record SalesRefund : Type 0 where
  pub id : ℕ
  pub sale : ℕ
  pub company : ℕ

pub record RefundPaymentAllocation : Type 0 where
  pub company : ℕ
  pub sales_refund : ℕ
  pub method : PaymentMethod
  pub amount : ℕ
  pub currency : ℕ
  pub created_by : ℕ
  pub is_deleted : Bool

pub record RefundTables : Type 0 where
  pub payments : List Payment
  pub refunds : List SalesRefund
  pub allocations : List RefundPaymentAllocation

pub record SaleContext : Type 0 where
  pub id : ℕ
  pub company : ℕ
  pub total : ℕ
  pub change_amount : ℕ
  pub currency : ℕ

abbrev pub add_payments : List Payment → MethodMap → MethodMap
add_payments [] buckets = buckets
add_payments (p ∷ ps) buckets =
    add_payments ps (set_amount p.method (amount_of p.method buckets + p.amount) buckets)

-- Change is paid from the drawer: max(0, cashRaw - changeAmount).
unfoldable pub compute_effective_buckets : List Payment → ℕ → MethodMap
compute_effective_buckets payments change =
    let raw = add_payments payments [] in
    if has_method PaymentMethod.cash raw
    then set_amount PaymentMethod.cash (amount_of PaymentMethod.cash raw - change) raw
    else raw

abbrev pub add_allocations : List RefundPaymentAllocation → MethodMap → MethodMap
add_allocations [] previous = previous
add_allocations (a ∷ as') previous =
    add_allocations as' (set_amount a.method (amount_of a.method previous + a.amount) previous)

-- An allocation of the map is above the bucket of its method.
abbrev pub exceeds : MethodMap → MethodMap → PaymentMethod × ℕ → Bool
exceeds effective base (m, x) = ltb (amount_of m effective) (amount_of m base + x)

-- One method's turn: it takes one step if a remainder is left and its bucket has room.
unfoldable pub take_step : MethodMap → MethodMap → PaymentMethod → MethodMap → ℕ → MethodMap × ℕ
take_step effective previous m allocations remainder =
    let current = amount_of m allocations in
    let capacity = amount_of m effective - amount_of m previous - current in
    if leb 1 remainder && leb 1 capacity
    then (set_amount m (current + 1) allocations, remainder - 1)
    else (allocations, remainder)

-- One round of the remainder distribution over the methods left in the order.
unfoldable pub cycle : MethodMap → MethodMap → List PaymentMethod → MethodMap → ℕ → MethodMap × ℕ
unfolding take_step
cycle effective previous [] allocations remainder = (allocations, remainder)
cycle effective previous (m ∷ ms) allocations remainder =
    let (allocations', remainder') = take_step effective previous m allocations remainder in
    cycle effective previous ms allocations' remainder'

-- The `while` loop: a round that takes nothing is refused.
unfoldable pub distribute : ℕ → MethodMap → MethodMap → MethodMap → ℕ → Result MethodMap
unfolding cycle
distribute zero effective previous allocations remainder = err out_of_fuel
distribute (suc fuel) effective previous allocations remainder =
    let (allocations', remainder') =
      cycle effective previous remainder_distribution_order allocations remainder in
    let rest = distribute fuel effective previous allocations' remainder' in
    if remainder == 0
    then ok allocations
    else (if remainder' == remainder then err bad_request else rest)

abbrev pub is_refund_of : ℕ → ℕ → SalesRefund → Bool
is_refund_of sale company r = r.sale == sale && r.company == company

abbrev pub is_allocation_of : ℕ → List SalesRefund → RefundPaymentAllocation → Bool
is_allocation_of company refunds a =
    a.company == company && any_where (λ r. r.id == a.sales_refund) refunds && not a.is_deleted

abbrev pub is_payment_of : ℕ → Payment → Bool
is_payment_of sale p = p.sale == sale

abbrev pub positive : PaymentMethod × ℕ → Bool
positive (m, x) = ltb 0 x

abbrev pub to_rows : SaleContext → ℕ → ℕ → MethodMap → List RefundPaymentAllocation
to_rows sale refund user [] = []
to_rows sale refund user ((m, x) ∷ r) =
    record {
      company = sale.company;
      sales_refund = refund;
      method = m;
      amount = x;
      currency = sale.currency;
      created_by = user;
      is_deleted = false;
    }
    ∷ to_rows sale refund user r

-- Step 7: the facts, checked once more.
unfoldable pub check_facts : MethodMap → MethodMap → ℕ → MethodMap → Result MethodMap
check_facts effective previous refund allocations =
    let facts = find_many positive allocations in
    if not (sum_of facts == refund)
    then err bad_request
    else (if any_where (exceeds effective previous) facts then err bad_request else ok facts)

-- `proportion refundTotal bucket saleTotal` is refundTotal.mul(bucket).div(saleTotal), rounded down to
-- four decimals by decimal.js.
module _ (proportion : ℕ → ℕ → ℕ → ℕ) where
  abbrev pub first_pass : ℕ → ℕ → MethodMap → MethodMap → MethodMap
  first_pass refund total [] allocations = allocations
  first_pass refund total ((m, bucket) ∷ r) allocations =
      let share = proportion refund bucket total in
      first_pass refund total r
        (if ltb 0 share then set_amount m share allocations else allocations)

  -- The arithmetic part: buckets, previous allocations and totals to the facts, or a refusal.
  unfoldable pub allocate : MethodMap → MethodMap → ℕ → ℕ → Result MethodMap
  unfolding distribute
  allocate effective previous total refund =
      let shares = first_pass refund total effective [] in
      let remainder = refund - sum_of shares in
      if ltb refund (sum_of shares)
      then err bad_request
      else distribute (suc remainder) effective previous shares remainder

  unfoldable pub create_for_refund : SaleContext → ℕ → ℕ → ℕ → Tx RefundTables MethodMap
  unfolding compute_effective_buckets allocate check_facts
  create_for_refund sale refund_id refund user = do
    throw_if (refund == 0) bad_request
    payments ← gets λ s. find_many (is_payment_of sale.id) s.payments
    let effective = compute_effective_buckets payments sale.change_amount
    throw_if (sale.total == 0) bad_request
    throw_if (not (sum_of effective == sale.total)) bad_request
    refunds ← gets λ s. find_many (is_refund_of sale.id sale.company) s.refunds
    rows ← gets λ s. find_many (is_allocation_of sale.company refunds) s.allocations
    let previous = add_allocations rows []
    throw_if (any_where (exceeds effective []) previous) bad_request
    allocations ← of_result (allocate effective previous sale.total refund)
    facts ← of_result (check_facts effective previous refund allocations)
    modify λ s. record s { allocations = s.allocations ++ to_rows sale refund_id user facts }
    pure facts
