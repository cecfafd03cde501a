-- ===== src/Tests/Payables.antt =====
-- Payments to suppliers at concrete tables: an invoice of 1000 of the supplier 5 in the company 3.
use stock_flow.Suppliers.Coverage.Writes.{with_payment-IsCovered, with_payment, with_allocation}
use stock_flow.Finance.PostingValidation.{validate}
use stock_flow.Finance.GlEngine.{next_number, execute_post}
use stock_flow.Suppliers.Allocations.Covered.{create_allocation-IsCovered}
use stock_flow.Suppliers.Voiding.{
  invoice_to_restore, withdraw_payment, void_payment, soft_delete_payment, restore_invoice,
  prepare_void, apply_void,
}
use stock_flow.Suppliers.Allocations.{
  create_allocation, check_room, apply_create_allocation, allocation_row,
}
use stock_flow.Suppliers.Voiding.Voided.{void_payment_ok, void_once, IsVoided}
use stock_flow.Suppliers.Payments.Created.{
  create_payment-IsSettled, apply_create_payment_ok, IsPaid,
}
use stock_flow.Suppliers.Coverage.{IsCovered}
use stock_flow.Prelude.Int.{◌≤ℤ◌, ◌-ℤ◌, ◌+ℤ◌, ℤ, pos}
use stock_flow.Tx.{transaction, not_found, err, bad_request, ok}
use stock_flow.Suppliers.Payments.{
  record_payment, prepare_payment, post_entry, create_payment, payment_row, apply_create_payment,
}
use stock_flow.Finance.GlEngine.Balances.{amount}
use stock_flow.Idempotency.{Store}
use stock_flow.SalesRefund.Allocation.{PaymentMethod}
use stock_flow.Suppliers.Tables.{
  sum_allocated_by_payment, soft_delete_by_payment, on_ledger, is_supplier_payment, is_live_invoice,
  insert_payment, insert_allocation, SupplierPaymentAllocation, SupplierPayment,
  PurchaseInvoiceStatus, PurchaseInvoice, Payables,
}
use stock_flow.Suppliers.Settled.{IsSettled}
use stock_flow.Suppliers.Checks.{
  write_invoice, resolve_accounts, cover_invoice, check_invoice, AccountPair,
  CreateSupplierPaymentDto,
}
use stock_flow.Finance.Tables.{FinancialPeriod, open_period, Ledger, AccountType}
use stock_flow.Prelude.{
  map, find_first-All, find_first, ◌≡◌, ◌∷◌, true, some, refl, none, false, arith, [], Option, ℕ,
}

abbrev pub july : FinancialPeriod
july = record {
  id = 4;
  company = 3;
  year = 2026;
  month = 7;
  status = open_period;
  start_date = 100;
  end_date = 200;
  opened_by = none;
  closed_by = none;
  closed_at = none;
  notes = none;
  row_version = 0;
}

abbrev ledger_of : Ledger
ledger_of = record {
  accounts =
      record {
        id = 1;
        company = 3;
        code = 1000;
        account_type = AccountType.asset;
        is_cash_or_bank = true;
        is_active = true;
        is_deleted = false;
      }
      ∷ record {
        id = 2;
        company = 3;
        code = 2100;
        account_type = AccountType.liability;
        is_cash_or_bank = false;
        is_active = true;
        is_deleted = false;
      }
      ∷ [];
  periods = july ∷ [];
  fiscal_years = [];
  entries = [];
  balances = [];
  sequences = [];
  audit = [];
  next_id = 50;
}

abbrev invoice_of : PurchaseInvoice
invoice_of = record {
  id = 20;
  company = 3;
  supplier = 5;
  status = PurchaseInvoiceStatus.approved;
  grand_total = pos 1000;
  paid_amount = pos 0;
  currency = 0;
  row_version = 0;
  is_deleted = false;
}

abbrev opening : Payables
opening = record {
  companies = record { id = 3; currency = 0 } ∷ [];
  suppliers = record { id = 5; company = 3; is_deleted = false } ∷ [];
  invoices = invoice_of ∷ [];
  payments = [];
  allocations = [];
  cash_accounts = record { id = 30; company = 3; chart_account = some 1; is_deleted = false } ∷ [];
  bank_accounts = [];
  ledger = ledger_of;
  audit = [];
  next_id = 60;
}

abbrev store_of : {B : Type 0} → Payables → Store Payables B
store_of s = record { business = s; records = []; next_id = 1 }

abbrev payment_dto : Option ℕ → ℤ → CreateSupplierPaymentDto
payment_dto invoice amount = record {
  purchase_invoice = invoice;
  amount = amount;
  method = PaymentMethod.cash;
  cash_account = some 30;
  bank_account = none;
  currency = some 0;
  payment_date = some 120;
  reference = none;
  notes = none;
}

abbrev payment_of : Option ℕ → ℤ → SupplierPayment
payment_of invoice amount = payment_row 5 (payment_dto invoice amount) 9 3 0 150 1 60

opening-IsSettled : IsSettled opening
opening-IsSettled = (
  record {
    payments_fit = λ id company p e. absurd (cc);
    invoices_fit = λ id company i e.
        find_first-All (λ j. pos 0 ≤ℤ j.grand_total) (is_live_invoice id company) opening.invoices i
          (omega arith, tt) e;
    payment_ids = tt;
    payment_amounts = tt;
    allocation_ids = tt;
    allocation_amounts = tt;
    invoice_keys = (tt, tt);
    invoice_paid = ((omega arith, omega arith), tt);
  },
  λ side c a p. refl,
)

-- The payment is made, and covers the invoice.
abbrev paid_books : Payables
paid_books = (apply_create_payment 5 (payment_dto (some 20) (pos 1000)) 9 3 0 150 opening).1

paid_runs :
    apply_create_payment 5 (payment_dto (some 20) (pos 1000)) 9 3 0 150 opening
    ≡ (ok (payment_of (some 20) (pos 1000)), paid_books)
unfolding apply_create_payment prepare_payment check_invoice ◌+ℤ◌ resolve_accounts record_payment
    on_ledger next_number insert_payment cover_invoice insert_allocation write_invoice post_entry
    execute_post validate
paid_runs = refl

paid_status : map PurchaseInvoice.paid_amount paid_books.invoices ≡ pos 1000 ∷ []
unfolding apply_create_payment prepare_payment check_invoice ◌+ℤ◌ resolve_accounts record_payment
    on_ledger next_number insert_payment cover_invoice insert_allocation write_invoice post_entry
    execute_post validate
paid_status = refl

apply_create_payment_ok_example :
    IsSettled paid_books
    × IsPaid 5
        (payment_dto (some 20) (pos 1000))
        9
        3
        0
        150
        opening
        paid_books
        (payment_of (some 20) (pos 1000))
apply_create_payment_ok_example =
    apply_create_payment_ok 5 (payment_dto (some 20) (pos 1000)) 9 3 0 150 opening paid_books
      (payment_of (some 20) (pos 1000)) (omega arith) paid_runs opening-IsSettled

create_payment-IsSettled_example :
    IsSettled
      (create_payment
        (payment_of none (pos 1))
        (λ b. b)
        5
        (payment_dto (some 20) (pos 400))
        9
        3
        none
        77
        150
        (store_of opening)).1.business
create_payment-IsSettled_example =
    create_payment-IsSettled (payment_of none (pos 1)) (λ b. b) 5 (payment_dto (some 20) (pos 400))
      9 3 none 77 150 (store_of opening) opening-IsSettled

-- A payment of 300 without an invoice, of which 200 are allocated.
abbrev unallocated_books : Payables
unallocated_books = with_payment (payment_of none (pos 300)) opening

abbrev allocation_of : SupplierPaymentAllocation
allocation_of = allocation_row 5 3 60 (some 20) (pos 200) 61

allocation_runs :
    apply_create_allocation 5 3 60 20 (pos 200) unallocated_books
    ≡ (ok allocation_of, with_allocation allocation_of unallocated_books)
unfolding apply_create_allocation check_room insert_allocation ◌+ℤ◌
allocation_runs = refl

over_allocation :
    (apply_create_allocation 5 3 60 20 (pos 301) unallocated_books).0 ≡ err bad_request
unfolding apply_create_allocation check_room insert_allocation ◌+ℤ◌
over_allocation = refl

create_allocation-IsCovered_example :
    IsCovered
      (create_allocation allocation_of
        (λ b. b)
        5
        3
        60
        20
        (pos 200)
        none
        77
        150
        (store_of unallocated_books)).1.business
create_allocation-IsCovered_example =
    create_allocation-IsCovered allocation_of (λ b. b) 5 3 60 20 (pos 200) none 77 150
      (store_of unallocated_books)
      (with_payment-IsCovered opening (payment_of none (pos 300)) opening-IsSettled.0 (omega arith)
        refl)

abbrev voided_books : Payables
voided_books = (void_payment 60 5 3 9 150 paid_books).1

void_runs : void_payment 60 5 3 9 150 paid_books ≡ (ok tt, voided_books)
unfolding apply_create_payment prepare_payment check_invoice ◌+ℤ◌ resolve_accounts record_payment
    on_ledger next_number insert_payment cover_invoice insert_allocation write_invoice post_entry
    execute_post validate void_payment prepare_void transaction apply_void withdraw_payment
    soft_delete_payment soft_delete_by_payment restore_invoice invoice_to_restore ◌-ℤ◌
void_runs = refl

void_payment_ok_example :
    IsSettled voided_books
    × (p : SupplierPayment) × (invoice : Option PurchaseInvoice) × (accounts : AccountPair)
    × (find_first (is_supplier_payment 60 5 3) paid_books.payments ≡ some p)
    × IsVoided p invoice 5 3 9 150 accounts paid_books voided_books
void_payment_ok_example =
    void_payment_ok 60 5 3 9 150 paid_books voided_books tt void_runs
      apply_create_payment_ok_example.0

void_once_example :
    (sum_allocated_by_payment 60 3 voided_books.allocations ≡ pos 0)
    × (void_payment 60 5 3 9 150 voided_books ≡ (err not_found, voided_books))
void_once_example =
    void_once 60 5 3 9 150 paid_books voided_books tt apply_create_payment_ok_example.0 void_runs
