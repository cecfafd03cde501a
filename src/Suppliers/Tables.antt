-- ===== src/Suppliers/Tables.antt =====
-- The rows (backend/prisma/schema.prisma) that payments to suppliers read and write, with the queries
-- of SupplierPaymentsRepository and SupplierPaymentAllocationsRepository
-- (backend/src/modules/suppliers/repositories). Amounts are integers of 0.0001 units.
use stock_flow.Prelude.Int.{◌+ℤ◌, ℤ, pos}
use stock_flow.Tx.{◌>>◌, ◌>>=◌, pure, ok, modify, gets, Tx}
use stock_flow.SalesRefund.Allocation.{PaymentMethod}
use stock_flow.Finance.Tables.{Ledger}
use stock_flow.Prelude.{
  ◌∷◌, ◌==◌, ◌++◌, ◌&&◌, ⊤, update_many, true, suc, some, not, none, if◌then◌else◌, find_first,
  false, count_where, [], Option, List, Bool, ℕ,
}

pub record Company : Type 0 where
  pub id : ℕ
  pub currency : ℕ

pub record Supplier : Type 0 where
  pub id : ℕ
  pub company : ℕ
  pub is_deleted : Bool

pub data PurchaseInvoiceStatus : Type 0 where
  draft approved paid cancelled : PurchaseInvoiceStatus

pub record PurchaseInvoice : Type 0 where
  pub id : ℕ
  pub company : ℕ
  pub supplier : ℕ
  pub status : PurchaseInvoiceStatus
  pub grand_total : ℤ
  pub paid_amount : ℤ
  pub currency : ℕ
  pub row_version : ℕ
  pub is_deleted : Bool

pub record SupplierPayment : Type 0 where
  pub id : ℕ
  pub company : ℕ
  pub supplier : ℕ
  pub purchase_invoice : Option ℕ
  pub payment_number : ℕ
  pub payment_date : ℕ
  pub amount : ℤ
  pub method : PaymentMethod
  pub cash_account : Option ℕ
  pub bank_account : Option ℕ
  pub currency : ℕ
  pub reference : Option ℕ
  pub notes : Option ℕ
  pub created_by : ℕ
  pub row_version : ℕ
  pub is_deleted : Bool

pub record SupplierPaymentAllocation : Type 0 where
  pub id : ℕ
  pub company : ℕ
  pub supplier : ℕ
  pub payment : ℕ
  pub purchase_invoice : Option ℕ
  pub amount : ℤ
  pub is_deleted : Bool

-- A cash account or a bank account.
pub record MoneyAccount : Type 0 where
  pub id : ℕ
  pub company : ℕ
  pub chart_account : Option ℕ
  pub is_deleted : Bool

pub data PaymentAction : Type 0 where
  payment_created payment_voided : PaymentAction

pub record PaymentAudit : Type 0 where
  pub company : ℕ
  pub user : ℕ
  pub entity_id : ℕ
  pub action : PaymentAction

pub record Payables : Type 0 where
  pub companies : List Company
  pub suppliers : List Supplier
  pub invoices : List PurchaseInvoice
  pub payments : List SupplierPayment
  pub allocations : List SupplierPaymentAllocation
  pub cash_accounts : List MoneyAccount
  pub bank_accounts : List MoneyAccount
  pub ledger : Ledger
  pub audit : List PaymentAudit
  pub next_id : ℕ

-- The ledger is written in the same transaction.
unfoldable pub on_ledger : {A : Type 0} → Tx Ledger A → Tx Payables A
on_ledger work s = let (r, l) = work s.ledger in (r, record s { ledger = l })

abbrev pub payment_audit : PaymentAudit → Tx Payables ⊤
payment_audit a = modify λ s. record s { audit = s.audit ++ (a ∷ []) }

abbrev pub is_some_of : ℕ → Option ℕ → Bool
is_some_of id none = false
is_some_of id (some x) = x == id

-- `SupplierPaymentsRepository.findById` where
abbrev pub is_supplier_payment : ℕ → ℕ → ℕ → SupplierPayment → Bool
is_supplier_payment id supplier company p =
    p.id == id && p.supplier == supplier && p.company == company && not p.is_deleted

unfoldable pub find_payment : ℕ → ℕ → ℕ → Tx Payables (Option SupplierPayment)
find_payment id supplier company =
    gets λ s. find_first (is_supplier_payment id supplier company) s.payments

unfoldable pub insert_payment : SupplierPayment → Tx Payables SupplierPayment
insert_payment p s = (ok p, record s { payments = s.payments ++ (p ∷ []); next_id = suc s.next_id })

-- where { id, companyId, supplierId, deletedAt: null }
abbrev pub is_invoice_of : ℕ → ℕ → ℕ → PurchaseInvoice → Bool
is_invoice_of id company supplier i =
    i.id == id && i.company == company && i.supplier == supplier && not i.is_deleted

-- where { id, companyId, deletedAt: null }
abbrev pub is_live_invoice : ℕ → ℕ → PurchaseInvoice → Bool
is_live_invoice id company i = i.id == id && i.company == company && not i.is_deleted

-- SELECT … FOR UPDATE of a payment.
abbrev pub is_live_payment : ℕ → ℕ → SupplierPayment → Bool
is_live_payment id company p = p.id == id && p.company == company && not p.is_deleted

-- The rows that `sumAllocatedByPayment` and `findByPayment` read.
abbrev pub is_of_payment : ℕ → ℕ → SupplierPaymentAllocation → Bool
is_of_payment payment company a = a.payment == payment && a.company == company && not a.is_deleted

-- The rows that `sumAllocatedByInvoice` and `findByInvoice` read.
abbrev pub is_of_invoice : ℕ → ℕ → SupplierPaymentAllocation → Bool
is_of_invoice invoice company a =
    is_some_of invoice a.purchase_invoice && a.company == company && not a.is_deleted

-- `aggregate` with `_sum` of the amounts of the rows that meet the condition.
abbrev pub sum_allocated : (SupplierPaymentAllocation → Bool) → List SupplierPaymentAllocation → ℤ
sum_allocated q [] = pos 0
sum_allocated q (a ∷ xs) = if q a then a.amount +ℤ sum_allocated q xs else sum_allocated q xs

abbrev pub sum_allocated_by_payment : ℕ → ℕ → List SupplierPaymentAllocation → ℤ
sum_allocated_by_payment payment company xs = sum_allocated (is_of_payment payment company) xs

abbrev pub sum_allocated_by_invoice : ℕ → ℕ → List SupplierPaymentAllocation → ℤ
sum_allocated_by_invoice invoice company xs = sum_allocated (is_of_invoice invoice company) xs

unfoldable pub insert_allocation : SupplierPaymentAllocation → Tx Payables SupplierPaymentAllocation
insert_allocation a s =
    (ok a, record s { allocations = s.allocations ++ (a ∷ []); next_id = suc s.next_id })

abbrev pub delete_payment : SupplierPayment → SupplierPayment
delete_payment p = record p { is_deleted = true }

abbrev pub delete_allocation : SupplierPaymentAllocation → SupplierPaymentAllocation
delete_allocation a = record a { is_deleted = true }

-- `softDeleteByPayment`
unfoldable pub soft_delete_by_payment : ℕ → ℕ → Tx Payables ℕ
soft_delete_by_payment payment company = do
  count ← gets λ s. count_where (is_of_payment payment company) s.allocations
  modify λ s. record s {
    allocations = update_many (is_of_payment payment company) delete_allocation s.allocations;
  }
  pure count

-- The endpoints that idempotent runs are recorded under.
abbrev pub allocation_create : ℕ
allocation_create = 1

abbrev pub payment_create : ℕ
payment_create = 2
