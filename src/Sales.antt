-- ===== src/Sales.antt =====
-- Sales (backend/src/modules/sales).
pub mod PaymentAllocation
pub mod CashShift
