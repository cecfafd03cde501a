-- ===== src/SalesRefund.antt =====
-- Sales refunds (backend/src/modules/sales-refund).
pub mod Allocation
