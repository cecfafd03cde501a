-- ===== src/Crm.antt =====
-- Customers (backend/src/modules/crm): the credit ledger.
pub mod CreditLedger
