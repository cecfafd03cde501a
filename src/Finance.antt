-- ===== src/Finance.antt =====
-- Finance (backend/src/modules/finance): the general ledger.
pub mod Tables
pub mod PostingValidation
pub mod GlEngine
pub mod Calendar
