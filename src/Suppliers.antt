-- ===== src/Suppliers.antt =====
-- The suppliers module (backend/src/modules/suppliers): payments to suppliers, and what they are
-- allocated to.
pub mod Tables
pub mod Coverage
pub mod Checks
pub mod Payments
pub mod Settled
pub mod Voiding
pub mod Allocations
