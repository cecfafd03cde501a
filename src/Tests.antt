-- ===== src/Tests.antt =====
-- Concrete runs of the components, and the theorems applied at concrete inputs.
mod Reservations
mod Ledgers
mod Payments
mod Costs
mod Keys
mod Moves
mod Credits
mod Payables
mod Periods
mod Shifts
