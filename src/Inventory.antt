-- ===== src/Inventory.antt =====
-- Inventory (backend/src/modules/inventory): stock levels, movements and cost layers.
pub mod Tables
pub mod Repository
pub mod Reservation
pub mod Costing
pub mod StockMoves
