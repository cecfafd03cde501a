-- ===== src/Inventory/Tables.antt =====
-- The rows of the inventory tables (backend/prisma/schema.prisma) that the services read and write.
-- Ids, companies and users are numbers that are only compared. Columns that only describe a row
-- (names, comments, timestamps) are left out; rows stand in the order of their creation.
use stock_flow.Prelude.{ℕ, Bool, Option, List}
use stock_flow.Prelude.Int.{ℤ}

pub record Warehouse : Type 0 where
  pub id : ℕ
  pub company : ℕ
  pub is_active : Bool
  pub is_deleted : Bool

pub record Product (D : Type 0) : Type 0 where
  pub id : ℕ
  pub company : ℕ
  pub cost_price : Option D
  pub is_active : Bool
  pub is_deleted : Bool

pub record Stock : Type 0 where
  pub id : ℕ
  pub company : ℕ
  pub product : ℕ
  pub warehouse : ℕ
  pub quantity : ℤ
  pub reserved_quantity : ℤ
  pub available_quantity : ℤ
  pub row_version : ℕ

pub data StockMovementType : Type 0 where
  purchase sale return_movement transfer_in transfer_out adjustment : StockMovementType
  opening_balance count_adjustment reservation unreservation : StockMovementType
  production_in production_out : StockMovementType

pub record StockMovement : Type 0 where
  pub id : ℕ
  pub company : ℕ
  pub product : ℕ
  pub warehouse : ℕ
  pub type : StockMovementType
  pub quantity : ℤ
  pub before_quantity : ℤ
  pub after_quantity : ℤ
  pub client_operation_id : Option ℕ

pub data Direction : Type 0 where
  inbound outbound : Direction

pub record CostLayer (D : Type 0) : Type 0 where
  pub id : ℕ
  pub company : ℕ
  pub product : ℕ
  pub direction : Direction
  pub quantity : ℕ
  pub remaining_quantity : ℕ
  pub unit_cost : D
  pub total_cost : D
  pub reference_type : ℕ
  pub reference_id : ℕ
  pub row_version : ℕ

pub data AuditAction : Type 0 where
  reserve release adjust : AuditAction

pub record AuditEntry : Type 0 where
  pub company : ℕ
  pub user : ℕ
  pub entity_id : ℕ
  pub action : AuditAction
  pub before : ℤ
  pub after : ℤ

-- `next_id` stands for the generator behind `@default(uuid())`.
pub record Inventory (D : Type 0) : Type 0 where
  pub warehouses : List Warehouse
  pub products : List (Product D)
  pub stocks : List Stock
  pub movements : List StockMovement
  pub layers : List (CostLayer D)
  pub audit : List AuditEntry
  pub next_id : ℕ
