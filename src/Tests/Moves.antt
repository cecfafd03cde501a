-- ===== src/Tests/Moves.antt =====
-- A transfer of 4 pieces of product 7 from warehouse 1 to warehouse 2, at concrete tables.
use stock_flow.Inventory.StockMoves.Totals.{sum_by, quantity_for}
use stock_flow.Prelude.Int.{◌-ℤ◌, ◌+ℤ◌, pos}
use stock_flow.Inventory.Repository.{
  update_stock, is_stock_of, find_warehouse_by_id, find_stock_by_product_and_warehouse,
  find_product_by_id, create_stock_movement,
}
use stock_flow.Inventory.StockMoves.Conservation.{apply_transfer_stock_conserves}
use stock_flow.Tx.{ok, err, conflict, Result}
use stock_flow.Prelude.{
  ◌≡◌, ◌∷◌, ◌-◌, ⊤, ℕ, true, some, refl, none, find_first, false, arith, [], IsKeyed,
}
use stock_flow.Inventory.StockMoves.{
  write_destination, record_legs, apply_transfer_stock, TransferStockDto, InventoryEvent,
}
use stock_flow.Inventory.Tables.{
  transfer_out, transfer_in, Warehouse, StockMovementType, StockMovement, Stock, Inventory,
}

abbrev warehouse_of : ℕ → Warehouse
warehouse_of id = record { id = id; company = 3; is_active = true; is_deleted = false }

abbrev row_of : ℕ → ℕ → ℕ → ℕ → Stock
row_of id warehouse quantity reserved = record {
  id = id;
  company = 3;
  product = 7;
  warehouse = warehouse;
  quantity = pos quantity;
  reserved_quantity = pos reserved;
  available_quantity = pos (quantity - reserved);
  row_version = 0;
}

abbrev depot : Inventory ℕ
depot = record {
  warehouses = warehouse_of 1 ∷ warehouse_of 2 ∷ [];
  products =
      record { id = 7; company = 3; cost_price = none; is_active = true; is_deleted = false } ∷ [];
  stocks = row_of 11 1 10 8 ∷ row_of 12 2 5 0 ∷ [];
  movements = [];
  layers = [];
  audit = [];
  next_id = 20;
}

depot-IsKeyed : IsKeyed Stock.id depot.stocks
depot-IsKeyed = ((omega arith, tt), (tt, tt))

abbrev four : TransferStockDto
four = record {
  product = 7;
  from_warehouse = 1;
  to_warehouse = 2;
  quantity = 4;
  client_operation_id = some 50;
}

abbrev accept : InventoryEvent ℕ → Inventory ℕ → Result ⊤
accept e s = ok tt

abbrev leg_of : ℕ → ℕ → StockMovementType → ℕ → ℕ → StockMovement
leg_of id warehouse type before after = record {
  id = id;
  company = 3;
  product = 7;
  warehouse = warehouse;
  type = type;
  quantity = pos 4;
  before_quantity = pos before;
  after_quantity = pos after;
  client_operation_id = some 50;
}

four_moved :
    (apply_transfer_stock accept four 3 depot).0
    ≡ ok (leg_of 20 1 transfer_out 10 6, leg_of 21 2 transfer_in 5 9)
unfolding apply_transfer_stock find_product_by_id find_warehouse_by_id
    find_stock_by_product_and_warehouse update_stock write_destination record_legs
    create_stock_movement ◌+ℤ◌ ◌-ℤ◌
four_moved = refl

-- The source promises 8 pieces and holds 6 after the transfer.
source_after :
    find_first (is_stock_of 7 1 3) (apply_transfer_stock accept four 3 depot).1.stocks
    ≡ some (record (row_of 11 1 6 8) { row_version = 1 })
unfolding apply_transfer_stock find_product_by_id find_warehouse_by_id
    find_stock_by_product_and_warehouse update_stock write_destination record_legs
    create_stock_movement ◌+ℤ◌ ◌-ℤ◌
source_after = refl

-- The same operation identity a second time.
repeated :
    (apply_transfer_stock accept four 3 (apply_transfer_stock accept four 3 depot).1).0
    ≡ err conflict
unfolding apply_transfer_stock find_product_by_id find_warehouse_by_id
    find_stock_by_product_and_warehouse update_stock write_destination record_legs
    create_stock_movement ◌+ℤ◌ ◌-ℤ◌
repeated = refl

apply_transfer_stock_conserves_example :
    sum_by (quantity_for 7) (apply_transfer_stock accept four 3 depot).1.stocks
    ≡ sum_by (quantity_for 7) depot.stocks
apply_transfer_stock_conserves_example =
    apply_transfer_stock_conserves accept four 3 depot refl depot-IsKeyed 7 four_moved
