-- ===== src/Inventory/Repository.antt =====
-- `InventoryRepository` (backend/src/modules/inventory/repositories/inventory.repository.ts): the
-- queries and the guarded writes of stock rows, movements and cost layers.
pub mod Locking
use stock_flow.Prelude.{
  ℕ, suc, ⊤, Bool, true, false, not, ◌&&◌, Option, none, some, List, [], ◌∷◌, ◌++◌, ltb, ◌==◌,
  if◌then◌else◌, is_none, find_first, find_many, update_many, count_where, any_where,
}
use stock_flow.Prelude.Int.{ℤ}
use stock_flow.Decimal.{Decimal}
use stock_flow.Tx.{
  Tx, pure, throw, gets, modify, throw_if, ◌>>=◌, ◌>>◌, not_found, conflict, unique_violation,
}
use stock_flow.Inventory.Tables.{
  sale, return_movement, purchase, production_out, production_in, opening_balance, count_adjustment,
  Warehouse, Product, Stock, StockMovementType, reservation, unreservation, adjustment,
  transfer_out, transfer_in, StockMovement, Direction, inbound, outbound, CostLayer, AuditEntry,
  Inventory,
}

abbrev pub is_warehouse : ℕ → ℕ → Warehouse → Bool
is_warehouse id company w = w.id == id && w.company == company && not w.is_deleted

abbrev pub is_product : {D : Type 0} → ℕ → ℕ → Product D → Bool
is_product id company p = p.id == id && p.company == company && not p.is_deleted

-- where { productId, warehouseId, companyId }
abbrev pub is_stock_of : ℕ → ℕ → ℕ → Stock → Bool
is_stock_of product warehouse company s =
    s.product == product && s.warehouse == warehouse && s.company == company

-- where { id, companyId, rowVersion }
abbrev pub is_version : ℕ → ℕ → ℕ → Stock → Bool
is_version id company version s = s.id == id && s.company == company && s.row_version == version

abbrev pub type_code : StockMovementType → ℕ
type_code purchase = 0
type_code sale = 1
type_code return_movement = 2
type_code transfer_in = 3
type_code transfer_out = 4
type_code adjustment = 5
type_code opening_balance = 6
type_code count_adjustment = 7
type_code reservation = 8
type_code unreservation = 9
type_code production_in = 10
type_code production_out = 11

-- @@unique([companyId, clientOperationId, type]); NULL never collides.
abbrev pub same_operation : ℕ → Option ℕ → StockMovementType → StockMovement → Bool
same_operation company none type m = false
same_operation company (some o) type m =
    m.company == company
    && type_code m.type == type_code type
    && elim m.client_operation_id [ none ↦ false | some o' ↦ o' == o ]

abbrev pub is_inbound : Direction → Bool
is_inbound inbound = true
is_inbound outbound = false

-- where { productId, companyId, direction: 'IN', remainingQuantity: { gt: 0 } }
abbrev pub is_active_layer : {D : Type 0} → ℕ → ℕ → CostLayer D → Bool
is_active_layer product company l =
    l.product == product
    && l.company == company
    && is_inbound l.direction
    && ltb 0 l.remaining_quantity

-- where { id, remainingQuantity }
abbrev pub has_remaining : {D : Type 0} → ℕ → ℕ → CostLayer D → Bool
has_remaining id remaining l = l.id == id && l.remaining_quantity == remaining

-- where { companyId, direction: 'OUT', referenceType, referenceId }
abbrev pub is_out_layer_of : {D : Type 0} → ℕ → ℕ → ℕ → CostLayer D → Bool
is_out_layer_of company reference_type reference_id l =
    l.company == company
    && not (is_inbound l.direction)
    && l.reference_type == reference_type
    && l.reference_id == reference_id

module _ {D : Type 0} where
  unfoldable pub find_warehouse_by_id : ℕ → ℕ → Tx (Inventory D) (Option Warehouse)
  find_warehouse_by_id id company = gets λ s. find_first (is_warehouse id company) s.warehouses

  unfoldable pub find_product_by_id : ℕ → ℕ → Tx (Inventory D) (Option (Product D))
  find_product_by_id id company = gets λ s. find_first (is_product id company) s.products

  -- `findProductsByIds([id])`
  unfoldable pub find_products_by_id : ℕ → ℕ → Tx (Inventory D) (List (Product D))
  find_products_by_id id company = gets λ s. find_many (is_product id company) s.products

  unfoldable pub find_stock_by_product_and_warehouse : ℕ → ℕ → ℕ → Tx (Inventory D) (Option Stock)
  find_stock_by_product_and_warehouse product warehouse company =
      gets λ s. find_first (is_stock_of product warehouse company) s.stocks

  -- @@unique([productId, warehouseId]); a new row has version 0.
  unfoldable pub create_stock : ℕ → ℕ → ℕ → ℤ → ℤ → ℤ → Tx (Inventory D) Stock
  create_stock product warehouse company quantity reserved available s =
      let row : Stock = record {
        id = s.next_id;
        company = company;
        product = product;
        warehouse = warehouse;
        quantity = quantity;
        reserved_quantity = reserved;
        available_quantity = available;
        row_version = 0;
      } in
      if any_where (λ t. t.product == product && t.warehouse == warehouse) s.stocks
      then throw unique_violation s
      else pure row (record s { stocks = s.stocks ++ (row ∷ []); next_id = suc s.next_id })

  -- Optimistic locking: the write happens only at the version that the caller has read.
  unfoldable pub update_stock : ℕ → (Stock → Stock) → ℕ → ℕ → Tx (Inventory D) ⊤
  update_stock id change company version = do
    count ← gets λ s. count_where (is_version id company version) s.stocks
    modify λ s. record s {
      stocks =
          update_many (is_version id company version)
            (λ r. record (change r) { row_version = suc r.row_version }) s.stocks;
    }
    existing ← gets λ s. find_first (λ r. r.id == id && r.company == company) s.stocks
    throw_if (count == 0 && is_none existing) not_found
    throw_if (count == 0) conflict

  unfoldable pub create_stock_movement :
      ℕ → ℕ → ℕ → StockMovementType → ℤ → ℤ → ℤ → Option ℕ → Tx (Inventory D) StockMovement
  create_stock_movement company product warehouse type quantity before after operation s =
      let row : StockMovement = record {
        id = s.next_id;
        company = company;
        product = product;
        warehouse = warehouse;
        type = type;
        quantity = quantity;
        before_quantity = before;
        after_quantity = after;
        client_operation_id = operation;
      } in
      if any_where (same_operation company operation type) s.movements
      then throw unique_violation s
      else pure row (record s { movements = s.movements ++ (row ∷ []); next_id = suc s.next_id })

  unfoldable pub find_active_cost_layers : ℕ → ℕ → Tx (Inventory D) (List (CostLayer D))
  find_active_cost_layers product company =
      gets λ s. find_many (is_active_layer product company) s.layers

  -- A compare-and-set on the remaining quantity; it tells whether a row was written.
  unfoldable pub consume_cost_layer : ℕ → ℕ → ℕ → Tx (Inventory D) Bool
  consume_cost_layer id remaining expected = do
    count ← gets λ s. count_where (has_remaining id expected) s.layers
    modify λ s. record s {
      layers =
          update_many (has_remaining id expected)
            (λ l. record l { remaining_quantity = remaining; row_version = suc l.row_version })
            s.layers;
    }
    pure (ltb 0 count)

  -- The two columns of type Decimal(18, 4) keep what fits into them.
  unfoldable pub create_cost_layer :
      ⦃d : Decimal D⦄ → ℕ → ℕ → Direction → ℕ → ℕ → D → D → ℕ → ℕ → Tx (Inventory D) (CostLayer D)
  create_cost_layer ⦃d⦄ company product direction quantity remaining unit total ref_type ref_id s =
      let row : CostLayer D = record {
        id = s.next_id;
        company = company;
        product = product;
        direction = direction;
        quantity = quantity;
        remaining_quantity = remaining;
        unit_cost = d.column unit;
        total_cost = d.column total;
        reference_type = ref_type;
        reference_id = ref_id;
        row_version = 0;
      } in
      pure row (record s { layers = s.layers ++ (row ∷ []); next_id = suc s.next_id })

  unfoldable pub find_out_layer_by_reference : ℕ → ℕ → ℕ → Tx (Inventory D) (Option (CostLayer D))
  find_out_layer_by_reference company ref_type ref_id =
      gets λ s. find_first (is_out_layer_of company ref_type ref_id) s.layers

  -- `AuditLogService.log` inside the caller's transaction.
  unfoldable pub audit_log : AuditEntry → Tx (Inventory D) ⊤
  audit_log entry = modify λ s. record s { audit = s.audit ++ (entry ∷ []) }
