-- ===== src/Inventory/StockMoves.antt =====
-- `StockService` (backend/src/modules/inventory/services/stock.service.ts): adjustment and transfer.
-- The event bus runs its handlers in the same transaction; they write tables of other components, and
-- a handler that throws aborts the operation. So `publish` is a parameter that accepts or throws.
pub mod Totals
pub mod Transfer
pub mod Conservation
pub mod Layers
use stock_flow.Idempotency.{run_with_idempotency, Store}
use stock_flow.Prelude.Int.{pos_part, neg_part, ◌-ℤ◌, ◌+ℤ◌, ℤ, pos, max_ℤ, ltb_ℤ}
use stock_flow.Inventory.Costing.{
  resolve_positive_entry_unit_cost, record_inbound_layer, consume_fifo_layers,
  calculate_average_cost,
}
use stock_flow.Inventory.Reservation.{available}
use stock_flow.Inventory.Repository.{
  update_stock, find_warehouse_by_id, find_stock_by_product_and_warehouse, find_product_by_id,
  create_stock_movement, create_stock, audit_log,
}
use stock_flow.Prelude.{◌+◌, ◌==◌, ⊤, ℕ, some, not, none, is_none, if◌then◌else◌, Option}
use stock_flow.Inventory.Tables.{
  transfer_out, transfer_in, adjustment, adjust, StockMovement, Stock, Product, Inventory,
}
use stock_flow.Tx.{
  ◌>>◌, ◌>>=◌, unique_violation, throw_if, pure, or_throw, ok, not_found, err, conflict,
  bad_request, Tx, Result, Exception,
}
use stock_flow.Decimal.{Decimal}

-- Company, product, warehouse; change, before, after; and the unit cost. Company, product, source,
-- destination and quantity.
pub data InventoryEvent (D : Type 0) : Type 0 where
  adjusted : ℕ → ℕ → ℕ → ℤ → ℤ → ℤ → Option D → InventoryEvent D
  transferred : ℕ → ℕ → ℕ → ℕ → ℕ → InventoryEvent D

pub record AdjustStockDto : Type 0 where
  pub product : ℕ
  pub warehouse : ℕ
  pub quantity : ℤ
  pub reference_id : Option ℕ
  pub client_operation_id : Option ℕ

-- The validation pipe admits quantities from 1.
pub record TransferStockDto : Type 0 where
  pub product : ℕ
  pub from_warehouse : ℕ
  pub to_warehouse : ℕ
  pub quantity : ℕ
  pub client_operation_id : Option ℕ

abbrev pub to_duplicate_operation_conflict : Exception → Exception
to_duplicate_operation_conflict unique_violation = conflict
to_duplicate_operation_conflict e = e

-- `try { … } catch (err) { throw toDuplicateOperationConflict(err) }`
abbrev pub or_duplicate : {S A : Type 0} → Tx S A → Tx S A
or_duplicate m s =
    let (r, s') = m s in
    elim r [ ok a ↦ (ok a, s') | err e ↦ (err (to_duplicate_operation_conflict e), s') ]

abbrev pub set_quantity : ℤ → ℤ → Stock → Stock
set_quantity quantity available r = record r { quantity = quantity; available_quantity = available }

-- `referenceType: 'ADJUSTMENT'`
abbrev pub adjustment_reference : ℕ
adjustment_reference = 1

-- `endpoint: 'inventory-transfer'`
abbrev pub transfer_endpoint : ℕ
transfer_endpoint = 2

-- `destStock?.quantity ?? 0`
abbrev pub quantity_in : Option Stock → ℤ
quantity_in none = pos 0
quantity_in (some r) = r.quantity

-- `Math.abs`
abbrev pub abs_ℤ : ℤ → ℕ
abs_ℤ a = pos_part a + neg_part a

abbrev pub or_else : {A : Type 0} → Option A → A → A
or_else none a = a
or_else (some x) a = x

module _ {D : Type 0} ⦃d : Decimal D⦄ where
  -- The unit cost of an adjustment: a positive entry without a basis is refused.
  unfoldable pub adjustment_unit_cost : AdjustStockDto → ℕ → Product D → Tx (Inventory D) (Option D)
  adjustment_unit_cost dto company product =
      if ltb_ℤ (pos 0) dto.quantity
      then (do
        resolved ← resolve_positive_entry_unit_cost dto.product company
        throw_if (is_none resolved.0) bad_request
        pure resolved.0)
      else (do
        average_cost ← calculate_average_cost dto.product company
        pure (if not (d.is_zero average_cost) then some average_cost else product.cost_price))

  -- Cost layers follow the adjustment.
  unfoldable pub adjust_layers : AdjustStockDto → ℕ → ℕ → Option D → Tx (Inventory D) ⊤
  adjust_layers dto company reference unit =
      if ltb_ℤ (pos 0) dto.quantity
      then elim unit [
        | none ↦ pure tt
        | some u ↦
            record_inbound_layer dto.product company (abs_ℤ dto.quantity) u adjustment_reference
              reference
      ]
      else (if ltb_ℤ dto.quantity (pos 0)
          then (do
            _ ←
                consume_fifo_layers dto.product company (abs_ℤ dto.quantity) adjustment_reference
                  reference
            pure tt)
          else pure tt)

module _ {D : Type 0} where
  -- The destination row is updated, or created with the quantity that arrives.
  unfoldable pub write_destination : TransferStockDto → ℕ → Option Stock → ℤ → Tx (Inventory D) ⊤
  write_destination dto company none after = do
    _ ←
        create_stock dto.product dto.to_warehouse company (pos dto.quantity) (pos 0)
          (pos dto.quantity)
    pure tt
  write_destination dto company (some r) after =
      update_stock r.id (set_quantity after (after -ℤ r.reserved_quantity)) company r.row_version

module _ {D : Type 0} (publish : InventoryEvent D → Inventory D → Result ⊤) where
  abbrev pub publish_event : InventoryEvent D → Tx (Inventory D) ⊤
  publish_event e s = (publish e s, s)

  module _ ⦃d : Decimal D⦄ where
    unfoldable pub apply_adjust_stock : AdjustStockDto → ℕ → ℕ → Tx (Inventory D) StockMovement
    apply_adjust_stock dto company user = do
      found_product ← find_product_by_id dto.product company
      product ← or_throw found_product not_found
      found_warehouse ← find_warehouse_by_id dto.warehouse company
      _ ← or_throw found_warehouse not_found
      found ← find_stock_by_product_and_warehouse dto.product dto.warehouse company
      stock ← elim found [
        | none ↦ create_stock dto.product dto.warehouse company (pos 0) (pos 0) (pos 0)
        | some r ↦ pure r
      ]
      let after = stock.quantity +ℤ dto.quantity
      throw_if (ltb_ℤ after (pos 0)) bad_request
      update_stock stock.id (set_quantity after (after -ℤ stock.reserved_quantity)) company
          stock.row_version
      movement ← or_duplicate (
          create_stock_movement company dto.product dto.warehouse adjustment dto.quantity
            stock.quantity after dto.client_operation_id)
      unit ← adjustment_unit_cost dto company product
      adjust_layers dto company (or_else dto.reference_id stock.id) unit
      publish_event
          (adjusted company dto.product dto.warehouse dto.quantity stock.quantity after unit)
      audit_log (record {
        company = company;
        user = user;
        entity_id = stock.id;
        action = adjust;
        before = stock.quantity;
        after = after;
      })
      pure movement

  -- Both movements and the event.
  unfoldable pub record_legs :
      TransferStockDto → ℕ → ℤ → ℤ → ℤ → ℤ → Tx (Inventory D) (StockMovement × StockMovement)
  record_legs dto company source_before source_after dest_before dest_after = do
    out_movement ← or_duplicate (
        create_stock_movement company dto.product dto.from_warehouse transfer_out (pos dto.quantity)
          source_before source_after dto.client_operation_id)
    in_movement ← or_duplicate (
        create_stock_movement company dto.product dto.to_warehouse transfer_in (pos dto.quantity)
          dest_before dest_after dto.client_operation_id)
    publish_event (transferred company dto.product dto.from_warehouse dto.to_warehouse dto.quantity)
    pure (out_movement, in_movement)

  unfoldable pub apply_transfer_stock :
      TransferStockDto → ℕ → Tx (Inventory D) (StockMovement × StockMovement)
  apply_transfer_stock dto company = do
    found_product ← find_product_by_id dto.product company
    _ ← or_throw found_product not_found
    found_from ← find_warehouse_by_id dto.from_warehouse company
    from ← or_throw found_from not_found
    throw_if (not from.is_active) not_found
    found_to ← find_warehouse_by_id dto.to_warehouse company
    to ← or_throw found_to not_found
    throw_if (not to.is_active) not_found
    found_source ← find_stock_by_product_and_warehouse dto.product dto.from_warehouse company
    source ← or_throw found_source not_found
    found_dest ← find_stock_by_product_and_warehouse dto.product dto.to_warehouse company
    let source_after = source.quantity -ℤ pos dto.quantity
    throw_if (ltb_ℤ source_after (pos 0)) bad_request
    let dest_before = quantity_in found_dest
    let dest_after = dest_before +ℤ pos dto.quantity
    update_stock source.id
        (set_quantity source_after (max_ℤ (pos 0) (source_after -ℤ source.reserved_quantity)))
        company source.row_version
    write_destination dto company found_dest dest_after
    record_legs dto company source.quantity source_after dest_before dest_after

  module _ (pending_body : StockMovement × StockMovement)
      (to_json : StockMovement × StockMovement → StockMovement × StockMovement) where
    -- `request_hash` is the digest of the DTO and the user; 201 is `HttpStatus.CREATED`.
    unfoldable pub transfer_stock :
        TransferStockDto
        → ℕ
        → Option ℕ
        → ℕ
        → ℕ
        → Tx
            (Store (Inventory D) (StockMovement × StockMovement))
            (ℕ × (StockMovement × StockMovement))
    transfer_stock dto company key request_hash now = do
      throw_if (dto.from_warehouse == dto.to_warehouse) bad_request
      run_with_idempotency pending_body to_json key company transfer_endpoint request_hash now 201
          (apply_transfer_stock dto company)
