-- ===== src/Inventory/StockMoves/Layers.antt =====
-- The cost layers follow an adjustment.
use stock_flow.Inventory.Costing.Value.{pool-append}
use stock_flow.Inventory.Costing.Drain.{pool}
use stock_flow.Prelude.Int.{pos, ltb_ℤ}
use stock_flow.Inventory.Repository.{is_active_layer, create_cost_layer}
use stock_flow.Inventory.Costing.Conservation.{pool_after, consumed_at_price}
use stock_flow.Tx.{ok, Result-cases}
use stock_flow.Inventory.Costing.{record_inbound_layer, consume_fifo_layers, FifoConsumptionResult}
use stock_flow.Decimal.{Decimal}
use stock_flow.Inventory.Tables.{inbound, Inventory, CostLayer}
use stock_flow.Prelude.{
  ◌≡◌, ◌∷◌, ◌∙◌, ◌<◌, ◌-◌, ◌+◌, ℕ, true, some, refl, inr, inl, if◌then◌else◌, arith, [], IsKeyed,
  Bool-cases,
}
use stock_flow.Inventory.StockMoves.{adjustment_reference, adjust_layers, abs_ℤ, AdjustStockDto}

module _ {D : Type 0} ⦃d : Decimal D⦄ (product company : ℕ) where
  -- A received quantity enters the pool.
  pool-record_inbound_layer :
      (quantity : ℕ) (unit : D) (ref_type ref_id : ℕ) (s : Inventory D)
      → 0 < quantity
      → pool product company
          (record_inbound_layer product company quantity unit ref_type ref_id s).1.layers
        ≡ pool product company s.layers + quantity
  unfolding record_inbound_layer create_cost_layer
  pool-record_inbound_layer quantity unit ref_type ref_id s h =
      let layer : CostLayer D = record {
        id = s.next_id;
        company = company;
        product = product;
        direction = inbound;
        quantity = quantity;
        remaining_quantity = quantity;
        unit_cost = d.column unit;
        total_cost = d.column (d.times unit quantity);
        reference_type = ref_type;
        reference_id = ref_id;
        row_version = 0;
      } in
      let active : is_active_layer product company layer ≡ true = ground arith in
      let own : pool product company (layer ∷ []) ≡ quantity = rw active (omega arith) in
      pool-append product company s.layers (layer ∷ []) ∙ rw own refl

  -- A consumption that succeeds shrinks the pool by the request, down to nothing.
  pool-consume_fifo_layers :
      (q ref_type ref_id : ℕ) (s : Inventory D)
      → IsKeyed CostLayer.id s.layers
      → {r : FifoConsumptionResult D}
      → (consume_fifo_layers product company q ref_type ref_id s).0 ≡ ok r
      → pool product company (consume_fifo_layers product company q ref_type ref_id s).1.layers
        ≡ pool product company s.layers - q
  pool-consume_fifo_layers q ref_type ref_id s keyed e =
      let (f, _, _, after) = consumed_at_price product company q ref_type ref_id s keyed e in
      rw after (pool_after product company q ref_type ref_id s keyed f)

module _ {D : Type 0} ⦃d : Decimal D⦄ where
  -- With distinct layer ids and a unit cost, an adjustment of the layers that succeeds moves the pool
  -- of the product with the stock: up by a positive quantity, and down by a negative one until it is
  -- empty.
  pub adjust_layers_follow :
      (dto : AdjustStockDto) (company reference : ℕ) (unit : D) (s : Inventory D)
      → IsKeyed CostLayer.id s.layers
      → (adjust_layers dto company reference (some unit) s).0 ≡ ok tt
      → pool dto.product company (adjust_layers dto company reference (some unit) s).1.layers ≡ (
          if ltb_ℤ (pos 0) dto.quantity
          then pool dto.product company s.layers + abs_ℤ dto.quantity
          else pool dto.product company s.layers - abs_ℤ dto.quantity)
  unfolding adjust_layers
  adjust_layers_follow dto company reference unit s keyed e =
      let n = abs_ℤ dto.quantity in
      elim (Bool-cases (ltb_ℤ (pos 0) dto.quantity)) [
        | inl up ↦ rw up (
            pool-record_inbound_layer dto.product company n unit adjustment_reference reference s
              (ground arith))
        | inr flat ↦ elim (Bool-cases (ltb_ℤ dto.quantity (pos 0))) [
          | inr still ↦
              let nothing : n ≡ 0 = ground arith in rw (flat, still, nothing) (omega arith)
          | inl down ↦
              elim (Result-cases
                (consume_fifo_layers dto.product company n adjustment_reference reference s).0) [
                  | inr (x, bad) ↦ ground (arith, bad)
                  | inl (r, good) ↦
                      let fallen =
                        pool-consume_fifo_layers dto.product company n adjustment_reference
                          reference s keyed good in
                      ground (arith, good, fallen)
                ]
        ]
      ]
