-- ===== src/Inventory/Costing.antt =====
-- `CostingService` (backend/src/modules/inventory/services/costing.service.ts): FIFO consumption of
-- the cost layers, the average cost, and the primitives that restore value. A quantity is a natural
-- number, as the callers pass it.
use stock_flow.Inventory.Repository.{
  find_product_by_id, find_active_cost_layers, create_cost_layer, consume_cost_layer,
}
use stock_flow.Tx.{◌>>◌, ◌>>=◌, throw_if, pure, or_throw, not_found, conflict, bad_request, Tx}
use stock_flow.Prelude.{
  ◌∷◌, ◌==◌, ◌-◌, ◌+◌, ◌++◌, ⊤, ℕ, some, not, none, min, if◌then◌else◌, [], Option, List,
}
use stock_flow.Decimal.{Decimal}
use stock_flow.Inventory.Tables.{Product, outbound, inbound, Inventory, CostLayer}
pub mod Drain
pub mod Value
pub mod Fifo
pub mod Conservation
pub mod Restore

pub record Consumed (D : Type 0) : Type 0 where
  pub layer_id : ℕ
  pub quantity : ℕ
  pub unit_cost : D
  pub cost : D

pub record FifoConsumptionResult (D : Type 0) : Type 0 where
  pub total_cost : D
  pub layers : List (Consumed D)
  pub fallback_cost : D

pub data CostSource : Type 0 where
  average cost_price no_basis : CostSource

module _ {D : Type 0} ⦃d : Decimal D⦄ where
  unfoldable pub record_inbound_layer : ℕ → ℕ → ℕ → D → ℕ → ℕ → Tx (Inventory D) ⊤
  unfolding create_cost_layer
  record_inbound_layer product company quantity unit ref_type ref_id = do
    _ ←
        create_cost_layer company product inbound quantity quantity unit (d.times unit quantity)
          ref_type ref_id
    pure tt

  -- What one layer gives to a request for `remaining`.
  abbrev pub consumed_of : CostLayer D → ℕ → Consumed D
  consumed_of l remaining = record {
    layer_id = l.id;
    quantity = min remaining l.remaining_quantity;
    unit_cost = l.unit_cost;
    cost = d.times l.unit_cost (min remaining l.remaining_quantity);
  }

  -- The loop over the layers: the quantity that is still asked for, the cost and the layers so far.
  unfoldable pub consume_layers :
      List (CostLayer D) → ℕ → D → List (Consumed D) → Tx (Inventory D) (ℕ × D × List (Consumed D))
  unfolding consume_cost_layer
  consume_layers [] remaining total consumed = pure (remaining, total, consumed)
  consume_layers (l ∷ ls) remaining total consumed =
      let taken = consumed_of l remaining in
      let rest =
        consume_layers ls (remaining - taken.quantity) (d.add total taken.cost)
          (consumed ++ (taken ∷ [])) in
      if remaining == 0 then pure (remaining, total, consumed) else (do
        updated ←
            consume_cost_layer l.id (l.remaining_quantity - taken.quantity) l.remaining_quantity
        throw_if (not updated) conflict
        rest)

  -- The shortfall is priced at `product.costPrice`.
  unfoldable pub fallback_cost_of : ℕ → ℕ → ℕ → Tx (Inventory D) D
  unfolding find_product_by_id
  fallback_cost_of product company remaining = if remaining == 0 then pure d.nought else (do
    found ← find_product_by_id product company
    p ← or_throw found bad_request
    price ← or_throw p.cost_price bad_request
    pure (d.times price remaining))

  -- What follows the loop: the shortfall, and the OUT layer that sums the consumption up.
  unfoldable pub finish_consumption :
      ℕ → ℕ → ℕ → ℕ → ℕ → ℕ × D × List (Consumed D) → Tx (Inventory D) (FifoConsumptionResult D)
  unfolding fallback_cost_of create_cost_layer
  finish_consumption product company quantity ref_type ref_id (remaining, layered, consumed) = do
    fallback ← fallback_cost_of product company remaining
    let total = if remaining == 0 then layered else d.add layered fallback
    _ ←
        create_cost_layer company product outbound quantity 0
          (if quantity == 0 then d.nought else d.over total quantity) total ref_type ref_id
    pure (record { total_cost = total; layers = consumed; fallback_cost = fallback })

  unfoldable pub consume_fifo_layers :
      ℕ → ℕ → ℕ → ℕ → ℕ → Tx (Inventory D) (FifoConsumptionResult D)
  unfolding find_active_cost_layers consume_layers finish_consumption
  consume_fifo_layers product company quantity ref_type ref_id = do
    layers ← find_active_cost_layers product company
    outcome ← consume_layers layers quantity d.nought []
    finish_consumption product company quantity ref_type ref_id outcome

  abbrev pub add_layers : List (CostLayer D) → D → ℕ → D × ℕ
  add_layers [] cost quantity = (cost, quantity)
  add_layers (l ∷ ls) cost quantity =
      add_layers ls (d.add cost (d.times l.unit_cost l.remaining_quantity))
        (quantity + l.remaining_quantity)

  unfoldable pub calculate_average_cost : ℕ → ℕ → Tx (Inventory D) D
  unfolding find_active_cost_layers
  calculate_average_cost product company = do
    layers ← find_active_cost_layers product company
    let (cost, quantity) = add_layers layers d.nought 0
    pure (if quantity == 0 then d.nought else d.over cost quantity)

  -- `product?.costPrice ?? null`, and where the basis comes from.
  abbrev pub price_basis : Option (Product D) → Option D × CostSource
  price_basis none = (none, no_basis)
  price_basis (some p) = elim p.cost_price [
    | none ↦ (none, no_basis)
    | some c ↦ (some c, cost_price)
  ]

  unfoldable pub resolve_positive_entry_unit_cost : ℕ → ℕ → Tx (Inventory D) (Option D × CostSource)
  unfolding calculate_average_cost find_product_by_id
  resolve_positive_entry_unit_cost product company = do
    average_cost ← calculate_average_cost product company
    if not (d.is_zero average_cost)
        then pure (some average_cost, average)
        else (do found ← find_product_by_id product company; pure (price_basis found))

  unfoldable pub restore_layer : ℕ → ℕ → ℕ → D → ℕ → ℕ → Tx (Inventory D) ⊤
  unfolding create_cost_layer
  restore_layer product company quantity unit ref_type ref_id = do
    throw_if (quantity == 0) not_found
    _ ←
        create_cost_layer company product inbound quantity quantity unit (d.times unit quantity)
          ref_type ref_id
    pure tt

  unfoldable pub restore_refund_layer : ℕ → ℕ → ℕ → D → ℕ → ℕ → Tx (Inventory D) ⊤
  unfolding create_cost_layer
  restore_refund_layer product company quantity total ref_type ref_id = do
    throw_if (quantity == 0) not_found
    throw_if (d.is_negative total) not_found
    _ ←
        create_cost_layer company product inbound quantity quantity (d.over total quantity) total
          ref_type ref_id
    pure tt
