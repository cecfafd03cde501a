-- ===== src/Inventory/Costing/Restore.antt =====
-- The restored value enters the pool.
-- A query over a table with one row more.
use stock_flow.Inventory.Costing.{restore_refund_layer}
use stock_flow.Inventory.Costing.Value.{pool-append}
use stock_flow.Inventory.Costing.Drain.{pool}
use stock_flow.Tx.{ok}
use stock_flow.Inventory.Repository.{is_active_layer, create_cost_layer}
use stock_flow.Decimal.{Decimal}
use stock_flow.Inventory.Tables.{inbound, Inventory, CostLayer}
use stock_flow.Prelude.{
  ◌≡◌, ◌∷◌, ◌∙◌, ◌==◌, ◌<◌, ◌+◌, ◌++◌, ℕ, true, suc, refl, find_many, false, arith, [], List, Bool,
}

find_many-append_one :
    {A : Type 0} (p : A → Bool) (xs : List A) (x : A)
    → p x ≡ true
    → find_many p (xs ++ (x ∷ [])) ≡ find_many p xs ++ (x ∷ [])
find_many-append_one p [] x h = rw h refl
find_many-append_one p (y ∷ xs) x h = ground (arith, find_many-append_one p xs x h)

module _ {D : Type 0} ⦃d : Decimal D⦄ where
  abbrev restored_layer : ℕ → ℕ → ℕ → D → ℕ → ℕ → ℕ → CostLayer D
  restored_layer product company quantity total ref_type ref_id id = record {
    id = id;
    company = company;
    product = product;
    direction = inbound;
    quantity = quantity;
    remaining_quantity = quantity;
    unit_cost = d.column (d.over total quantity);
    total_cost = d.column total;
    reference_type = ref_type;
    reference_id = ref_id;
    row_version = 0;
  }

  restored_layer_active :
      (product company quantity : ℕ) (total : D) (ref_type ref_id id : ℕ)
      → 0 < quantity
      → is_active_layer product company
          (restored_layer product company quantity total ref_type ref_id id)
        ≡ true
  restored_layer_active product company quantity total ref_type ref_id id h = ground arith

  -- A positive refunded quantity, with a value that is not negative, becomes one IN layer with the
  -- value passed in as its total cost, as its column keeps it. The layer is the last of the active
  -- ones that a consumption draws on, and the pool grows by the quantity.
  pub restore_refund_layer_lem :
      (product company quantity : ℕ) (total : D) (ref_type ref_id : ℕ) (s : Inventory D)
      → 0 < quantity
      → d.is_negative total ≡ false
      → (layer : CostLayer D) × (restore_refund_layer product company quantity total ref_type ref_id
            s
          ≡ (ok tt, record s { layers = s.layers ++ (layer ∷ []); next_id = suc s.next_id }))
        × (layer.total_cost ≡ d.column total)
        × (find_many (is_active_layer product company) (s.layers ++ (layer ∷ []))
            ≡ find_many (is_active_layer product company) s.layers ++ (layer ∷ []))
        × (pool product company (s.layers ++ (layer ∷ []))
            ≡ pool product company s.layers + quantity)
  unfolding restore_refund_layer create_cost_layer
  restore_refund_layer_lem product company quantity total ref_type ref_id s h sign =
      let layer = restored_layer product company quantity total ref_type ref_id s.next_id in
      let active =
        restored_layer_active product company quantity total ref_type ref_id s.next_id h in
      let more : (quantity == 0) ≡ false = ground arith in
      let own : pool product company (layer ∷ []) ≡ quantity = rw active (omega arith) in
      (
        layer,
        rw (more, sign) refl,
        refl,
        find_many-append_one (is_active_layer product company) s.layers layer active,
        pool-append product company s.layers (layer ∷ []) ∙ rw own refl,
      )
