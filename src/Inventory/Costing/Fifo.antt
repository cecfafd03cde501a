-- ===== src/Inventory/Costing/Fifo.antt =====
-- What `consumeFifoLayers` promises: oldest layers first, a fallback for the shortfall, and no value
-- lost.
use stock_flow.Inventory.Repository.{
  is_active_layer, find_product_by_id, create_cost_layer, is_product,
}
use stock_flow.Inventory.Costing.Drain.{consume_layers_lem, takings, sum_costs, pool, drain}
use stock_flow.Tx.{bind_ok, ok, err, bad_request}
use stock_flow.Prelude.{
  zero, false, arith, ◌∙◌, refl, inr, inl, find_many, Option-cases, ◌≡◌, ◌∷◌, ◌==◌, ◌-◌, ◌++◌, ℕ,
  suc, some, none, if◌then◌else◌, find_first, [], Option, List, IsKeyed,
}
use stock_flow.Inventory.Costing.{
  finish_consumption, fallback_cost_of, consume_layers, Consumed, consume_fifo_layers,
  FifoConsumptionResult,
}
use stock_flow.Decimal.{Decimal}
use stock_flow.Inventory.Tables.{outbound, Product, Inventory, CostLayer}

module _ {D : Type 0} ⦃d : Decimal D⦄ (product company : ℕ) where
  -- The price of a shortfall of n: nothing for 0, and none without a cost basis.
  abbrev pub shortfall_price : List (Product D) → ℕ → Option D
  shortfall_price products n =
      if n == 0 then some d.nought else elim (find_first (is_product product company) products) [
        | none ↦ none
        | some p ↦ elim p.cost_price [ none ↦ none | some c ↦ some (d.times c n) ]
      ]

  -- The result over the layers ls, with the fallback cost f.
  abbrev pub consumption : ℕ → D → List (CostLayer D) → FifoConsumptionResult D
  consumption q f ls =
      let layered = sum_costs d.nought (takings product company q ls) in
      record {
        total_cost = if q - pool product company ls == 0 then layered else d.add layered f;
        layers = takings product company q ls;
        fallback_cost = f;
      }

  abbrev pub out_layer : ℕ → ℕ → ℕ → D → ℕ → CostLayer D
  out_layer q ref_type ref_id total id = record {
    id = id;
    company = company;
    product = product;
    direction = outbound;
    quantity = q;
    remaining_quantity = 0;
    unit_cost = d.column (if q == 0 then d.nought else d.over total q);
    total_cost = d.column total;
    reference_type = ref_type;
    reference_id = ref_id;
    row_version = 0;
  }

  finish_consumption_lem :
      (q ref_type ref_id n : ℕ) (layered : D) (consumed : List (Consumed D)) (s : Inventory D)
      → finish_consumption product company q ref_type ref_id (n, layered, consumed) s
        ≡ (elim (shortfall_price s.products n) [
          | none ↦ (err bad_request, s)
          | some f ↦
              let total = if n == 0 then layered else d.add layered f in
              (
                ok (record { total_cost = total; layers = consumed; fallback_cost = f }),
                record s {
                  layers = s.layers ++ (out_layer q ref_type ref_id total s.next_id ∷ []);
                  next_id = suc s.next_id;
                },
              )
        ])
  unfolding finish_consumption fallback_cost_of create_cost_layer find_product_by_id
  finish_consumption_lem q ref_type ref_id zero layered consumed s = refl
  finish_consumption_lem q ref_type ref_id (suc k) layered consumed s =
      let more : (suc k == 0) ≡ false = ground arith in
      elim (Option-cases (find_first (is_product product company) s.products)) [
        | inl none_found ↦ ground (arith, more, none_found)
        | inr (p, found) ↦ elim (Option-cases p.cost_price) [
          | inl unpriced ↦ ground (arith, more, found, unpriced)
          | inr (c, priced) ↦ ground (arith, more, found, priced)
        ]
      ]

  module _ (q ref_type ref_id : ℕ) (s : Inventory D) (keyed : IsKeyed CostLayer.id s.layers) where
    -- With distinct layer ids, a consumption is one pass over the active layers of the product, oldest
    -- first, each giving what it has until the quantity is met. A shortfall is priced at the cost price
    -- of the product, and refused with a bad request if there is none. On success the layers taken are
    -- reported in that order, and one OUT layer with the quantity and the total cost is appended.
    pub consume_fifo_layers_lem :
        consume_fifo_layers product company q ref_type ref_id s
        ≡ (elim (shortfall_price s.products (q - pool product company s.layers)) [
          | none ↦ (err bad_request, record s { layers = drain product company q s.layers })
          | some f ↦ (
            ok (consumption q f s.layers),
            record s {
              layers =
                  drain product company q s.layers
                  ++ (out_layer q ref_type ref_id (consumption q f s.layers).total_cost s.next_id
                      ∷ []);
              next_id = suc s.next_id;
            },
          )
        ])
    unfolding consume_fifo_layers
    consume_fifo_layers_lem =
        bind_ok
          (consume_layers (find_many (is_active_layer product company) s.layers) q d.nought [])
          (finish_consumption product company q ref_type ref_id) s
          (record s { layers = drain product company q s.layers })
          (
            q - pool product company s.layers,
            sum_costs d.nought (takings product company q s.layers),
            takings product company q s.layers,
          )
          (consume_layers_lem product company s.layers [] q d.nought [] s keyed)
        ∙ finish_consumption_lem q ref_type ref_id (q - pool product company s.layers)
            (sum_costs d.nought (takings product company q s.layers))
            (takings product company q s.layers)
            (record s { layers = drain product company q s.layers })
