-- ===== src/Inventory/Costing/Conservation.antt =====
-- FIFO consumption loses neither quantity nor value, and takes from the oldest layers.
use stock_flow.Inventory.Costing.Drain.{takings, sum_costs, drain-zero, pool, drain}
use stock_flow.Inventory.Costing.Fifo.{
  shortfall_price, out_layer, consumption, consume_fifo_layers_lem,
}
use stock_flow.Inventory.Costing.Value.{
  quantity_of-takings, quantity_of, pool_value-drain, drain-append, pool_value-append, pool_value,
  pool-drain, pool-append, add_nought,
}
use stock_flow.Tx.{ok, Result}
use stock_flow.Prelude.{
  ◌==◌, sym, Bool-cases, ◌≤◌, ◌+◌, refl, min, ◌≡◌, ◌∷◌, ◌∙◌, ◌-◌, ◌++◌, ℕ, suc, some, inr, inl,
  arith, ap, [], Option-cases, List, IsKeyed,
}
use stock_flow.Inventory.Costing.{consume_fifo_layers, FifoConsumptionResult}
use stock_flow.Decimal.{IsExact, Decimal}
use stock_flow.Inventory.Tables.{Inventory, CostLayer}

module _ {D : Type 0} ⦃d : Decimal D⦄ (product company q ref_type ref_id : ℕ) (s : Inventory D)
    (keyed : IsKeyed CostLayer.id s.layers) where
  abbrev pub outcome : Result (FifoConsumptionResult D) × Inventory D
  outcome = consume_fifo_layers product company q ref_type ref_id s

  abbrev pub layers_after : D → List (CostLayer D)
  layers_after f =
      drain product company q s.layers
      ++ (out_layer product company q ref_type ref_id
            (consumption product company q f s.layers).total_cost s.next_id
          ∷ [])

  -- A consumption that succeeds had a price for its shortfall.
  pub consumed_at_price :
      {r : FifoConsumptionResult D}
      → outcome.0 ≡ ok r
      → (f : D) × (shortfall_price product company s.products (q - pool product company s.layers)
          ≡ some f)
        × (r ≡ consumption product company q f s.layers)
        × (outcome.1 ≡ record s { layers = layers_after f; next_id = suc s.next_id })
  consumed_at_price {r} e =
      let whole = consume_fifo_layers_lem product company q ref_type ref_id s keyed in
      elim (Option-cases
        (shortfall_price product company s.products (q - pool product company s.layers))) [
          | inl unpriced ↦ ground (arith, whole, unpriced)
          | inr (f, priced) ↦
              (f, priced, ground (arith, whole, priced), ground (arith, whole, priced))
        ]

  -- The OUT layer is not part of the pool.
  pub pool_after :
      (f : D) → pool product company (layers_after f) ≡ pool product company s.layers - q
  pool_after f =
      let out =
        out_layer product company q ref_type ref_id
          (consumption product company q f s.layers).total_cost s.next_id in
      let none_in : pool product company (out ∷ []) ≡ 0 = ground arith in
      let kept = pool-drain product company q s.layers in
      pool-append product company (drain product company q s.layers) (out ∷ []) ∙ omega arith

  pool_value_after :
      (exact : IsExact D) (f : D)
      → pool_value product company (layers_after f)
        ≡ pool_value product company (drain product company q s.layers)
  pool_value_after exact f =
      let out =
        out_layer product company q ref_type ref_id
          (consumption product company q f s.layers).total_cost s.next_id in
      let none_in : pool_value product company (out ∷ []) ≡ d.nought = ground arith in
      pool_value-append exact product company (drain product company q s.layers) (out ∷ [])
      ∙ ap (λ z. d.add (pool_value product company (drain product company q s.layers)) z) none_in
      ∙ add_nought exact _

  consumption_total :
      (exact : IsExact D) (f : D)
      → shortfall_price product company s.products (q - pool product company s.layers) ≡ some f
      → (consumption product company q f s.layers).total_cost
        ≡ d.add (sum_costs d.nought (takings product company q s.layers)) f
  consumption_total exact f priced =
      let layered = sum_costs d.nought (takings product company q s.layers) in
      elim (Bool-cases (q - pool product company s.layers == 0)) [
        | inl covered ↦
            let free : d.nought ≡ f = ground (arith, priced) in
            rw covered (sym (add_nought exact layered) ∙ ap (λ z. d.add layered z) free)
        | inr short ↦ rw short refl
      ]

  -- With exact arithmetic and distinct layer ids, a consumption that succeeds loses no value: what is
  -- left in the active layers and the cost of the layers taken add up to the value of before; the
  -- total cost is the cost of the layers taken and the fallback cost; and the layers taken hold the
  -- smaller of the request and the pool, by which the pool shrinks.
  pub consume_fifo_layers_conserves :
      (exact : IsExact D) {r : FifoConsumptionResult D}
      → (consume_fifo_layers product company q ref_type ref_id s).0 ≡ ok r
      → let after = (consume_fifo_layers product company q ref_type ref_id s).1.layers in
        (d.add (pool_value product company after) (sum_costs d.nought r.layers)
          ≡ pool_value product company s.layers)
        × (r.total_cost ≡ d.add (sum_costs d.nought r.layers) r.fallback_cost)
        × (quantity_of r.layers ≡ min q (pool product company s.layers))
        × (pool product company after + quantity_of r.layers ≡ pool product company s.layers)
  consume_fifo_layers_conserves exact e =
      let (f, priced, same, after) = consumed_at_price e in
      let taken = quantity_of-takings product company q s.layers in
      let kept = pool_after f in
      rw (same, after)
        (
          ap (λ z. d.add z (sum_costs d.nought (takings product company q s.layers)))
                (pool_value_after exact f)
              ∙ pool_value-drain exact product company q s.layers,
          consumption_total exact f priced,
          taken,
          omega arith,
        )

  -- With distinct layer ids, if the older layers cover the request, they alone are drawn on: the newer
  -- ones stay as they are, nothing is priced at the fallback, and the older ones hold so much less.
  pub consume_fifo_layers_oldest :
      (older newer : List (CostLayer D))
      → s.layers ≡ older ++ newer
      → q ≤ pool product company older
      → (r : FifoConsumptionResult D) × (out : CostLayer D) × ((consume_fifo_layers product company
            q ref_type ref_id s).0
          ≡ ok r)
        × (r.fallback_cost ≡ d.nought)
        × ((consume_fifo_layers product company q ref_type ref_id s).1.layers
            ≡ drain product company q older ++ newer ++ (out ∷ []))
        × (pool product company (drain product company q older) + q ≡ pool product company older)
  consume_fifo_layers_oldest older newer parts covered =
      let whole = consume_fifo_layers_lem product company q ref_type ref_id s keyed in
      let split : pool product company s.layers
          ≡ pool product company older + pool product company newer =
        rw parts (pool-append product company older newer) in
      let none_short : q - pool product company s.layers ≡ 0 = omega arith in
      let none_left : q - pool product company older ≡ 0 = omega arith in
      let first : drain product company q s.layers ≡ drain product company q older ++ newer =
        rw parts (
          drain-append product company q older newer
          ∙ rw (none_left)
              (ap (λ z. drain product company q older ++ z) (drain-zero product company newer))) in
      let kept = pool-drain product company q older in
      (
        consumption product company q d.nought s.layers,
        out_layer product company q ref_type ref_id
            (consumption product company q d.nought s.layers).total_cost s.next_id,
        ground (arith, whole, none_short),
        refl,
        ground (arith, whole, none_short, first),
        omega arith,
      )
