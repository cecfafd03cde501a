-- ===== src/Tests/Costs.antt =====
-- The costing theorems at concrete tables.
use stock_flow.Prelude.Int.{negsuc}
use stock_flow.Inventory.StockMoves.Layers.{adjust_layers_follow}
use stock_flow.Inventory.StockMoves.{adjust_layers, AdjustStockDto}
use stock_flow.Inventory.Costing.Restore.{restore_refund_layer_lem}
use stock_flow.Inventory.Repository.{is_active_layer}
use stock_flow.Inventory.Costing.Value.{quantity_of, pool_value}
use stock_flow.Inventory.Costing.Drain.{sum_costs, pool, drain}
use stock_flow.Inventory.Costing.Conservation.{consume_fifo_layers_conserves}
use stock_flow.Tx.{err, Result, ok}
use stock_flow.Inventory.Costing.Fifo.{consume_fifo_layers_lem}
use stock_flow.Prelude.{
  ◌-◌, min, find_many, ◌+◌, ◌++◌, refl, none, Option, ◌≡◌, ◌∷◌, ℕ, true, some, false, arith, [],
  List, IsKeyed,
}
use stock_flow.Inventory.Costing.{restore_refund_layer, consume_fifo_layers, FifoConsumptionResult}
use stock_flow.Inventory.Tables.{outbound, inbound, Product, Inventory, CostLayer}
use stock_flow.Decimal.{units_decimal, units-IsExact}

abbrev older : CostLayer ℕ
older = record {
  id = 1;
  company = 1;
  product = 7;
  direction = inbound;
  quantity = 5;
  remaining_quantity = 3;
  unit_cost = 10;
  total_cost = 50;
  reference_type = 0;
  reference_id = 0;
  row_version = 0;
}

abbrev newer : CostLayer ℕ
newer = record {
  id = 2;
  company = 1;
  product = 7;
  direction = inbound;
  quantity = 4;
  remaining_quantity = 4;
  unit_cost = 20;
  total_cost = 80;
  reference_type = 0;
  reference_id = 0;
  row_version = 0;
}

abbrev two_layers : List (CostLayer ℕ)
two_layers = older ∷ newer ∷ []

abbrev total_of : Result (FifoConsumptionResult ℕ) → Option ℕ
total_of (ok r) = some r.total_cost
total_of (err _) = none

abbrev priced_product : Product ℕ
priced_product = record {
  id = 7;
  company = 1;
  cost_price = some 30;
  is_active = true;
  is_deleted = false;
}

abbrev layered : Inventory ℕ
layered = record {
  warehouses = [];
  products = priced_product ∷ [];
  stocks = [];
  movements = [];
  layers = two_layers;
  audit = [];
  next_id = 9;
}

layered-IsKeyed : IsKeyed CostLayer.id two_layers
layered-IsKeyed = ((omega arith, tt), (tt, tt))

-- Three from the older layer at 10, two from the newer at 20.
abbrev five_taken : FifoConsumptionResult ℕ
five_taken = record {
  total_cost = 70;
  layers =
      record { layer_id = 1; quantity = 3; unit_cost = 10; cost = 30 }
      ∷ record { layer_id = 2; quantity = 2; unit_cost = 20; cost = 40 }
      ∷ [];
  fallback_cost = 0;
}

abbrev five_out : CostLayer ℕ
five_out = record {
  id = 9;
  company = 1;
  product = 7;
  direction = outbound;
  quantity = 5;
  remaining_quantity = 0;
  unit_cost = 14;
  total_cost = 70;
  reference_type = 3;
  reference_id = 4;
  row_version = 0;
}

consume_fifo_layers_lem_example : consume_fifo_layers 7 1 5 3 4 layered ≡ (
  ok five_taken,
  record layered { layers = drain 7 1 5 two_layers ++ (five_out ∷ []); next_id = 10 },
)
consume_fifo_layers_lem_example = consume_fifo_layers_lem 7 1 5 3 4 layered layered-IsKeyed

five_run : (consume_fifo_layers 7 1 5 3 4 layered).0 ≡ ok five_taken
unfolding consume_fifo_layers
five_run = refl

-- Nine are two more than the layers hold: the rest costs 30 each.
nine_run : total_of (consume_fifo_layers 7 1 9 3 4 layered).0 ≡ some 170
unfolding consume_fifo_layers
nine_run = refl

consume_fifo_layers_conserves_example :
    let after = (consume_fifo_layers 7 1 5 3 4 layered).1.layers in
    (pool_value 7 1 after + sum_costs 0 five_taken.layers ≡ pool_value 7 1 two_layers)
    × (five_taken.total_cost ≡ sum_costs 0 five_taken.layers + five_taken.fallback_cost)
    × (quantity_of five_taken.layers ≡ min 5 (pool 7 1 two_layers))
    × (pool 7 1 after + quantity_of five_taken.layers ≡ pool 7 1 two_layers)
consume_fifo_layers_conserves_example =
    consume_fifo_layers_conserves 7 1 5 3 4 layered layered-IsKeyed units-IsExact five_run

restore_refund_layer_lem_example :
    (out : CostLayer ℕ) × (restore_refund_layer 7 1 3 100 3 4 layered
      ≡ (ok tt, record layered { layers = two_layers ++ (out ∷ []); next_id = 10 }))
    × (out.total_cost ≡ 100)
    × (find_many (is_active_layer 7 1) (two_layers ++ (out ∷ []))
        ≡ find_many (is_active_layer 7 1) two_layers ++ (out ∷ []))
    × (pool 7 1 (two_layers ++ (out ∷ [])) ≡ pool 7 1 two_layers + 3)
restore_refund_layer_lem_example = restore_refund_layer_lem 7 1 3 100 3 4 layered (omega arith) refl

-- Five pieces less.
abbrev five_less : AdjustStockDto
five_less = record {
  product = 7;
  warehouse = 1;
  quantity = negsuc 4;
  reference_id = none;
  client_operation_id = none;
}

five_adjusted : (adjust_layers five_less 1 11 (some 14) layered).0 ≡ ok tt
unfolding adjust_layers consume_fifo_layers
five_adjusted = refl

adjust_layers_follow_example :
    pool 7 1 (adjust_layers five_less 1 11 (some 14) layered).1.layers ≡ pool 7 1 two_layers - 5
adjust_layers_follow_example =
    adjust_layers_follow five_less 1 11 14 layered layered-IsKeyed five_adjusted
