-- ===== src/Tests/Keys.antt =====
-- Idempotent runs at concrete stores: the business state is a counter, a body a number.
use stock_flow.Idempotency.Running.{run_once, run_live, run_absent, reserve_key_total, params}
use stock_flow.Prelude.{◌≢◌, ◌≡◌, ◌∷◌, ◌+◌, ℕ, some, refl, arith, []}
use stock_flow.Tx.{out_of_fuel, ok, err, conflict, bad_request, Tx}
use stock_flow.Idempotency.{
  run_with_idempotency, reserve_within, reserve_key, insert_reservation, Store, IdempotencyRecord,
}

abbrev counted : Tx ℕ ℕ
counted n = (ok (n + 100), n + 1)

abbrev failing : Tx ℕ ℕ
failing n = (err bad_request, n + 1)

abbrev empty_store : Store ℕ ℕ
empty_store = record { business = 5; records = []; next_id = 1 }

abbrev old_record : IdempotencyRecord ℕ
old_record = record {
  id = 1;
  company = 3;
  idempotency_key = 8;
  endpoint = 2;
  request_hash = 77;
  response_status = 0;
  response_body = 0;
  expires_at = 1000;
}

abbrev held_store : Store ℕ ℕ
held_store = record { business = 5; records = old_record ∷ []; next_id = 2 }

-- The run of a mutation with the key 8 in company 3.
abbrev run_key : ℕ → ℕ → Tx ℕ ℕ → Tx (Store ℕ ℕ) (ℕ × ℕ)
run_key hash now work = run_with_idempotency 0 (λ b. b) (some 8) 3 2 hash now 201 work

first_run : (run_key 77 50 counted empty_store).0 ≡ ok (201, 105)
unfolding run_with_idempotency reserve_within insert_reservation
first_run = refl

pending_run : run_key 77 50 counted held_store ≡ (err conflict, held_store)
unfolding run_with_idempotency reserve_within insert_reservation
pending_run = refl

expired_run : (run_key 77 2000 counted held_store).0 ≡ ok (201, 105)
unfolding run_with_idempotency reserve_within insert_reservation
expired_run = refl

failed_run : run_key 77 50 failing empty_store ≡ (err bad_request, empty_store)
unfolding run_with_idempotency reserve_within insert_reservation
failed_run = refl

run_once_example :
    ((run_key 77 50 counted empty_store).0 ≡ ok (201, 105))
    × ((run_key 77 50 counted empty_store).1.business ≡ 6)
    × (run_key 77 60 counted (run_key 77 50 counted empty_store).1
        ≡ (ok (201, 105), (run_key 77 50 counted empty_store).1))
run_once_example =
    run_once 0 (λ b. b) 3 8 2 77 50 201 counted empty_store 105 2 77 60 201 counted refl
      (omega arith) refl (omega arith)

run_absent_example : run_key 77 50 failing empty_store ≡ (err bad_request, empty_store)
run_absent_example = run_absent 0 (λ b. b) 3 8 2 77 50 201 failing empty_store refl

run_live_example : run_key 77 50 counted held_store ≡ (err conflict, held_store)
run_live_example =
    run_live 0 (λ b. b) 3 8 2 77 50 201 counted held_store old_record refl (omega arith)

reserve_key_total_example : (reserve_key 0 (params 3 8 2 77 2000) held_store).0 ≢ err out_of_fuel
reserve_key_total_example = reserve_key_total 0 (params 3 8 2 77 2000) held_store
