-- ===== src/Idempotency/Running.antt =====
-- A mutation with a key has its effect once.
use stock_flow.Idempotency.Reserving.{length-without, reserve_live, reserve_expired, reserve_absent}
use stock_flow.Tx.{
  unprocessable_entity, conflict, transaction, out_of_fuel, ok, err, Tx, Result-cases,
}
use stock_flow.Idempotency.{
  ttl_ms, pending_status, without, run_with_idempotency, reserve_within, reserve_key, reservation,
  on_business, is_record_of, is_pending, complete, Store, ReserveParams, IdempotencyRecord,
}
use stock_flow.Prelude.{
  find_first-append_one, false, ◌∙◌, ◌==◌, ◌+◌, true, refl, not, if◌then◌else◌,
  find_first-update_many, ◌≢◌, ◌≡◌, ◌∷◌, ◌<◌, ◌++◌, ℕ, zero, update_many, suc, some, none, ltb,
  length, inr, inl, find_first, arith, [], Option-cases, List, Bool-cases,
}

module _ {S B : Type 0} (pending_body : B) where
  -- With more fuel than records the recursion ends.
  reserve_within_total :
      (fuel : ℕ) (p : ReserveParams) (s : Store S B)
      → length s.records < fuel
      → (reserve_within pending_body fuel p s).0 ≢ err out_of_fuel
  reserve_within_total zero p s h = absurd (omega arith)
  reserve_within_total (suc fuel) p s h =
      let q = is_record_of p.company p.idempotency_key in
      elim (Option-cases (find_first q s.records)) [
        | inl absent ↦ ground (arith, reserve_absent pending_body p s fuel absent)
        | inr (r, found) ↦ elim (Bool-cases (ltb p.now r.expires_at)) [
          | inl live ↦ ground (arith, reserve_live pending_body p s fuel r found (ground arith))
          | inr expired ↦
              let shorter = length-without q s.records r found in
              let rest =
                reserve_within_total fuel p (record s { records = without r.id s.records })
                  (omega arith) in
              rw (reserve_expired pending_body p s fuel r found (ground arith)) rest
        ]
      ]

  -- `reserve` always ends: each repetition has deleted a record, and it has fuel for all of them.
  pub reserve_key_total :
      (p : ReserveParams) (s : Store S B) → (reserve_key pending_body p s).0 ≢ err out_of_fuel
  unfolding reserve_key
  reserve_key_total p s = reserve_within_total (suc (length s.records)) p s (omega arith)

module _ (company key : ℕ) where
  abbrev pub params : ℕ → ℕ → ℕ → ReserveParams
  params endpoint hash now = record {
    company = company;
    idempotency_key = key;
    endpoint = endpoint;
    request_hash = hash;
    expires_at = none;
    now = now;
  }

module _ {S B : Type 0} (pending_body : B) (to_json : B → B) (company key : ℕ) where
  -- The records after a first run.
  abbrev pub records_after : ReserveParams → ℕ → B → Store S B → List (IdempotencyRecord B)
  records_after p status body s =
      update_many (is_pending company key)
        (λ r. record r { response_status = status; response_body = to_json body })
        (s.records ++ (reservation pending_body p s.next_id ∷ []))

  -- Without a record of the key, the work runs once in the same transaction as its record; if it
  -- fails, neither is left.
  pub run_absent :
      (endpoint hash now status : ℕ) (work : Tx S B) (s : Store S B)
      → find_first (is_record_of company key) s.records ≡ none
      → run_with_idempotency pending_body to_json (some key) company endpoint hash now status work s
        ≡ (elim (work s.business).0 [
          | err e ↦ (err e, s)
          | ok body ↦ (
            ok (status, body),
            record {
              business = (work s.business).1;
              records = records_after (params company key endpoint hash now) status body s;
              next_id = suc s.next_id;
            },
          )
        ])
  unfolding run_with_idempotency reserve_key transaction complete on_business
  run_absent endpoint hash now status work s absent =
      let first =
        reserve_absent pending_body (params company key endpoint hash now) s (length s.records)
          absent in
      elim (Result-cases (work s.business).0) [
        | inl (body, good) ↦ ground (arith, first, good)
        | inr (e, bad) ↦ ground (arith, first, bad)
      ]

  -- A record that has not expired decides the run, whatever the work, and nothing is written: another
  -- payload hash is refused as unprocessable, a pending record as a conflict, and otherwise the stored
  -- status and body are answered.
  pub run_live :
      (endpoint hash now status : ℕ) (work : Tx S B) (s : Store S B) (r : IdempotencyRecord B)
      → find_first (is_record_of company key) s.records ≡ some r
      → now < r.expires_at
      → run_with_idempotency pending_body to_json (some key) company endpoint hash now status work s
        ≡ (
          (if not (r.request_hash == hash)
              then err unprocessable_entity
              else (if r.response_status == pending_status
                  then err conflict
                  else ok (r.response_status, r.response_body))),
          s,
        )
  unfolding run_with_idempotency reserve_key transaction
  run_live endpoint hash now status work s r found live =
      let first =
        reserve_live pending_body (params company key endpoint hash now) s (length s.records) r
          found live in
      ground (arith, first)

  -- What is found after a first run.
  records_after_found :
      (endpoint hash now status : ℕ) (body : B) (s : Store S B)
      → find_first (is_record_of company key) s.records ≡ none
      → let p = params company key endpoint hash now in
        find_first (is_record_of company key) (records_after p status body s)
        ≡ some (record (reservation pending_body p s.next_id) {
          response_status = status;
          response_body = to_json body;
        })
  records_after_found endpoint hash now status body s absent =
      let p = params company key endpoint hash now in
      let mine : is_record_of company key (reservation pending_body p s.next_id) ≡ true =
        ground arith in
      let waits : is_pending company key (reservation pending_body p s.next_id) ≡ true =
        ground arith in
      find_first-update_many (is_pending company key) (is_record_of company key) _ _ _
        (find_first-append_one (is_record_of company key) s.records
          (reservation pending_body p s.next_id) absent mine)
        waits (λ y. refl)

  -- Without a record of the key, and with a response status that is not the pending one: when a first
  -- run succeeds, it answers what its work returns and leaves what the work leaves; and any second run
  -- with the key, before the record expires after 24 hours, does no work and writes nothing. With the
  -- payload hash of the first it answers the first's status and its body as JSON keeps it; with
  -- another hash it is refused as unprocessable.
  pub run_once :
      (endpoint hash now status : ℕ) (work : Tx S B) (s : Store S B) (body : B)
      (endpoint' hash' now' status' : ℕ) (work' : Tx S B)
      → find_first (is_record_of company key) s.records ≡ none
      → 0 < status
      → (work s.business).0 ≡ ok body
      → now' < now + ttl_ms
      → let first =
          run_with_idempotency pending_body to_json
            (some key)
            company
            endpoint
            hash
            now
            status
            work
            s in
        (first.0 ≡ ok (status, body))
        × (first.1.business ≡ (work s.business).1)
        × (run_with_idempotency pending_body to_json
              (some key)
              company
              endpoint'
              hash'
              now'
              status'
              work'
              first.1
            ≡ (
              (if hash == hash' then ok (status, to_json body) else err unprocessable_entity),
              first.1,
            ))
  run_once endpoint hash now status work s body endpoint' hash' now' status' work' absent real good
        soon =
      let done = run_absent endpoint hash now status work s absent in
      let after : Store S B = record {
        business = (work s.business).1;
        records = records_after (params company key endpoint hash now) status body s;
        next_id = suc s.next_id;
      } in
      let found = records_after_found endpoint hash now status body s absent in
      let whole : run_with_idempotency pending_body to_json (some key) company endpoint hash now
            status work s
          ≡ (ok (status, body), after) =
        done ∙ simp good refl in
      let second = run_live endpoint' hash' now' status' work' after _ found soon in
      let answered : (status == pending_status) ≡ false = ground arith in
      rw whole (
        refl,
        refl,
        elim (Bool-cases (hash == hash')) [
          | inl same ↦ second ∙ rw (same, answered) refl
          | inr other ↦ second ∙ rw (other) refl
        ],
      )
