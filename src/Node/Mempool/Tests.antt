-- ===== src/Node/Mempool/Tests.antt =====
-- A pool with ten places, and transactions of rising fees.
use absolute_blockchain_ulti.Base.{
  ℕ, ◌+◌, ◌≡◌, refl, true, false, none, List, [], ◌∷◌, ok, nat_eq, arith, take, map, length, All,
  inl, ◌⊎◌,
}
use absolute_blockchain_ulti.Base.Int.{pos, ◌≤ℤ◌}
use absolute_blockchain_ulti.Base.Dict.{lookup, insert, erase}
use absolute_blockchain_ulti.Node.Mempool.Defs.{
  MempoolTransaction, Mempool, Inputs, insert_cheap, cheapest_first, delete_all, cleanup, store,
  add_tx, add_raw, remove_tx, validate_mempool_tx, has_valid_signature, validate_amount, best_paid,
  paying, insert_dear, dearest_first,
}
use absolute_blockchain_ulti.Node.Mempool.Best.{IsAmong, best_paid_complete}
use absolute_blockchain_ulti.Node.Mempool.Within.{
  MempoolCall, by_add, by_add_raw, by_remove, serve, serve_all, IsWithin, serve_all-IsWithin,
}

abbrev inputs : Inputs
inputs = record {
  len = λ a. 42;
  valid_address = λ a. true;
  too_precise = λ a. false;
  verify = λ tx. ok true;
}

abbrev offer : ℕ → MempoolTransaction
offer n = record {
  tx_hash = n;
  from_addr = 100 + n;
  to_addr = 200;
  amount = pos 7;
  fee = pos n;
  nonce = pos 0;
  signature = 1;
  public_key = 1;
  call_data = 0;
  gas = pos 21000;
}

abbrev empty_pool : Mempool
empty_pool = record {
  transactions = [];
  max_size = 10;
  min_fee = pos 2;
  rejected_count = 0;
  require_signatures = true;
}

-- The fees 2 to 12, which overfill the pool, then one that pays too little, one that is known, and
-- a removal.
abbrev calls : List MempoolCall
calls =
    by_add none 5 (offer 6)
    ∷ by_add_raw (offer 2)
    ∷ by_add none 5 (offer 3)
    ∷ by_add none 5 (offer 4)
    ∷ by_add none 5 (offer 5)
    ∷ by_add none 5 (offer 7)
    ∷ by_add none 5 (offer 8)
    ∷ by_add none 5 (offer 9)
    ∷ by_add none 5 (offer 10)
    ∷ by_add none 5 (offer 11)
    ∷ by_add none 5 (offer 12)
    ∷ by_add none 5 (offer 1)
    ∷ by_add none 5 (offer 4)
    ∷ by_remove 7
    ∷ []

serve_all-IsWithin_example : IsWithin (serve_all inputs calls empty_pool)
serve_all-IsWithin_example =
    serve_all-IsWithin inputs calls empty_pool (omega arith, (omega arith, tt))

-- The cheapest transaction made room, and one call was refused.
after_calls :
    map (λ tx. tx.tx_hash) (best_paid 20 (pos 0) (serve_all inputs calls empty_pool))
    ≡ 12 ∷ 11 ∷ 10 ∷ 9 ∷ 8 ∷ 6 ∷ 5 ∷ 4 ∷ 3 ∷ []
unfolding lookup insert erase insert_cheap cheapest_first delete_all cleanup store add_tx add_raw
    remove_tx validate_mempool_tx has_valid_signature validate_amount best_paid paying insert_dear
    dearest_first serve serve_all take
after_calls = refl

abbrev three_offers : Mempool
three_offers = record empty_pool { transactions = (3, offer 3) ∷ (9, offer 9) ∷ (6, offer 6) ∷ [] }

best_paid_complete_example :
    IsAmong (offer 3) (best_paid 2 (pos 1) three_offers)
    ⊎ ((length (best_paid 2 (pos 1) three_offers) ≡ 2)
        × All (λ u. pos 3 ≤ℤ u.fee) (best_paid 2 (pos 1) three_offers))
best_paid_complete_example =
    best_paid_complete 2 (pos 1) three_offers (offer 3) (inl refl) (omega arith)
