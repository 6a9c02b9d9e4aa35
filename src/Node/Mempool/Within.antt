-- ===== src/Node/Mempool/Within.antt =====
-- The pool of blockchain/mempool.py over any sequence of calls: its size and its fees.
use absolute_blockchain_ulti.Base.{
  ℕ, ◌+◌, ◌*◌, ◌/◌, ◌≤◌, ◌≡◌, Bool, true, Option, List, [], ◌∷◌, arith, nat_eq, leb, ltb, not,
  length, take, All, Bool-cases, either, inl, inr,
}
use absolute_blockchain_ulti.Base.Int.{ℤ, ltb_ℤ, ◌≤ℤ◌}
use absolute_blockchain_ulti.Base.Dict.{insert, contains, values}
use absolute_blockchain_ulti.Node.Tables.{Connection}
use absolute_blockchain_ulti.Node.Chain.State.{Node}
use absolute_blockchain_ulti.Node.Mempool.Defs.{
  MempoolTransaction, Mempool, Inputs, cheapest_first, cleanup, store, add_tx, add_raw, remove_tx,
  validate_mempool_tx, has_valid_signature, chain_accepts,
}
use absolute_blockchain_ulti.Node.Mempool.Size.{
  IsEntry, insert-All, erase-All, length-insert_le, length-erase_le, length-delete_all_le,
  length-values, contains-All, cheapest_first-All, length-cheapest_first, length-delete_all,
  delete_all-All,
}

-- Entries that pay the least fee, and no more than fit into a pool with ten places or more.
abbrev pub IsWithin : Mempool → Type 0
IsWithin pool =
    (10 ≤ pool.max_size)
    × ((length pool.transactions ≤ pool.max_size) × All (IsEntry pool.min_fee) pool.transactions)

length-cleanup :
    (pool : Mempool)
    → IsWithin pool
    → pool.max_size ≤ length pool.transactions
    → length ((cleanup pool).transactions) + 1 ≤ pool.max_size
unfolding cleanup
length-cleanup pool h full =
    let txs = cheapest_first (values pool.transactions) in
    let size = length pool.transactions in
    let fewer =
      length-delete_all (size / 10) txs pool.transactions (omega (arith, h.0, full))
        (omega (
          arith,
          h.0,
          full,
          length-cheapest_first (values pool.transactions),
          length-values pool.transactions,
        ))
        (cheapest_first-All (λ tx. contains tx.tx_hash pool.transactions ≡ true)
          (values pool.transactions) (contains-All pool.min_fee pool.transactions h.1.1)) in
    ground (arith, fewer, h.1.0, full, h.0)

cleanup-IsWithin : (pool : Mempool) → IsWithin pool → IsWithin (cleanup pool)
unfolding cleanup
cleanup-IsWithin pool h =
    elim (Bool-cases (ltb (10 * length pool.transactions) (8 * pool.max_size))) [
      | inl q ↦ rw q h
      | inr q ↦
          let out =
            take (length pool.transactions / 10) (cheapest_first (values pool.transactions)) in
          rw q (
            h.0,
            (
              omega (arith, h.1.0, length-delete_all_le out pool.transactions),
              delete_all-All pool.min_fee out pool.transactions h.1.1,
            ),
          )
    ]

min_fee-cleanup : (pool : Mempool) → (cleanup pool).min_fee ≡ pool.min_fee
unfolding cleanup
min_fee-cleanup pool = ground arith

max_size-cleanup : (pool : Mempool) → (cleanup pool).max_size ≡ pool.max_size
unfolding cleanup
max_size-cleanup pool = ground arith

insert-IsWithin :
    (tx : MempoolTransaction) (pool : Mempool)
    → pool.min_fee ≤ℤ tx.fee
    → length pool.transactions + 1 ≤ pool.max_size
    → IsWithin pool
    → IsWithin (record pool { transactions = insert tx.tx_hash tx pool.transactions })
insert-IsWithin tx pool f room h = (
  h.0,
  (
    omega (arith, room, length-insert_le tx.tx_hash tx pool.transactions),
    insert-All pool.min_fee tx pool.transactions f h.1.1,
  ),
)

store-IsWithin :
    (tx : MempoolTransaction) (pool : Mempool)
    → pool.min_fee ≤ℤ tx.fee
    → IsWithin pool
    → IsWithin (store tx pool)
unfolding store
store-IsWithin tx pool f h = elim (Bool-cases (leb pool.max_size (length pool.transactions))) [
  | inl q ↦ rw q (
      insert-IsWithin tx (cleanup pool) (rw (min_fee-cleanup pool) f)
        (rw (max_size-cleanup pool) (length-cleanup pool h (ground (arith, q))))
        (cleanup-IsWithin pool h))
  | inr q ↦ rw q (insert-IsWithin tx pool f (ground (arith, q)) h)
]

validate_mempool_tx_pays :
    (inputs : Inputs) (least : ℤ) (tx : MempoolTransaction)
    → validate_mempool_tx inputs least tx ≡ true
    → least ≤ℤ tx.fee
unfolding validate_mempool_tx
validate_mempool_tx_pays inputs least tx h = ground (arith, h)

add_tx-IsWithin :
    (inputs : Inputs) (chain : Option (Node × Connection)) (now : ℕ) (tx : MempoolTransaction)
    (pool : Mempool)
    → IsWithin pool
    → IsWithin ((add_tx inputs chain now tx pool).1)
unfolding add_tx
add_tx-IsWithin inputs chain now tx pool h =
    elim (Bool-cases (validate_mempool_tx inputs pool.min_fee tx)) [
      | inl v ↦
          let within = λ (answer : Bool × Mempool). IsWithin (answer.1) in
          let kept = store-IsWithin tx pool (validate_mempool_tx_pays inputs pool.min_fee tx v) h in
          rw v (
            either within (contains tx.tx_hash pool.transactions) _ _ h (
              either within (not (has_valid_signature inputs pool.require_signatures tx)) _ _ h
                (either within (not (chain_accepts chain now tx)) _ _ h kept)))
      | inr v ↦ ground (arith, v, h)
    ]

add_raw-IsWithin :
    (tx : MempoolTransaction) (pool : Mempool) → IsWithin pool → IsWithin ((add_raw tx pool).1)
unfolding add_raw
add_raw-IsWithin tx pool h = elim (Bool-cases (contains tx.tx_hash pool.transactions)) [
  | inl q ↦ rw q h
  | inr q ↦ elim (Bool-cases (ltb_ℤ tx.fee pool.min_fee)) [
    | inl cheap ↦ rw (q, cheap) h
    | inr pays ↦ rw (q, pays) (store-IsWithin tx pool (ground (arith, pays)) h)
  ]
]

remove_tx-IsWithin :
    (hash : ℕ) (pool : Mempool) → IsWithin pool → IsWithin ((remove_tx hash pool).1)
unfolding remove_tx
remove_tx-IsWithin hash pool h = (
  h.0,
  (
    omega (arith, h.1.0, length-erase_le hash pool.transactions),
    erase-All pool.min_fee hash pool.transactions h.1.1,
  ),
)

pub data MempoolCall : Type 0 where
  by_add : Option (Node × Connection) → ℕ → MempoolTransaction → MempoolCall
  by_add_raw : MempoolTransaction → MempoolCall
  by_remove : ℕ → MempoolCall

unfoldable pub serve : Inputs → MempoolCall → Mempool → Mempool
unfolding add_tx add_raw remove_tx
serve inputs (by_add chain now tx) pool = (add_tx inputs chain now tx pool).1
serve inputs (by_add_raw tx) pool = (add_raw tx pool).1
serve inputs (by_remove hash) pool = (remove_tx hash pool).1

unfoldable pub serve_all : Inputs → List MempoolCall → Mempool → Mempool
unfolding serve
serve_all inputs [] pool = pool
serve_all inputs (call ∷ calls) pool = serve_all inputs calls (serve inputs call pool)

serve-IsWithin :
    (inputs : Inputs) (call : MempoolCall) (pool : Mempool)
    → IsWithin pool
    → IsWithin (serve inputs call pool)
unfolding serve
serve-IsWithin inputs (by_add chain now tx) pool h = add_tx-IsWithin inputs chain now tx pool h
serve-IsWithin inputs (by_add_raw tx) pool h = add_raw-IsWithin tx pool h
serve-IsWithin inputs (by_remove hash) pool h = remove_tx-IsWithin hash pool h

-- A pool with ten places or more, whatever calls come in whatever order: it never holds more
-- than its places, every entry stands under the hash of its transaction, and each pays the least
-- fee.
pub serve_all-IsWithin :
    (inputs : Inputs) (calls : List MempoolCall) (pool : Mempool)
    → IsWithin pool
    → IsWithin (serve_all inputs calls pool)
unfolding serve_all
serve_all-IsWithin inputs [] pool h = h
serve_all-IsWithin inputs (call ∷ calls) pool h =
    serve_all-IsWithin inputs calls (serve inputs call pool) (serve-IsWithin inputs call pool h)
