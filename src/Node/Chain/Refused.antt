-- ===== src/Node/Chain/Refused.antt =====
-- What `add_block` of core/blockchain.py leaves behind when it returns false.
use absolute_blockchain_ulti.Base.{
  ℕ, ◌≤◌, ◌≡◌, refl, ap, Bool, true, false, none, List, [], ◌∷◌, nat_eq, arith, Option-cases,
  Result-cases, Bool-cases, inl, inr, All, ◌++◌, length, ◌&&◌,
}
use absolute_blockchain_ulti.Base.Int.{ℤ, pos, ◌-ℤ◌}
use absolute_blockchain_ulti.Base.Dict.{is_some, lookup}
use mathlib.Core.List.{append-nil}
use absolute_blockchain_ulti.Node.Strings.{non_empty}
use absolute_blockchain_ulti.Node.Tables.{Transaction, Block, Connection, MismatchRow}
use absolute_blockchain_ulti.Node.Db.Accounts.{
  atomic, commit, rollback, balance_delta, nonce_increment,
}
use absolute_blockchain_ulti.Node.Db.Blocks.{get_block, record_state_root_mismatch}
use absolute_blockchain_ulti.Node.Db.Persist.{persist_block_locked}
use absolute_blockchain_ulti.Node.Pools.Locks.{pool_state, record_outgoing}
use absolute_blockchain_ulti.Node.Chain.State.{Node, Config, Chain}
use absolute_blockchain_ulti.Node.Chain.Checks.{evm_of, total_cost, fee_of}
use absolute_blockchain_ulti.Node.Chain.Apply.{
  apply_block_reward, apply_transaction, execute, settle_transfer, pay, pay_burn, pay_fee,
  next_nonce, note_outgoing, payee, check_transaction,
}
use absolute_blockchain_ulti.Node.Chain.Proposals.{SlashedAtMost, execute_block-SlashedAtMost}
use absolute_blockchain_ulti.Node.Chain.Add.{
  apply_transactions, after_transactions, execute_block, finish_block, conclude, check_block,
  add_block, Failure, audit_failure,
}

-- What was committed has not changed, nor what the pools have spent, nor the blocks.
abbrev pub Uncommitted : Connection → Connection → Type 0
Uncommitted c c' =
    (c'.saved ≡ c.saved)
    × (c'.live.pool_locks_state ≡ c.live.pool_locks_state)
    × (c'.live.blocks ≡ c.live.blocks)

pay-Uncommitted : (a : ℕ) (d : ℤ) (c : Connection) → Uncommitted c (pay true a d c)
unfolding pay balance_delta
pay-Uncommitted a d c = (refl, refl, refl)

pay_fee-Uncommitted :
    (config : Config) (tx : Transaction) (proposer : ℕ) (fee : ℤ) (c : Connection)
    → Uncommitted c (pay_fee config true tx proposer fee c)
unfolding pay_fee pay_burn pay balance_delta next_nonce nonce_increment
pay_fee-Uncommitted config tx proposer fee c = ground arith

-- The sender is none of the pools.
abbrev pub is_pool : ℕ → Connection → Bool
is_pool a c = is_some (lookup a (pool_state c).pools)

settle_transfer-Uncommitted :
    (node : Node) (tx : Transaction) (height proposer : ℕ) (c : Connection)
    → is_pool tx.from_addr c ≡ false
    → Uncommitted c (settle_transfer node true tx height proposer c).1
unfolding settle_transfer note_outgoing record_outgoing pool_state
settle_transfer-Uncommitted node tx height proposer c h =
    let cost = total_cost node.config tx in
    let debited = pay true tx.from_addr (pos 0 -ℤ cost) c in
    let credited = pay true tx.to_addr tx.value debited in
    let done = pay_fee node.config true tx proposer (fee_of node.config tx) credited in
    let a = pay-Uncommitted tx.from_addr (pos 0 -ℤ cost) c in
    let b = pay-Uncommitted tx.to_addr tx.value debited in
    let d = pay_fee-Uncommitted node.config tx proposer (fee_of node.config tx) credited in
    elim (Option-cases (lookup tx.from_addr (pool_state done).pools)) [
      | inl e ↦ ground (arith, a, b, d, e)
      | inr (p, e) ↦ ground (arith, a, b, d, e, h)
    ]

-- A transaction without a contract, from an address that is no pool's.
abbrev pub IsQuiet : Node → Connection → Transaction → Type 0
IsQuiet node c tx = (evm_of node tx ≡ none) × (is_pool tx.from_addr c ≡ false)

apply_transaction-Uncommitted :
    (node : Node) (tx : Transaction) (height proposer : ℕ) (c : Connection)
    → IsQuiet node c tx
    → Uncommitted c (apply_transaction node true tx height proposer c).1
unfolding apply_transaction execute
apply_transaction-Uncommitted node tx height proposer c h =
    elim (Result-cases (check_transaction node tx c)) [
      | inl (u, e) ↦ ground (
        arith,
        e,
        h.0,
        settle_transfer-Uncommitted node tx height (payee node.config proposer) c h.1,
      )
      | inr (f, e) ↦ ground (arith, e)
    ]

pub IsQuiet-later :
    (node : Node) (c c' : Connection) (txs : List Transaction)
    → c'.live.pool_locks_state ≡ c.live.pool_locks_state
    → All (IsQuiet node c) txs
    → All (IsQuiet node c') txs
unfolding pool_state
IsQuiet-later node c c' [] u h = tt
IsQuiet-later node c c' (tx ∷ txs) u h =
    ((h.0.0, ground (arith, u, h.0.1)), IsQuiet-later node c c' txs u h.1)

pub apply_transactions-Uncommitted :
    (node : Node) (height miner : ℕ) (txs : List Transaction) (c : Connection)
    → All (IsQuiet node c) txs
    → Uncommitted c (apply_transactions node height miner txs c).1
unfolding apply_transactions
apply_transactions-Uncommitted node height miner [] c h = (refl, refl, refl)
apply_transactions-Uncommitted node height miner (tx ∷ txs) c h =
    let r = apply_transaction node true tx height miner c in
    let u = apply_transaction-Uncommitted node tx height miner c h.0 in
    let v =
      apply_transactions-Uncommitted node height miner txs r.1
        (IsQuiet-later node c r.1 txs u.1 h.1) in
    let rest = apply_transactions node height miner txs r.1 in
    elim (Result-cases r.0) [
      | inr (f, e) ↦ ground (arith, e, u)
      | inl (tx', e) ↦ elim (Result-cases rest.0) [
        | inr (f, k) ↦ ground (arith, e, k, u, v)
        | inl (s, k) ↦ ground (arith, e, k, u, v)
      ]
    ]

-- The body of `atomic()` commits nothing.
saved-execute_block :
    (node : Node) (now : ℕ) (preserve : Bool) (block : Block) (chain : Chain)
    → All (IsQuiet node chain.db) block.transactions
    → (execute_block node now preserve block chain chain.db).1.saved ≡ chain.db.saved
unfolding execute_block after_transactions finish_block persist_block_locked apply_block_reward pay
    balance_delta
saved-execute_block node now preserve block chain h =
    let r = apply_transactions node block.height block.miner block.transactions chain.db in
    let u =
      apply_transactions-Uncommitted node block.height block.miner block.transactions chain.db h in
    elim (Result-cases r.0) [
      | inr (f, e) ↦ ground (arith, e, u)
      | inl (done, e) ↦ ground (arith, e, u)
    ]

-- The connection with rows more in the table of mismatches, all committed.
abbrev pub with_mismatches : List MismatchRow → Connection → Connection
with_mismatches rows c =
    let t = record (c.live) { state_root_mismatches = c.live.state_root_mismatches ++ rows } in
    record { live = t; saved = t }

-- No transaction of the database is open.
abbrev pub IsClosed : Connection → Type 0
IsClosed c = c.live ≡ c.saved

-- Nothing but at most one row about a mismatch.
abbrev pub OnlyAudited : Connection → Connection → Type 0
OnlyAudited c c' = (rows : List MismatchRow) × (length rows ≤ 1) × (c' ≡ with_mismatches rows c)

unchanged-OnlyAudited : (c : Connection) → IsClosed c → OnlyAudited c c
unchanged-OnlyAudited c h =
    ([], omega arith, ground (arith, h, append-nil c.live.state_root_mismatches))

pub with_unchanged : (c c' : Connection) → IsClosed c → c' ≡ c → OnlyAudited c c'
with_unchanged c c' h e = rw e (unchanged-OnlyAudited c h)

audit_failure-OnlyAudited :
    (node : Node) (now : ℕ) (preserve : Bool) (block : Block) (failure : Failure) (c : Connection)
    → IsClosed c
    → OnlyAudited c (audit_failure node now preserve block failure c)
unfolding audit_failure record_state_root_mismatch commit
audit_failure-OnlyAudited node now preserve block failure c h = elim (Option-cases failure.roots) [
  | inl e ↦ rw e (unchanged-OnlyAudited c h)
  | inr (roots, e) ↦ elim (Bool-cases (non_empty roots.0 && non_empty roots.1)) [
    | inr k ↦ rw e (rw k (unchanged-OnlyAudited c h))
    | inl k ↦ rw e (rw k (_, omega arith, refl))
  ]
]

unchanged_chain :
    (now : ℕ) (block : Block) (chain chain' : Chain)
    → IsClosed chain.db
    → chain' ≡ chain
    → OnlyAudited chain.db chain'.db
      × (chain'.state_root_baseline ≡ chain.state_root_baseline)
      × SlashedAtMost now block chain.slashing chain'.slashing
unchanged_chain now block chain chain' closed e = (
  with_unchanged chain.db chain'.db closed (ap (λ c. c.db) e),
  ap (λ c. c.state_root_baseline) e,
  inl (ap (λ c. c.slashing) e),
)

pub add_block_refused :
    (node : Node) (now : ℕ) (preserve : Bool) (block : Block) (chain chain' : Chain)
    → IsClosed chain.db
    → All (IsQuiet node chain.db) block.transactions
    → add_block node now preserve block chain ≡ (false, chain')
    → OnlyAudited chain.db chain'.db
      × (chain'.state_root_baseline ≡ chain.state_root_baseline)
      × SlashedAtMost now block chain.slashing chain'.slashing
unfolding add_block conclude atomic rollback
add_block_refused node now preserve block chain chain' closed quiet h =
    let unchanged = λ (e : chain' ≡ chain). unchanged_chain now block chain chain' closed e in
    elim (Option-cases (get_block block.height chain.db)) [
      | inr (old, e) ↦ unchanged (ground (arith, h))
      | inl e ↦ elim (Result-cases (check_block node block chain)) [
        | inr (f, k) ↦ unchanged (ground (arith, h))
        | inl (_, k) ↦
            elim (Result-cases (execute_block node now preserve block chain chain.db).0) [
              | inl (s, l) ↦ absurd (ground arith)
              | inr (f, l) ↦
                  let failed = execute_block node now preserve block chain chain.db in
                  let back = saved-execute_block node now preserve block chain quiet in
                  let left : Chain = record chain {
                    db = audit_failure node now preserve block f (rollback failed.1);
                    slashing = f.slashing;
                  } in
                  let ended : chain' ≡ left = ground (arith, h, e, k, l) in
                  let r : rollback failed.1 ≡ chain.db = ground (arith, back, closed) in
                  (
                    rw (ap (λ c. c.db) ended) (
                        rw r (audit_failure-OnlyAudited node now preserve block f chain.db closed)),
                    ap (λ c. c.state_root_baseline) ended,
                    rw (ap (λ c. c.slashing) ended) (
                        execute_block-SlashedAtMost node now preserve block chain chain.db {f = f}
                          l),
                  )
            ]
      ]
    ]
