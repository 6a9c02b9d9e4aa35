-- ===== src/Node/Chain/Make.antt =====
-- `create_block`, `import_block` and `_ensure_genesis` of core/blockchain.py.
use absolute_blockchain_ulti.Base.{
  ℕ, ◌+◌, Bool, true, false, none, some, List, [], ◌∷◌, ok, raised, if◌then◌else◌, nat_eq, nat_beq,
  leb, not, ◌&&◌,
}
use absolute_blockchain_ulti.Base.Int.{ℤ, pos, ◌+ℤ◌, int_beq}
use absolute_blockchain_ulti.Base.Dict.{Dict, lookup, insert, or_else, is_some}
use absolute_blockchain_ulti.Node.Strings.{empty_string, genesis_name, genesis_hash}
use absolute_blockchain_ulti.Node.Tables.{Transaction, Block, Connection}
use absolute_blockchain_ulti.Node.Tokenomics.{genesis_balances}
use absolute_blockchain_ulti.Node.Db.Accounts.{get_nonce, set_balance}
use absolute_blockchain_ulti.Node.Db.Blocks.{
  get_block, get_last_block, get_chain_tip, save_block, truncate_all_blocks, or_string,
}
use absolute_blockchain_ulti.Node.Chain.State.{Node, Chain, Refusal}
use absolute_blockchain_ulti.Node.Chain.Checks.{Check, refuse_if, ◌>>◌, validate_transaction}
use absolute_blockchain_ulti.Node.Chain.Add.{add_block}
use absolute_blockchain_ulti.Node.Chain.Dicts.{
  BlockDict, normalize_block_dict, block_from_dict, validate_block_dict, new_block, first_of,
}

-- `_validate_tx_for_block`
unfoldable pub validate_tx_for_block : Node → Dict ℕ ℤ → Transaction → Connection → Check
unfolding get_nonce validate_transaction
validate_tx_for_block node cursor tx c =
    let expected = or_else (lookup tx.from_addr cursor) (pos (get_nonce tx.from_addr c)) in
    refuse_if (not (int_beq tx.nonce expected)) Refusal.nonce_mismatch_in_block
    >> validate_transaction node tx c

abbrev pub is_passed : Check → Bool
is_passed (ok _) = true
is_passed (raised _) = false

-- The loop of `create_block`: the transactions that pass, with the nonce that is then expected.
unfoldable pub select_txs : Node → Dict ℕ ℤ → List Transaction → Connection → List Transaction
unfolding validate_tx_for_block
select_txs node cursor [] c = []
select_txs node cursor (tx ∷ txs) c = elim (is_passed (validate_tx_for_block node cursor tx c)) [
  | true ↦ tx ∷ select_txs node (insert tx.from_addr (tx.nonce +ℤ pos 1) cursor) txs c
  | false ↦ select_txs node cursor txs c
]

-- `max(int(time.time()), parent_ts + 1)`
abbrev pub time_after : ℕ → ℕ → ℕ
time_after now parent = if leb now (parent + 1) then parent + 1 else now

unfoldable pub create_block : Node → ℕ → List Transaction → ℕ → Connection → Block
unfolding select_txs get_last_block new_block
create_block node now txs proposer c =
    let chosen = select_txs node [] txs c in
    let make = λ (height : ℕ) (parent : ℕ) (time : ℕ).
      new_block node.services height parent proposer chosen time empty_string
        node.config.node_version empty_string in
    elim (get_last_block c) [
      | none ↦ make 1 genesis_hash (time_after now 0)
      | some last ↦ make (last.height + 1) last.hash (time_after now last.timestamp)
    ]

-- What is hashed outside of the node's own services: a transaction, and the root of hashes.
pub record ImportHashes : Type 0 where
  pub hash_tx : Transaction → ℕ
  pub root_of_hashes : List ℕ → ℕ

-- The end of `import_block`, after the look at the block of the same height.
unfoldable pub import_checked : Node → ImportHashes → ℕ → BlockDict → Chain → Bool × Chain
unfolding validate_block_dict add_block block_from_dict get_last_block
import_checked node hashes now b chain =
    elim (validate_block_dict node.services.strings hashes.root_of_hashes now false b
      (get_last_block chain.db)) [
        | raised _ ↦ (false, chain)
        | ok _ ↦ add_block node now true (block_from_dict node.services hashes.hash_tx now b) chain
      ]

-- `truncate_all_blocks`, for another first block.
unfoldable pub drop_blocks : Chain → Chain
unfolding truncate_all_blocks
drop_blocks chain = record chain { db = (truncate_all_blocks chain.db).1 }

-- `height == 0 and existing.get("hash") != normalized.get("hash")`
abbrev pub is_other_genesis : BlockDict → ℕ → Block → Bool
is_other_genesis b height existing =
    nat_beq height 0 && (elim b.hash [ none ↦ true | some hash ↦ not (nat_beq existing.hash hash) ])

unfoldable pub import_block : Node → ImportHashes → ℕ → BlockDict → Chain → Bool × Chain
unfolding normalize_block_dict get_block import_checked drop_blocks
import_block node hashes now d chain =
    let b = normalize_block_dict d in
    let height = or_else (first_of b.height b.number) 0 in
    elim (get_block height chain.db) [
      | none ↦ import_checked node hashes now b chain
      | some existing ↦
          if is_other_genesis b height existing
          then import_checked node hashes now b (drop_blocks chain)
          else (false, chain)
    ]

-- The loop of `_ensure_genesis` over the allocation.
unfoldable pub set_balances : Dict ℕ ℕ → Connection → Connection
unfolding set_balance
set_balances [] c = c
set_balances ((a, amount) ∷ alloc) c = set_balances alloc (set_balance a amount c)

-- `_ensure_genesis`; the root of the state engine and the text of the first block are arguments.
unfoldable pub ensure_genesis : Node → ℕ → ℕ → ℕ → Connection → Connection
unfolding get_last_block get_chain_tip save_block set_balances genesis_balances new_block
ensure_genesis node now state_root text c =
    let founder = or_string node.config.founder_address node.config.miner_address in
    let genesis =
      new_block node.services 0 genesis_hash genesis_name [] now empty_string text state_root in
    if nat_beq (get_chain_tip c) 0 && not (is_some (get_last_block c))
    then set_balances (genesis_balances node.services.addresses founder)
        (save_block node.services.strings now genesis c)
    else c
