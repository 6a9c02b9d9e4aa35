-- ===== src/Node/Chain/Rollback.antt =====
-- `reorg_to_ancestor` of core/blockchain.py and the calls around it: the blocks above a height go, and
-- the accounts are made again from the first allocation and the blocks that stay.
use absolute_blockchain_ulti.Base.{
  ℕ, zero, suc, ◌+◌, Bool, true, false, Option, none, some, [], Result, ok, raised, if◌then◌else◌,
  nat_eq, nat_beq, leb, ltb, not, ◌&&◌, ◌||◌,
}
use absolute_blockchain_ulti.Node.Strings.{non_empty, genesis_hash}
use absolute_blockchain_ulti.Node.Tables.{Block, Connection}
use absolute_blockchain_ulti.Node.Tokenomics.{genesis_balances}
use absolute_blockchain_ulti.Node.Db.Accounts.{on_live, alloc_rows, atomic}
use absolute_blockchain_ulti.Node.Db.Blocks.{
  get_block, get_block_by_hash, get_chain_tip, delete_above,
}
use absolute_blockchain_ulti.Node.Chain.State.{Node, Chain, Refusal}
use absolute_blockchain_ulti.Node.Chain.Apply.{apply_block_reward}
use absolute_blockchain_ulti.Node.Chain.Add.{run_on, apply_transactions, compute_state_root}

unfoldable pub set_state_root_baseline : ℕ → Chain → Chain
set_state_root_baseline height chain = record chain { state_root_baseline = height }

unfoldable pub find_ancestor_height : ℕ → Connection → Option ℕ
unfolding get_block_by_hash
find_ancestor_height parent_hash c =
    if not (non_empty parent_hash) || nat_beq parent_hash genesis_hash
    then some 0
    else elim (get_block_by_hash parent_hash c) [ none ↦ none | some b ↦ some b.height ]

-- The transactions of one block again, and its reward.
unfoldable pub replay_block : Node → Block → Connection → Result Refusal Unit × Connection
unfolding apply_transactions apply_block_reward
replay_block node block c =
    run_on (apply_transactions node block.height block.miner block.transactions c)
      λ _ c'. (ok tt, (apply_block_reward node.config true block.miner c').1)

-- `for h in range(1, ancestor_height + 1)`: `n` rounds, from the block at `h`.
unfoldable pub replay_blocks : Node → ℕ → ℕ → Connection → Result Refusal Unit × Connection
unfolding get_block replay_block
replay_blocks node zero h c = (ok tt, c)
replay_blocks node (suc n) h c = elim (get_block h c) [
  | none ↦ (raised Refusal.missing_block_at_replay, c)
  | some block ↦ run_on (replay_block node block c) λ _ c'. replay_blocks node n (h + 1) c'
]

-- The deletes, and the accounts of the first allocation.
unfoldable pub cut_back : Node → ℕ → ℕ → Connection → Connection
unfolding delete_above alloc_rows genesis_balances
cut_back node cut tip = on_live (λ t.
    let kept = if leb tip cut then t else delete_above cut t in
    record kept {
      accounts =
          alloc_rows (genesis_balances node.services.addresses node.config.founder_address) [];
    })

-- The comparison with the state root of the block that is then the last.
unfoldable pub check_replay_root : Node → ℕ → Connection → Result Refusal Unit × Connection
unfolding get_block compute_state_root
check_replay_root node cut c = elim (get_block cut c) [
  | none ↦ (ok tt, c)
  | some block ↦
      if non_empty block.state_root && not (nat_beq block.state_root (compute_state_root node c))
      then (raised Refusal.reorg_state_root_mismatch, c)
      else (ok tt, c)
]

-- The body of `with self.db.atomic():`.
unfoldable pub replay_from_genesis : Node → ℕ → ℕ → Connection → Result Refusal Unit × Connection
unfolding cut_back replay_blocks check_replay_root
replay_from_genesis node cut tip c =
    run_on (replay_blocks node cut 1 (cut_back node cut tip c))
      λ _ c'. check_replay_root node cut c'

-- Whether the body came to its end, and the connection.
abbrev pub completed : Result Refusal Unit × Connection → Bool × Connection
completed (ok _, c) = (true, c)
completed (raised _, c) = (false, c)

-- `reorg_to_ancestor`; `floor` is what the adapter's `get_finalized_floor_height` returns.
unfoldable pub reorg_to_ancestor : Node → ℕ → ℕ → Connection → Bool × Connection
unfolding get_chain_tip atomic replay_from_genesis
reorg_to_ancestor node floor cut c =
    let tip = get_chain_tip c in
    if ltb 0 floor && ltb cut floor
    then (false, c)
    else if ltb tip cut
    then (true, c)
    else completed (atomic (replay_from_genesis node cut tip) c)

-- `ensure_state_at_tip`
unfoldable pub ensure_state_at_tip : Node → ℕ → Connection → Bool × Connection
unfolding get_chain_tip get_block compute_state_root reorg_to_ancestor
ensure_state_at_tip node floor c =
    let tip = get_chain_tip c in
    if nat_beq tip 0 then (true, c) else elim (get_block tip c) [
      | none ↦ (true, c)
      | some block ↦
          let expected = node.services.strings.strip block.state_root in
          if not (non_empty expected) || nat_beq (compute_state_root node c) expected
          then (true, c)
          else reorg_to_ancestor node floor tip c
    ]
