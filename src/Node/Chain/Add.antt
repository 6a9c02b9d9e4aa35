-- ===== src/Node/Chain/Add.antt =====
-- `add_block` of core/blockchain.py: a block is checked, executed and written, or nothing is.
use absolute_blockchain_ulti.Base.{
  ◌≡◌, refl, arith, ℕ, Bool, true, false, Option, none, some, List, [], ◌∷◌, Result, ok, raised,
  if◌then◌else◌, nat_eq, nat_beq, not, ◌&&◌, ◌||◌,
}
use absolute_blockchain_ulti.Base.Int.{ℤ, pos, ◌+ℤ◌, ltb_ℤ}
use absolute_blockchain_ulti.Base.Dict.{is_some}
use absolute_blockchain_ulti.Consensus.Slashing.{SlashingEngine, record_proposal}
use absolute_blockchain_ulti.Node.Strings.{non_empty, genesis_name, empty_string}
use absolute_blockchain_ulti.Node.Tables.{Transaction, Block, Connection, Origin}
use absolute_blockchain_ulti.Node.Db.Accounts.{get_all_accounts, atomic}
use absolute_blockchain_ulti.Node.Db.Blocks.{get_block, record_state_root_mismatch}
use absolute_blockchain_ulti.Node.Db.Persist.{persist_block_locked}
use absolute_blockchain_ulti.Node.Chain.State.{Node, Chain, Refusal}
use absolute_blockchain_ulti.Node.Chain.Checks.{Check, ◌>>◌, verify_block_tx_signatures}
use absolute_blockchain_ulti.Node.Chain.Apply.{apply_transaction, apply_block_reward}
use absolute_blockchain_ulti.Node.Chain.BlockChecks.{
  is_strict, state_root_check_mode, validate_block_structure, verify_block_proposer,
}

-- Python goes on where a call returns; the connection is what the call has left.
abbrev pub run_on :
    {E A B : Type 0}
    → Result E A × Connection
    → (A → Connection → Result E B × Connection)
    → Result E B × Connection
run_on (ok a, c) next = next a c
run_on (raised e, c) next = (raised e, c)

-- A sequence that returned: each of its calls did.
pub run_on_returned :
    {E A B : Type 0} (r : Result E A × Connection) (next : A → Connection → Result E B × Connection)
    (b : B) (c' : Connection)
    → run_on r next ≡ (ok b, c')
    → (a : A) × (c : Connection) × (r ≡ (ok a, c)) × (next a c ≡ (ok b, c'))
run_on_returned (ok a, c) next b c' h = (a, c, refl, h)
run_on_returned (raised e, c) next b c' h = absurd (ground arith)

unfoldable pub compute_state_root : Node → Connection → ℕ
unfolding get_all_accounts
compute_state_root node c = node.services.root_of (get_all_accounts c)

-- The loop of `add_block` over the transactions: what they have become, and the sum of `burned`.
unfoldable pub apply_transactions :
    Node
    → ℕ
    → ℕ
    → List Transaction
    → Connection
    → Result Refusal (List Transaction × ℤ) × Connection
unfolding apply_transaction
apply_transactions node height miner [] c = (ok ([], pos 0), c)
apply_transactions node height miner (tx ∷ txs) c =
    run_on (apply_transaction node true tx height miner c) λ tx' c'.
      run_on (apply_transactions node height miner txs c')
        λ r c''. (ok (tx' ∷ r.0, tx'.burned +ℤ r.1), c'')

-- What is left of `block` when its hash is taken: the root and the burnt fees are filled in.
unfoldable pub sealed : Node → Bool → Block → List Transaction → ℤ → ℕ → Block
sealed node preserve block txs burned root =
    let b = record block { transactions = txs; total_burned = burned; state_root = root } in
    record b {
      hash = if preserve && non_empty block.hash then block.hash else node.services.hash_of b;
    }

-- `slashing.record_proposal`, where there is an engine and a miner.
unfoldable pub note_proposal : ℕ → Block → Option SlashingEngine → Option SlashingEngine × Bool
unfolding record_proposal
note_proposal now block none = (none, true)
note_proposal now block (some engine) =
    if not (non_empty block.miner) || nat_beq block.miner genesis_name
    then (some engine, true)
    else let r = record_proposal now block.miner block.height block.hash engine in (some r.0, r.1)

-- What an exception inside `atomic()` leaves outside of the tables: the slashing engine, and the
-- roots for the audit of mismatches.
pub record Failure : Type 0 where
  pub reason : Refusal
  pub slashing : Option SlashingEngine
  pub roots : Option (ℕ × ℕ)

-- The root that a peer sent, where it has to be compared.
unfoldable pub peer_root_of : Node → Bool → Block → Option ℕ
peer_root_of node preserve block =
    if preserve && non_empty block.state_root
    then some (node.services.strings.strip block.state_root)
    else none

-- Whether the computed root stops the block.
unfoldable pub is_root_refused : Node → ℕ → Bool → Block → ℕ → Bool
unfolding peer_root_of state_root_check_mode
is_root_refused node baseline preserve block root = elim (peer_root_of node preserve block) [
  | none ↦ false
  | some peer ↦
      is_strict (state_root_check_mode node baseline block.height block.state_root preserve)
      && not (nat_beq peer root)
]

-- The end of the body: the proposal is noted, and the block written.
unfoldable pub finish_block :
    Node
    → ℕ
    → Block
    → Option SlashingEngine
    → Connection
    → Result Failure (Option SlashingEngine) × Connection
unfolding note_proposal persist_block_locked
finish_block node now b slashing c =
    let r = note_proposal now b slashing in
    let burn_address =
      if ltb_ℤ (pos 0) b.total_burned then node.config.burn_address else empty_string in
    if r.1
    then (
      ok r.0,
      persist_block_locked node.services.strings now b b.transactions b.total_burned burn_address c,
    )
    else (raised (record { reason = Refusal.double_proposal; slashing = r.0; roots = none }), c)

-- The body of `add_block` after the transactions.
unfoldable pub after_transactions :
    Node
    → ℕ
    → Bool
    → Block
    → Chain
    → List Transaction × ℤ
    → Connection
    → Result Failure (Option SlashingEngine) × Connection
unfolding apply_block_reward compute_state_root is_root_refused sealed finish_block
after_transactions node now preserve block chain done c =
    let rewarded = (apply_block_reward node.config true block.miner c).1 in
    let root = compute_state_root node rewarded in
    if is_root_refused node chain.state_root_baseline preserve block root
    then (
      raised (record {
        reason = Refusal.state_root_mismatch;
        slashing = chain.slashing;
        roots = some (node.services.strings.strip block.state_root, root);
      }),
      rewarded,
    )
    else finish_block node now (sealed node preserve block done.0 done.1 root) chain.slashing
        rewarded

abbrev pub plain_failure : Option SlashingEngine → Refusal → Failure
plain_failure slashing reason = record { reason = reason; slashing = slashing; roots = none }

abbrev pub with_failure :
    {A : Type 0}
    → Option SlashingEngine
    → Result Refusal A × Connection
    → Result Failure A × Connection
with_failure slashing (ok a, c) = (ok a, c)
with_failure slashing (raised e, c) = (raised (plain_failure slashing e), c)

-- The body of `with self.db.atomic():`.
unfoldable pub execute_block :
    Node
    → ℕ
    → Bool
    → Block
    → Chain
    → Connection
    → Result Failure (Option SlashingEngine) × Connection
unfolding apply_transactions after_transactions
execute_block node now preserve block chain c =
    run_on
      (with_failure chain.slashing
        (apply_transactions node block.height block.miner block.transactions c))
      (after_transactions node now preserve block chain)

-- The `except` branch: a mismatch is recorded.
unfoldable pub audit_failure : Node → ℕ → Bool → Block → Failure → Connection → Connection
unfolding record_state_root_mismatch
audit_failure node now preserve block failure c = elim failure.roots [
  | none ↦ c
  | some roots ↦
      if non_empty roots.0 && non_empty roots.1
      then record_state_root_mismatch node.services.strings now block.height roots.0 roots.1
          (if preserve then Origin.p2p_source else Origin.local_source) block.miner c
      else c
]

-- What `add_block` makes of the way the body ended.
unfoldable pub conclude :
    Node
    → ℕ
    → Bool
    → Block
    → Chain
    → Result Failure (Option SlashingEngine) × Connection
    → Bool × Chain
unfolding audit_failure
conclude node now preserve block chain (ok slashing, c) =
    (true, record chain { db = c; slashing = slashing })
conclude node now preserve block chain (raised failure, c) = (
  false,
  record chain {
    db = audit_failure node now preserve block failure c;
    slashing = failure.slashing;
  },
)

-- The checks of `add_block` before the execution.
unfoldable pub check_block : Node → Block → Chain → Check
unfolding validate_block_structure verify_block_proposer verify_block_tx_signatures
check_block node block chain =
    validate_block_structure block chain.db
    >> verify_block_proposer node block chain
    >> verify_block_tx_signatures node block

unfoldable pub add_block : Node → ℕ → Bool → Block → Chain → Bool × Chain
unfolding get_block check_block atomic execute_block conclude
add_block node now preserve block chain =
    if is_some (get_block block.height chain.db)
    then (false, chain)
    else elim (check_block node block chain) [
      | raised _ ↦ (false, chain)
      | ok _ ↦
          conclude node now preserve block chain
            (atomic (execute_block node now preserve block chain) chain.db)
    ]
