-- ===== src/Node/Tests.antt =====
-- A node with two accounts, its first blocks, and pools.
use absolute_blockchain_ulti.Base.{
  ℕ, ◌+◌, ◌/◌, ◌≤◌, ◌≡◌, refl, Bool, true, false, none, some, List, [], ◌∷◌, ok, nat_eq, arith, All,
  length, ◌⊎◌,
}
use absolute_blockchain_ulti.Base.Int.{pos, negsuc, pos_part, ◌+ℤ◌, ◌-ℤ◌, ◌*ℤ◌}
use absolute_blockchain_ulti.Base.Dict.{lookup, insert, erase}
use absolute_blockchain_ulti.Base.Set.{member, add}
use absolute_blockchain_ulti.Consensus.Slashing.{record_proposal}
use absolute_blockchain_ulti.Node.Strings.{Strings}
use absolute_blockchain_ulti.Node.Tables.{
  Transaction, Block, AccountRow, Connection, no_rows, PoolId, PoolState, Pool,
}
use absolute_blockchain_ulti.Node.Tokenomics.{Addresses}
use absolute_blockchain_ulti.Node.Db.Blocks.{get_chain_tip}
use absolute_blockchain_ulti.Node.Chain.State.{Node, Config, Services, Chain}
use absolute_blockchain_ulti.Node.Chain.Supply.{IsBurnRate}
use absolute_blockchain_ulti.Node.Chain.Minting.{
  get_total_supply-add_block, apply_block_reward_bounded,
}
use absolute_blockchain_ulti.Node.Chain.Refused.{OnlyAudited, IsQuiet}
use absolute_blockchain_ulti.Node.Chain.Links.{IsChain, add_block-IsChain}
use absolute_blockchain_ulti.Node.Chain.Floor.{
  AllQuiet, reorg_to_ancestor_keeps_final, compute_state_root-reorg_to_ancestor,
}
use absolute_blockchain_ulti.Node.Chain.Imports.{imported, import_block_refused}
use absolute_blockchain_ulti.Node.Chain.Make.{ImportHashes}
use absolute_blockchain_ulti.Node.Chain.Dicts.{TxDict, BlockDict}
use absolute_blockchain_ulti.Node.Pools.Locks.{release_epochs}
use absolute_blockchain_ulti.Node.Chain.Nonces.{Numbered, sent_by, apply_transactions-Numbered}
use absolute_blockchain_ulti.Node.Chain.Select.{IsValid, create_block_once}
use absolute_blockchain_ulti.Node.Pools.Release.{PoolCall, IsReleased, perform_all-IsReleased}
-- <bundle>
use absolute_blockchain_ulti.Node.Strings.{normalize_address}
use absolute_blockchain_ulti.Node.Tokenomics.{
  build_allocations, genesis_of, genesis_balances, resolve_founder_address,
}
use absolute_blockchain_ulti.Node.Db.Accounts.{
  clamp, apply_balance_delta, bump_nonce, supply_of, insert_row, ordered_rows, commit, rollback,
  atomic, balance_delta, nonce_increment, update_balance, increment_nonce, set_balance,
  save_account, put_storage, update_account_storage, get_balance, get_nonce, get_account,
  get_all_accounts, get_total_supply, alloc_rows,
}
use absolute_blockchain_ulti.Node.Db.Blocks.{
  keep, replace_block, insert_proposer_audit, insert_block, save_block, get_block, find_hash,
  get_block_by_hash, highest, get_last_block, get_chain_tip, record_state_root_mismatch,
  kept_mismatches, delete_above, truncate_chain_state, reset_accounts_from_alloc,
  truncate_blocks_above, truncate_all_blocks,
}
use absolute_blockchain_ulti.Node.Db.Persist.{
  insert_transaction, insert_tx_receipt, record_tx_propagation_event, persist_transaction,
  persist_transactions, max_burned, insert_burn_record, persist_burn, persist_block_locked,
  record_burn, get_total_burned,
}
use absolute_blockchain_ulti.Node.Pools.Locks.{
  initial_pools, save_pools, ensure_pools, pool_state, is_system_pool, spendable_of,
  spendable_balance, denial_of, is_outgoing_allowed, record_outgoing, release_step, release_epoch,
  on_epoch_boundary, catch_up, catch_up_epochs,
}
use absolute_blockchain_ulti.Node.Pools.Votes.{
  find_spelling, registered_as, find_pool, total_validators_of, has_quorum, count_dao_vote,
  cast_dao_vote, dao_vote,
}
use absolute_blockchain_ulti.Node.Pools.Release.{perform, perform_all}
use absolute_blockchain_ulti.Node.Chain.Checks.{
  fee_of, total_cost, has_code, is_deploy_data, evm_of, is_evm_deploy_tx,
  validate_evm_deploy_bytecode, signature_answer, verify_tx_signature, check_pools,
  validate_transaction, signed_txs, all_verified, verify_signed, verify_block_tx_signatures,
}
use absolute_blockchain_ulti.Node.Chain.Apply.{
  pay, next_nonce, pay_burn, pay_fee, note_outgoing, stamped, settle_evm, settle_transfer, run_call,
  run_deploy, execute, check_transaction, payee, apply_transaction, reward_of, apply_block_reward,
}
use absolute_blockchain_ulti.Node.Chain.BlockChecks.{
  validate_block_structure, active_addresses, allowed_proposers, verify_block_proposer,
  validate_block, state_root_check_mode,
}
use absolute_blockchain_ulti.Node.Chain.Add.{
  compute_state_root, apply_transactions, sealed, note_proposal, peer_root_of, is_root_refused,
  finish_block, after_transactions, execute_block, audit_failure, conclude, check_block, add_block,
}
use absolute_blockchain_ulti.Node.Chain.Dicts.{
  normalize_tx_dict, normalize_block_dict, transaction_from_dict, sum_gas, sum_burned, new_block,
  block_from_dict, validate_transaction_shape, validate_shapes, validate_parent, validate_time,
  validate_tx_root, validate_block_dict,
}
use absolute_blockchain_ulti.Node.Chain.Make.{
  validate_tx_for_block, select_txs, create_block, import_checked, drop_blocks, import_block,
  set_balances, ensure_genesis,
}
use absolute_blockchain_ulti.Node.Chain.Rollback.{
  set_state_root_baseline, find_ancestor_height, replay_block, replay_blocks, cut_back,
  check_replay_root, replay_from_genesis, reorg_to_ancestor, ensure_state_at_tip,
}

-- </bundle>
program : Unit {0}
unfolding normalize_address build_allocations genesis_of genesis_balances resolve_founder_address
    clamp apply_balance_delta bump_nonce supply_of insert_row ordered_rows commit rollback atomic
    balance_delta nonce_increment update_balance increment_nonce set_balance save_account
    put_storage update_account_storage get_balance get_nonce get_account get_all_accounts
    get_total_supply alloc_rows keep replace_block insert_proposer_audit insert_block save_block
    get_block find_hash get_block_by_hash highest get_last_block get_chain_tip
    record_state_root_mismatch kept_mismatches delete_above truncate_chain_state
    reset_accounts_from_alloc truncate_blocks_above truncate_all_blocks insert_transaction
    insert_tx_receipt record_tx_propagation_event persist_transaction persist_transactions
    max_burned insert_burn_record persist_burn persist_block_locked record_burn get_total_burned
    initial_pools save_pools ensure_pools pool_state is_system_pool spendable_of spendable_balance
    denial_of is_outgoing_allowed record_outgoing release_step release_epoch on_epoch_boundary
    catch_up catch_up_epochs find_spelling registered_as find_pool total_validators_of has_quorum
    count_dao_vote cast_dao_vote dao_vote perform perform_all fee_of total_cost has_code
    is_deploy_data evm_of is_evm_deploy_tx validate_evm_deploy_bytecode signature_answer
    verify_tx_signature check_pools validate_transaction signed_txs all_verified verify_signed
    verify_block_tx_signatures pay next_nonce pay_burn pay_fee note_outgoing stamped settle_evm
    settle_transfer run_call run_deploy execute check_transaction payee apply_transaction reward_of
    apply_block_reward validate_block_structure active_addresses allowed_proposers
    verify_block_proposer validate_block state_root_check_mode compute_state_root apply_transactions
    sealed note_proposal peer_root_of is_root_refused finish_block after_transactions execute_block
    audit_failure conclude check_block add_block normalize_tx_dict normalize_block_dict
    transaction_from_dict sum_gas sum_burned new_block block_from_dict validate_transaction_shape
    validate_shapes validate_parent validate_time validate_tx_root validate_block_dict
    validate_tx_for_block select_txs create_block import_checked drop_blocks import_block
    set_balances ensure_genesis set_state_root_baseline find_ancestor_height replay_block
    replay_blocks cut_back check_replay_root replay_from_genesis reorg_to_ancestor
    ensure_state_at_tip lookup insert erase member add ◌+ℤ◌ ◌-ℤ◌ ◌*ℤ◌ record_proposal
program = tt

abbrev strings : Strings
strings = record {
  strip = λ s. s;
  lower = λ s. s;
  without_0x = λ s. s;
  len = λ s. 64;
  prefix = λ s n. s;
}

abbrev addresses : Addresses
addresses = record {
  default_founder = 20;
  ecosystem = 21;
  treasury = 22;
  staking = 23;
  mining = 24;
}

abbrev config : Config
config = record {
  gas_price = 1;
  burn_of = λ fee. pos (pos_part fee / 50);
  burn_address = 9;
  block_reward = 50;
  max_supply = 221000000000000000;
  base_gas_price = 100;
  evm_gas_limit = 1000;
  miner_address = 30;
  signing_address = 0;
  founder_address = 20;
  node_version = 0;
  require_signatures = false;
  enforce_proposer = true;
  verify_peer_state_root = true;
  state_root_strict_p2p = true;
}

-- The digest of the rows adds up what they hold.
abbrev digest : List (ℕ × AccountRow) → ℕ
digest [] = 7
digest (r ∷ rows) = r.0 + r.1.balance + r.1.nonce + digest rows

abbrev services : Services
services = record {
  strings = strings;
  addresses = addresses;
  root_of = digest;
  hash_of = λ b. 1000 + b.height;
  tx_root_of = λ txs. length txs;
  verify = λ tx. ok true;
  verify_batch = λ txs. ok [];
  valid_bytecode = λ code. true;
}

abbrev node : Node
node = record { config = config; services = services; evm = none; pool_locks = true }

config-IsBurnRate : IsBurnRate config
config-IsBurnRate (pos n) h = ground arith
config-IsBurnRate (negsuc n) h = absurd (ground arith)

-- 40 to account 2, with a fee of 100.
abbrev payment : Transaction
payment = record {
  from_addr = 20;
  to_addr = 12;
  value = pos 40;
  nonce = pos 0;
  gas = pos 100;
  tx_data = 0;
  hash = 500;
  signature = 0;
  public_key = 0;
  timestamp = 5;
  block_height = 0;
  gas_used = pos 100;
  fee = pos 0;
  burned = pos 0;
}

abbrev first_block : Block
first_block = record {
  height = 1;
  parent_hash = 1000;
  miner = 30;
  transactions = payment ∷ [];
  timestamp = 6;
  extra_data = 0;
  state_root = 0;
  tx_root = 1;
  tx_count = 1;
  gas_used = pos 100;
  total_burned = pos 0;
  hash = 0;
}

-- The first block and the first allocation.
abbrev start : Chain
start = record {
  db = ensure_genesis node 3 0 0 (record { live = no_rows; saved = no_rows });
  slashing = none;
  state_root_baseline = 0;
}

abbrev grown : Bool × Chain
grown = add_block node 8 false first_block start

-- The block as it is written.
abbrev first_stored : Block
first_stored = record first_block {
  transactions = (record payment { block_height = 1; fee = pos 100; burned = pos 2 }) ∷ [];
  state_root = 82654000000000172;
  total_burned = pos 2;
  hash = 1001;
}

-- The reward is 50, and 2 are burnt twice.
accepted :
    (grown.0 ≡ true)
    × (get_total_supply start.db ≡ 82654000000000000)
    × (get_total_supply grown.1.db ≡ 82654000000000052)
unfolding program
accepted = (refl, refl, refl)

quiet :
    (c : Connection) (txs : List Transaction)
    → c.live.pool_locks_state ≡ none
    → All (IsQuiet node c) txs
unfolding program
quiet c [] h = tt
quiet c (tx ∷ txs) h = ((ground arith, ground (arith, h)), quiet c txs h)

get_total_supply-add_block_example :
    (b : Block) × (get_block 1 grown.1.db ≡ some b)
    × (get_total_supply grown.1.db
        ≡ get_total_supply start.db + reward_of config start.db + pos_part b.total_burned)
unfolding program
get_total_supply-add_block_example =
    get_total_supply-add_block node 8 false first_block start grown.1 config-IsBurnRate refl
      ((refl, omega arith, omega arith), tt) refl

apply_block_reward_bounded_example :
    get_total_supply (apply_block_reward config true 30 grown.1.db).1 ≤ config.max_supply
unfolding program
apply_block_reward_bounded_example = apply_block_reward_bounded config 30 grown.1.db (omega arith)

-- The same payment twice: the second one is refused, and with it the block.
abbrev greedy_block : Block
greedy_block = record first_block { transactions = payment ∷ payment ∷ [] }

genesis-IsChain : IsChain start.db.live.blocks
unfolding program
genesis-IsChain = record {
  dict = (refl, tt);
  keyed = λ h b e. ground (arith, e);
  linked = λ h b e. absurd (ground (arith, e));
}

grown-IsChain : IsChain grown.1.db.live.blocks
unfolding program
grown-IsChain =
    (add_block-IsChain node 8 false first_block first_stored start grown.1 genesis-IsChain
      (quiet start.db first_block.transactions refl) refl refl refl).0

-- An empty block on top.
abbrev second_block : Block
second_block = record first_block { height = 2; parent_hash = 1001; transactions = [] }

abbrev grown_twice : Bool × Chain
grown_twice = add_block node 9 false second_block grown.1

abbrev second_stored : Block
second_stored = record second_block { state_root = 82654000000000224; hash = 1002 }

add_block-IsChain_example :
    IsChain grown_twice.1.db.live.blocks × (get_chain_tip grown_twice.1.db ≡ 2)
unfolding program
add_block-IsChain_example =
    add_block-IsChain node 9 false second_block second_stored grown.1 grown_twice.1 grown-IsChain
      (quiet grown.1.db [] refl) refl refl refl

all_quiet : AllQuiet node grown_twice.1.db
unfolding program
all_quiet h b e = quiet grown_twice.1.db b.transactions refl

reorg_to_ancestor_keeps_final_example :
    get_block 1 (reorg_to_ancestor node 1 1 grown_twice.1.db).1 ≡ get_block 1 grown_twice.1.db
unfolding program
reorg_to_ancestor_keeps_final_example =
    reorg_to_ancestor_keeps_final node 1 1 1 grown_twice.1.db (refl, (refl, (refl, tt))) all_quiet
      refl (omega arith)

abbrev returned : Bool × Connection
returned = reorg_to_ancestor node 0 1 grown_twice.1.db

compute_state_root-reorg_to_ancestor_example :
    compute_state_root node returned.1 ≡ 82654000000000172
unfolding program
compute_state_root-reorg_to_ancestor_example =
    compute_state_root-reorg_to_ancestor node 0 1 grown_twice.1.db returned.1 first_stored refl
      (omega arith) refl refl

apply_transactions-Numbered_example :
    Numbered (λ x. get_nonce x start.db) (payment ∷ [])
    × (get_nonce 20 (apply_transactions node 1 30 (payment ∷ []) start.db).1
        ≡ get_nonce 20 start.db + sent_by 20 (payment ∷ []))
unfolding program
apply_transactions-Numbered_example =
    apply_transactions-Numbered node 1 30 (payment ∷ []) start.db
      (apply_transactions node 1 30 (payment ∷ []) start.db).1 (first_stored.transactions, pos 2) 20
      (refl, tt) refl

-- The second payment of the same sender has to wait, also with the next nonce.
abbrev waiting : List Transaction
waiting = payment ∷ record payment { nonce = pos 1; hash = 501 } ∷ []

create_block_once_example :
    All (IsValid node start.db) (create_block node 9 waiting 30 start.db).transactions
    × (sent_by 20 (create_block node 9 waiting 30 start.db).transactions ≤ 1)
create_block_once_example = create_block_once node 9 30 20 waiting start.db

-- Another first block, with a transaction of a negative amount.
abbrev no_keys : TxDict
no_keys = record {
  hash = some 600;
  tx_hash = none;
  from = some 20;
  from_addr = none;
  to = some 12;
  to_addr = none;
  value = some (negsuc 4);
  amount = none;
  nonce = some (pos 0);
  gas = none;
  call_data = none;
  tx_data = none;
  signature = none;
  public_key = none;
  timestamp = some 5;
  fee = none;
  burned = none;
  block_height = none;
}

abbrev other_genesis : BlockDict
other_genesis = record {
  height = some 0;
  number = none;
  parent_hash = some 2;
  miner = some 1;
  proposer = none;
  transactions = no_keys ∷ [];
  timestamp = some 3;
  hash = some 77;
  block_hash = none;
  extra_data = none;
  state_root = none;
  tx_root = none;
  total_burned = none;
}

abbrev hashes : ImportHashes
hashes = record { hash_tx = λ tx. tx.timestamp; root_of_hashes = length }

abbrev sent : Bool × Chain
sent = import_block node hashes 9 other_genesis grown.1

-- The block is refused, and the chain is gone.
wiped : (sent.0 ≡ false) × (sent.1.db.saved.blocks ≡ [])
unfolding program
wiped = (refl, refl)

import_block_refused_example :
    OnlyAudited grown.1.db sent.1.db
    ⊎ (((imported node hashes 9 other_genesis).height ≡ 0)
        × (sent.1.db.live.blocks ≡ [])
        × (sent.1.db.saved ≡ sent.1.db.live))
unfolding program
import_block_refused_example =
    import_block_refused node hashes 9 other_genesis grown.1 sent.1 refl
      (quiet grown.1.db (imported node hashes 9 other_genesis).transactions refl) refl

-- Two epochs, the first of them twice, and a vote.
abbrev calls : List PoolCall
calls =
    PoolCall.epoch_call 0
    ∷ PoolCall.epoch_call 0
    ∷ PoolCall.vote_call PoolId.ecosystem 30 none
    ∷ PoolCall.epoch_call 1
    ∷ []

abbrev after_calls : PoolState
after_calls = pool_state (perform_all addresses strings calls (ensure_pools addresses 0 start.db))

abbrev staking_pool : Pool
staking_pool = record {
  id = PoolId.staking;
  locked = true;
  total = 27846000000000000;
  released = 556920000000000;
  spent = pos 0;
  dao_unlocked = false;
  dao_votes = [];
}

perform_all-IsReleased_example :
    IsReleased after_calls.staking_epochs_released staking_pool
    × (after_calls.staking_epochs_released ≤ release_epochs)
unfolding program
perform_all-IsReleased_example =
    perform_all-IsReleased addresses strings 0 calls start.db staking_pool refl refl
