-- ===== src/Node/Chain/State.antt =====
-- What `class Blockchain` of core/blockchain.py is made of: its configuration, the calls of code
-- outside this library, and its state.
use absolute_blockchain_ulti.Base.{ℕ, Bool, Option, List, Result}
use absolute_blockchain_ulti.Base.Int.{ℤ}
use absolute_blockchain_ulti.Consensus.Slashing.{SlashingEngine}
use absolute_blockchain_ulti.Node.Strings.{Strings}
use absolute_blockchain_ulti.Node.Tables.{Transaction, Block, AccountRow, Connection}
use absolute_blockchain_ulti.Node.Tokenomics.{Addresses}
use absolute_blockchain_ulti.Node.Pools.Locks.{Denial}

-- The fields of `Config` (runtime/config.py) that the chain reads. Prices are in the units of the
-- tables; `burn_of` is the product with `burn_rate`, in floating point.
pub record Config : Type 0 where
  pub gas_price : ℕ
  pub burn_of : ℤ → ℤ
  pub burn_address : ℕ
  pub block_reward : ℕ
  pub max_supply : ℕ
  pub base_gas_price : ℕ
  pub evm_gas_limit : ℕ
  pub miner_address : ℕ
  pub signing_address : ℕ
  pub founder_address : ℕ
  pub node_version : ℕ
  pub require_signatures : Bool
  pub enforce_proposer : Bool
  pub verify_peer_state_root : Bool
  pub state_root_strict_p2p : Bool

-- `EVMResult` of execution/evm_adapter.py
pub record EvmResult : Type 0 where
  pub success : Bool
  pub return_value : Option ℕ
  pub gas_used : ℕ
  pub error : ℕ

-- `self.evm`: caller, target or code, data or salt, value and gas limit go in.
pub record Evm : Type 0 where
  pub call_contract : ℕ → ℕ → ℕ → ℤ → ℤ → Connection → EvmResult × Connection
  pub deploy_contract : ℕ → ℕ → ℤ → ℤ → ℕ × ℤ × ℕ → Connection → EvmResult × Connection

-- Hashes, signatures and the check of bytecode. A call that raises gives `raised`.
pub record Services : Type 0 where
  pub strings : Strings
  pub addresses : Addresses
  -- `compute_db_state_root`, `Block._compute_hash` and `Block._compute_tx_root`
  pub root_of : List (ℕ × AccountRow) → ℕ
  pub hash_of : Block → ℕ
  pub tx_root_of : List Transaction → ℕ
  -- `verify_transaction_signature` and `verify_transaction_signatures_batch`
  pub verify : Transaction → Result ℕ Bool
  pub verify_batch : List Transaction → Result ℕ (List Bool)
  -- `validate_bytecode_hex(data).get("valid")`
  pub valid_bytecode : ℕ → Bool

pub record Node : Type 0 where
  pub config : Config
  pub services : Services
  pub evm : Option Evm
  -- whether `self.pool_locks` is set
  pub pool_locks : Bool

-- The state. `slashing` is what `_resolve_slashing_core` finds in the consensus adapter.
pub record Chain : Type 0 where
  pub db : Connection
  pub slashing : Option SlashingEngine
  pub state_root_baseline : ℕ

-- The values of "error" in the source.
pub data Refusal : Type 0 where
  missing_address negative_value gas_too_low nonce_mismatch nonce_mismatch_in_block
        insufficient_funds insufficient_funds_for_gas insufficient_funds_for_deploy
        missing_signature missing_public_key invalid_signature signature_check_failed
        signature_batch_failed unsupported_evm_bytecode proposer_slashed unauthorized_proposer
        height_mismatch parent_hash_mismatch expected_genesis_height invalid_hash
        state_root_mismatch double_proposal missing_block_at_replay reorg_state_root_mismatch :
      Refusal
  not_allowed : Denial → Refusal
  evm_failed : ℕ → Refusal
