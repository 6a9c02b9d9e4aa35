-- ===== src/Node/Tables.antt =====
-- The rows of storage/database.py, and `class Transaction` and `class Block` of core/blockchain.py.
-- A string is a number and the empty one is 0; NULL is `none`. Balances and the totals of burnt
-- fees are never below 0 (`MAX(0.0, ...)`), whole multiples of 10^-9 of a coin. An amount, a gas
-- limit or a nonce that comes from outside may be negative, as in Python.
use absolute_blockchain_ulti.Base.{ℕ, Bool, Option, List, []}
use absolute_blockchain_ulti.Base.Int.{ℤ}
use absolute_blockchain_ulti.Base.Dict.{Dict}

-- What the constructor takes, and the four fields that the inclusion in a block fills.
pub record Transaction : Type 0 where
  pub from_addr : ℕ
  pub to_addr : ℕ
  pub value : ℤ
  pub nonce : ℤ
  pub gas : ℤ
  pub tx_data : ℕ
  pub hash : ℕ
  pub signature : ℕ
  pub public_key : ℕ
  pub timestamp : ℕ
  pub block_height : ℕ
  pub gas_used : ℤ
  pub fee : ℤ
  pub burned : ℤ

pub record Block : Type 0 where
  pub height : ℕ
  pub parent_hash : ℕ
  pub miner : ℕ
  pub transactions : List Transaction
  pub timestamp : ℕ
  pub extra_data : ℕ
  pub state_root : ℕ
  pub tx_root : ℕ
  pub tx_count : ℕ
  pub gas_used : ℤ
  pub total_burned : ℤ
  pub hash : ℕ

pub record AccountRow : Type 0 where
  pub balance : ℕ
  pub nonce : ℕ
  pub code : Option ℕ
  pub storage : Option ℕ

pub record TxRow : Type 0 where
  pub block_height : ℕ
  pub from_addr : ℕ
  pub to_addr : ℕ
  pub value : ℤ
  pub gas : ℤ
  pub gas_used : ℤ
  pub fee : ℤ
  pub burned : ℤ
  pub nonce : ℤ
  pub tx_data : ℕ
  pub status : ℕ
  pub timestamp : ℕ

pub record ReceiptRow : Type 0 where
  pub block_height : ℕ
  pub block_hash : ℕ
  pub from_addr : ℕ
  pub to_addr : ℕ
  pub value : ℤ
  pub fee : ℤ
  pub burned : ℤ
  pub gas_used : ℤ
  pub status : ℕ
  pub created_at : ℕ

pub record AuditRow : Type 0 where
  pub block_hash : ℕ
  pub proposer : ℕ
  pub tx_count : ℕ
  pub total_burned : ℤ
  pub block_ts : ℕ
  pub recorded_at : ℕ

pub record BurnRow : Type 0 where
  pub burned_amount : ℕ
  pub total_burned : ℕ

pub record ValidatorRow : Type 0 where
  pub stake : ℕ
  pub active : Bool
  pub slashed : Bool
  pub joined_at : ℕ

pub record CheckpointRow : Type 0 where
  pub block_hash : ℕ
  pub justified : Bool
  pub finalized : Bool

pub data Stage : Type 0 where
  block_included block_confirmed : Stage

pub record EventRow : Type 0 where
  pub tx_hash : ℕ
  pub stage : Stage
  pub block_height : ℕ
  pub created_at : ℕ

pub data Origin : Type 0 where
  p2p_source local_source : Origin

pub record MismatchRow : Type 0 where
  pub height : ℕ
  pub expected_root : ℕ
  pub computed_root : ℕ
  pub source : Origin
  pub proposer : ℕ
  pub created_at : ℕ

-- The value of one pool under the key `pool_locks_state` of the table `meta` (runtime/pool_locks.py).
pub data PoolId : Type 0 where
  founder ecosystem treasury staking mining : PoolId

pub record Pool : Type 0 where
  pub id : PoolId
  pub locked : Bool
  pub total : ℕ
  pub released : ℕ
  pub spent : ℤ
  pub dao_unlocked : Bool
  pub dao_votes : List ℕ

pub record PoolState : Type 0 where
  pub pools : Dict ℕ Pool
  pub staking_epochs_released : ℕ
  pub last_epoch : ℤ

pub record Tables : Type 0 where
  pub accounts : Dict ℕ AccountRow
  pub blocks : Dict ℕ Block
  pub transactions : Dict ℕ TxRow
  pub tx_receipts : Dict ℕ ReceiptRow
  pub block_proposer_audit : Dict ℕ AuditRow
  pub burn_stats : Dict ℕ BurnRow
  pub validators : Dict ℕ ValidatorRow
  pub checkpoints : Dict ℕ CheckpointRow
  pub tx_propagation_events : List EventRow
  pub state_root_mismatches : List MismatchRow
  pub pool_locks_state : Option PoolState

-- A file that has just been created.
abbrev pub no_rows : Tables
no_rows = record {
  accounts = [];
  blocks = [];
  transactions = [];
  tx_receipts = [];
  block_proposer_audit = [];
  burn_stats = [];
  validators = [];
  checkpoints = [];
  tx_propagation_events = [];
  state_root_mismatches = [];
  pool_locks_state = Option.none;
}

-- The connection: the rows as its statements see them, and as the last commit left them.
pub record Connection : Type 0 where
  pub live : Tables
  pub saved : Tables
