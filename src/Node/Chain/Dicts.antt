-- ===== src/Node/Chain/Dicts.antt =====
-- Blocks and transactions as a peer sends them, with the keys that are there (core/blockchain.py),
-- and `class BlockValidator` of execution/block_validator.py. Heights and times are not negative: a
-- block with a height below 0 is refused by `add_block`.
use absolute_blockchain_ulti.Base.{
  ℕ, ◌+◌, Bool, Option, none, some, List, [], ◌∷◌, ok, raised, Result, if◌then◌else◌, nat_eq,
  nat_beq, leb, ltb, not, ◌&&◌, ◌||◌, length, map,
}
use absolute_blockchain_ulti.Base.Int.{ℤ, pos, ◌+ℤ◌, ltb_ℤ}
use absolute_blockchain_ulti.Base.Dict.{or_else, is_some}
use absolute_blockchain_ulti.Node.Strings.{Strings, non_empty, empty_string, genesis_hash}
use absolute_blockchain_ulti.Node.Tables.{Transaction, Block}
use absolute_blockchain_ulti.Node.Chain.State.{Services}
use absolute_blockchain_ulti.Node.Chain.Checks.{◌>>◌}

pub record TxDict : Type 0 where
  pub hash : Option ℕ
  pub tx_hash : Option ℕ
  pub from : Option ℕ
  pub from_addr : Option ℕ
  pub to : Option ℕ
  pub to_addr : Option ℕ
  pub value : Option ℤ
  pub amount : Option ℤ
  pub nonce : Option ℤ
  pub gas : Option ℤ
  pub call_data : Option ℕ
  pub tx_data : Option ℕ
  pub signature : Option ℕ
  pub public_key : Option ℕ
  pub timestamp : Option ℕ
  pub fee : Option ℤ
  pub burned : Option ℤ
  pub block_height : Option ℕ

pub record BlockDict : Type 0 where
  pub height : Option ℕ
  pub number : Option ℕ
  pub parent_hash : Option ℕ
  pub miner : Option ℕ
  pub proposer : Option ℕ
  pub transactions : List TxDict
  pub timestamp : Option ℕ
  pub hash : Option ℕ
  pub block_hash : Option ℕ
  pub extra_data : Option ℕ
  pub state_root : Option ℕ
  pub tx_root : Option ℕ
  pub total_burned : Option ℤ

-- `d.get(a, d.get(b))`
abbrev pub first_of {ℓ} : {A : Type ℓ} → Option A → Option A → Option A
first_of none b = b
first_of (some a) _ = some a

-- The loop of `_normalize_block_dict`.
unfoldable pub normalize_tx_dict : TxDict → TxDict
normalize_tx_dict tx = record tx {
  from_addr = first_of tx.from_addr tx.from;
  to_addr = first_of tx.to_addr tx.to;
  value = first_of tx.value tx.amount;
}

unfoldable pub normalize_block_dict : BlockDict → BlockDict
unfolding normalize_tx_dict
normalize_block_dict b = record b {
  height = first_of b.height b.number;
  miner = first_of b.miner b.proposer;
  transactions = map normalize_tx_dict b.transactions;
}

-- `timestamp or int(time.time())`
abbrev pub or_now : ℕ → ℕ → ℕ
or_now now t = if nat_beq t 0 then now else t

-- The hash that `Transaction._compute_hash` gives is an argument.
unfoldable pub transaction_from_dict : (Transaction → ℕ) → ℕ → TxDict → Transaction
transaction_from_dict hash_tx now d =
    let gas = or_else d.gas (pos 21000) in
    let tx : Transaction = record {
      from_addr = or_else (first_of d.from_addr d.from) empty_string;
      to_addr = or_else (first_of d.to_addr d.to) empty_string;
      value = or_else (first_of d.value d.amount) (pos 0);
      nonce = or_else d.nonce (pos 0);
      gas = gas;
      tx_data = or_else (first_of d.call_data d.tx_data) empty_string;
      hash = or_else (first_of d.hash d.tx_hash) empty_string;
      signature = or_else d.signature empty_string;
      public_key = or_else d.public_key empty_string;
      timestamp = or_now now (or_else d.timestamp 0);
      block_height = or_else d.block_height 0;
      gas_used = gas;
      fee = or_else d.fee (pos 0);
      burned = or_else d.burned (pos 0);
    } in
    record tx { hash = if non_empty tx.hash then tx.hash else hash_tx tx }

-- `sum(tx.gas_used for tx in self.transactions)`
unfoldable pub sum_gas : List Transaction → ℤ
sum_gas [] = pos 0
sum_gas (tx ∷ txs) = tx.gas_used +ℤ sum_gas txs

unfoldable pub sum_burned : List Transaction → ℤ
sum_burned [] = pos 0
sum_burned (tx ∷ txs) = tx.burned +ℤ sum_burned txs

-- `Block(...)`: the constructor fills in the rest.
unfoldable pub new_block : Services → ℕ → ℕ → ℕ → List Transaction → ℕ → ℕ → ℕ → ℕ → Block
unfolding sum_gas sum_burned
new_block services height parent miner txs timestamp hash extra_data state_root =
    let b : Block = record {
      height = height;
      parent_hash = parent;
      miner = miner;
      transactions = txs;
      timestamp = timestamp;
      extra_data = extra_data;
      state_root = state_root;
      tx_root = services.tx_root_of txs;
      tx_count = length txs;
      gas_used = sum_gas txs;
      total_burned = sum_burned txs;
      hash = hash;
    } in
    record b { hash = if non_empty hash then hash else services.hash_of b }

unfoldable pub block_from_dict : Services → (Transaction → ℕ) → ℕ → BlockDict → Block
unfolding new_block transaction_from_dict
block_from_dict services hash_tx now d =
    let b =
      new_block services (or_else (first_of d.height d.number) 0)
        (or_else d.parent_hash genesis_hash) (or_else (first_of d.miner d.proposer) empty_string)
        (map (transaction_from_dict hash_tx now) d.transactions)
        (or_now now (or_else d.timestamp 0)) (or_else (first_of d.hash d.block_hash) empty_string)
        (or_else d.extra_data empty_string) (or_else d.state_root empty_string) in
    record b { total_burned = or_else d.total_burned (pos 0) }

pub data ShapeError : Type 0 where
  missing_field parent_not_found parent_mismatch invalid_number future_timestamp
        timestamp_not_increasing timestamp_regressed negative_amount tx_root_mismatch :
      ShapeError

abbrev pub fail_if : Bool → ShapeError → Result ShapeError Unit
fail_if b e = if b then raised e else ok tt

-- A field that is absent or empty, and whose other spelling is absent too.
abbrev pub is_missing : Option ℕ → Option ℕ → Bool
is_missing field alt = not (non_empty (or_else field empty_string)) && not (is_some alt)

-- `_validate_transaction_shape`, after the `setdefault`s of `_normalize`
unfoldable pub validate_transaction_shape : TxDict → Result ShapeError Unit
validate_transaction_shape tx =
    fail_if (is_missing (first_of tx.hash tx.tx_hash) tx.tx_hash) missing_field
    >> fail_if (is_missing (first_of tx.from tx.from_addr) tx.from_addr) missing_field
    >> fail_if (is_missing (first_of tx.to tx.to_addr) tx.to_addr) missing_field
    >> fail_if (not (is_some tx.nonce)) missing_field
    >> fail_if (ltb_ℤ (or_else (first_of tx.value tx.amount) (pos 0)) (pos 0)) negative_amount

unfoldable pub validate_shapes : List TxDict → Result ShapeError Unit
unfolding validate_transaction_shape
validate_shapes [] = ok tt
validate_shapes (tx ∷ txs) = validate_transaction_shape tx >> validate_shapes txs

-- The comparisons with the parent.
unfoldable pub validate_parent : ℕ → BlockDict → Option Block → Result ShapeError Unit
validate_parent height b none = fail_if (ltb 1 height) parent_not_found
validate_parent height b (some parent) =
    fail_if (not (nat_beq (or_else b.parent_hash empty_string) parent.hash)) parent_mismatch
    >> fail_if (not (nat_beq height (parent.height + 1))) invalid_number

unfoldable pub validate_time : Bool → ℕ → BlockDict → Option Block → Result ShapeError Unit
validate_time is_strict now b parent =
    fail_if (ltb (now + 120) (or_else b.timestamp 0)) future_timestamp >> (elim parent [
      | none ↦ ok tt
      | some p ↦
          if is_strict
          then fail_if (leb (or_else b.timestamp 0) p.timestamp) timestamp_not_increasing
          else fail_if (ltb (or_else b.timestamp 0) p.timestamp) timestamp_regressed
    ])

-- `_compute_tx_root` of the hashes is an argument.
unfoldable pub validate_tx_root : Strings → (List ℕ → ℕ) → BlockDict → Result ShapeError Unit
validate_tx_root str root_of_hashes b =
    let expected = or_else b.tx_root empty_string in
    let computed =
      root_of_hashes
        (map (λ tx. or_else (first_of tx.hash tx.tx_hash) empty_string) b.transactions) in
    fail_if
      (non_empty expected
        && ltb 0 (length b.transactions)
        && not (nat_beq computed expected)
        && not (nat_beq (str.prefix computed (str.len expected)) expected))
      tx_root_mismatch

-- `BlockValidator.validate_block`
unfoldable pub validate_block_dict :
    Strings → (List ℕ → ℕ) → ℕ → Bool → BlockDict → Option Block → Result ShapeError Unit
unfolding validate_parent validate_time validate_shapes validate_tx_root
validate_block_dict str root_of_hashes now is_strict b parent =
    fail_if (not (is_some b.parent_hash) || not (is_some b.timestamp)) missing_field
    >> validate_parent (or_else (first_of b.number b.height) 0) b parent
    >> validate_time is_strict now b parent
    >> validate_shapes b.transactions
    >> validate_tx_root str root_of_hashes b
