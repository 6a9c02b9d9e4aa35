-- ===== src/Node/Db/Persist.antt =====
-- What storage/database.py writes for a block besides the block: its transactions, receipts and events,
-- and the burnt fees.
use absolute_blockchain_ulti.Base.{
  ℕ, ◌+◌, List, [], ◌∷◌, ◌++◌, not, if◌then◌else◌, nat_eq, nat_beq, leb,
}
use absolute_blockchain_ulti.Base.Int.{ℤ, pos, pos_part, ltb_ℤ}
use absolute_blockchain_ulti.Base.Dict.{Dict, insert}
use absolute_blockchain_ulti.Node.Strings.{Strings, normalize_address, non_empty}
use absolute_blockchain_ulti.Node.Tables.{Transaction, Block, Tables, Connection, BurnRow, Stage}
use absolute_blockchain_ulti.Node.Db.Accounts.{on_live, commit, apply_balance_delta}
use absolute_blockchain_ulti.Node.Db.Blocks.{insert_block}

-- `_insert_transaction`, of a dictionary that `Transaction.to_dict` made: it has no status.
unfoldable pub insert_transaction : Strings → Transaction → Tables → Tables
unfolding normalize_address
insert_transaction str tx t = record t {
  transactions =
      insert tx.hash
        (record {
          block_height = tx.block_height;
          from_addr = normalize_address str tx.from_addr;
          to_addr = normalize_address str tx.to_addr;
          value = tx.value;
          gas = tx.gas;
          gas_used = tx.gas_used;
          fee = tx.fee;
          burned = tx.burned;
          nonce = tx.nonce;
          tx_data = tx.tx_data;
          status = 1;
          timestamp = tx.timestamp;
        })
        t.transactions;
}

-- `_insert_tx_receipt`
unfoldable pub insert_tx_receipt : Strings → Transaction → ℕ → ℕ → Tables → Tables
unfolding normalize_address
insert_tx_receipt str tx block_hash block_height t =
    if non_empty tx.hash
    then record t {
      tx_receipts =
          insert tx.hash
            (record {
              block_height = if nat_beq tx.block_height 0 then block_height else tx.block_height;
              block_hash = block_hash;
              from_addr = normalize_address str tx.from_addr;
              to_addr = normalize_address str tx.to_addr;
              value = tx.value;
              fee = tx.fee;
              burned = tx.burned;
              gas_used = tx.gas_used;
              status = 1;
              created_at = tx.timestamp;
            })
            t.tx_receipts;
    }
    else t

-- `record_tx_propagation_event` with `_no_commit`; nodes, peers and details are left out.
unfoldable pub record_tx_propagation_event : ℕ → ℕ → Stage → ℕ → Tables → Tables
record_tx_propagation_event now hash stage height t =
    if non_empty hash
    then record t {
      tx_propagation_events =
          t.tx_propagation_events
          ++ (record { tx_hash = hash; stage = stage; block_height = height; created_at = now })
            ∷ [];
    }
    else t

-- The body of the loop of `_persist_block_locked`.
unfoldable pub persist_transaction : Strings → ℕ → Block → Transaction → Tables → Tables
unfolding insert_transaction insert_tx_receipt record_tx_propagation_event
persist_transaction str now b tx t =
    let event = λ (stage : Stage). record_tx_propagation_event now tx.hash stage b.height in
    event Stage.block_confirmed (
      event Stage.block_included
        (insert_tx_receipt str tx b.hash b.height (insert_transaction str tx t)))

unfoldable pub persist_transactions : Strings → ℕ → Block → List Transaction → Tables → Tables
unfolding persist_transaction
persist_transactions str now b [] t = t
persist_transactions str now b (tx ∷ txs) t =
    persist_transactions str now b txs (persist_transaction str now b tx t)

-- `COALESCE(MAX(total_burned),0)`
unfoldable pub max_burned : Dict ℕ BurnRow → ℕ
max_burned [] = 0
max_burned ((_, row) ∷ rows) =
    let rest = max_burned rows in if leb rest row.total_burned then row.total_burned else rest

-- `_insert_burn_record`
unfoldable pub insert_burn_record : ℕ → ℕ → Tables → Tables
unfolding max_burned
insert_burn_record height amount t = record t {
  burn_stats =
      insert height
        (record { burned_amount = amount; total_burned = max_burned t.burn_stats + amount })
        t.burn_stats;
}

-- The two statements of `_persist_block_locked` for a block that burnt something.
unfoldable pub persist_burn : ℕ → ℤ → ℕ → Tables → Tables
unfolding insert_burn_record apply_balance_delta
persist_burn height burned burn_address t =
    let t' = insert_burn_record height (pos_part burned) t in
    if not (ltb_ℤ (pos 0) burned)
    then t
    else if non_empty burn_address
    then record t' { accounts = apply_balance_delta burn_address burned t'.accounts }
    else t'

-- `_persist_block_locked`
unfoldable pub persist_block_locked :
    Strings → ℕ → Block → List Transaction → ℤ → ℕ → Connection → Connection
unfolding insert_block persist_transactions persist_burn
persist_block_locked str now b txs burned burn_address = on_live (λ t.
    persist_burn b.height burned burn_address
      (persist_transactions str now b txs (insert_block str now b t)))

unfoldable pub record_burn : ℕ → ℕ → Connection → Connection
unfolding insert_burn_record commit
record_burn height amount c = commit (on_live (insert_burn_record height amount) c)

unfoldable pub get_total_burned : Connection → ℕ
unfolding max_burned
get_total_burned c = max_burned c.live.burn_stats
