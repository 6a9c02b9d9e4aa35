-- ===== src/Node/Db/Blocks.antt =====
-- The blocks of storage/database.py and the audit of their proposers.
use absolute_blockchain_ulti.Base.{
  ℕ, ◌-◌, Bool, Option, none, some, List, [], ◌∷◌, ◌++◌, ◌||◌, not, if◌then◌else◌, nat_eq, nat_beq,
  leb, ltb, length,
}
use absolute_blockchain_ulti.Base.Dict.{Dict, lookup, insert}
use absolute_blockchain_ulti.Node.Strings.{Strings, normalize_address, non_empty, genesis_name}
use absolute_blockchain_ulti.Node.Tables.{Block, Tables, Connection, MismatchRow, Origin}
use absolute_blockchain_ulti.Node.Db.Accounts.{on_live, commit, alloc_rows}

-- The rows whose key passes a test: what a DELETE leaves.
unfoldable pub keep {ℓ} : {V : Type ℓ} → (ℕ → V → Bool) → Dict ℕ V → Dict ℕ V
keep p [] = []
keep p (r ∷ rows) = let rest = keep p rows in if p r.0 r.1 then r ∷ rest else rest

-- `INSERT OR REPLACE INTO blocks`: the row of the same height goes, and, since `hash` is UNIQUE,
-- so does any other row with the same hash.
unfoldable pub replace_block : Block → Dict ℕ Block → Dict ℕ Block
unfolding keep
replace_block b rows =
    insert b.height b (keep (λ h r. nat_beq h b.height || not (nat_beq r.hash b.hash)) rows)

abbrev pub or_string : ℕ → ℕ → ℕ
or_string s t = if non_empty s then s else t

-- `_insert_proposer_audit`
unfoldable pub insert_proposer_audit : Strings → ℕ → Block → Tables → Tables
unfolding normalize_address
insert_proposer_audit str now b t = record t {
  block_proposer_audit =
      insert b.height
        (record {
          block_hash = b.hash;
          proposer = normalize_address str (or_string b.miner genesis_name);
          tx_count = b.tx_count;
          total_burned = b.total_burned;
          block_ts = b.timestamp;
          recorded_at = now;
        })
        t.block_proposer_audit;
}

-- `_insert_block`
unfoldable pub insert_block : Strings → ℕ → Block → Tables → Tables
unfolding replace_block insert_proposer_audit
insert_block str now b t =
    insert_proposer_audit str now b (record t { blocks = replace_block b t.blocks })

unfoldable pub save_block : Strings → ℕ → Block → Connection → Connection
unfolding insert_block commit
save_block str now b c = commit (on_live (insert_block str now b) c)

unfoldable pub get_block : ℕ → Connection → Option Block
get_block height c = lookup height c.live.blocks

unfoldable pub find_hash : ℕ → Dict ℕ Block → Option Block
find_hash hash [] = none
find_hash hash ((_, b) ∷ rows) = if nat_beq b.hash hash then some b else find_hash hash rows

unfoldable pub get_block_by_hash : ℕ → Connection → Option Block
unfolding find_hash
get_block_by_hash hash c = find_hash hash c.live.blocks

-- `ORDER BY height DESC LIMIT 1`
unfoldable pub highest : Dict ℕ Block → Option (ℕ × Block)
highest [] = none
highest (r ∷ rows) = elim (highest rows) [
  | none ↦ some r
  | some s ↦ if ltb s.0 r.0 then some r else some s
]

unfoldable pub get_last_block : Connection → Option Block
unfolding highest
get_last_block c = elim (highest c.live.blocks) [ none ↦ none | some r ↦ some r.1 ]

unfoldable pub get_chain_tip : Connection → ℕ
unfolding highest
get_chain_tip c = elim (highest c.live.blocks) [ none ↦ 0 | some r ↦ r.0 ]

unfoldable pub record_state_root_mismatch :
    Strings → ℕ → ℕ → ℕ → ℕ → Origin → ℕ → Connection → Connection
unfolding normalize_address commit
record_state_root_mismatch str now height expected computed source proposer c = commit (
    on_live
      (λ t. record t {
        state_root_mismatches =
            t.state_root_mismatches
            ++ (record {
              height = height;
              expected_root = expected;
              computed_root = computed;
              source = source;
              proposer = normalize_address str proposer;
              created_at = now;
            })
              ∷ [];
      })
      c)

unfoldable pub kept_mismatches : ℕ → List MismatchRow → List MismatchRow
kept_mismatches cut [] = []
kept_mismatches cut (r ∷ rows) =
    let rest = kept_mismatches cut rows in if leb r.height cut then r ∷ rest else rest

-- The deletes of `truncate_chain_state`, and of `reorg_to_ancestor` in core/blockchain.py.
unfoldable pub delete_above : ℕ → Tables → Tables
unfolding keep kept_mismatches
delete_above cut t = record t {
  transactions = keep (λ _ r. leb r.block_height cut) t.transactions;
  tx_receipts = keep (λ _ r. leb r.block_height cut) t.tx_receipts;
  block_proposer_audit = keep (λ h _. leb h cut) t.block_proposer_audit;
  state_root_mismatches = kept_mismatches cut t.state_root_mismatches;
  burn_stats = keep (λ h _. leb h cut) t.burn_stats;
  blocks = keep (λ h _. leb h cut) t.blocks;
}

unfoldable pub truncate_chain_state : ℕ → Connection → ℕ × Connection
unfolding delete_above commit
truncate_chain_state cut c = (
  length c.live.blocks - length (delete_above cut c.live).blocks,
  commit (on_live (delete_above cut) c),
)

unfoldable pub reset_accounts_from_alloc : Dict ℕ ℕ → Connection → Connection
unfolding alloc_rows commit
reset_accounts_from_alloc alloc c =
    commit (on_live (λ t. record t { accounts = alloc_rows alloc [] }) c)

unfoldable pub truncate_blocks_above : ℕ → Connection → ℕ × Connection
unfolding keep commit
truncate_blocks_above cut c =
    let rows = keep (λ h _. leb h cut) c.live.blocks in
    (length c.live.blocks - length rows, commit (on_live (λ t. record t { blocks = rows }) c))

unfoldable pub truncate_all_blocks : Connection → ℕ × Connection
unfolding commit
truncate_all_blocks c = (length c.live.blocks, commit (on_live (λ t. record t { blocks = [] }) c))
