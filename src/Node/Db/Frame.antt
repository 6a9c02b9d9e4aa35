-- ===== src/Node/Db/Frame.antt =====
-- Which tables the writes of storage/database.py for a block leave alone.
use absolute_blockchain_ulti.Base.{
  ℕ, ◌≡◌, refl, ◌∙◌, List, [], ◌∷◌, arith, Bool-cases, inl, inr, ◌&&◌, if◌then◌else◌,
}
use absolute_blockchain_ulti.Base.Int.{ℤ, pos, ltb_ℤ}
use absolute_blockchain_ulti.Node.Strings.{Strings, non_empty}
use absolute_blockchain_ulti.Node.Tables.{Transaction, Block, Tables, Connection}
use absolute_blockchain_ulti.Node.Db.Accounts.{apply_balance_delta}
use absolute_blockchain_ulti.Node.Db.Blocks.{insert_block, insert_proposer_audit, replace_block}
use absolute_blockchain_ulti.Node.Db.Persist.{
  persist_transactions, persist_transaction, insert_transaction, insert_tx_receipt,
  record_tx_propagation_event, persist_burn, insert_burn_record, persist_block_locked,
}

-- The accounts and the blocks: what the others do not touch.
pub record SameChain (s t : Tables) : Type 0 where
  pub same_accounts : s.accounts ≡ t.accounts
  pub same_blocks : s.blocks ≡ t.blocks

pub persist_transaction-SameChain :
    (str : Strings) (now : ℕ) (b : Block) (tx : Transaction) (t : Tables)
    → SameChain (persist_transaction str now b tx t) t
unfolding persist_transaction insert_transaction insert_tx_receipt record_tx_propagation_event
persist_transaction-SameChain str now b tx t = elim (Bool-cases (non_empty tx.hash)) [
  | inl e ↦ record { same_accounts = ground (arith, e); same_blocks = ground (arith, e) }
  | inr e ↦ record { same_accounts = ground (arith, e); same_blocks = ground (arith, e) }
]

pub persist_transactions-SameChain :
    (str : Strings) (now : ℕ) (b : Block) (txs : List Transaction) (t : Tables)
    → SameChain (persist_transactions str now b txs t) t
unfolding persist_transactions
persist_transactions-SameChain str now b [] t = record { same_accounts = refl; same_blocks = refl }
persist_transactions-SameChain str now b (tx ∷ txs) t =
    let one = persist_transaction-SameChain str now b tx t in
    let rest = persist_transactions-SameChain str now b txs (persist_transaction str now b tx t) in
    record {
      same_accounts = rest.same_accounts ∙ one.same_accounts;
      same_blocks = rest.same_blocks ∙ one.same_blocks;
    }

pub accounts-insert_block :
    (str : Strings) (now : ℕ) (b : Block) (t : Tables)
    → (insert_block str now b t).accounts ≡ t.accounts
unfolding insert_block insert_proposer_audit
accounts-insert_block str now b t = refl

pub blocks-insert_block :
    (str : Strings) (now : ℕ) (b : Block) (t : Tables)
    → (insert_block str now b t).blocks ≡ replace_block b t.blocks
unfolding insert_block insert_proposer_audit
blocks-insert_block str now b t = refl

pub blocks-persist_burn :
    (height : ℕ) (burned : ℤ) (target : ℕ) (t : Tables)
    → (persist_burn height burned target t).blocks ≡ t.blocks
unfolding persist_burn insert_burn_record
blocks-persist_burn height burned target t = ground arith

-- Over the whole of `_persist_block_locked`.
pub blocks-persist_block_locked :
    (str : Strings) (now : ℕ) (b : Block) (txs : List Transaction) (burned : ℤ) (target : ℕ)
    (c : Connection)
    → (persist_block_locked str now b txs burned target c).live.blocks
      ≡ replace_block b c.live.blocks
unfolding persist_block_locked
blocks-persist_block_locked str now b txs burned target c =
    let inserted = insert_block str now b c.live in
    let noted = persist_transactions str now b txs inserted in
    blocks-persist_burn b.height burned target noted
    ∙ (persist_transactions-SameChain str now b txs inserted).same_blocks
    ∙ blocks-insert_block str now b c.live

pub accounts-persist_block_locked :
    (str : Strings) (now : ℕ) (b : Block) (txs : List Transaction) (burned : ℤ) (target : ℕ)
    (c : Connection)
    → (persist_block_locked str now b txs burned target c).live.accounts ≡ (
        if ltb_ℤ (pos 0) burned && non_empty target
        then apply_balance_delta target burned c.live.accounts
        else c.live.accounts)
unfolding persist_block_locked persist_burn insert_burn_record
accounts-persist_block_locked str now b txs burned target c =
    let inserted = insert_block str now b c.live in
    let same = (persist_transactions-SameChain str now b txs inserted).same_accounts in
    ground (arith, same, accounts-insert_block str now b c.live)
