-- ===== src/Node/Chain/Supply.antt =====
-- The sum of all balances under the writes of core/blockchain.py.
use absolute_blockchain_ulti.Base.{
  ℕ, ◌+◌, ◌≤◌, ◌≡◌, Bool, nat_eq, arith, Option-cases, inl, inr, if◌then◌else◌,
}
use absolute_blockchain_ulti.Base.Int.{ℤ, pos, negsuc, pos_part, neg_part, ◌-ℤ◌, ◌≤ℤ◌, int_laws}
use absolute_blockchain_ulti.Base.Dict.{lookup, insert, sum_entries-insert, sum_entries-insert_new}
use absolute_blockchain_ulti.Node.Tables.{Transaction, AccountRow, Connection}
use absolute_blockchain_ulti.Node.Strings.{non_empty}
use absolute_blockchain_ulti.Node.Db.Accounts.{
  Accounts, row_of, clamp, apply_balance_delta, bump_nonce, supply_of, balance_delta,
  nonce_increment, get_balance, update_balance, increment_nonce, commit,
}
use absolute_blockchain_ulti.Node.Pools.Locks.{record_outgoing, save_pools, pool_state}
use absolute_blockchain_ulti.Node.Chain.Checks.{fee_of, total_cost}
use absolute_blockchain_ulti.Node.Chain.Apply.{
  pay, pay_burn, pay_fee, next_nonce, note_outgoing, settle_transfer,
}
use absolute_blockchain_ulti.Node.Chain.State.{Node, Config}

supply_of-insert :
    (a : ℕ) (row : AccountRow) (rows : Accounts)
    → supply_of (insert a row rows) + (row_of a rows).balance ≡ supply_of rows + row.balance
unfolding supply_of
supply_of-insert a row rows = elim (Option-cases (lookup a rows)) [
  | inl e ↦ ground (arith, sum_entries-insert_new (λ _ r. r.balance) a row rows e)
  | inr (old, e) ↦ ground (arith, sum_entries-insert (λ _ r. r.balance) a row old rows e)
]

pub supply_of-bump_nonce :
    (a : ℕ) (rows : Accounts) → supply_of (bump_nonce a rows) ≡ supply_of rows
unfolding bump_nonce
supply_of-bump_nonce a rows =
    let row = row_of a rows in
    omega (arith, supply_of-insert a (record row { nonce = row.nonce + 1 }) rows)

-- A change that the balance can bear.
pub supply_of-apply_balance_delta :
    (a : ℕ) (delta : ℤ) (rows : Accounts)
    → neg_part delta ≤ (row_of a rows).balance
    → supply_of (apply_balance_delta a delta rows) + neg_part delta
      ≡ supply_of rows + pos_part delta
unfolding apply_balance_delta clamp
supply_of-apply_balance_delta a (pos n) rows h =
    let row = row_of a rows in
    omega (arith, supply_of-insert a (record row { balance = row.balance + n }) rows)
supply_of-apply_balance_delta a (negsuc n) rows h =
    let row = row_of a rows in
    omega (arith, supply_of-insert a (record row { balance = clamp row.balance (negsuc n) }) rows)

-- The live accounts, which is all that the sum depends on.
abbrev pub live_accounts : Connection → Accounts
live_accounts c = c.live.accounts

pub live_accounts-pay :
    (b : Bool) (a : ℕ) (d : ℤ) (c : Connection)
    → live_accounts (pay b a d c) ≡ apply_balance_delta a d (live_accounts c)
unfolding pay balance_delta update_balance commit
live_accounts-pay b a d c = ground arith

pub live_accounts-next_nonce :
    (b : Bool) (a : ℕ) (c : Connection)
    → live_accounts (next_nonce b a c) ≡ bump_nonce a (live_accounts c)
unfolding next_nonce nonce_increment increment_nonce commit
live_accounts-next_nonce b a c = ground arith

pub live_accounts-note_outgoing :
    (node : Node) (a : ℕ) (d : ℤ) (c : Connection)
    → live_accounts (note_outgoing node a d c) ≡ live_accounts c
unfolding note_outgoing record_outgoing save_pools commit
live_accounts-note_outgoing node a d c = elim (Option-cases (lookup a (pool_state c).pools)) [
  | inl e ↦ ground arith
  | inr (info, e) ↦ ground arith
]

-- `burn_rate` lies between 0 and 1.
abbrev pub IsBurnRate : Config → Type 0
IsBurnRate config =
    (fee : ℤ) → pos 0 ≤ℤ fee → (pos 0 ≤ℤ config.burn_of fee) × (config.burn_of fee ≤ℤ fee)

pub supply_of-pay :
    (b : Bool) (a : ℕ) (d : ℤ) (c : Connection)
    → neg_part d ≤ get_balance a c
    → supply_of (live_accounts (pay b a d c)) + neg_part d
      ≡ supply_of (live_accounts c) + pos_part d
unfolding get_balance
supply_of-pay b a d c h =
    rw (live_accounts-pay b a d c) (supply_of-apply_balance_delta a d (live_accounts c) h)

-- What is burnt without an address for it is nobody's.
abbrev pub unowned : Config → ℤ → ℕ
unowned config burn = if non_empty config.burn_address then 0 else pos_part burn

supply_of-pay_burn :
    (config : Config) (b : Bool) (burn : ℤ) (c : Connection)
    → pos 0 ≤ℤ burn
    → supply_of (live_accounts (pay_burn config b burn c)) + unowned config burn
      ≡ supply_of (live_accounts c) + pos_part burn
unfolding pay_burn
supply_of-pay_burn config b burn c h = ground (arith, supply_of-pay b config.burn_address burn c)

supply_of-pay_fee :
    (config : Config) (b : Bool) (tx : Transaction) (proposer : ℕ) (fee : ℤ) (c : Connection)
    → IsBurnRate config
    → pos 0 ≤ℤ fee
    → supply_of (live_accounts (pay_fee config b tx proposer fee c))
        + unowned config (config.burn_of fee)
      ≡ supply_of (live_accounts c) + pos_part fee
unfolding pay_fee
supply_of-pay_fee config b tx proposer fee c rate h =
    let burn = config.burn_of fee in
    let paid = pay b proposer (fee -ℤ burn) c in
    let burnt = pay_burn config b burn paid in
    let r = rate fee h in
    grind (
      int_laws,
      live_accounts-next_nonce b tx.from_addr burnt,
      supply_of-bump_nonce tx.from_addr (live_accounts burnt),
      supply_of-pay_burn config b burn paid,
      supply_of-pay b proposer (fee -ℤ burn) c,
    )

pub supply_of-settle_transfer :
    (node : Node) (b : Bool) (tx : Transaction) (height proposer : ℕ) (c : Connection)
    → IsBurnRate node.config
    → pos 0 ≤ℤ tx.value
    → pos 0 ≤ℤ fee_of node.config tx
    → total_cost node.config tx ≤ℤ pos (get_balance tx.from_addr c)
    → supply_of (live_accounts (settle_transfer node b tx height proposer c).1)
        + unowned node.config (node.config.burn_of (fee_of node.config tx))
      ≡ supply_of (live_accounts c)
unfolding settle_transfer total_cost
supply_of-settle_transfer node b tx height proposer c rate hv hf hc =
    let fee = fee_of node.config tx in
    let cost = total_cost node.config tx in
    let debited = pay b tx.from_addr (pos 0 -ℤ cost) c in
    let credited = pay b tx.to_addr tx.value debited in
    let done = pay_fee node.config b tx proposer fee credited in
    grind (
      int_laws,
      live_accounts-note_outgoing node tx.from_addr cost done,
      supply_of-pay_fee node.config b tx proposer fee credited rate,
      supply_of-pay b tx.to_addr tx.value debited,
      supply_of-pay b tx.from_addr (pos 0 -ℤ cost) c,
    )
