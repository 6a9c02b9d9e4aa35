-- ===== src/StateEngine/Defs.antt =====
-- The accounts, `_apply_transaction` and `transition` (execution/state_engine.py).
-- Addresses and hashes are only compared, so they are numbers; 0 is the `None` that a missing key
-- of the transaction gives. Balances and amounts are Python integers.
use absolute_blockchain_ulti.Base.{
  ℕ, ◌+◌, Bool, true, false, Option, none, some, List, [], ◌∷◌, Result, ok, raised, ◌>>=◌,
  if◌then◌else◌, nat_eq, map,
}
use absolute_blockchain_ulti.Base.Int.{ℤ, pos, ◌+ℤ◌, ◌-ℤ◌, ltb_ℤ, int_beq}
use absolute_blockchain_ulti.Base.Dict.{Dict, lookup, insert, contains, or_else}

pub record AccountState : Type 0 where
  pub balance : ℤ
  pub nonce : ℕ
  pub code_hash : ℕ
  pub storage_root : ℕ

abbrev pub AccountMap : Type 0
AccountMap = Dict ℕ AccountState

pub record BlockState : Type 0 where
  pub accounts : AccountMap
  pub block_number : ℕ
  pub block_hash : ℕ
  pub parent_hash : ℕ
  pub state_root : ℕ
  pub timestamp : ℕ

-- The keys of a transaction's dictionary that the code reads.
pub record Tx : Type 0 where
  pub sender : Option ℕ
  pub from_addr : Option ℕ
  pub recipient : Option ℕ
  pub to_addr : Option ℕ
  pub amount : Option ℤ
  pub value : Option ℤ
  pub nonce : Option ℤ

pub record Block : Type 0 where
  pub transactions : List Tx
  pub number : ℕ
  pub hash : ℕ
  pub parent_hash : ℕ
  pub timestamp : ℕ

pub data Error : Type 0 where
  no_state insufficient_balance invalid_nonce : Error

-- `AccountState(balance=0, nonce=0)`
abbrev pub blank : AccountState
blank = record { balance = pos 0; nonce = 0; code_hash = 0; storage_root = 0 }

-- `tx.get("from", tx.get("from_addr"))` and its like
abbrev pub source : Tx → ℕ
source tx = or_else tx.sender (or_else tx.from_addr 0)

abbrev pub target : Tx → ℕ
target tx = or_else tx.recipient (or_else tx.to_addr 0)

abbrev pub amount_of : Tx → ℤ
amount_of tx = or_else tx.amount (or_else tx.value (pos 0))

-- `if a not in accounts: accounts[a] = AccountState(0, 0)`
unfoldable pub ensure : ℕ → AccountMap → AccountMap
ensure a accounts = if contains a accounts then accounts else insert a blank accounts

-- `accounts[a]`, for a key that `ensure` has put there
unfoldable pub account : ℕ → AccountMap → AccountState
account a accounts = or_else (lookup a accounts) blank

-- The two writes to the sender's account.
unfoldable pub debit : ℕ → ℤ → AccountMap → AccountMap
debit a amount accounts =
    let acc = account a accounts in
    insert a (record acc { balance = acc.balance -ℤ amount; nonce = acc.nonce + 1 }) accounts

unfoldable pub credit : ℕ → ℤ → AccountMap → AccountMap
credit a amount accounts =
    let acc = account a accounts in
    insert a (record acc { balance = acc.balance +ℤ amount }) accounts

-- `tx.get("nonce", expected_nonce) != expected_nonce`
unfoldable pub wrong_nonce : Option ℤ → ℕ → Bool
wrong_nonce none expected = false
wrong_nonce (some n) expected = if int_beq n (pos expected) then false else true

-- `_apply_transaction`
unfoldable pub apply_transaction : Tx → AccountMap → Result Error AccountMap
unfolding wrong_nonce
apply_transaction tx accounts =
    let known = ensure (source tx) accounts in
    let acc = account (source tx) known in
    if ltb_ℤ acc.balance (amount_of tx)
    then raised insufficient_balance
    else if wrong_nonce tx.nonce acc.nonce
    then raised invalid_nonce
    else ok (
        credit (target tx) (amount_of tx)
          (ensure (target tx) (debit (source tx) (amount_of tx) known)))

-- The loop of `transition`.
unfoldable pub apply_all : List Tx → AccountMap → Result Error AccountMap
apply_all [] accounts = ok accounts
apply_all (tx ∷ txs) accounts = do
  accounts' ← apply_transaction tx accounts
  apply_all txs accounts'

pub record Engine : Type 0 where
  pub state : Option BlockState

-- The payload of `compute_state_engine_root` (execution/state_root.py).
unfoldable pub root_payload : AccountMap → List (ℕ × ℤ × ℕ)
root_payload = map (λ e. (e.0, e.1.balance, e.1.nonce))

-- What hashes is a parameter: `json.dumps(payload, sort_keys=True)` and SHA-256.
module _ (digest : List (ℕ × ℤ × ℕ) → ℕ) where
  -- `compute_state_engine_root`
  unfoldable pub root : AccountMap → ℕ
  unfolding root_payload
  root accounts = digest (root_payload accounts)

  unfoldable pub alloc_accounts : List (ℕ × ℤ) → AccountMap → AccountMap
  alloc_accounts [] accounts = accounts
  alloc_accounts ((addr, balance) ∷ alloc) accounts =
      alloc_accounts alloc (insert addr (record blank { balance = balance }) accounts)

  -- `create_genesis`, given the digest of the genesis string and the clock
  unfoldable pub create_genesis : ℕ → ℕ → List (ℕ × ℤ) → Engine
  create_genesis genesis_hash now alloc =
      let accounts = alloc_accounts alloc [] in
      record {
        state = some (record {
          accounts = accounts;
          block_number = 0;
          block_hash = genesis_hash;
          parent_hash = 0;
          state_root = root accounts;
          timestamp = now;
        });
      }

  -- The new state of a block over the accounts that its transactions leave.
  unfoldable pub seal : Block → AccountMap → BlockState
  seal b accounts = record {
    accounts = accounts;
    block_number = b.number;
    block_hash = b.hash;
    parent_hash = b.parent_hash;
    state_root = root accounts;
    timestamp = b.timestamp;
  }

  -- `transition`: the transactions run on a copy, so an exception leaves `self.state` as it was.
  unfoldable pub transition : Block → Engine → Result Error BlockState × Engine
  transition b e = elim e.state [
    | none ↦ (raised no_state, e)
    | some s ↦ elim (apply_all b.transactions s.accounts) [
      | ok accounts ↦ (ok (seal b accounts), record e { state = some (seal b accounts) })
      | raised f ↦ (raised f, e)
    ]
  ]

-- `get_balance`, `get_nonce`
unfoldable pub get_balance : ℕ → Engine → ℤ
unfolding account
get_balance a e = elim e.state [ none ↦ pos 0 | some s ↦ (account a s.accounts).balance ]

unfoldable pub get_nonce : ℕ → Engine → ℕ
unfolding account
get_nonce a e = elim e.state [ none ↦ 0 | some s ↦ (account a s.accounts).nonce ]
