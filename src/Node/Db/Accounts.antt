-- ===== src/Node/Db/Accounts.antt =====
-- The accounts of storage/database.py: statements on the rows, and the methods around them, which
-- commit or leave that to `atomic`.
use absolute_blockchain_ulti.Base.{
  ℕ, suc, ◌+◌, ◌-◌, Option, none, some, List, [], ◌∷◌, Result, ok, raised, if◌then◌else◌, nat_eq,
  leb,
}
use absolute_blockchain_ulti.Base.Int.{ℤ, pos, negsuc}
use absolute_blockchain_ulti.Base.Dict.{Dict, lookup, insert, or_else, sum_entries}
use absolute_blockchain_ulti.Node.Tables.{AccountRow, Tables, Connection}

abbrev pub Accounts : Type 0
Accounts = Dict ℕ AccountRow

-- A row that an INSERT gives only an address.
abbrev pub blank_row : AccountRow
blank_row = record { balance = 0; nonce = 0; code = none; storage = none }

-- `MAX(0.0, balance + delta)`
unfoldable pub clamp : ℕ → ℤ → ℕ
clamp b (pos n) = b + n
clamp b (negsuc n) = b - suc n

abbrev pub row_of : ℕ → Accounts → AccountRow
row_of a accounts = or_else (lookup a accounts) blank_row

-- The statement of `_apply_balance_delta`.
unfoldable pub apply_balance_delta : ℕ → ℤ → Accounts → Accounts
unfolding clamp
apply_balance_delta a delta accounts =
    let row = row_of a accounts in
    insert a (record row { balance = clamp row.balance delta }) accounts

-- `INSERT ... VALUES (?,0,1) ON CONFLICT DO UPDATE SET nonce=nonce+1`
unfoldable pub bump_nonce : ℕ → Accounts → Accounts
bump_nonce a accounts =
    let row = row_of a accounts in insert a (record row { nonce = row.nonce + 1 }) accounts

-- The sum of `get_total_supply`.
unfoldable pub supply_of : Accounts → ℕ
supply_of = sum_entries (λ _ row. row.balance)

-- The rows after an `ORDER BY address`.
unfoldable pub insert_row : ℕ × AccountRow → List (ℕ × AccountRow) → List (ℕ × AccountRow)
insert_row r [] = r ∷ []
insert_row r (s ∷ rows) = if leb r.0 s.0 then r ∷ s ∷ rows else s ∷ insert_row r rows

unfoldable pub ordered_rows : Accounts → List (ℕ × AccountRow)
unfolding insert_row
ordered_rows [] = []
ordered_rows (r ∷ rows) = insert_row r (ordered_rows rows)

-- Statements run on the live rows; `commit` and `rollback` are the connection's.
abbrev pub on_live : (Tables → Tables) → Connection → Connection
on_live f c = record c { live = f c.live }

abbrev pub on_accounts : (Accounts → Accounts) → Connection → Connection
on_accounts f = on_live (λ t. record t { accounts = f t.accounts })

unfoldable pub commit : Connection → Connection
commit c = record c { saved = c.live }

unfoldable pub rollback : Connection → Connection
rollback c = record c { live = c.saved }

-- `with self.db.atomic():`, for a body that may raise.
unfoldable pub atomic :
    {E A : Type 0} → (Connection → Result E A × Connection) → Connection → Result E A × Connection
unfolding commit rollback
atomic body c = elim ((body c).0) [
  | ok a ↦ (ok a, commit (body c).1)
  | raised e ↦ (raised e, rollback (body c).1)
]

unfoldable pub balance_delta : ℕ → ℤ → Connection → Connection
unfolding apply_balance_delta
balance_delta a delta = on_accounts (apply_balance_delta a delta)

unfoldable pub nonce_increment : ℕ → Connection → Connection
unfolding bump_nonce
nonce_increment a = on_accounts (bump_nonce a)

unfoldable pub update_balance : ℕ → ℤ → Connection → Connection
unfolding balance_delta commit
update_balance a delta c = commit (balance_delta a delta c)

unfoldable pub increment_nonce : ℕ → Connection → Connection
unfolding nonce_increment commit
increment_nonce a c = commit (nonce_increment a c)

unfoldable pub set_balance : ℕ → ℕ → Connection → Connection
unfolding commit
set_balance a balance c =
    commit (on_accounts (λ rows. insert a (record (row_of a rows) { balance = balance }) rows) c)

unfoldable pub save_account : ℕ → AccountRow → Connection → Connection
unfolding commit
save_account a row c = commit (on_accounts (insert a row) c)

-- An UPDATE does nothing for an address without a row.
unfoldable pub put_storage : ℕ → ℕ → Accounts → Accounts
put_storage a storage rows = elim (lookup a rows) [
  | none ↦ rows
  | some row ↦ insert a (record row { storage = some storage }) rows
]

unfoldable pub update_account_storage : ℕ → ℕ → Connection → Connection
unfolding put_storage commit
update_account_storage a storage c = commit (on_accounts (put_storage a storage) c)

unfoldable pub get_balance : ℕ → Connection → ℕ
get_balance a c = (row_of a c.live.accounts).balance

unfoldable pub get_nonce : ℕ → Connection → ℕ
get_nonce a c = (row_of a c.live.accounts).nonce

unfoldable pub get_account : ℕ → Connection → Option AccountRow
get_account a c = lookup a c.live.accounts

unfoldable pub get_all_accounts : Connection → List (ℕ × AccountRow)
unfolding ordered_rows
get_all_accounts c = ordered_rows c.live.accounts

unfoldable pub get_total_supply : Connection → ℕ
unfolding supply_of
get_total_supply c = supply_of c.live.accounts

-- The rows that `reset_accounts_from_alloc` and the replay of the chain begin with.
unfoldable pub alloc_rows : Dict ℕ ℕ → Accounts → Accounts
alloc_rows [] rows = rows
alloc_rows ((a, amount) ∷ alloc) rows =
    alloc_rows alloc (insert a (record blank_row { balance = amount }) rows)
