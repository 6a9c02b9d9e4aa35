-- ===== src/Satoshi.antt =====
-- The state that is rebuilt by replaying the chain (blockchain/immutable_state.py), in whole
-- satoshi: where the source multiplies a float by 1 000 000, the product is an argument. The lock
-- and the views in floats are left out.
mod Tests
use absolute_blockchain_ulti.Base.{
  ℕ, zero, suc, ◌+◌, ◌≡◌, refl, Bool, true, false, Option, none, some, List, [], ◌∷◌, if◌then◌else◌,
  nat_eq, length, ◌||◌, arith, Bool-cases, Option-cases, inl, inr,
}
use absolute_blockchain_ulti.Base.Int.{ℤ, pos, ◌+ℤ◌, ◌-ℤ◌, ltb_ℤ, int_laws}
use absolute_blockchain_ulti.Base.Dict.{
  Dict, lookup, insert, contains, or_else, lookup-insert, sum_entries,
}

pub record Account : Type 0 where
  pub balance_satoshi : ℤ
  pub nonce : ℕ
  pub last_block_height : ℕ
  pub is_validator : Bool
  pub validator_stake_satoshi : ℕ

abbrev pub State : Type 0
State = Dict ℕ Account

-- `AccountState(address=address)`
abbrev pub new_account : Account
new_account = record {
  balance_satoshi = pos 0;
  nonce = 0;
  last_block_height = 0;
  is_validator = false;
  validator_stake_satoshi = 0;
}

-- What `get_account` with `create=True` leaves in the state.
unfoldable pub ensure_account : ℕ → State → State
ensure_account a d = if contains a d then d else insert a new_account d

-- `get_account`: the account, and the state that stays
unfoldable pub get_account : ℕ → Bool → State → Option Account × State
unfolding ensure_account
get_account a create d =
    if contains a d || create
    then (some (or_else (lookup a d) new_account), ensure_account a d)
    else (none, d)

unfoldable pub balance_of : ℕ → State → ℤ
balance_of a d = (or_else (lookup a d) new_account).balance_satoshi

-- `get_balance_satoshi`, which creates the account it asks for
unfoldable pub get_balance_satoshi : ℕ → State → ℤ × State
unfolding balance_of ensure_account
get_balance_satoshi a d = (balance_of a d, ensure_account a d)

-- `acc.balance_satoshi += amount`
unfoldable pub add_balance : ℕ → ℤ → State → State
unfolding balance_of
add_balance a amount d =
    insert a
      (record (or_else (lookup a d) new_account) { balance_satoshi = balance_of a d +ℤ amount }) d

unfoldable pub credit : ℕ → ℤ → State → State
unfolding ensure_account add_balance
credit a amount d = add_balance a amount (ensure_account a d)

unfoldable pub seed_accounts : List (ℕ × ℤ) → State → State
unfolding ensure_account
seed_accounts [] d = d
seed_accounts (x ∷ xs) d =
    let known = ensure_account x.0 d in
    seed_accounts xs
      (insert x.0 (record (or_else (lookup x.0 known) new_account) { balance_satoshi = x.1 }) known)

-- `seed_from_balances`
unfoldable pub seed_from_balances : List (ℕ × ℤ) → State → ℕ × State
unfolding seed_accounts
seed_from_balances balances d = (length balances, seed_accounts balances d)

-- A transaction, after the chain of `tx.get`.
pub record Payment : Type 0 where
  pub from_addr : ℕ
  pub to_addr : ℕ
  pub amount_satoshi : ℤ
  pub fee_satoshi : ℤ

unfoldable pub apply_transaction : Payment → State → Bool × State
unfolding ensure_account balance_of add_balance
apply_transaction tx d =
    let known = ensure_account tx.to_addr (ensure_account tx.from_addr d) in
    let total_cost = tx.amount_satoshi +ℤ tx.fee_satoshi in
    if ltb_ℤ (balance_of tx.from_addr known) total_cost then (false, known) else (
      true,
      add_balance tx.to_addr tx.amount_satoshi
          (add_balance tx.from_addr (pos 0 -ℤ total_cost) known),
    )

-- The replay of a chain's transactions.
unfoldable pub replay : List Payment → State → State
replay [] d = d
replay (tx ∷ txs) d = replay txs (apply_transaction tx d).1

unfoldable pub get_total_supply_satoshi : State → ℤ
get_total_supply_satoshi [] = pos 0
get_total_supply_satoshi (x ∷ d) = x.1.balance_satoshi +ℤ get_total_supply_satoshi d

pub record Stats : Type 0 where
  pub total_accounts : ℕ
  pub total_supply_satoshi : ℤ
  pub validators : ℕ

unfoldable pub get_stats : State → Stats
unfolding get_total_supply_satoshi
get_stats d = record {
  total_accounts = length d;
  total_supply_satoshi = get_total_supply_satoshi d;
  validators = sum_entries (λ _ a. if a.is_validator then 1 else 0) d;
}

supply-insert :
    (k : ℕ) (v old : Account) (d : State)
    → lookup k d ≡ some old
    → get_total_supply_satoshi (insert k v d) +ℤ old.balance_satoshi
      ≡ get_total_supply_satoshi d +ℤ v.balance_satoshi
unfolding lookup insert get_total_supply_satoshi
supply-insert k v old [] h = cc
supply-insert k v old (x ∷ d) h = grind (int_laws, supply-insert k v old d)

supply-insert_new :
    (k : ℕ) (v : Account) (d : State)
    → lookup k d ≡ none
    → get_total_supply_satoshi (insert k v d) ≡ get_total_supply_satoshi d +ℤ v.balance_satoshi
unfolding lookup insert get_total_supply_satoshi
supply-insert_new k v [] h = omega int_laws
supply-insert_new k v (x ∷ d) h = grind (int_laws, supply-insert_new k v d)

supply-ensure_account :
    (a : ℕ) (d : State) → get_total_supply_satoshi (ensure_account a d) ≡ get_total_supply_satoshi d
unfolding ensure_account
supply-ensure_account a d = elim (Option-cases (lookup a d)) [
  | inl e ↦ grind (int_laws, supply-insert_new a new_account d e)
  | inr (v, e) ↦ ground arith
]

supply-add_balance :
    (a : ℕ) (x : ℤ) (d : State)
    → get_total_supply_satoshi (add_balance a x d) ≡ get_total_supply_satoshi d +ℤ x
unfolding add_balance balance_of
supply-add_balance a x d = elim (Option-cases (lookup a d)) [
  | inl e ↦
      grind
        (int_laws, supply-insert_new a (record new_account { balance_satoshi = pos 0 +ℤ x }) d e)
  | inr (v, e) ↦
      grind
        (int_laws, supply-insert a (record v { balance_satoshi = v.balance_satoshi +ℤ x }) v d e)
]

-- The fee of a payment that is accepted, and nothing of one that is refused.
abbrev pub burned : Payment → State → ℤ
burned tx d = if (apply_transaction tx d).0 then tx.fee_satoshi else pos 0

-- All that the payments of a replay burn.
unfoldable pub all_burned : List Payment → State → ℤ
all_burned [] d = pos 0
all_burned (tx ∷ txs) d = burned tx d +ℤ all_burned txs (apply_transaction tx d).1

apply_transaction-burned :
    (tx : Payment) (d : State)
    → get_total_supply_satoshi (apply_transaction tx d).1
      ≡ get_total_supply_satoshi d -ℤ burned tx d
unfolding apply_transaction
apply_transaction-burned tx d =
    let known = ensure_account tx.to_addr (ensure_account tx.from_addr d) in
    let total_cost = tx.amount_satoshi +ℤ tx.fee_satoshi in
    let paid = add_balance tx.from_addr (pos 0 -ℤ total_cost) known in
    grind (
      int_laws,
      supply-ensure_account tx.from_addr d,
      supply-ensure_account tx.to_addr (ensure_account tx.from_addr d),
      supply-add_balance tx.from_addr (pos 0 -ℤ total_cost) known,
      supply-add_balance tx.to_addr tx.amount_satoshi paid,
    )

-- A replay changes the supply by just the fees of the payments that it accepts: also where payer and
-- payee are one account, and whatever is refused.
pub replay-all_burned :
    (txs : List Payment) (d : State)
    → get_total_supply_satoshi (replay txs d) ≡ get_total_supply_satoshi d -ℤ all_burned txs d
unfolding replay all_burned
replay-all_burned [] d = grind int_laws
replay-all_burned (tx ∷ txs) d =
    grind
      (int_laws, apply_transaction-burned tx d, replay-all_burned txs (apply_transaction tx d).1)
