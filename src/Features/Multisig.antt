-- ===== src/Features/Multisig.antt =====
-- The wallet with several owners (features/multisig.py). Owners and recipients are numbers, 0 the
-- empty string. The identifiers, which the source takes from a digest and the clock, are arguments,
-- and so is the executor. The list of confirmations keeps the order of arrival, where the source
-- sorts it. The registry of all wallets, the time of creation and the copies that queries return
-- are left out.
use absolute_blockchain_ulti.Base.{
  ℕ, Bool, true, false, Option, none, some, List, [], ◌∷◌, ◌||◌, if◌then◌else◌, nat_eq, nat_beq,
  ltb, leb, length,
}
use absolute_blockchain_ulti.Base.Int.{ℤ, pos, leb_ℤ}
use absolute_blockchain_ulti.Base.Dict.{Dict, lookup, insert, or_else, sum_entries}
use absolute_blockchain_ulti.Base.Set.{member, add}

pub data Status : Type 0 where
  pending executed execution_failed approved : Status

-- What the executor answers: whether `success` is not `False`, and the rest of the result.
pub record Execution : Type 0 where
  pub success : Bool
  pub result : ℕ

pub record Transaction : Type 0 where
  pub tx_id : ℕ
  pub to : ℕ
  pub amount : ℤ
  pub status : Status
  pub executed : Bool
  pub execution_result : Option Execution
  pub required : ℕ
  pub confirmations : List ℕ

pub record Wallet : Type 0 where
  pub owners : List ℕ
  pub required : ℕ
  pub transaction_executor : Option (Transaction → Execution)
  pub transactions : Dict ℕ Transaction
  pub confirmations : Dict ℕ (List ℕ)

pub data Error : Type 0 where
  recipient_required amount_not_positive owner_not_authorized transaction_not_found : Error
  transaction_already_executed : Error

-- The loop over `owners`: no empty and no repeated owner.
unfoldable pub unique_owners : List ℕ → List ℕ → List ℕ
unique_owners unique [] = unique
unique_owners unique (o ∷ os) = unique_owners (if nat_beq o 0 then unique else add o unique) os

-- `__init__`; `none` where it raises
unfoldable pub init : List ℕ → ℕ → Option (Transaction → Execution) → Option Wallet
init owners required executor =
    let unique = unique_owners [] owners in
    if nat_beq (length unique) 0 || (nat_beq required 0 || ltb (length unique) required)
    then none
    else some (record {
      owners = unique;
      required = required;
      transaction_executor = executor;
      transactions = [];
      confirmations = [];
    })

abbrev pub new_transaction : ℕ → ℕ → ℤ → ℕ → Transaction
new_transaction tx_id to amount required = record {
  tx_id = tx_id;
  to = to;
  amount = amount;
  status = Status.pending;
  executed = false;
  execution_result = none;
  required = required;
  confirmations = [];
}

unfoldable pub create_transaction : ℕ → ℕ → ℤ → Wallet → Wallet × Option Error
create_transaction tx_id to amount w =
    if nat_beq to 0
    then (w, some Error.recipient_required)
    else if leb_ℤ amount (pos 0)
    then (w, some Error.amount_not_positive)
    else (
      record w {
        transactions = insert tx_id (new_transaction tx_id to amount w.required) w.transactions;
        confirmations = insert tx_id [] w.confirmations;
      },
      none,
    )

unfoldable pub record_execution : Transaction → Execution → Transaction
record_execution tx execution =
    if execution.success
    then record tx { executed = true; status = Status.executed; execution_result = some execution }
    else record tx { status = Status.execution_failed; execution_result = some execution }

-- What `confirm` does once enough owners have confirmed.
unfoldable pub settle : Option (Transaction → Execution) → Transaction → Transaction
unfolding record_execution
settle none tx = record tx { status = Status.approved }
settle (some executor) tx = record_execution tx (executor tx)

-- The transaction after `confirmations` have been written to it.
unfoldable pub confirmed : Wallet → List ℕ → Transaction → Transaction
confirmed w confirmations tx =
    let tx' = record tx { confirmations = confirmations } in
    if leb w.required (length confirmations) then settle w.transaction_executor tx' else tx'

-- The guards and the writes of `confirm`, after the owner has been found authorized.
unfoldable pub confirm_found : ℕ → ℕ → Option Transaction → Wallet → Wallet × Option Error
confirm_found tx_id owner none w = (w, some Error.transaction_not_found)
confirm_found tx_id owner (some tx) w =
    let confirmations = add owner (or_else (lookup tx_id w.confirmations) []) in
    if tx.executed then (w, some Error.transaction_already_executed) else (
      record w {
        transactions = insert tx_id (confirmed w confirmations tx) w.transactions;
        confirmations = insert tx_id confirmations w.confirmations;
      },
      none,
    )

unfoldable pub confirm : ℕ → ℕ → Wallet → Wallet × Option Error
unfolding confirm_found
confirm tx_id owner w =
    if member owner w.owners
    then confirm_found tx_id owner (lookup tx_id w.transactions) w
    else (w, some Error.owner_not_authorized)

unfoldable pub get_transaction : ℕ → Wallet → Option Transaction
get_transaction tx_id w = lookup tx_id w.transactions

-- `pending_transactions` and `executed_transactions` of `to_dict`
unfoldable pub pending_transactions : Wallet → ℕ
pending_transactions w = sum_entries (λ _ tx. if tx.executed then 0 else 1) w.transactions

unfoldable pub executed_transactions : Wallet → ℕ
executed_transactions w = sum_entries (λ _ tx. if tx.executed then 1 else 0) w.transactions
