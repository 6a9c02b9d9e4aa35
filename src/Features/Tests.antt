-- ===== src/Features/Tests.antt =====
-- A wallet of features/multisig.py with two of three owners.
use absolute_blockchain_ulti.Base.{ℕ, ◌≤◌, ◌≡◌, refl, true, some, List, [], ◌∷◌, length, nat_eq}
use absolute_blockchain_ulti.Base.Int.{pos}
use absolute_blockchain_ulti.Base.Dict.{lookup, insert}
use absolute_blockchain_ulti.Base.Set.{member, add, IsFinSet}
use absolute_blockchain_ulti.Features.Multisig.{
  Wallet, Transaction, Execution, Status, init, unique_owners, create_transaction, confirm,
  confirm_found, confirmed, settle, record_execution,
}
use absolute_blockchain_ulti.Features.Authority.{Call, perform, perform_all, executed-confirmed}

program : Unit {0}
unfolding init unique_owners create_transaction confirm confirm_found confirmed settle
    record_execution perform perform_all member add lookup insert
program = tt

abbrev executor : Transaction → Execution
executor tx = record { success = true; result = tx.to }

abbrev wallet : Wallet
wallet = record {
  owners = 1 ∷ 2 ∷ 3 ∷ [];
  required = 2;
  transaction_executor = some executor;
  transactions = [];
  confirmations = [];
}

-- Owner 3 confirms twice, a stranger in vain, and then owner 1.
abbrev calls : List Call
calls =
    Call.create 50 9 (pos 7)
    ∷ Call.confirmation 50 3
    ∷ Call.confirmation 50 3
    ∷ Call.confirmation 50 8
    ∷ Call.confirmation 50 1
    ∷ []

abbrev paid : Transaction
paid = record {
  tx_id = 50;
  to = 9;
  amount = pos 7;
  status = Status.executed;
  executed = true;
  execution_result = some (record { success = true; result = 9 });
  required = 2;
  confirmations = 3 ∷ 1 ∷ [];
}

executed-confirmed_example :
    (2 ≤ length paid.confirmations)
    × IsFinSet paid.confirmations
    × ((o : ℕ) → member o paid.confirmations ≡ true → member o wallet.owners ≡ true)
unfolding program
executed-confirmed_example =
    executed-confirmed calls (1 ∷ 0 ∷ 2 ∷ 3 ∷ 2 ∷ []) 2 (some executor) {w = wallet} 50 {tx = paid}
      refl refl refl
