-- ===== src/StateEngine/Tests.antt =====
-- Transactions of execution/state_engine.py at concrete accounts.
use absolute_blockchain_ulti.Base.{
  ℕ, ◌≡◌, refl, false, none, some, List, [], ◌∷◌, ok, raised, arith,
}
use absolute_blockchain_ulti.Base.Int.{ℤ, pos, negsuc, ◌≤ℤ◌, ◌+ℤ◌, ◌-ℤ◌}
use absolute_blockchain_ulti.Base.Dict.{lookup, insert}
use absolute_blockchain_ulti.StateEngine.Defs.{
  AccountMap, Tx, Block, Engine, Error, blank, account, apply_transaction, apply_all,
  create_genesis, transition, wrong_nonce, ensure, debit, credit, root,
}
use absolute_blockchain_ulti.StateEngine.Accounts.{
  effect, apply_transaction-effect, replay_refused, IsSolvent, apply_all-IsSolvent,
  negative_amount_takes,
}
use absolute_blockchain_ulti.StateEngine.Blocks.{Transitions, transition_atomic}

program : Unit {0}
unfolding apply_transaction apply_all create_genesis transition ensure debit credit account lookup
    insert ◌+ℤ◌ ◌-ℤ◌ root
program = tt

-- account 1 has 50, account 2 has 7
abbrev accounts : AccountMap
accounts = (1, record blank { balance = pos 50 }) ∷ (2, record blank { balance = pos 7 }) ∷ []

-- `{"from": 1, "to": 2, "amount": 20, "nonce": 0}`
abbrev payment : Tx
payment = record {
  sender = some 1;
  from_addr = none;
  recipient = some 2;
  to_addr = none;
  amount = some (pos 20);
  value = none;
  nonce = some (pos 0);
}

abbrev after : AccountMap
after =
    (1, record blank { balance = pos 30; nonce = 1 }) ∷ (2, record blank { balance = pos 27 }) ∷ []

apply-payment : apply_transaction payment accounts ≡ ok after
unfolding program
apply-payment = refl

-- account 1 takes 5 from account 2
abbrev theft : Tx
theft = record payment { amount = some (negsuc 4); nonce = none }

accounts-IsSolvent : IsSolvent accounts
unfolding program
accounts-IsSolvent j = ground arith

apply_transaction-effect_example :
    (pos 20 ≤ℤ (account 1 accounts).balance)
    × (wrong_nonce payment.nonce (account 1 accounts).nonce ≡ false)
    × (account 2 after ≡ effect payment 2 (account 2 accounts))
apply_transaction-effect_example = apply_transaction-effect payment accounts 2 apply-payment

-- Account 2 sends 7 back, and the payment comes again.
abbrev reply : Tx
reply = record payment { sender = some 2; recipient = some 1; amount = some (pos 7) }

abbrev replied : AccountMap
replied =
    (1, record blank { balance = pos 37; nonce = 1 })
    ∷ (2, record blank { balance = pos 20; nonce = 1 })
    ∷ []

apply_all-reply : apply_all (reply ∷ []) after ≡ ok replied
unfolding program
apply_all-reply = refl

replay_refused_example : (f : Error) × (apply_transaction payment replied ≡ raised f)
replay_refused_example =
    replay_refused payment (pos 0) (reply ∷ []) accounts refl apply-payment apply_all-reply

apply_all-payment : apply_all (payment ∷ []) accounts ≡ ok after
unfolding program
apply_all-payment = refl

apply_all-IsSolvent_example : pos 0 ≤ℤ (account 1 after).balance
apply_all-IsSolvent_example =
    apply_all-IsSolvent (payment ∷ []) accounts (omega arith) accounts-IsSolvent apply_all-payment 1

negative_amount_takes_example :
    (d' : AccountMap) × (apply_transaction theft accounts ≡ ok d')
    × ((account 2 d').balance ≡ (account 2 accounts).balance +ℤ negsuc 4)
    × ((account 1 d').balance ≡ (account 1 accounts).balance -ℤ negsuc 4)
negative_amount_takes_example =
    negative_amount_takes theft 4 accounts refl refl (omega arith) (accounts-IsSolvent 1)

-- A stand-in for the digest.
abbrev digest : List (ℕ × ℤ × ℕ) → ℕ
digest rows = 0

abbrev genesis : Engine
genesis = create_genesis digest 9 0 ((1, pos 50) ∷ (2, pos 7) ∷ [])

abbrev block : Block
block = record {
  transactions = payment ∷ [];
  number = 1;
  hash = 10;
  parent_hash = 9;
  timestamp = 5;
}

transition_atomic_example : Transitions digest block genesis (transition digest block genesis)
transition_atomic_example = transition_atomic digest block genesis
