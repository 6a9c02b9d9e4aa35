-- ===== src/StateEngine/Supply.antt =====
-- The sum of all balances in execution/state_engine.py.
use absolute_blockchain_ulti.Base.{
  ℕ, ◌+◌, ◌≡◌, none, some, List, [], ◌∷◌, ok, arith, Option-cases, Result-cases, inl, inr, nat_eq,
}
use absolute_blockchain_ulti.Base.Int.{ℤ, pos, ◌+ℤ◌, ◌-ℤ◌, int_laws}
use absolute_blockchain_ulti.Base.Dict.{lookup, insert, lookup-insert}
use absolute_blockchain_ulti.StateEngine.Defs.{
  AccountState, AccountMap, Tx, blank, source, target, amount_of, ensure, account, debit, credit,
  apply_transaction, apply_all,
}

-- The sum of the balances.
abbrev pub supply : AccountMap → ℤ
supply [] = pos 0
supply (x ∷ d) = x.1.balance +ℤ supply d

supply-insert :
    (k : ℕ) (v old : AccountState) (d : AccountMap)
    → lookup k d ≡ some old
    → supply (insert k v d) +ℤ old.balance ≡ supply d +ℤ v.balance
unfolding lookup insert
supply-insert k v old [] h = cc
supply-insert k v old (x ∷ d) h = grind (int_laws, supply-insert k v old d)

supply-insert_new :
    (k : ℕ) (v : AccountState) (d : AccountMap)
    → lookup k d ≡ none
    → supply (insert k v d) ≡ supply d +ℤ v.balance
unfolding lookup insert
supply-insert_new k v [] h = omega int_laws
supply-insert_new k v (x ∷ d) h = grind (int_laws, supply-insert_new k v d)

supply-ensure : (a : ℕ) (d : AccountMap) → supply (ensure a d) ≡ supply d
unfolding ensure
supply-ensure a d = elim (Option-cases (lookup a d)) [
  | inl e ↦ grind (int_laws, supply-insert_new a blank d e)
  | inr (v, e) ↦ ground arith
]

pub lookup-ensure : (a : ℕ) (d : AccountMap) → lookup a (ensure a d) ≡ some (account a (ensure a d))
unfolding ensure account
lookup-ensure a d = elim (Option-cases (lookup a d)) [
  | inl e ↦ ground (arith, lookup-insert a a blank d)
  | inr (v, e) ↦ ground arith
]

supply-debit :
    (a : ℕ) (x : ℤ) (d : AccountMap)
    → lookup a d ≡ some (account a d)
    → supply (debit a x d) ≡ supply d -ℤ x
unfolding debit
supply-debit a x d h =
    let acc = account a d in
    grind (
      int_laws,
      supply-insert a (record acc { balance = acc.balance -ℤ x; nonce = acc.nonce + 1 }) acc d h,
    )

supply-credit :
    (a : ℕ) (x : ℤ) (d : AccountMap)
    → lookup a d ≡ some (account a d)
    → supply (credit a x d) ≡ supply d +ℤ x
unfolding credit
supply-credit a x d h =
    let acc = account a d in
    grind (int_laws, supply-insert a (record acc { balance = acc.balance +ℤ x }) acc d h)

-- A transaction that is applied creates and destroys no money, whatever its amount.
apply_transaction-supply :
    (tx : Tx) (d : AccountMap) {d' : AccountMap}
    → apply_transaction tx d ≡ ok d'
    → supply d' ≡ supply d
unfolding apply_transaction
apply_transaction-supply tx d h =
    let known = ensure (source tx) d in
    let paid = debit (source tx) (amount_of tx) known in
    grind (
      int_laws,
      supply-ensure (source tx) d,
      supply-debit (source tx) (amount_of tx) known (lookup-ensure (source tx) d),
      supply-ensure (target tx) paid,
      supply-credit (target tx) (amount_of tx) (ensure (target tx) paid)
          (lookup-ensure (target tx) paid),
    )

pub apply_all-supply :
    (txs : List Tx) (d : AccountMap) {d' : AccountMap}
    → apply_all txs d ≡ ok d'
    → supply d' ≡ supply d
unfolding apply_all
apply_all-supply [] d h = ground arith
apply_all-supply (tx ∷ txs) d {d'} h = elim (Result-cases (apply_transaction tx d)) [
  | inl (m, e) ↦ ground (arith, apply_transaction-supply tx d e, apply_all-supply txs m {d' = d'})
  | inr (f, e) ↦ ground arith
]
