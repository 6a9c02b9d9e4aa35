-- ===== src/Node/Chain/Transfer.antt =====
-- What `_apply_transaction` of core/blockchain.py does for a transaction without a contract.
use absolute_blockchain_ulti.Base.{
  ℕ, ◌+◌, ◌≡◌, Bool, none, ok, nat_eq, arith, Result-cases, inl, inr,
}
use absolute_blockchain_ulti.Base.Int.{ℤ, pos, negsuc, ◌*ℤ◌, ◌≤ℤ◌, int_beq_iff}
use absolute_blockchain_ulti.Node.Tables.{Transaction, Connection}
use absolute_blockchain_ulti.Node.Db.Accounts.{get_balance, get_total_supply, get_nonce}
use absolute_blockchain_ulti.Node.Chain.State.{Node, Config}
use absolute_blockchain_ulti.Node.Chain.Checks.{fee_of, total_cost, evm_of}
use absolute_blockchain_ulti.Node.Chain.Apply.{
  settle_transfer, stamped, check_transaction, execute, apply_transaction, payee,
}
use absolute_blockchain_ulti.Node.Chain.Supply.{IsBurnRate, unowned, supply_of-settle_transfer}

-- A transaction that passes carries the sender's next nonce, and the sender can pay.
pub check_transaction_passed :
    (node : Node) (tx : Transaction) (c : Connection)
    → check_transaction node tx c ≡ ok tt
    → (tx.nonce ≡ pos (get_nonce tx.from_addr c))
      × (total_cost node.config tx ≤ℤ pos (get_balance tx.from_addr c))
unfolding check_transaction
check_transaction_passed node tx c h =
    ground (arith, int_beq_iff tx.nonce (pos (get_nonce tx.from_addr c)))

-- Applied without a contract, the transaction is a transfer.
pub apply_transaction_transfer :
    (node : Node) (b : Bool) (tx tx' : Transaction) (height proposer : ℕ) (c c' : Connection)
    → evm_of node tx ≡ none
    → apply_transaction node b tx height proposer c ≡ (ok tx', c')
    → (check_transaction node tx c ≡ ok tt)
      × (settle_transfer node b tx height (payee node.config proposer) c ≡ (ok tx', c'))
unfolding apply_transaction execute
apply_transaction_transfer node b tx tx' height proposer c c' plain h =
    elim (Result-cases (check_transaction node tx c)) [
      | inl (_, e) ↦ ground (arith, e)
      | inr (f, e) ↦ ground arith
    ]

settled_burned :
    (node : Node) (b : Bool) (tx tx' : Transaction) (height proposer : ℕ) (c c' : Connection)
    → settle_transfer node b tx height proposer c ≡ (ok tx', c')
    → tx'.burned ≡ node.config.burn_of (fee_of node.config tx)
unfolding settle_transfer stamped
settled_burned node b tx tx' height proposer c c' h = cc

nonneg_mul : (z : ℤ) (n : ℕ) → pos 0 ≤ℤ z → pos 0 ≤ℤ z *ℤ pos n
unfolding ◌*ℤ◌
nonneg_mul (pos m) n h = ground arith
nonneg_mul (negsuc m) n h = ground arith

-- A fee is not negative where the gas is not.
pub fee_of_nonneg :
    (config : Config) (tx : Transaction) → pos 0 ≤ℤ tx.gas → pos 0 ≤ℤ fee_of config tx
unfolding fee_of
fee_of_nonneg config tx h = nonneg_mul tx.gas config.gas_price h

-- What is burnt is not negative.
pub apply_transaction_burned :
    (node : Node) (b : Bool) (tx tx' : Transaction) (height proposer : ℕ) (c c' : Connection)
    → IsBurnRate node.config
    → pos 0 ≤ℤ tx.gas
    → evm_of node tx ≡ none
    → apply_transaction node b tx height proposer c ≡ (ok tx', c')
    → pos 0 ≤ℤ tx'.burned
apply_transaction_burned node b tx tx' height proposer c c' rate hg plain h =
    let t = apply_transaction_transfer node b tx tx' height proposer c c' plain h in
    ground (
      arith,
      settled_burned node b tx tx' height (payee node.config proposer) c c' t.1,
      rate (fee_of node.config tx) (fee_of_nonneg node.config tx hg),
    )

pub get_total_supply-apply_transaction :
    (node : Node) (b : Bool) (tx tx' : Transaction) (height proposer : ℕ) (c c' : Connection)
    → IsBurnRate node.config
    → pos 0 ≤ℤ tx.value
    → pos 0 ≤ℤ tx.gas
    → evm_of node tx ≡ none
    → apply_transaction node b tx height proposer c ≡ (ok tx', c')
    → get_total_supply c' + unowned node.config tx'.burned ≡ get_total_supply c
unfolding get_total_supply
get_total_supply-apply_transaction node b tx tx' height proposer c c' rate hv hg plain h =
    let to = payee node.config proposer in
    let t = apply_transaction_transfer node b tx tx' height proposer c c' plain h in
    ground (
      arith,
      t,
      settled_burned node b tx tx' height to c c' t.1,
      fee_of_nonneg node.config tx hg,
      check_transaction_passed node tx c t.0,
      supply_of-settle_transfer node b tx height to c rate hv,
    )
