-- ===== src/Node/Chain/Apply.antt =====
-- `_apply_transaction` and `_apply_block_reward` of core/blockchain.py. A transaction that is applied
-- comes back with its fee, what it burnt, its gas and its height.
use absolute_blockchain_ulti.Base.{
  ℕ, ◌+◌, ◌-◌, Bool, none, some, Result, ok, raised, if◌then◌else◌, nat_eq, nat_beq, ltb, not, ◌&&◌,
}
use absolute_blockchain_ulti.Base.Int.{ℤ, pos, ◌+ℤ◌, ◌-ℤ◌, ◌*ℤ◌, ltb_ℤ, leb_ℤ, int_beq}
use absolute_blockchain_ulti.Node.Strings.{non_empty, genesis_name}
use absolute_blockchain_ulti.Node.Tables.{Transaction, Connection}
use absolute_blockchain_ulti.Node.Db.Accounts.{
  get_nonce, get_balance, get_account, balance_delta, update_balance, nonce_increment,
  increment_nonce, get_total_supply,
}
use absolute_blockchain_ulti.Node.Db.Blocks.{or_string}
use absolute_blockchain_ulti.Node.Pools.Locks.{record_outgoing}
use absolute_blockchain_ulti.Node.Chain.State.{Node, Config, Evm, EvmResult, Refusal}
use absolute_blockchain_ulti.Node.Chain.Checks.{
  fee_of, total_cost, check_pools, verify_tx_signature, evm_of, has_code, is_deploy_data, refuse_if,
  ◌>>◌,
}

-- The write to a balance inside `atomic()` and outside of it.
unfoldable pub pay : Bool → ℕ → ℤ → Connection → Connection
unfolding balance_delta update_balance
pay in_atomic a delta c = if in_atomic then balance_delta a delta c else update_balance a delta c

unfoldable pub next_nonce : Bool → ℕ → Connection → Connection
unfolding nonce_increment increment_nonce
next_nonce in_atomic a c = if in_atomic then nonce_increment a c else increment_nonce a c

-- `if burn_amount > 0 and self.config.burn_address:`
unfoldable pub pay_burn : Config → Bool → ℤ → Connection → Connection
unfolding pay
pay_burn config in_atomic burn c =
    if ltb_ℤ (pos 0) burn && non_empty config.burn_address
    then pay in_atomic config.burn_address burn c
    else c

-- The fee goes to the proposer, less what is burnt, and the sender's nonce is used up.
unfoldable pub pay_fee : Config → Bool → Transaction → ℕ → ℤ → Connection → Connection
unfolding pay pay_burn next_nonce
pay_fee config in_atomic tx proposer fee c =
    let burn = config.burn_of fee in
    next_nonce in_atomic tx.from_addr
      (pay_burn config in_atomic burn (pay in_atomic proposer (fee -ℤ burn) c))

unfoldable pub note_outgoing : Node → ℕ → ℤ → Connection → Connection
unfolding record_outgoing
note_outgoing node a amount c = if node.pool_locks then record_outgoing a amount c else c

-- The four fields that an applied transaction gets.
unfoldable pub stamped : Config → Transaction → ℤ → ℤ → ℕ → Transaction
stamped config tx fee gas_used height = record tx {
  fee = fee;
  burned = config.burn_of fee;
  gas_used = gas_used;
  block_height = height;
}

abbrev pub greater_of : ℤ → ℤ → ℤ
greater_of a b = if leb_ℤ a b then b else a

-- `evm_res.gas_used or tx.gas`
abbrev pub used_or : ℕ → ℤ → ℤ
used_or used gas = if nat_beq used 0 then gas else pos used

-- The two branches for contracts, after the call of the adapter. The balance was read before it.
unfoldable pub settle_evm :
    Node
    → Bool
    → Transaction
    → ℕ
    → ℕ
    → ℕ
    → Refusal
    → EvmResult
    → Connection
    → Result Refusal Transaction × Connection
unfolding fee_of pay_fee pay note_outgoing stamped
settle_evm node in_atomic tx height proposer balance unpaid answer c =
    let config = node.config in
    let fee = greater_of (fee_of config tx) (pos answer.gas_used *ℤ pos config.gas_price) in
    if not answer.success
    then (raised (Refusal.evm_failed answer.error), c)
    else if ltb_ℤ (pos balance) (fee +ℤ tx.value)
    then (raised unpaid, c)
    else (
      ok (stamped config tx fee (used_or answer.gas_used tx.gas) height),
      note_outgoing node tx.from_addr (fee +ℤ tx.value)
          (pay_fee config in_atomic tx proposer fee (pay in_atomic tx.from_addr (pos 0 -ℤ fee) c)),
    )

-- The transfer of a transaction without a contract.
unfoldable pub settle_transfer :
    Node → Bool → Transaction → ℕ → ℕ → Connection → Result Refusal Transaction × Connection
unfolding fee_of total_cost pay_fee pay note_outgoing stamped
settle_transfer node in_atomic tx height proposer c =
    let config = node.config in
    let cost = total_cost config tx in
    (
      ok (stamped config tx (fee_of config tx) tx.gas height),
      note_outgoing node tx.from_addr cost (
          pay_fee config in_atomic tx proposer (fee_of config tx)
            (pay in_atomic tx.to_addr tx.value (pay in_atomic tx.from_addr (pos 0 -ℤ cost) c))),
    )

-- `tx.gas or self.config.evm_gas_limit`
abbrev pub gas_or : ℤ → ℕ → ℤ
gas_or gas limit = if int_beq gas (pos 0) then pos limit else gas

-- A call of the contract at the target, and the deployment of one.
unfoldable pub run_call :
    Node → Bool → Transaction → ℕ → ℕ → Evm → Connection → Result Refusal Transaction × Connection
unfolding settle_evm get_balance
run_call node in_atomic tx height proposer evm c =
    let gas = gas_or tx.gas node.config.evm_gas_limit in
    let r = evm.call_contract tx.from_addr tx.to_addr tx.tx_data tx.value gas c in
    settle_evm node in_atomic tx height proposer (get_balance tx.from_addr c)
      Refusal.insufficient_funds_for_gas r.0 r.1

unfoldable pub run_deploy :
    Node → Bool → Transaction → ℕ → ℕ → Evm → Connection → Result Refusal Transaction × Connection
unfolding settle_evm get_balance
run_deploy node in_atomic tx height proposer evm c =
    let gas = gas_or tx.gas node.config.evm_gas_limit in
    let code = node.services.strings.strip tx.tx_data in
    let r = evm.deploy_contract tx.from_addr code tx.value gas (height, tx.nonce, tx.hash) c in
    settle_evm node in_atomic tx height proposer (get_balance tx.from_addr c)
      Refusal.insufficient_funds_for_deploy r.0 r.1

-- What follows the checks.
unfoldable pub execute :
    Node → Bool → Transaction → ℕ → ℕ → Connection → Result Refusal Transaction × Connection
unfolding evm_of has_code is_deploy_data get_account run_call run_deploy settle_transfer
execute node in_atomic tx height proposer c = elim (evm_of node tx) [
  | none ↦ settle_transfer node in_atomic tx height proposer c
  | some evm ↦
      if has_code (get_account tx.to_addr c)
      then run_call node in_atomic tx height proposer evm c
      else if is_deploy_data node.services.strings tx.tx_data
      then run_deploy node in_atomic tx height proposer evm c
      else settle_transfer node in_atomic tx height proposer c
]

-- The checks of `_apply_transaction`.
unfoldable pub check_transaction : Node → Transaction → Connection → Result Refusal Unit
unfolding total_cost get_nonce get_balance check_pools verify_tx_signature
check_transaction node tx c = do
  refuse_if (not (int_beq tx.nonce (pos (get_nonce tx.from_addr c)))) Refusal.nonce_mismatch
  refuse_if (ltb_ℤ (pos (get_balance tx.from_addr c)) (total_cost node.config tx))
      Refusal.insufficient_funds
  check_pools node tx.from_addr (total_cost node.config tx) (get_balance tx.from_addr c) c
  verify_tx_signature node tx

-- `proposer or self.config.miner_address or "genesis"`
unfoldable pub payee : Config → ℕ → ℕ
payee config proposer = or_string proposer (or_string config.miner_address genesis_name)

unfoldable pub apply_transaction :
    Node → Bool → Transaction → ℕ → ℕ → Connection → Result Refusal Transaction × Connection
unfolding check_transaction payee execute
apply_transaction node in_atomic tx height proposer c = elim (check_transaction node tx c) [
  | raised e ↦ (raised e, c)
  | ok _ ↦ execute node in_atomic tx height (payee node.config proposer) c
]

-- What `_apply_block_reward` pays.
unfoldable pub reward_of : Config → Connection → ℕ
unfolding get_total_supply
reward_of config c =
    let supply = get_total_supply c in
    if ltb config.max_supply (supply + config.block_reward)
    then config.max_supply - supply
    else config.block_reward

unfoldable pub apply_block_reward : Config → Bool → ℕ → Connection → ℕ × Connection
unfolding reward_of pay
apply_block_reward config in_atomic proposer c =
    let reward = reward_of config c in
    (reward, if ltb 0 reward then pay in_atomic proposer (pos reward) c else c)
