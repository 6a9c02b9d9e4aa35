-- ===== src/Node/Chain/Checks.antt =====
-- The checks of core/blockchain.py on a transaction and on a block's transactions.
use absolute_blockchain_ulti.Base.{
  ℕ, ◌%◌, Bool, false, Option, none, some, List, [], ◌∷◌, Result, ok, raised, ◌>>=◌, if◌then◌else◌,
  nat_eq, nat_beq, leb, not, ◌&&◌, ◌||◌,
}
use absolute_blockchain_ulti.Base.Int.{ℤ, pos, ◌+ℤ◌, ◌*ℤ◌, ltb_ℤ, int_beq}
use absolute_blockchain_ulti.Node.Strings.{Strings, non_empty}
use absolute_blockchain_ulti.Node.Tables.{Transaction, Block, AccountRow, Connection}
use absolute_blockchain_ulti.Node.Db.Accounts.{get_nonce, get_balance, get_account}
use absolute_blockchain_ulti.Node.Pools.Locks.{is_outgoing_allowed}
use absolute_blockchain_ulti.Node.Chain.State.{Node, Config, Services, Evm, Refusal}

-- `{"valid": True}` or an error
abbrev pub Check : Type 0
Check = Result Refusal Unit

abbrev pub passed : Check
passed = ok tt

abbrev pub refuse_if : Bool → Refusal → Check
refuse_if b r = if b then raised r else passed

-- The next check, where the first passes.
infixl 5 ◌>>◌
abbrev pub ◌>>◌ : {E A : Type 0} → Result E Unit → Result E A → Result E A
a >> b = a >>= λ _. b

-- `tx.gas * self.config.gas_price_wei`
unfoldable pub fee_of : Config → Transaction → ℤ
fee_of config tx = tx.gas *ℤ pos config.gas_price

-- `tx.value + fee`
unfoldable pub total_cost : Config → Transaction → ℤ
unfolding fee_of
total_cost config tx = tx.value +ℤ fee_of config tx

-- `bool(account and account.get("code"))`
unfoldable pub has_code : Option AccountRow → Bool
has_code none = false
has_code (some row) = elim row.code [ none ↦ false | some code ↦ non_empty code ]

-- `deploy_data and len(hex_body) >= 4 and len(hex_body) % 2 == 0`
unfoldable pub is_deploy_data : Strings → ℕ → Bool
is_deploy_data str tx_data =
    let deploy_data = str.strip tx_data in
    let size = str.len (str.without_0x deploy_data) in
    non_empty deploy_data && (leb 4 size && nat_beq (size % 2) 0)

-- `tx.data and getattr(self, "evm", None)`
unfoldable pub evm_of : Node → Transaction → Option Evm
evm_of node tx = if non_empty tx.tx_data then node.evm else none

unfoldable pub is_evm_deploy_tx : Node → Transaction → Connection → Bool
unfolding evm_of has_code is_deploy_data get_account
is_evm_deploy_tx node tx c = elim (evm_of node tx) [
  | none ↦ false
  | some _ ↦
      not (has_code (get_account tx.to_addr c)) && is_deploy_data node.services.strings tx.tx_data
]

unfoldable pub validate_evm_deploy_bytecode : Node → Transaction → Connection → Check
unfolding is_evm_deploy_tx
validate_evm_deploy_bytecode node tx c =
    refuse_if (is_evm_deploy_tx node tx c && not (node.services.valid_bytecode tx.tx_data))
      Refusal.unsupported_evm_bytecode

-- The answer of a call of `verify`.
unfoldable pub signature_answer : Result ℕ Bool → Check
signature_answer (ok valid) = refuse_if (not valid) Refusal.invalid_signature
signature_answer (raised _) = raised Refusal.signature_check_failed

unfoldable pub verify_tx_signature : Node → Transaction → Check
unfolding signature_answer
verify_tx_signature node tx =
    if not (non_empty tx.signature)
    then refuse_if node.config.require_signatures Refusal.missing_signature
    else if not (non_empty tx.public_key)
    then raised Refusal.missing_public_key
    else signature_answer (node.services.verify tx)

-- The question to the pool locks, where they are wired.
unfoldable pub check_pools : Node → ℕ → ℤ → ℕ → Connection → Check
unfolding is_outgoing_allowed
check_pools node a amount balance c =
    if node.pool_locks
    then elim (is_outgoing_allowed a amount balance c) [
      | none ↦ passed
      | some denial ↦ raised (Refusal.not_allowed denial)
    ]
    else passed

unfoldable pub validate_transaction : Node → Transaction → Connection → Check
unfolding total_cost get_nonce get_balance check_pools verify_tx_signature
    validate_evm_deploy_bytecode
validate_transaction node tx c = do
  refuse_if (not (non_empty tx.from_addr) || not (non_empty tx.to_addr)) Refusal.missing_address
  refuse_if (ltb_ℤ tx.value (pos 0)) Refusal.negative_value
  refuse_if (ltb_ℤ tx.gas (pos node.config.base_gas_price)) Refusal.gas_too_low
  refuse_if (not (int_beq tx.nonce (pos (get_nonce tx.from_addr c)))) Refusal.nonce_mismatch
  refuse_if (ltb_ℤ (pos (get_balance tx.from_addr c)) (total_cost node.config tx))
      Refusal.insufficient_funds
  check_pools node tx.from_addr (total_cost node.config tx) (get_balance tx.from_addr c) c
  verify_tx_signature node tx
  validate_evm_deploy_bytecode node tx c

-- The loop of `_verify_block_tx_signatures`: the signed transactions, in order.
unfoldable pub signed_txs : Bool → List Transaction → Result Refusal (List Transaction)
signed_txs require [] = ok []
signed_txs require (tx ∷ txs) =
    let rest = signed_txs require txs in
    if not (non_empty tx.signature)
    then if require then raised Refusal.missing_signature else rest
    else if not (non_empty tx.public_key)
    then raised Refusal.missing_public_key
    else do signed ← rest; ok (tx ∷ signed)

-- `for tx, ok in zip(signed_txs, results)`
unfoldable pub all_verified : List Transaction → List Bool → Check
all_verified (tx ∷ txs) (b ∷ results) =
    if b then all_verified txs results else raised Refusal.invalid_signature
all_verified _ _ = passed

-- The batch call, and its results.
unfoldable pub verify_signed : Services → List Transaction → Check
unfolding all_verified
verify_signed services [] = passed
verify_signed services (tx ∷ txs) = elim (services.verify_batch (tx ∷ txs)) [
  | ok results ↦ all_verified (tx ∷ txs) results
  | raised _ ↦ raised Refusal.signature_batch_failed
]

unfoldable pub verify_block_tx_signatures : Node → Block → Check
unfolding signed_txs verify_signed
verify_block_tx_signatures node block = do
  signed ← signed_txs node.config.require_signatures block.transactions
  verify_signed node.services signed
