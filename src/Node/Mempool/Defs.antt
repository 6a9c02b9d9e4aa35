-- ===== src/Node/Mempool/Defs.antt =====
-- `class Mempool` of blockchain/mempool.py, in front of `validate_transaction` of core/blockchain.py.
-- A fee may be negative before it is checked. The characters of an address and the decimal places
-- of an amount are not in the numbers that stand for them, so the tests of middleware/validators.py
-- on these are fields of `Inputs`; so is the check of a signature.
use absolute_blockchain_ulti.Base.{
  ℕ, ◌+◌, ◌*◌, ◌/◌, Bool, true, false, Option, none, some, List, [], ◌∷◌, Result, ok, raised,
  if◌then◌else◌, nat_eq, leb, ltb, not, ◌&&◌, ◌||◌, length, take,
}
use absolute_blockchain_ulti.Base.Int.{ℤ, pos, ltb_ℤ, leb_ℤ, int_beq}
use absolute_blockchain_ulti.Base.Dict.{Dict, insert, erase, contains, values}
use absolute_blockchain_ulti.Node.Strings.{non_empty}
use absolute_blockchain_ulti.Node.Tables.{Transaction, Connection}
use absolute_blockchain_ulti.Node.Tokenomics.{coin}
use absolute_blockchain_ulti.Node.Chain.State.{Node}
use absolute_blockchain_ulti.Node.Chain.Checks.{validate_transaction}
use absolute_blockchain_ulti.Node.Chain.Make.{is_passed}

pub record MempoolTransaction : Type 0 where
  pub tx_hash : ℕ
  pub from_addr : ℕ
  pub to_addr : ℕ
  pub amount : ℤ
  pub fee : ℤ
  pub nonce : ℤ
  pub signature : ℕ
  pub public_key : ℕ
  pub call_data : ℕ
  pub gas : ℤ

pub record Mempool : Type 0 where
  pub transactions : Dict ℕ MempoolTransaction
  pub max_size : ℕ
  pub min_fee : ℤ
  pub rejected_count : ℕ
  pub require_signatures : Bool

pub record Inputs : Type 0 where
  pub len : ℕ → ℕ
  pub valid_address : ℕ → Bool
  -- more than eight decimal places
  pub too_precise : ℤ → Bool
  pub verify : MempoolTransaction → Result ℕ Bool

-- `has_valid_signature`
unfoldable pub has_valid_signature : Inputs → Bool → MempoolTransaction → Bool
has_valid_signature inputs require tx =
    if not (non_empty tx.signature)
    then not require
    else if not (non_empty tx.public_key)
    then false
    else elim (inputs.verify tx) [ ok valid ↦ valid | raised _ ↦ false ]

-- The test of an address in `_validate_mempool_tx`.
abbrev pub accepts_address : Inputs → ℕ → Bool
accepts_address inputs a = inputs.valid_address a || leb 5 (inputs.len a)

-- `validate_amount` of middleware/validators.py, with a least amount of 0
unfoldable pub validate_amount : Inputs → ℤ → Bool
validate_amount inputs amount =
    ltb_ℤ (pos 0) amount
    && leb_ℤ amount (pos (1000000000 * coin))
    && not (inputs.too_precise amount)

-- `_validate_mempool_tx`
unfoldable pub validate_mempool_tx : Inputs → ℤ → MempoolTransaction → Bool
unfolding validate_amount
validate_mempool_tx inputs min_fee tx =
    non_empty tx.tx_hash
    && not (ltb_ℤ tx.fee min_fee)
    && accepts_address inputs tx.from_addr
    && accepts_address inputs tx.to_addr
    && not (ltb_ℤ tx.amount (pos 0))
    && (not (ltb_ℤ (pos 0) tx.amount) || validate_amount inputs tx.amount)

-- The transaction that `add` hands to the chain.
unfoldable pub chain_tx : Node → ℕ → MempoolTransaction → Transaction
chain_tx node now tx =
    let gas = if int_beq tx.gas (pos 0) then pos node.config.base_gas_price else tx.gas in
    record {
      from_addr = tx.from_addr;
      to_addr = tx.to_addr;
      value = tx.amount;
      nonce = tx.nonce;
      gas = gas;
      tx_data = tx.call_data;
      hash = tx.tx_hash;
      signature = tx.signature;
      public_key = tx.public_key;
      timestamp = now;
      block_height = 0;
      gas_used = gas;
      fee = pos 0;
      burned = pos 0;
    }

-- `sorted(..., key=lambda x: x.fee)`: equal fees keep their order.
unfoldable pub insert_cheap : MempoolTransaction → List MempoolTransaction → List MempoolTransaction
insert_cheap tx [] = tx ∷ []
insert_cheap tx (u ∷ txs) =
    let rest = insert_cheap tx txs in if leb_ℤ tx.fee u.fee then tx ∷ u ∷ txs else u ∷ rest

unfoldable pub cheapest_first : List MempoolTransaction → List MempoolTransaction
unfolding insert_cheap
cheapest_first [] = []
cheapest_first (tx ∷ txs) = insert_cheap tx (cheapest_first txs)

-- With `reverse=True`: the highest fee first, and equal fees in their order.
unfoldable pub insert_dear : MempoolTransaction → List MempoolTransaction → List MempoolTransaction
insert_dear tx [] = tx ∷ []
insert_dear tx (u ∷ txs) =
    let rest = insert_dear tx txs in if leb_ℤ u.fee tx.fee then tx ∷ u ∷ txs else u ∷ rest

unfoldable pub dearest_first : List MempoolTransaction → List MempoolTransaction
unfolding insert_dear
dearest_first [] = []
dearest_first (tx ∷ txs) = insert_dear tx (dearest_first txs)

-- `for tx in ...: del self.transactions[tx.tx_hash]`
unfoldable pub delete_all :
    List MempoolTransaction → Dict ℕ MempoolTransaction → Dict ℕ MempoolTransaction
delete_all [] d = d
delete_all (tx ∷ txs) d = delete_all txs (erase tx.tx_hash d)

-- `_cleanup`
unfoldable pub cleanup : Mempool → Mempool
unfolding cheapest_first delete_all take
cleanup pool =
    let size = length pool.transactions in
    if ltb (10 * size) (8 * pool.max_size) then pool else record pool {
      transactions =
          delete_all (take (size / 10) (cheapest_first (values pool.transactions)))
            pool.transactions;
    }

-- The end of `add` and `add_raw`.
unfoldable pub store : MempoolTransaction → Mempool → Mempool
unfolding cleanup
store tx pool =
    let p = if leb pool.max_size (length pool.transactions) then cleanup pool else pool in
    record p { transactions = insert tx.tx_hash tx p.transactions }

abbrev pub reject : Mempool → Bool × Mempool
reject pool = (false, record pool { rejected_count = pool.rejected_count + 1 })

-- `self.blockchain`, where one is set, and its rows.
abbrev pub chain_accepts : Option (Node × Connection) → ℕ → MempoolTransaction → Bool
chain_accepts none now tx = true
chain_accepts (some (node, c)) now tx =
    is_passed (validate_transaction node (chain_tx node now tx) c)

unfoldable pub add_tx :
    Inputs → Option (Node × Connection) → ℕ → MempoolTransaction → Mempool → Bool × Mempool
unfolding validate_mempool_tx has_valid_signature chain_tx validate_transaction store
add_tx inputs chain now tx pool =
    if contains tx.tx_hash pool.transactions
    then (false, pool)
    else if not (validate_mempool_tx inputs pool.min_fee tx)
    then reject pool
    else if not (has_valid_signature inputs pool.require_signatures tx)
    then reject pool
    else if not (chain_accepts chain now tx)
    then reject pool
    else (true, store tx pool)

unfoldable pub add_raw : MempoolTransaction → Mempool → Bool × Mempool
unfolding store
add_raw tx pool =
    if contains tx.tx_hash pool.transactions
    then (false, pool)
    else if ltb_ℤ tx.fee pool.min_fee
    then (false, pool)
    else (true, store tx pool)

unfoldable pub remove_tx : ℕ → Mempool → Bool × Mempool
remove_tx hash pool =
    (contains hash pool.transactions, record pool { transactions = erase hash pool.transactions })

-- `[tx for tx in sorted_txs if tx.fee >= min_fee]`
unfoldable pub paying : ℤ → List MempoolTransaction → List MempoolTransaction
paying least [] = []
paying least (tx ∷ txs) =
    let rest = paying least txs in if leb_ℤ least tx.fee then tx ∷ rest else rest

-- `get`
unfoldable pub best_paid : ℕ → ℤ → Mempool → List MempoolTransaction
unfolding paying dearest_first take
best_paid limit least pool = take limit (paying least (dearest_first (values pool.transactions)))
