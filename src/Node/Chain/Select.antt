-- ===== src/Node/Chain/Select.antt =====
-- Which transactions `create_block` of core/blockchain.py takes into a block.
use absolute_blockchain_ulti.Base.{
  ℕ, ◌≤◌, ◌≡◌, refl, sym, ◌∙◌, Bool, true, false, List, [], ◌∷◌, nat_eq, arith, Option-cases,
  Bool-cases, inl, inr, nat_beq, nat_beq_iff, not, All,
}
use absolute_blockchain_ulti.Base.Int.{ℤ, pos, ◌+ℤ◌, ◌≤ℤ◌, int_beq, int_beq_iff, int_laws}
use absolute_blockchain_ulti.Base.Dict.{Dict, lookup, insert, lookup-insert, or_else}
use absolute_blockchain_ulti.Node.Tables.{Transaction, Connection}
use absolute_blockchain_ulti.Node.Db.Accounts.{get_nonce, get_balance}
use absolute_blockchain_ulti.Node.Db.Blocks.{get_last_block}
use absolute_blockchain_ulti.Node.Chain.State.{Node, Refusal}
use absolute_blockchain_ulti.Node.Chain.Checks.{
  Check, refuse_if, ◌>>◌, validate_transaction, total_cost,
}
use absolute_blockchain_ulti.Node.Chain.Dicts.{new_block}
use absolute_blockchain_ulti.Node.Chain.Make.{
  validate_tx_for_block, select_txs, is_passed, create_block,
}
use absolute_blockchain_ulti.Node.Chain.Nonces.{sent_by}

-- What a valid transaction looks like against the tables.
abbrev pub IsValid : Node → Connection → Transaction → Type 0
IsValid node c tx =
    (tx.nonce ≡ pos (get_nonce tx.from_addr c))
    × (pos 0 ≤ℤ tx.value)
    × (pos node.config.base_gas_price ≤ℤ tx.gas)
    × (total_cost node.config tx ≤ℤ pos (get_balance tx.from_addr c))

and_then :
    (b : Bool) (r : Refusal) (k : Check)
    → is_passed (refuse_if b r >> k) ≡ true
    → (b ≡ false) × (is_passed k ≡ true)
and_then b r k h = ground (arith, h)

pub validate_transaction-IsValid :
    (node : Node) (tx : Transaction) (c : Connection)
    → is_passed (validate_transaction node tx c) ≡ true
    → IsValid node c tx
unfolding validate_transaction
validate_transaction-IsValid node tx c h =
    ground (arith, h, int_beq_iff tx.nonce (pos (get_nonce tx.from_addr c)))

-- The sender's counter in the cursor is not the one in the tables any more.
abbrev pub IsSpent : Dict ℕ ℤ → Connection → ℕ → Type 0
IsSpent cursor c a =
    int_beq (or_else (lookup a cursor) (pos (get_nonce a c))) (pos (get_nonce a c)) ≡ false

taken :
    (node : Node) (cursor : Dict ℕ ℤ) (tx : Transaction) (c : Connection)
    → is_passed (validate_tx_for_block node cursor tx c) ≡ true
    → (tx.nonce ≡ or_else (lookup tx.from_addr cursor) (pos (get_nonce tx.from_addr c)))
      × IsValid node c tx
unfolding validate_tx_for_block
taken node cursor tx c h =
    let expected = or_else (lookup tx.from_addr cursor) (pos (get_nonce tx.from_addr c)) in
    let (e, k) =
      and_then (not (int_beq tx.nonce expected)) Refusal.nonce_mismatch_in_block
        (validate_transaction node tx c) h in
    (ground (arith, e, int_beq_iff tx.nonce expected), validate_transaction-IsValid node tx c k)

-- The cursor after a transaction was taken.
abbrev pub cursor_after : Dict ℕ ℤ → Transaction → Dict ℕ ℤ
cursor_after cursor tx = insert tx.from_addr (tx.nonce +ℤ pos 1) cursor

IsSpent-after :
    (node : Node) (cursor : Dict ℕ ℤ) (tx : Transaction) (c : Connection)
    → IsValid node c tx
    → IsSpent (cursor_after cursor tx) c tx.from_addr
IsSpent-after node cursor tx c v = grind (
  int_laws,
  v.0,
  lookup-insert tx.from_addr tx.from_addr (tx.nonce +ℤ pos 1) cursor,
  int_beq_iff (tx.nonce +ℤ pos 1) (pos (get_nonce tx.from_addr c)),
)

IsSpent-other :
    (a : ℕ) (cursor : Dict ℕ ℤ) (tx : Transaction) (c : Connection)
    → nat_beq a tx.from_addr ≡ false
    → IsSpent cursor c a
    → IsSpent (cursor_after cursor tx) c a
IsSpent-other a cursor tx c e s =
    ground (arith, e, s, lookup-insert a tx.from_addr (tx.nonce +ℤ pos 1) cursor)

not_spent :
    (node : Node) (a : ℕ) (cursor : Dict ℕ ℤ) (tx : Transaction) (c : Connection)
    → IsSpent cursor c a
    → is_passed (validate_tx_for_block node cursor tx c) ≡ true
    → nat_beq a tx.from_addr ≡ false
not_spent node a cursor tx c s h =
    let (e, v) = taken node cursor tx c h in
    let expected = or_else (lookup tx.from_addr cursor) (pos (get_nonce tx.from_addr c)) in
    let agree = int_beq_iff expected (pos (get_nonce tx.from_addr c)) in
    elim (Bool-cases (nat_beq a tx.from_addr)) [
      | inr off ↦ off
      | inl same ↦ ground (arith, s, agree.1 (sym e ∙ v.0), nat_beq_iff a tx.from_addr, same)
    ]

-- A property of both outcomes of a test.
by_test :
    (P : List Transaction → Type 0) (b : Bool) (x y : List Transaction)
    → (b ≡ true → P x)
    → (b ≡ false → P y)
    → P (elim b [ true ↦ x | false ↦ y ])
by_test P true x y h k = h refl
by_test P false x y h k = k refl

select_txs_spent :
    (node : Node) (a : ℕ) (txs : List Transaction) (cursor : Dict ℕ ℤ) (c : Connection)
    → IsSpent cursor c a
    → sent_by a (select_txs node cursor txs c) ≡ 0
unfolding select_txs
select_txs_spent node a [] cursor c s = refl
select_txs_spent node a (tx ∷ txs) cursor c s =
    by_test (λ l. sent_by a l ≡ 0) (is_passed (validate_tx_for_block node cursor tx c)) _ _
      (λ e.
        let other = not_spent node a cursor tx c s e in
        ground (
          arith,
          other,
          select_txs_spent node a txs (cursor_after cursor tx) c
              (IsSpent-other a cursor tx c other s),
        ))
      (λ e. select_txs_spent node a txs cursor c s)

select_txs_once :
    (node : Node) (a : ℕ) (txs : List Transaction) (cursor : Dict ℕ ℤ) (c : Connection)
    → All (IsValid node c) (select_txs node cursor txs c)
      × (sent_by a (select_txs node cursor txs c) ≤ 1)
unfolding select_txs
select_txs_once node a [] cursor c = (tt, omega arith)
select_txs_once node a (tx ∷ txs) cursor c =
    let next = cursor_after cursor tx in
    by_test (λ l. All (IsValid node c) l × (sent_by a l ≤ 1))
      (is_passed (validate_tx_for_block node cursor tx c)) _ _
      (λ e.
        let v = (taken node cursor tx c e).1 in
        let rest = select_txs_once node a txs next c in
        (
          (v, rest.0),
          ground (
            arith,
            rest.1,
            select_txs_spent node a txs next c,
            nat_beq_iff a tx.from_addr,
            IsSpent-after node cursor tx c v,
          ),
        ))
      (λ e. select_txs_once node a txs cursor c)

chosen_txs :
    (node : Node) (now proposer : ℕ) (txs : List Transaction) (c : Connection)
    → (create_block node now txs proposer c).transactions ≡ select_txs node [] txs c
unfolding create_block new_block
chosen_txs node now proposer txs c = elim (Option-cases (get_last_block c)) [
  | inl e ↦ ground (arith, e)
  | inr (last, e) ↦ ground (arith, e)
]

-- A block that is created holds only transactions with the sender's current nonce, an amount that
-- is not negative, enough gas and a cost that the sender's balance covers; and of each sender at
-- most one.
pub create_block_once :
    (node : Node) (now proposer a : ℕ) (txs : List Transaction) (c : Connection)
    → All (IsValid node c) (create_block node now txs proposer c).transactions
      × (sent_by a (create_block node now txs proposer c).transactions ≤ 1)
create_block_once node now proposer a txs c =
    let once = select_txs_once node a txs [] c in
    let chosen = chosen_txs node now proposer txs c in rw chosen once
