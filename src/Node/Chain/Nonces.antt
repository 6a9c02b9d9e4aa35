-- ===== src/Node/Chain/Nonces.antt =====
-- The nonces over the transactions of a block (core/blockchain.py).
use absolute_blockchain_ulti.Base.{
  ℕ, ◌+◌, ◌≡◌, refl, sym, ap, ◌∙◌, Bool, true, none, List, [], ◌∷◌, ok, nat_eq, arith,
  if◌then◌else◌, nat_beq, nat_beq_iff, All,
}
use absolute_blockchain_ulti.Base.Int.{ℤ, pos, ◌-ℤ◌}
use absolute_blockchain_ulti.Base.Dict.{lookup-insert}
use absolute_blockchain_ulti.Node.Tables.{Transaction, Connection}
use absolute_blockchain_ulti.Node.Db.Accounts.{
  Accounts, row_of, clamp, apply_balance_delta, bump_nonce, get_nonce,
}
use absolute_blockchain_ulti.Node.Chain.State.{Node, Config}
use absolute_blockchain_ulti.Node.Chain.Checks.{evm_of, total_cost, fee_of}
use absolute_blockchain_ulti.Node.Chain.Apply.{
  pay, pay_burn, pay_fee, settle_transfer, apply_transaction, payee,
}
use absolute_blockchain_ulti.Node.Chain.Supply.{
  live_accounts, live_accounts-pay, live_accounts-next_nonce, live_accounts-note_outgoing,
}
use absolute_blockchain_ulti.Node.Chain.Transfer.{
  apply_transaction_transfer, check_transaction_passed,
}
use absolute_blockchain_ulti.Node.Chain.Add.{run_on_returned, apply_transactions}

abbrev pub nonce_in : ℕ → Accounts → ℕ
nonce_in a rows = (row_of a rows).nonce

-- One more for the sender.
abbrev pub plus_one_if : Bool → ℕ → ℕ
plus_one_if b n = if b then n + 1 else n

nonce_in-apply_balance_delta :
    (a x : ℕ) (d : ℤ) (rows : Accounts)
    → nonce_in a (apply_balance_delta x d rows) ≡ nonce_in a rows
unfolding apply_balance_delta
nonce_in-apply_balance_delta a x d rows =
    let row = row_of x rows in
    ground (
      arith,
      lookup-insert a x (record row { balance = clamp row.balance d }) rows,
      nat_beq_iff a x,
    )

nonce_in-bump_nonce :
    (a x : ℕ) (rows : Accounts)
    → nonce_in a (bump_nonce x rows) ≡ plus_one_if (nat_beq a x) (nonce_in a rows)
unfolding bump_nonce
nonce_in-bump_nonce a x rows =
    let row = row_of x rows in
    ground (arith, lookup-insert a x (record row { nonce = row.nonce + 1 }) rows)

nonce_in-pay :
    (a : ℕ) (x : ℕ) (d : ℤ) (c : Connection)
    → nonce_in a (live_accounts (pay true x d c)) ≡ nonce_in a (live_accounts c)
nonce_in-pay a x d c =
    rw (live_accounts-pay true x d c) (nonce_in-apply_balance_delta a x d (live_accounts c))

nonce_in-pay_fee :
    (a : ℕ) (config : Config) (tx : Transaction) (proposer : ℕ) (fee : ℤ) (c : Connection)
    → nonce_in a (live_accounts (pay_fee config true tx proposer fee c))
      ≡ plus_one_if (nat_beq a tx.from_addr) (nonce_in a (live_accounts c))
unfolding pay_fee pay_burn
nonce_in-pay_fee a config tx proposer fee c =
    let burn = config.burn_of fee in
    let paid = pay true proposer (fee -ℤ burn) c in
    let burnt = pay_burn config true burn paid in
    ground (
      arith,
      live_accounts-next_nonce true tx.from_addr burnt,
      nonce_in-bump_nonce a tx.from_addr (live_accounts burnt),
      nonce_in-pay a config.burn_address burn paid,
      nonce_in-pay a proposer (fee -ℤ burn) c,
    )

nonce_in-settle_transfer :
    (a : ℕ) (node : Node) (tx : Transaction) (height proposer : ℕ) (c : Connection)
    → nonce_in a (live_accounts (settle_transfer node true tx height proposer c).1)
      ≡ plus_one_if (nat_beq a tx.from_addr) (nonce_in a (live_accounts c))
unfolding settle_transfer
nonce_in-settle_transfer a node tx height proposer c =
    let cost = total_cost node.config tx in
    let fee = fee_of node.config tx in
    let debited = pay true tx.from_addr (pos 0 -ℤ cost) c in
    let credited = pay true tx.to_addr tx.value debited in
    let done = pay_fee node.config true tx proposer fee credited in
    ground (
      arith,
      live_accounts-note_outgoing node tx.from_addr cost done,
      nonce_in-pay_fee a node.config tx proposer fee credited,
      nonce_in-pay a tx.to_addr tx.value debited,
      nonce_in-pay a tx.from_addr (pos 0 -ℤ cost) c,
    )

-- How many of the transactions are from `a`.
abbrev pub sent_by : ℕ → List Transaction → ℕ
sent_by a [] = 0
sent_by a (tx ∷ txs) = plus_one_if (nat_beq a tx.from_addr) (sent_by a txs)

-- Each transaction of the list carries the number that its sender's counter has by then.
abbrev pub Numbered : (ℕ → ℕ) → List Transaction → Type 0
Numbered next [] = Unit
Numbered next (tx ∷ txs) =
    (tx.nonce ≡ pos (next tx.from_addr))
    × Numbered (λ a. plus_one_if (nat_beq a tx.from_addr) (next a)) txs

abbrev AllPlain : Node → List Transaction → Type 0
AllPlain node = All (λ tx. evm_of node tx ≡ none)

numbered :
    (node : Node) (height miner : ℕ) (txs : List Transaction) (c c' : Connection)
    (r : List Transaction × ℤ) (a : ℕ) (next : ℕ → ℕ)
    → AllPlain node txs
    → ((x : ℕ) → next x ≡ get_nonce x c)
    → apply_transactions node height miner txs c ≡ (ok r, c')
    → Numbered next txs × (get_nonce a c' ≡ get_nonce a c + sent_by a txs)
unfolding apply_transactions get_nonce
numbered node height miner [] c c' r a next plain same h = (tt, ground (arith, h))
numbered node height miner (tx ∷ txs) c c' r a next plain same h =
    let (tx', m, e, k) = run_on_returned (apply_transaction node true tx height miner c) _ r c' h in
    let (s, m', e', k') = run_on_returned (apply_transactions node height miner txs m) _ r c' k in
    let to = payee node.config miner in
    let t = apply_transaction_transfer node true tx tx' height miner c m plain.0 e in
    let counted : (x : ℕ) → plus_one_if (nat_beq x tx.from_addr) (next x) ≡ get_nonce x m =
      λ x. ground (arith, t.1, nonce_in-settle_transfer x node tx height to c, same x) in
    let rest =
      numbered node height miner txs m m' s a (λ x. plus_one_if (nat_beq x tx.from_addr) (next x))
        plain.1 counted e' in
    let first = (check_transaction_passed node tx c t.0).0 in
    (
      (first ∙ ap pos (sym (same tx.from_addr)), rest.0),
      ground (arith, rest.1, k', counted a, same a),
    )

-- The transactions of a block that are executed, without contracts, carry their senders' next
-- nonces in order, as they are counted up from the accounts; and each account's nonce grows by the
-- number of the transactions that it sent.
pub apply_transactions-Numbered :
    (node : Node) (height miner : ℕ) (txs : List Transaction) (c c' : Connection)
    (r : List Transaction × ℤ) (a : ℕ)
    → All (λ tx. evm_of node tx ≡ none) txs
    → apply_transactions node height miner txs c ≡ (ok r, c')
    → Numbered (λ x. get_nonce x c) txs × (get_nonce a c' ≡ get_nonce a c + sent_by a txs)
apply_transactions-Numbered node height miner txs c c' r a plain h =
    numbered node height miner txs c c' r a (λ x. get_nonce x c) plain (λ x. refl) h
