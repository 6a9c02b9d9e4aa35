-- ===== src/Features/Authority.antt =====
-- Who can bring a transaction of features/multisig.py to its execution.
use absolute_blockchain_ulti.Base.{
  ℕ, ◌≤◌, ◌≡◌, refl, sym, true, false, Option, none, some, List, [], ◌∷◌, ◌||◌, nat_eq, nat_beq,
  ltb, leb, length, arith, Bool-cases, Option-cases, inl, inr,
}
use absolute_blockchain_ulti.Base.Int.{ℤ, pos, leb_ℤ}
use absolute_blockchain_ulti.Base.Dict.{Dict, lookup, insert, or_else, lookup-insert}
use absolute_blockchain_ulti.Base.Set.{member, add, member-add, IsFinSet, add-IsFinSet}
use absolute_blockchain_ulti.Features.Multisig.{
  Wallet, Transaction, Execution, init, create_transaction, new_transaction, confirm, confirm_found,
  confirmed, settle, record_execution, unique_owners,
}

pub data Call : Type 0 where
  create : ℕ → ℕ → ℤ → Call
  confirmation : ℕ → ℕ → Call

unfoldable pub perform : Call → Wallet → Wallet
perform (Call.create tx_id to amount) w = (create_transaction tx_id to amount w).0
perform (Call.confirmation tx_id owner) w = (confirm tx_id owner w).0

unfoldable pub perform_all : List Call → Wallet → Wallet
perform_all [] w = w
perform_all (c ∷ cs) w = perform_all cs (perform c w)

module _ (owners : List ℕ) (required : ℕ) where
  -- The confirmations that are listed are distinct owners, and enough where there was an execution.
  record IsBacked (confirmations : Dict ℕ (List ℕ)) (k : ℕ) (tx : Transaction) : Type 0 where
    pub listed : lookup k confirmations ≡ some tx.confirmations
    pub distinct : IsFinSet tx.confirmations
    pub owned : (o : ℕ) → member o tx.confirmations ≡ true → member o owners ≡ true
    pub enough : tx.executed ≡ true → required ≤ length tx.confirmations

  record IsAuthorized (w : Wallet) : Type 0 where
    pub same_owners : w.owners ≡ owners
    pub same_required : w.required ≡ required
    pub backed :
        (k : ℕ) (tx : Transaction)
        → lookup k w.transactions ≡ some tx
        → IsBacked w.confirmations k tx

  -- Both dictionaries are written at one key.
  insert-IsBacked :
      (w : Wallet) (tx_id : ℕ) (tx : Transaction) (cs : List ℕ)
      → IsAuthorized w
      → IsBacked (insert tx_id cs w.confirmations) tx_id tx
      → IsAuthorized (record w {
        transactions = insert tx_id tx w.transactions;
        confirmations = insert tx_id cs w.confirmations;
      })
  insert-IsBacked w tx_id tx cs h new = record {
    same_owners = h.same_owners;
    same_required = h.same_required;
    backed = λ k t found. elim (Bool-cases (nat_beq k tx_id)) [
      | inl e ↦
          let at : k ≡ tx_id = ground arith in
          let this : t ≡ tx = ground (arith, lookup-insert k tx_id tx w.transactions) in
          rw at (rw this new)
      | inr e ↦
          let old = h.backed k t (ground (arith, lookup-insert k tx_id tx w.transactions)) in
          record {
            listed = ground (arith, lookup-insert k tx_id cs w.confirmations, old.listed);
            distinct = old.distinct;
            owned = old.owned;
            enough = old.enough;
          }
    ];
  }

  create-IsAuthorized :
      (tx_id to : ℕ) (amount : ℤ) (w : Wallet)
      → IsAuthorized w
      → IsAuthorized (create_transaction tx_id to amount w).0
  unfolding create_transaction
  create-IsAuthorized tx_id to amount w h = elim (Bool-cases (nat_beq to 0)) [
    | inl e ↦ rw e h
    | inr e ↦ elim (Bool-cases (leb_ℤ amount (pos 0))) [
      | inl f ↦ rw e (rw f h)
      | inr f ↦ rw e (
          rw f (
            insert-IsBacked w tx_id (new_transaction tx_id to amount w.required) [] h (record {
              listed = ground (arith, lookup-insert tx_id tx_id [] w.confirmations);
              distinct = tt;
              owned = λ o m. absurd (unfold member in ground arith);
              enough = λ x. absurd (ground arith);
            })))
    ]
  ]

  -- Execution leaves the confirmations alone.
  settle-confirmations :
      (executor : Option (Transaction → Execution)) (tx : Transaction)
      → (settle executor tx).confirmations ≡ tx.confirmations
  unfolding settle record_execution
  settle-confirmations none tx = refl
  settle-confirmations (some f) tx = elim (Bool-cases (f tx).success) [
    | inl e ↦ rw e refl
    | inr e ↦ rw e refl
  ]

  confirmed-confirmations :
      (w : Wallet) (cs : List ℕ) (tx : Transaction) → (confirmed w cs tx).confirmations ≡ cs
  unfolding confirmed
  confirmed-confirmations w cs tx = elim (Bool-cases (leb w.required (length cs))) [
    | inl e ↦ rw e (settle-confirmations w.transaction_executor (record tx { confirmations = cs }))
    | inr e ↦ rw e refl
  ]

  -- Only enough confirmations turn a transaction into an executed one.
  confirmed-executed :
      (w : Wallet) (cs : List ℕ) (tx : Transaction)
      → tx.executed ≡ false
      → (confirmed w cs tx).executed ≡ true
      → w.required ≤ length cs
  unfolding confirmed
  confirmed-executed w cs tx before after = elim (Bool-cases (leb w.required (length cs))) [
    | inl e ↦ ground arith
    | inr e ↦ absurd (ground arith)
  ]

  confirm-IsAuthorized :
      (tx_id owner : ℕ) (w : Wallet) → IsAuthorized w → IsAuthorized (confirm tx_id owner w).0
  unfolding confirm confirm_found
  confirm-IsAuthorized tx_id owner w h = elim (Bool-cases (member owner w.owners)) [
    | inr e ↦ rw e h
    | inl e ↦ elim (Option-cases (lookup tx_id w.transactions)) [
      | inl f ↦ rw e (rw f h)
      | inr (tx, f) ↦
          let old = h.backed tx_id tx f in
          let cs = add owner (or_else (lookup tx_id w.confirmations) []) in
          let added : cs ≡ add owner tx.confirmations = rw old.listed refl in
          let written : (confirmed w cs tx).confirmations ≡ cs = confirmed-confirmations w cs tx in
          elim (Bool-cases tx.executed) [
            | inl g ↦ rw e (rw f (rw g h))
            | inr g ↦
                let accepted : (confirm tx_id owner w).0 ≡ record w {
                  transactions = insert tx_id (confirmed w cs tx) w.transactions;
                  confirmations = insert tx_id cs w.confirmations;
                } =
                  ground arith in
                rw accepted (
                  insert-IsBacked w tx_id (confirmed w cs tx) cs h (record {
                    listed =
                        rw written (ground (arith, lookup-insert tx_id tx_id cs w.confirmations));
                    distinct =
                        rw written (rw added (add-IsFinSet owner tx.confirmations old.distinct));
                    owned = λ o m.
                        let m' : member o (add owner tx.confirmations) ≡ true =
                          rw (sym added) (rw (sym written) m) in
                        ground
                          (arith, member-add o owner tx.confirmations, old.owned o, h.same_owners);
                    enough =
                        λ x. rw written (rw (sym h.same_required) (confirmed-executed w cs tx g x));
                  }))
          ]
    ]
  ]

  perform_all-IsAuthorized :
      (calls : List Call) (w : Wallet) → IsAuthorized w → IsAuthorized (perform_all calls w)
  unfolding perform perform_all
  perform_all-IsAuthorized [] w h = h
  perform_all-IsAuthorized (Call.create tx_id to amount ∷ cs) w h =
      perform_all-IsAuthorized cs (create_transaction tx_id to amount w).0
        (create-IsAuthorized tx_id to amount w h)
  perform_all-IsAuthorized (Call.confirmation tx_id owner ∷ cs) w h =
      perform_all-IsAuthorized cs (confirm tx_id owner w).0 (confirm-IsAuthorized tx_id owner w h)

init-transactions :
    (owners : List ℕ) (required : ℕ) (executor : Option (Transaction → Execution)) {w : Wallet}
    → init owners required executor ≡ some w
    → w.transactions ≡ []
unfolding init
init-transactions owners required executor {w = w} new =
    let unique = unique_owners [] owners in
    elim (Bool-cases
      (nat_beq (length unique) 0 || (nat_beq required 0 || ltb (length unique) required))) [
        | inl e ↦ absurd (ground arith)
        | inr e ↦ ground arith
      ]

-- Whatever calls a new wallet sees, and whatever its executor does: a transaction that has been
-- executed carries at least the required number of confirmations, all distinct and all by owners
-- of the wallet.
pub executed-confirmed :
    (calls : List Call) (owners : List ℕ) (required : ℕ)
    (executor : Option (Transaction → Execution)) {w : Wallet} (k : ℕ) {tx : Transaction}
    → init owners required executor ≡ some w
    → lookup k (perform_all calls w).transactions ≡ some tx
    → tx.executed ≡ true
    → (w.required ≤ length tx.confirmations)
      × IsFinSet tx.confirmations
      × ((o : ℕ) → member o tx.confirmations ≡ true → member o w.owners ≡ true)
executed-confirmed calls owners required executor {w = w} k {tx = tx} new found done =
    let start : IsAuthorized w.owners w.required w = record {
      same_owners = refl;
      same_required = refl;
      backed = λ j t at.
          let none_yet = init-transactions owners required executor {w = w} new in
          absurd (unfold lookup in ground arith);
    } in
    let backed = (perform_all-IsAuthorized w.owners w.required calls w start).backed k tx found in
    (backed.enough done, backed.distinct, backed.owned)
