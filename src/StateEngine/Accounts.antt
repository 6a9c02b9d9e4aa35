-- ===== src/StateEngine/Accounts.antt =====
-- What `_apply_transaction` of execution/state_engine.py does to each single account.
use absolute_blockchain_ulti.Base.{
  ℕ, ◌+◌, ◌≤◌, ◌≡◌, ◌≢◌, false, none, some, List, [], ◌∷◌, ok, raised, if◌then◌else◌, arith,
  Option-cases, Result-cases, inl, inr, nat_eq, ◌==◌, All,
}
use absolute_blockchain_ulti.Base.Int.{ℤ, pos, negsuc, ◌+ℤ◌, ◌-ℤ◌, int_laws, ◌≤ℤ◌, int_beq_iff}
use absolute_blockchain_ulti.Base.Dict.{lookup, lookup-insert}
use absolute_blockchain_ulti.StateEngine.Defs.{
  AccountState, AccountMap, Tx, Error, blank, source, target, amount_of, ensure, account, debit,
  credit, wrong_nonce, apply_transaction, apply_all,
}

account-ensure : (j a : ℕ) (d : AccountMap) → account j (ensure a d) ≡ account j d
unfolding ensure account
account-ensure j a d = elim (Option-cases (lookup a d)) [
  | inl e ↦ ground (arith, lookup-insert j a blank d)
  | inr (v, e) ↦ ground arith
]

nonce_matches : (n : ℤ) (m : ℕ) → wrong_nonce (some n) m ≡ false → n ≡ pos m
unfolding wrong_nonce
nonce_matches n m h = ground (arith, int_beq_iff n (pos m))

-- The specification: the sender pays and counts, then the recipient receives.
abbrev pub paid : Tx → ℕ → AccountState → AccountState
paid tx j acc =
    if j == source tx
    then record acc { balance = acc.balance -ℤ amount_of tx; nonce = acc.nonce + 1 }
    else acc

abbrev pub effect : Tx → ℕ → AccountState → AccountState
effect tx j acc =
    if j == target tx
    then record (paid tx j acc) { balance = (paid tx j acc).balance +ℤ amount_of tx }
    else paid tx j acc

account-debit :
    (tx : Tx) (j : ℕ) (d : AccountMap)
    → account j (debit (source tx) (amount_of tx) d) ≡ paid tx j (account j d)
unfolding debit account
account-debit tx j d =
    let acc = account (source tx) d in
    ground (
      arith,
      lookup-insert j (source tx)
          (record acc { balance = acc.balance -ℤ amount_of tx; nonce = acc.nonce + 1 }) d,
    )

account-credit :
    (j a : ℕ) (x : ℤ) (d : AccountMap)
    → account j (credit a x d) ≡ (
        if j == a
        then record (account j d) { balance = (account j d).balance +ℤ x }
        else account j d)
unfolding credit account
account-credit j a x d =
    let acc = account a d in
    ground (arith, lookup-insert j a (record acc { balance = acc.balance +ℤ x }) d)

-- A transaction that is applied was covered by the sender's balance and carried the sender's
-- nonce, or none; and every account, the parties' and any other, is then as `effect` says.
pub apply_transaction-effect :
    (tx : Tx) (d : AccountMap) (j : ℕ) {d' : AccountMap}
    → apply_transaction tx d ≡ ok d'
    → (amount_of tx ≤ℤ (account (source tx) d).balance)
      × (wrong_nonce tx.nonce (account (source tx) d).nonce ≡ false)
      × (account j d' ≡ effect tx j (account j d))
unfolding apply_transaction
apply_transaction-effect tx d j h =
    let known = ensure (source tx) d in
    let after = debit (source tx) (amount_of tx) known in
    ground (
      arith,
      account-ensure (source tx) (source tx) d,
      account-ensure j (source tx) d,
      account-debit tx j known,
      account-ensure j (target tx) after,
      account-credit j (target tx) (amount_of tx) (ensure (target tx) after),
    )

-- A transaction that is applied takes no account's nonce back.
nonce-grows :
    (tx : Tx) (d : AccountMap) (j : ℕ) {d' : AccountMap}
    → apply_transaction tx d ≡ ok d'
    → (account j d).nonce ≤ (account j d').nonce
nonce-grows tx d j h = ground (arith, apply_transaction-effect tx d j h)

nonce-grows_all :
    (txs : List Tx) (d : AccountMap) (j : ℕ) {d' : AccountMap}
    → apply_all txs d ≡ ok d'
    → (account j d).nonce ≤ (account j d').nonce
unfolding apply_all
nonce-grows_all [] d j h = ground (arith, h)
nonce-grows_all (tx ∷ txs) d j {d'} h = elim (Result-cases (apply_transaction tx d)) [
  | inl (m, e) ↦
      let rest = nonce-grows_all txs m j {d' = d'} (ground (arith, h, e)) in
      omega (arith, nonce-grows tx d j e, rest)
  | inr (f, e) ↦ absurd (ground arith)
]

-- A transaction that names its nonce is applied at most once: after it, and after any further
-- transactions that are applied, it is refused.
pub replay_refused :
    (tx : Tx) (n : ℤ) (txs : List Tx) (d : AccountMap) {m d' : AccountMap}
    → tx.nonce ≡ some n
    → apply_transaction tx d ≡ ok m
    → apply_all txs m ≡ ok d'
    → (f : Error) × (apply_transaction tx d' ≡ raised f)
replay_refused tx n txs d {m} {d'} named h since = elim (Result-cases (apply_transaction tx d')) [
  | inl (d'', again) ↦ absurd (
      ground (
        arith,
        apply_transaction-effect tx d (source tx) h,
        nonce-grows_all txs m (source tx) since,
        apply_transaction-effect tx d' (source tx) again,
        nonce_matches n (account (source tx) d).nonce,
        nonce_matches n (account (source tx) d').nonce,
      ))
  | inr refused ↦ refused
]

-- No account is below zero.
abbrev pub IsSolvent : AccountMap → Type 0
IsSolvent d = (j : ℕ) → pos 0 ≤ℤ (account j d).balance

-- A block whose amounts are not negative leaves no account below zero where none was before.
pub apply_all-IsSolvent :
    (txs : List Tx) (d : AccountMap) {d' : AccountMap}
    → All (λ tx. pos 0 ≤ℤ amount_of tx) txs
    → IsSolvent d
    → apply_all txs d ≡ ok d'
    → IsSolvent d'
unfolding apply_all
apply_all-IsSolvent [] d nonneg solvent h j = ground (arith, solvent j)
apply_all-IsSolvent (tx ∷ txs) d {d'} nonneg solvent h j =
    elim (Result-cases (apply_transaction tx d)) [
      | inl (m, e) ↦
          apply_all-IsSolvent txs m nonneg.1
            (λ k. grind (int_laws, apply_transaction-effect tx d k e, solvent k)) (ground arith) j
      | inr (f, e) ↦ absurd (ground arith)
    ]

-- An amount below zero is not refused: whoever names no nonce and is solvent takes `n + 1` out of
-- any other account, which has not agreed and need not hold it.
pub negative_amount_takes :
    (tx : Tx) (n : ℕ) (d : AccountMap)
    → amount_of tx ≡ negsuc n
    → tx.nonce ≡ none
    → source tx ≢ target tx
    → pos 0 ≤ℤ (account (source tx) d).balance
    → (d' : AccountMap) × (apply_transaction tx d ≡ ok d')
      × ((account (target tx) d').balance ≡ (account (target tx) d).balance +ℤ negsuc n)
      × ((account (source tx) d').balance ≡ (account (source tx) d).balance -ℤ negsuc n)
unfolding apply_transaction
negative_amount_takes tx n d amount unnamed other solvent =
    let known = ensure (source tx) d in
    let after = debit (source tx) (amount_of tx) known in
    let d' = credit (target tx) (amount_of tx) (ensure (target tx) after) in
    let done : apply_transaction tx d ≡ ok d' =
      ground (arith, account-ensure (source tx) (source tx) d) in
    (
      d',
      done,
      ground (arith, apply_transaction-effect tx d (target tx) done),
      ground (arith, apply_transaction-effect tx d (source tx) done),
    )
