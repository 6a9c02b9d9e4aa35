-- ===== src/Node/Mempool/Best.antt =====
-- `get` of blockchain/mempool.py: the best paid transactions.
use absolute_blockchain_ulti.Base.{
  ℕ, zero, suc, ◌≡◌, List, [], ◌∷◌, ◌⊎◌, inl, inr, arith, length, take, All, All-weaken, Bool-cases,
}
use absolute_blockchain_ulti.Base.Int.{ℤ, leb_ℤ, ◌≤ℤ◌}
use absolute_blockchain_ulti.Base.Dict.{values}
use absolute_blockchain_ulti.Node.Mempool.Defs.{
  MempoolTransaction, Mempool, insert_dear, dearest_first, paying, best_paid,
}

-- It stands in the list.
abbrev pub IsAmong : MempoolTransaction → List MempoolTransaction → Type 0
IsAmong tx [] = ⊥
IsAmong tx (u ∷ txs) = (tx ≡ u) ⊎ IsAmong tx txs

-- Each pays no less than those after it.
abbrev pub IsDescending : List MempoolTransaction → Type 0
IsDescending [] = Unit
IsDescending (tx ∷ txs) = All (λ u. u.fee ≤ℤ tx.fee) txs × IsDescending txs

module _ (P : MempoolTransaction → Type 0) where
  insert_dear-All :
      (tx : MempoolTransaction) (txs : List MempoolTransaction)
      → P tx
      → All P txs
      → All P (insert_dear tx txs)
  unfolding insert_dear
  insert_dear-All tx [] p h = (p, tt)
  insert_dear-All tx (u ∷ txs) p h = elim (Bool-cases (leb_ℤ u.fee tx.fee)) [
    | inl q ↦ rw q (p, h)
    | inr q ↦ rw q (h.0, insert_dear-All tx txs p h.1)
  ]

  paying-All : (least : ℤ) (txs : List MempoolTransaction) → All P txs → All P (paying least txs)
  unfolding paying
  paying-All least [] h = tt
  paying-All least (tx ∷ txs) h = elim (Bool-cases (leb_ℤ least tx.fee)) [
    | inl q ↦ rw q (h.0, paying-All least txs h.1)
    | inr q ↦ rw q (paying-All least txs h.1)
  ]

le_trans : (v u tx : MempoolTransaction) → u.fee ≤ℤ tx.fee → v.fee ≤ℤ u.fee → v.fee ≤ℤ tx.fee
le_trans v u tx h k = omega (arith, h, k)

insert_dear-IsDescending :
    (tx : MempoolTransaction) (txs : List MempoolTransaction)
    → IsDescending txs
    → IsDescending (insert_dear tx txs)
unfolding insert_dear
insert_dear-IsDescending tx [] h = (tt, tt)
insert_dear-IsDescending tx (u ∷ txs) h = elim (Bool-cases (leb_ℤ u.fee tx.fee)) [
  | inl q ↦
      let first : u.fee ≤ℤ tx.fee = ground (arith, q) in
      rw q ((first, All-weaken (λ v. le_trans v u tx first) txs h.0), h)
  | inr q ↦ rw q (
    insert_dear-All (λ v. v.fee ≤ℤ u.fee) tx txs (ground (arith, q)) h.0,
    insert_dear-IsDescending tx txs h.1,
  )
]

dearest_first-IsDescending : (txs : List MempoolTransaction) → IsDescending (dearest_first txs)
unfolding dearest_first
dearest_first-IsDescending [] = tt
dearest_first-IsDescending (tx ∷ txs) =
    insert_dear-IsDescending tx (dearest_first txs) (dearest_first-IsDescending txs)

paying-IsDescending :
    (least : ℤ) (txs : List MempoolTransaction) → IsDescending txs → IsDescending (paying least txs)
unfolding paying
paying-IsDescending least [] h = tt
paying-IsDescending least (tx ∷ txs) h = elim (Bool-cases (leb_ℤ least tx.fee)) [
  | inl q ↦
      rw q (paying-All (λ u. u.fee ≤ℤ tx.fee) least txs h.0, paying-IsDescending least txs h.1)
  | inr q ↦ rw q (paying-IsDescending least txs h.1)
]

module _ (tx : MempoolTransaction) where
  insert_dear-IsAmong :
      (u : MempoolTransaction) (txs : List MempoolTransaction)
      → (tx ≡ u) ⊎ IsAmong tx txs
      → IsAmong tx (insert_dear u txs)
  unfolding insert_dear
  insert_dear-IsAmong u [] h = h
  insert_dear-IsAmong u (v ∷ txs) h = elim (Bool-cases (leb_ℤ v.fee u.fee)) [
    | inl q ↦ rw q h
    | inr q ↦ rw q (swap (insert_dear-IsAmong u txs) h)
  ]
    where
      swap : {A B C D : Type 0} → (A ⊎ C → D) → A ⊎ (B ⊎ C) → B ⊎ D
      swap f (inl a) = inr (f (inl a))
      swap f (inr (inl b)) = inl b
      swap f (inr (inr c)) = inr (f (inr c))

  dearest_first-IsAmong :
      (txs : List MempoolTransaction) → IsAmong tx txs → IsAmong tx (dearest_first txs)
  unfolding dearest_first
  dearest_first-IsAmong [] h = h
  dearest_first-IsAmong (u ∷ txs) (inl q) = insert_dear-IsAmong u (dearest_first txs) (inl q)
  dearest_first-IsAmong (u ∷ txs) (inr h) =
      insert_dear-IsAmong u (dearest_first txs) (inr (dearest_first-IsAmong txs h))

  paying-IsAmong :
      (least : ℤ) (txs : List MempoolTransaction)
      → least ≤ℤ tx.fee
      → IsAmong tx txs
      → IsAmong tx (paying least txs)
  unfolding paying
  paying-IsAmong least [] f h = h
  paying-IsAmong least (u ∷ txs) f h = elim (Bool-cases (leb_ℤ least u.fee)) [
    | inl q ↦ rw q (elim h [ inl k ↦ inl k | inr k ↦ inr (paying-IsAmong least txs f k) ])
    | inr q ↦
        rw q (elim h [ inl k ↦ ground (arith, f, k, q) | inr k ↦ paying-IsAmong least txs f k ])
  ]

  among_below :
      (x : MempoolTransaction) (txs : List MempoolTransaction)
      → All (λ u. u.fee ≤ℤ x.fee) txs
      → IsAmong tx txs
      → tx.fee ≤ℤ x.fee
  among_below x [] h k = elim k [ ]
  among_below x (u ∷ txs) h (inl k) = rw k (h.0)
  among_below x (u ∷ txs) h (inr k) = among_below x txs h.1 k

  take-IsAmong :
      (n : ℕ) (txs : List MempoolTransaction)
      → IsDescending txs
      → IsAmong tx txs
      → IsAmong tx (take n txs)
        ⊎ ((length (take n txs) ≡ n) × All (λ u. tx.fee ≤ℤ u.fee) (take n txs))
  unfolding take
  take-IsAmong zero txs d h = inr (omega arith, tt)
  take-IsAmong (suc n) [] d h = elim h [ ]
  take-IsAmong (suc n) (u ∷ txs) d (inl k) = inl (inl k)
  take-IsAmong (suc n) (u ∷ txs) d (inr k) = elim (take-IsAmong n txs d.1 k) [
    | inl m ↦ inl (inr m)
    | inr m ↦ inr (omega (arith, m.0), (among_below u txs d.0 k, m.1))
  ]

-- A pooled transaction that pays the least fee asked for is in what `get` returns, unless `get`
-- returns as many as its limit allows and each of them pays at least as much.
pub best_paid_complete :
    (limit : ℕ) (least : ℤ) (pool : Mempool) (tx : MempoolTransaction)
    → IsAmong tx (values pool.transactions)
    → least ≤ℤ tx.fee
    → IsAmong tx (best_paid limit least pool)
      ⊎ ((length (best_paid limit least pool) ≡ limit)
          × All (λ u. tx.fee ≤ℤ u.fee) (best_paid limit least pool))
unfolding best_paid
best_paid_complete limit least pool tx h f =
    let txs = values pool.transactions in
    take-IsAmong tx limit (paying least (dearest_first txs))
      (paying-IsDescending least (dearest_first txs) (dearest_first-IsDescending txs))
      (paying-IsAmong tx least (dearest_first txs) f (dearest_first-IsAmong tx txs h))
