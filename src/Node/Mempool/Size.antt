-- ===== src/Node/Mempool/Size.antt =====
-- What insertions and deletions do to the entries of the pool of blockchain/mempool.py.
use absolute_blockchain_ulti.Base.{
  ℕ, zero, suc, ◌+◌, ◌≤◌, ◌≡◌, refl, true, List, [], ◌∷◌, arith, nat_eq, nat_beq, nat_beq_iff,
  length, take, All, All-weaken, Bool-cases, inl, inr,
}
use absolute_blockchain_ulti.Base.Int.{ℤ, leb_ℤ, ◌≤ℤ◌}
use absolute_blockchain_ulti.Base.Dict.{Dict, lookup, insert, erase, contains, values}
use absolute_blockchain_ulti.Node.Mempool.Defs.{
  MempoolTransaction, insert_cheap, cheapest_first, delete_all,
}

abbrev pub Pending : Type 0
Pending = Dict ℕ MempoolTransaction

-- An entry stands under the hash of its transaction, which pays enough.
abbrev pub IsEntry : ℤ → ℕ × MempoolTransaction → Type 0
IsEntry least e = (e.0 ≡ e.1.tx_hash) × (least ≤ℤ e.1.fee)

module _ (least : ℤ) where
  pub insert-All :
      (tx : MempoolTransaction) (d : Pending)
      → least ≤ℤ tx.fee
      → All (IsEntry least) d
      → All (IsEntry least) (insert tx.tx_hash tx d)
  unfolding insert
  insert-All tx [] f h = ((refl, f), tt)
  insert-All tx (e ∷ d) f h = elim (Bool-cases (nat_beq tx.tx_hash e.0)) [
    | inl k ↦ rw k ((refl, f), h.1)
    | inr k ↦ rw k (h.0, insert-All tx d f h.1)
  ]

  pub erase-All : (k : ℕ) (d : Pending) → All (IsEntry least) d → All (IsEntry least) (erase k d)
  unfolding erase
  erase-All k [] h = tt
  erase-All k (e ∷ d) h = elim (Bool-cases (nat_beq k e.0)) [
    | inl q ↦ rw q h.1
    | inr q ↦ rw q (h.0, erase-All k d h.1)
  ]

pub length-insert_le :
    (k : ℕ) (tx : MempoolTransaction) (d : Pending) → length (insert k tx d) ≤ length d + 1
unfolding insert
length-insert_le k tx [] = omega arith
length-insert_le k tx (e ∷ d) = ground (arith, length-insert_le k tx d)

pub length-erase_le : (k : ℕ) (d : Pending) → length (erase k d) ≤ length d
unfolding erase
length-erase_le k [] = omega arith
length-erase_le k (e ∷ d) = ground (arith, length-erase_le k d)

length-erase : (k : ℕ) (d : Pending) → contains k d ≡ true → length (erase k d) + 1 ≡ length d
unfolding erase lookup
length-erase k [] h = absurd (ground (arith, h))
length-erase k (e ∷ d) h = ground (arith, length-erase k d)

pub length-delete_all_le :
    (txs : List MempoolTransaction) (d : Pending) → length (delete_all txs d) ≤ length d
unfolding delete_all
length-delete_all_le [] d = omega arith
length-delete_all_le (tx ∷ txs) d =
    omega (arith, length-delete_all_le txs (erase tx.tx_hash d), length-erase_le tx.tx_hash d)

pub length-values : (d : Pending) → length (values d) ≡ length d
length-values [] = omega arith
length-values (e ∷ d) = omega (arith, length-values d)

contains_later :
    (e : ℕ × MempoolTransaction) (d : Pending) (tx : MempoolTransaction)
    → contains tx.tx_hash d ≡ true
    → contains tx.tx_hash (e ∷ d) ≡ true
unfolding lookup
contains_later e d tx h = ground (arith, h)

pub contains-All :
    (least : ℤ) (d : Pending)
    → All (IsEntry least) d
    → All (λ tx. contains tx.tx_hash d ≡ true) (values d)
unfolding lookup
contains-All least [] h = tt
contains-All least (e ∷ d) h = (
  ground (arith, h.0.0, nat_beq_iff e.1.tx_hash e.0),
  All-weaken (contains_later e d) (values d) (contains-All least d h.1),
)

module _ (P : MempoolTransaction → Type 0) where
  insert_cheap-All :
      (tx : MempoolTransaction) (txs : List MempoolTransaction)
      → P tx
      → All P txs
      → All P (insert_cheap tx txs)
  unfolding insert_cheap
  insert_cheap-All tx [] p h = (p, tt)
  insert_cheap-All tx (u ∷ txs) p h = elim (Bool-cases (leb_ℤ tx.fee u.fee)) [
    | inl q ↦ rw q (p, h)
    | inr q ↦ rw q (h.0, insert_cheap-All tx txs p h.1)
  ]

  pub cheapest_first-All : (txs : List MempoolTransaction) → All P txs → All P (cheapest_first txs)
  unfolding cheapest_first
  cheapest_first-All [] h = tt
  cheapest_first-All (tx ∷ txs) h =
      insert_cheap-All tx (cheapest_first txs) h.0 (cheapest_first-All txs h.1)

length-insert_cheap :
    (tx : MempoolTransaction) (txs : List MempoolTransaction)
    → length (insert_cheap tx txs) ≡ length txs + 1
unfolding insert_cheap
length-insert_cheap tx [] = omega arith
length-insert_cheap tx (u ∷ txs) = ground (arith, length-insert_cheap tx txs)

pub length-cheapest_first :
    (txs : List MempoolTransaction) → length (cheapest_first txs) ≡ length txs
unfolding cheapest_first
length-cheapest_first [] = omega arith
length-cheapest_first (tx ∷ txs) =
    omega (arith, length-cheapest_first txs, length-insert_cheap tx (cheapest_first txs))

pub length-delete_all :
    (n : ℕ) (txs : List MempoolTransaction) (d : Pending)
    → 1 ≤ n
    → 1 ≤ length txs
    → All (λ tx. contains tx.tx_hash d ≡ true) txs
    → length (delete_all (take n txs) d) + 1 ≤ length d
unfolding delete_all take
length-delete_all zero txs d n_1 l h = absurd (omega (arith, n_1))
length-delete_all (suc n) [] d n_1 l h = absurd (omega (arith, l))
length-delete_all (suc n) (tx ∷ txs) d n_1 l h =
    omega
      (arith, length-delete_all_le (take n txs) (erase tx.tx_hash d), length-erase tx.tx_hash d h.0)

pub delete_all-All :
    (least : ℤ) (txs : List MempoolTransaction) (d : Pending)
    → All (IsEntry least) d
    → All (IsEntry least) (delete_all txs d)
unfolding delete_all
delete_all-All least [] d h = h
delete_all-All least (tx ∷ txs) d h =
    delete_all-All least txs (erase tx.tx_hash d) (erase-All least tx.tx_hash d h)
