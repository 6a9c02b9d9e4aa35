-- ===== src/Node/Db/Rows.antt =====
-- Laws of the queries on the table of blocks (storage/database.py).
use absolute_blockchain_ulti.Base.{
  ℕ, ◌≤◌, ◌≡◌, refl, ap, Bool, Option, none, some, [], ◌∷◌, arith, Option-cases, inl, inr,
  if◌then◌else◌, nat_eq, nat_beq, not, ◌||◌,
}
use absolute_blockchain_ulti.Base.Dict.{Dict, lookup, insert, IsDict}
use absolute_blockchain_ulti.Node.Tables.{Block}
use absolute_blockchain_ulti.Node.Db.Blocks.{keep, find_hash, highest, replace_block}

module _ {ℓ} {V : Type ℓ} (p : ℕ → V → Bool) where
  -- A DELETE leaves the rows that pass the test.
  abbrev pub kept : ℕ → Option V → Option V
  kept k none = none
  kept k (some v) = if p k v then some v else none

  lookup-keep_absent :
      (k : ℕ) (rows : Dict ℕ V) → lookup k rows ≡ none → lookup k (keep p rows) ≡ none
  unfolding keep lookup
  lookup-keep_absent k [] h = refl
  lookup-keep_absent k (r ∷ rows) h = ground (arith, lookup-keep_absent k rows)

  pub lookup-keep :
      (k : ℕ) (rows : Dict ℕ V) → IsDict rows → lookup k (keep p rows) ≡ kept k (lookup k rows)
  unfolding keep lookup
  lookup-keep k [] h = refl
  lookup-keep k (r ∷ rows) h =
      ground (arith, lookup-keep k rows h.1, lookup-keep_absent k rows, h.0)

  pub keep-IsDict : (rows : Dict ℕ V) → IsDict rows → IsDict (keep p rows)
  unfolding keep
  keep-IsDict [] h = tt
  keep-IsDict (r ∷ rows) h = ground (arith, keep-IsDict rows h.1, lookup-keep_absent r.0 rows h.0)

keep_all :
    (b : Block) (rows : Dict ℕ Block)
    → find_hash b.hash rows ≡ none
    → keep (λ h r. nat_beq h b.height || not (nat_beq r.hash b.hash)) rows ≡ rows
unfolding keep find_hash
keep_all b [] h = refl
keep_all b (r ∷ rows) h = ground (arith, keep_all b rows)

-- A block with a new hash replaces no row of another height.
pub replace_block_fresh :
    (b : Block) (rows : Dict ℕ Block)
    → find_hash b.hash rows ≡ none
    → replace_block b rows ≡ insert b.height b rows
unfolding replace_block
replace_block_fresh b rows h = ap (insert b.height b) (keep_all b rows h)

pub highest-none : (k : ℕ) (rows : Dict ℕ Block) → highest rows ≡ none → lookup k rows ≡ none
unfolding highest lookup
highest-none k [] h = refl
highest-none k (r ∷ rows) h = elim (Option-cases (highest rows)) [
  | inl e ↦ absurd (ground (arith, e))
  | inr (s, e) ↦ absurd (ground (arith, e))
]

-- The last block has a row, and no row is above it.
pub highest_bounds :
    (k : ℕ) (v : Block) (rows : Dict ℕ Block) (r : ℕ × Block)
    → highest rows ≡ some r
    → lookup k rows ≡ some v
    → k ≤ r.0
unfolding highest lookup
highest_bounds k v [] r h e = absurd (ground arith)
highest_bounds k v (q ∷ rows) r h e = elim (Option-cases (highest rows)) [
  | inl n ↦ ground (arith, n, highest-none k rows n)
  | inr (s, n) ↦ ground (arith, n, highest_bounds k v rows s n)
]

pub lookup-highest :
    (rows : Dict ℕ Block) (r : ℕ × Block)
    → IsDict rows
    → highest rows ≡ some r
    → lookup r.0 rows ≡ some r.1
unfolding highest lookup
lookup-highest [] r d h = absurd (ground arith)
lookup-highest (q ∷ rows) r d h = elim (Option-cases (highest rows)) [
  | inl n ↦ ground (arith, n)
  | inr (s, n) ↦ ground (arith, n, d.0, lookup-highest rows s d.1 n)
]
