-- ===== src/StateEngine/Blocks.antt =====
-- A whole block in execution/state_engine.py: all of it is applied, or nothing.
use absolute_blockchain_ulti.Base.{
  ℕ, ◌≡◌, inl, inr, none, some, List, Result, ok, raised, arith, Option-cases, Result-cases,
}
use absolute_blockchain_ulti.Base.Int.{ℤ, pos}
use absolute_blockchain_ulti.StateEngine.Defs.{
  BlockState, Block, Engine, Error, apply_all, seal, root, transition,
}
use absolute_blockchain_ulti.StateEngine.Supply.{supply, apply_all-supply}

-- The supply of an engine; without a state it is zero.
abbrev pub engine_supply : Engine → ℤ
engine_supply e = elim e.state [ none ↦ pos 0 | some s ↦ supply s.accounts ]

module _ (digest : List (ℕ × ℤ × ℕ) → ℕ) (b : Block) (e : Engine) where
  -- What `transition` may do: raise and change nothing, or return the state that is now current,
  -- with the block's fields, the accounts' own root and the supply that was there before.
  abbrev pub Transitions : Result Error BlockState × Engine → Type 0
  Transitions (raised f, e') = e' ≡ e
  Transitions (ok s, e') =
      (e'.state ≡ some s)
      × (s.block_number ≡ b.number)
      × (s.block_hash ≡ b.hash)
      × (s.parent_hash ≡ b.parent_hash)
      × (s.state_root ≡ root digest s.accounts)
      × (supply s.accounts ≡ engine_supply e)

  -- A call of `transition` that raises leaves the engine as it was. One that returns makes the
  -- returned state current, with the block's number, hash and parent and the root of its own
  -- accounts, and the sum of all balances is what it was before the block.
  pub transition_atomic : Transitions (transition digest b e)
  unfolding transition seal
  transition_atomic = elim (Option-cases e.state) [
    | inl h ↦ ground arith
    | inr (s, h) ↦ elim (Result-cases (apply_all b.transactions s.accounts)) [
      | inl (d, k) ↦ ground (arith, apply_all-supply b.transactions s.accounts k)
      | inr (f, k) ↦ ground arith
    ]
  ]
