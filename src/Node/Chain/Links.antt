-- ===== src/Node/Chain/Links.antt =====
-- The blocks of core/blockchain.py stay a chain: `add_block` appends one.
use absolute_blockchain_ulti.Base.{
  ℕ, suc, ◌≤◌, ◌≡◌, refl, sym, ap, ◌∙◌, Bool, true, false, Option, none, some, ok, nat_eq, arith,
  Option-cases, Result-cases, inl, inr, nat_beq, All, ◌⊎◌,
}
use absolute_blockchain_ulti.Base.Dict.{Dict, lookup, insert, lookup-insert, IsDict, insert-IsDict}
use mathlib.Core.Path.{subst}
use absolute_blockchain_ulti.Node.Tables.{Block, Connection}
use absolute_blockchain_ulti.Node.Db.Accounts.{commit}
use absolute_blockchain_ulti.Node.Db.Blocks.{
  get_block, get_last_block, get_chain_tip, highest, find_hash, get_block_by_hash, replace_block,
}
use absolute_blockchain_ulti.Node.Db.Rows.{
  replace_block_fresh, highest-none, highest_bounds, lookup-highest,
}
use absolute_blockchain_ulti.Node.Chain.State.{Node, Chain}
use absolute_blockchain_ulti.Node.Db.Accounts.{balance_delta}
use absolute_blockchain_ulti.Node.Db.Frame.{blocks-persist_block_locked}
use absolute_blockchain_ulti.Node.Chain.Apply.{apply_block_reward, pay}
use absolute_blockchain_ulti.Node.Chain.Add.{add_block, check_block, sealed}
use absolute_blockchain_ulti.Node.Chain.Refused.{IsQuiet, apply_transactions-Uncommitted}
use absolute_blockchain_ulti.Node.Chain.Accepted.{
  IsAccepted, add_block-IsAccepted, accepted_found, stored, rewarded, burn_target,
}
use absolute_blockchain_ulti.Node.Chain.BlockChecks.{validate_block_structure}

-- What stands below a block: nothing, for the first one at height 1, or its parent.
abbrev pub Link : Dict ℕ Block → ℕ → Block → Type 0
Link rows h b =
    ((h ≡ 0) × (lookup h rows ≡ none))
    ⊎ ((p : Block) × (lookup h rows ≡ some p) × (b.parent_hash ≡ p.hash))

-- Each block stands at its height, on the block below it; the first is at height 0 or 1.
pub record IsChain (rows : Dict ℕ Block) : Type 0 where
  pub dict : IsDict rows
  pub keyed : (h : ℕ) (b : Block) → lookup h rows ≡ some b → b.height ≡ h
  pub linked : (h : ℕ) (b : Block) → lookup (suc h) rows ≡ some b → Link rows h b

-- What `_validate_block_structure` makes sure of.
abbrev pub Extends : Block → Option (ℕ × Block) → Type 0
Extends b none = (b.height ≡ 0) ⊎ (b.height ≡ 1)
Extends b (some last) = (b.height ≡ suc (last.1.height)) × (b.parent_hash ≡ last.1.hash)

pub validate_block_structure-Extends :
    (b : Block) (c : Connection)
    → validate_block_structure b c ≡ ok tt
    → Extends b (highest c.live.blocks)
unfolding validate_block_structure get_last_block
validate_block_structure-Extends b c h = elim (Option-cases (highest c.live.blocks)) [
  | inl e ↦ rw e (ground (arith, e, h))
  | inr (last, e) ↦ rw e (ground (arith, e, h))
]

-- The new block is above every row.
pub below_new :
    (b v : Block) (k : ℕ) (rows : Dict ℕ Block)
    → IsChain rows
    → Extends b (highest rows)
    → lookup k rows ≡ some v
    → suc k ≤ b.height
below_new b v k rows chain h e = elim (Option-cases (highest rows)) [
  | inl n ↦ absurd (ground (arith, e, highest-none k rows n))
  | inr (last, n) ↦
      let x : Extends b (some last) = subst (Extends b) n h in
      omega (
        arith,
        x.0,
        highest_bounds k v rows last n e,
        chain.keyed last.0 last.1 (lookup-highest rows last chain.dict n),
      )
]

-- The new block's own link.
new-Link :
    (b : Block) (k : ℕ) (rows : Dict ℕ Block)
    → IsChain rows
    → Extends b (highest rows)
    → suc k ≡ b.height
    → Link (insert b.height b rows) k b
new-Link b k rows chain h e = elim (Option-cases (highest rows)) [
  | inl n ↦
      let x : Extends b none = subst (Extends b) n h in
      inl (
        ground (arith, x),
        ground (arith, e, lookup-insert k b.height b rows, highest-none k rows n),
      )
  | inr (last, n) ↦
      let x : Extends b (some last) = subst (Extends b) n h in
      let at = lookup-highest rows last chain.dict n in
      let same : k ≡ last.0 = omega (arith, x.0, e, chain.keyed last.0 last.1 at) in
      inr (last.1, ground (arith, e, same, at, lookup-insert k b.height b rows), x.1)
]

old-Link :
    (b v : Block) (k : ℕ) (rows : Dict ℕ Block)
    → IsChain rows
    → Extends b (highest rows)
    → lookup (suc k) rows ≡ some v
    → Link (insert b.height b rows) k v
old-Link b v k rows chain h e =
    let le = below_new b v (suc k) rows chain h e in
    elim (chain.linked k v e) [
      | inl (z, n) ↦ inl (z, ground (arith, n, le, lookup-insert k b.height b rows))
      | inr (p, at, parent) ↦
          inr (p, ground (arith, at, le, lookup-insert k b.height b rows), parent)
    ]

nat_eq_cases : (m n : ℕ) → (m ≡ n) ⊎ (nat_beq m n ≡ false)
nat_eq_cases m n = ground arith

pub insert-IsChain :
    (b : Block) (rows : Dict ℕ Block)
    → IsChain rows
    → Extends b (highest rows)
    → IsChain (insert b.height b rows)
insert-IsChain b rows chain h = record {
  dict = insert-IsDict b.height b rows chain.dict;
  keyed = λ k v e. ground (arith, lookup-insert k b.height b rows, chain.keyed k v);
  linked = λ k v e. elim (nat_eq_cases (suc k) b.height) [
    | inl at ↦
        let same : v ≡ b = ground (arith, e, at, lookup-insert (suc k) b.height b rows) in
        rw same (new-Link b k rows chain h at)
    | inr off ↦
        old-Link b v k rows chain h (ground (arith, e, off, lookup-insert (suc k) b.height b rows))
  ];
}

Extends-same :
    (b s : Block)
    → s.height ≡ b.height
    → s.parent_hash ≡ b.parent_hash
    → (o : Option (ℕ × Block)) → Extends b o
    → Extends s o
Extends-same b s h p none x = ground (arith, h, x)
Extends-same b s h p (some last) x = (h ∙ x.0, p ∙ x.1)

-- `get_chain_tip` of these rows
abbrev pub tip_of : Dict ℕ Block → ℕ
tip_of rows = elim (highest rows) [ none ↦ 0 | some r ↦ r.0 ]

tip_of-insert :
    (b : Block) (rows : Dict ℕ Block)
    → IsChain rows
    → Extends b (highest rows)
    → tip_of (insert b.height b rows) ≡ b.height
tip_of-insert b rows chain h =
    let next = insert b.height b rows in
    let dict = insert-IsDict b.height b rows chain.dict in
    elim (Option-cases (highest next)) [
      | inl n ↦
          absurd
            (ground (arith, lookup-insert b.height b.height b rows, highest-none b.height next n))
      | inr (r, n) ↦ ground (
        arith,
        n,
        lookup-insert b.height b.height b rows,
        lookup-insert r.0 b.height b rows,
        highest_bounds b.height b next r n,
        lookup-highest next r dict n,
        below_new b r.1 r.0 rows chain h,
      )
    ]

structure_passed :
    (node : Node) (b : Block) (chain : Chain)
    → check_block node b chain ≡ ok tt
    → validate_block_structure b chain.db ≡ ok tt
unfolding check_block
structure_passed node b chain h = elim (Result-cases (validate_block_structure b chain.db)) [
  | inl (_, e) ↦ e
  | inr (f, e) ↦ absurd (ground (arith, e, h))
]

blocks-rewarded :
    (node : Node) (now : ℕ) (preserve : Bool) (block : Block) (chain : Chain) (m : Connection)
    → (rewarded node now preserve block chain m).live.blocks ≡ m.live.blocks
unfolding apply_block_reward pay balance_delta
blocks-rewarded node now preserve block chain m = ground arith

-- The rows that an accepted block leaves.
blocks-accepted :
    (node : Node) (now : ℕ) (preserve : Bool) (block : Block) (chain chain' : Chain)
    (a : IsAccepted node now preserve block chain chain')
    → All (IsQuiet node chain.db) block.transactions
    → chain'.db.live.blocks
      ≡ replace_block (stored node now preserve block chain a.done a.middle) chain.db.live.blocks
unfolding commit
blocks-accepted node now preserve block chain chain' a quiet =
    let b = stored node now preserve block chain a.done a.middle in
    let c = rewarded node now preserve block chain a.middle in
    let u =
      apply_transactions-Uncommitted node block.height block.miner block.transactions chain.db
        quiet in
    let same : c.live.blocks ≡ chain.db.live.blocks =
      ground (arith, u, a.applied, blocks-rewarded node now preserve block chain a.middle) in
    rw a.written (
      blocks-persist_block_locked node.services.strings now b b.transactions b.total_burned
        (burn_target node b) c
      ∙ ap (replace_block b) same)

-- An accepted block with a hash that no row has leaves the blocks a chain, if they were one: each
-- stands at its height, with the hash of the block below it as its parent; and the new block is
-- the last. The block's transactions are without contracts and come from addresses that are no
-- pool's.
pub add_block-IsChain :
    (node : Node) (now : ℕ) (preserve : Bool) (block b : Block) (chain chain' : Chain)
    → IsChain chain.db.live.blocks
    → All (IsQuiet node chain.db) block.transactions
    → add_block node now preserve block chain ≡ (true, chain')
    → get_block block.height chain'.db ≡ some b
    → get_block_by_hash b.hash chain.db ≡ none
    → IsChain chain'.db.live.blocks × (get_chain_tip chain'.db ≡ block.height)
unfolding sealed get_block_by_hash get_chain_tip
add_block-IsChain node now preserve block b chain chain' links quiet h found fresh =
    let a = add_block-IsAccepted node now preserve block chain chain' h in
    let s = stored node now preserve block chain a.done a.middle in
    let same : b ≡ s =
      ground (arith, found, accepted_found node now preserve block chain chain' a) in
    let new : find_hash s.hash chain.db.live.blocks ≡ none =
      subst (λ (x : Block). find_hash x.hash chain.db.live.blocks ≡ none) same fresh in
    let rows = blocks-accepted node now preserve block chain chain' a quiet in
    let x =
      validate_block_structure-Extends block chain.db
        (structure_passed node block chain a.checked) in
    let y = Extends-same block s refl refl (highest chain.db.live.blocks) x in
    subst (λ (d : Dict ℕ Block). IsChain d × (tip_of d ≡ block.height))
      (sym (rows ∙ replace_block_fresh s chain.db.live.blocks new))
      (insert-IsChain s chain.db.live.blocks links y, tip_of-insert s chain.db.live.blocks links y)
