-- ===== src/Node/Chain/Imports.antt =====
-- What `import_block` of core/blockchain.py leaves behind when it returns false.
use absolute_blockchain_ulti.Base.{
  ℕ, ◌≡◌, refl, sym, ap, ◌∙◌, true, false, [], nat_eq, arith, Option-cases, Result-cases,
  Bool-cases, inl, inr, All, ◌⊎◌,
}
use absolute_blockchain_ulti.Base.Dict.{or_else}
use absolute_blockchain_ulti.Node.Tables.{Block}
use absolute_blockchain_ulti.Node.Db.Accounts.{commit}
use absolute_blockchain_ulti.Node.Db.Blocks.{get_block, get_last_block, truncate_all_blocks}
use absolute_blockchain_ulti.Node.Chain.State.{Node, Chain}
use absolute_blockchain_ulti.Node.Chain.Dicts.{
  BlockDict, normalize_block_dict, block_from_dict, validate_block_dict, first_of, new_block,
}
use absolute_blockchain_ulti.Node.Chain.Make.{
  ImportHashes, import_block, import_checked, drop_blocks, is_other_genesis,
}
use absolute_blockchain_ulti.Node.Chain.Refused.{
  IsClosed, IsQuiet, OnlyAudited, add_block_refused, IsQuiet-later, with_unchanged,
}

module _ (node : Node) (hashes : ImportHashes) (now : ℕ) where
  -- The block that a dictionary stands for, after its keys are made uniform.
  abbrev pub imported : BlockDict → Block
  imported d = block_from_dict node.services hashes.hash_tx now (normalize_block_dict d)

  checked_refused :
      (b : BlockDict) (chain chain' : Chain)
      → IsClosed chain.db
      → All
          (IsQuiet node chain.db)
          (block_from_dict node.services hashes.hash_tx now b).transactions
      → import_checked node hashes now b chain ≡ (false, chain')
      → OnlyAudited chain.db chain'.db
  unfolding import_checked
  checked_refused b chain chain' closed quiet h =
      let block = block_from_dict node.services hashes.hash_tx now b in
      elim (Result-cases (
        validate_block_dict node.services.strings hashes.root_of_hashes now false b
          (get_last_block chain.db))) [
            | inr (f, e) ↦ with_unchanged chain.db chain'.db closed (ground (arith, e, h))
            | inl (u, e) ↦
                (add_block_refused node now true block chain chain' closed quiet
                  (ground (arith, e, h))).0
          ]

  dropped :
      (b : BlockDict) (height : ℕ) (old : Block) (chain chain' : Chain)
      → is_other_genesis b height old ≡ true
      → All
          (IsQuiet node chain.db)
          (block_from_dict node.services hashes.hash_tx now b).transactions
      → import_checked node hashes now b (drop_blocks chain) ≡ (false, chain')
      → (height ≡ 0) × (chain'.db.live.blocks ≡ []) × (chain'.db.saved ≡ chain'.db.live)
  unfolding drop_blocks truncate_all_blocks commit
  dropped b height old chain chain' k quiet h =
      let block = block_from_dict node.services hashes.hash_tx now b in
      let still =
        IsQuiet-later node chain.db (drop_blocks chain).db block.transactions refl quiet in
      let (rows, le, e) = checked_refused b (drop_blocks chain) chain' refl still h in
      (ground (arith, k), ap (λ c. c.live.blocks) e, ap (λ c. c.saved) e ∙ sym (ap (λ c. c.live) e))

  -- An import that returns false leaves the tables as they were, but for at most one row about a
  -- mismatch of state roots; or else a block with height 0 was sent, and all blocks are gone,
  -- committed. No transaction of the database is open, and the block's transactions are without
  -- contracts and come from addresses that are no pool's.
  pub import_block_refused :
      (d : BlockDict) (chain chain' : Chain)
      → IsClosed chain.db
      → All (IsQuiet node chain.db) (imported d).transactions
      → import_block node hashes now d chain ≡ (false, chain')
      → OnlyAudited chain.db chain'.db
        ⊎ (((imported d).height ≡ 0)
            × (chain'.db.live.blocks ≡ [])
            × (chain'.db.saved ≡ chain'.db.live))
  unfolding import_block block_from_dict new_block
  import_block_refused d chain chain' closed quiet h =
      let b = normalize_block_dict d in
      let height = or_else (first_of b.height b.number) 0 in
      elim (Option-cases (get_block height chain.db)) [
        | inl e ↦ inl (checked_refused b chain chain' closed quiet (ground (arith, e, h)))
        | inr (old, e) ↦ elim (Bool-cases (is_other_genesis b height old)) [
          | inr k ↦ inl (with_unchanged chain.db chain'.db closed (ground (arith, e, k, h)))
          | inl k ↦ inr (dropped b height old chain chain' k quiet (ground (arith, e, k, h)))
        ]
      ]
