-- ===== src/Node/Chain/Proposals.antt =====
-- What a refused block does to the slashing engine, in `add_block` of core/blockchain.py.
use absolute_blockchain_ulti.Base.{
  ℕ, ◌≡◌, refl, Bool, true, false, none, nat_eq, arith, Result-cases, Bool-cases, inl, inr, ◌||◌,
  not, nat_beq, raised, ◌⊎◌, Option, some, ◌/◌,
}
use absolute_blockchain_ulti.Node.Strings.{non_empty, genesis_name}
use absolute_blockchain_ulti.Node.Tables.{Block, Connection}
use absolute_blockchain_ulti.Node.Chain.State.{Node, Chain}
use absolute_blockchain_ulti.Node.Chain.Apply.{apply_block_reward}
use absolute_blockchain_ulti.Base.Set.{member}
use absolute_blockchain_ulti.Consensus.Slashing.{
  SlashingEngine, Reason, slash, record_proposal, proposers,
}
use absolute_blockchain_ulti.Node.Chain.Add.{
  note_proposal, sealed, is_root_refused, compute_state_root, apply_transactions,
  after_transactions, execute_block, finish_block, Failure,
}

-- The slashing engine is as it was, or else it has slashed the miner of a block that had proposed
-- for this height already.
abbrev pub SlashedAtMost : ℕ → Block → Option SlashingEngine → Option SlashingEngine → Type 0
SlashedAtMost now block before after =
    (after ≡ before)
    ⊎ ((e : SlashingEngine) × (before ≡ some e)
        × (member block.miner (proposers block.height e) ≡ true)
        × (after ≡ some (slash now block.miner Reason.double_proposal (block.height / 32) e)))

note_proposal-SlashedAtMost :
    (now : ℕ) (block : Block) (slashing : Option SlashingEngine)
    → (note_proposal now block slashing).1 ≡ false
    → SlashedAtMost now block slashing (note_proposal now block slashing).0
unfolding note_proposal record_proposal
note_proposal-SlashedAtMost now block none h = inl refl
note_proposal-SlashedAtMost now block (some e) h =
    elim (Bool-cases (not (non_empty block.miner) || nat_beq block.miner genesis_name)) [
      | inl q ↦ absurd (ground (arith, q, h))
      | inr q ↦ elim (Bool-cases (member block.miner e.slashed)) [
        | inl k ↦ inl (rw (q, k) refl)
        | inr k ↦ elim (Bool-cases (member block.miner (proposers block.height e))) [
          | inl l ↦ inr (e, refl, l, rw (q, k, l) refl)
          | inr l ↦ absurd (ground (arith, q, k, l, h))
        ]
      ]
    ]

pub execute_block-SlashedAtMost :
    (node : Node) (now : ℕ) (preserve : Bool) (block : Block) (chain : Chain) (c : Connection)
    {f : Failure}
    → (execute_block node now preserve block chain c).0 ≡ raised f
    → SlashedAtMost now block chain.slashing f.slashing
unfolding execute_block after_transactions finish_block sealed
execute_block-SlashedAtMost node now preserve block chain c {f} h =
    let r = apply_transactions node block.height block.miner block.transactions c in
    elim (Result-cases r.0) [
      | inr (e, k) ↦ inl (ground (arith, k, h))
      | inl (done, k) ↦
          let rewarded = (apply_block_reward node.config true block.miner r.1).1 in
          let root = compute_state_root node rewarded in
          let b = sealed node preserve block done.0 done.1 root in
          elim (Bool-cases (is_root_refused node chain.state_root_baseline preserve block root)) [
            | inl q ↦ inl (ground (arith, k, q, h))
            | inr q ↦ elim (Bool-cases (note_proposal now b chain.slashing).1) [
              | inl l ↦ absurd (ground (arith, k, q, l, h))
              | inr l ↦
                  let same : f.slashing ≡ (note_proposal now b chain.slashing).0 =
                    ground (arith, k, q, l, h) in
                  rw same (note_proposal-SlashedAtMost now b chain.slashing l)
            ]
          ]
    ]
