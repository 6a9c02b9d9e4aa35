-- ===== src/Consensus/Engine/Replay.antt =====
-- Repeated attestations in consensus/engine_casper.py.
use absolute_blockchain_ulti.Base.{
  ℕ, zero, suc, ◌+◌, ◌≤◌, ◌≡◌, sym, true, false, some, nat_eq, arith,
}
use mathlib.Core.Path.{subst}
use absolute_blockchain_ulti.Base.Dict.{lookup, or_else}
use absolute_blockchain_ulti.Consensus.Epoch.{get_epoch}
use absolute_blockchain_ulti.Consensus.Lmd
use absolute_blockchain_ulti.Consensus.Lmd.{get_weights}
use absolute_blockchain_ulti.Consensus.Casper
use absolute_blockchain_ulti.Consensus.Casper.{weight_of, is_justified}
use absolute_blockchain_ulti.Consensus.Casper.Finality.{
  counted, add_vote-sets, add_vote-votes, lookup-counted, reaches-lookup,
}
use absolute_blockchain_ulti.Consensus.Tree.{Block}
use absolute_blockchain_ulti.Consensus.Engine.Casper.{Engine, on_attestation, repeat}

-- The weight that the engine gives to a block.
abbrev pub block_weight : ℕ → Engine → ℕ
block_weight hash e = or_else (lookup hash (get_weights e.lmd)) 0

module _ (threshold : ℕ → ℕ) (v hash slot : ℕ) (b : Block) where
  -- The block is known, and the table refuses the attestation.
  pub record IsStale (e : Engine) : Type 0 where
    pub known : lookup hash e.blocks ≡ some b
    pub refused : Lmd.update v hash slot e.lmd ≡ (e.lmd, false)

  abbrev epoch : Engine → ℕ
  epoch e = get_epoch e.epoch_mgr b.number

  abbrev again : Engine → Engine
  again e = (on_attestation threshold v hash slot e).0

  -- What one repetition does: only the finality gadget changes, by one more vote of full weight.
  again-vote :
      (e : Engine)
      → IsStale e
      → again e ≡ record e {
        finality = Casper.add_vote threshold (epoch e) hash (block_weight hash e) e.finality;
      }
  unfolding on_attestation
  again-vote e s = ground (arith, s.known, s.refused)

  again-IsStale : (e : Engine) → IsStale e → IsStale (again e)
  again-IsStale e s = rw again-vote (record { known = s.known; refused = s.refused })

  repeated :
      (n : ℕ) (e : Engine)
      → IsStale e
      → 1 ≤ block_weight hash e
      → threshold e.finality.total_stake ≤ weight_of (epoch e) hash e.finality + suc n
      → is_justified (epoch e) (repeat threshold (suc n) v hash slot e).finality ≡ true
  unfolding repeat
  repeated zero e s pos enough =
      let w = block_weight hash e in
      let f = e.finality in
      rw (again-vote e s) (
        ground (
          arith,
          add_vote-sets threshold (epoch e) (epoch e) hash w f,
          lookup-counted (epoch e) hash w f,
          reaches-lookup (threshold f.total_stake) hash (weight_of (epoch e) hash f + w)
              (counted (epoch e) hash w f),
        ))
  repeated (suc n) e s pos enough =
      let w = block_weight hash e in
      let votes = add_vote-votes threshold (epoch e) hash w e.finality in
      let e' = record e { finality = Casper.add_vote threshold (epoch e) hash w e.finality } in
      let s' : IsStale e' = record { known = s.known; refused = s.refused } in
      subst (λ x. is_justified (epoch e) (repeat threshold (suc n) v hash slot x).finality ≡ true)
        (sym (again-vote e s)) (repeated n e' s' pos (rw votes.1 (omega (arith, votes.0))))

  -- One attestation, repeated, justifies an epoch: if the block has any weight at all, then an
  -- attestation that the latest-message table refuses as old, sent again as often as the threshold
  -- says (and at least once), makes the block's epoch justified. Each refused repetition is
  -- counted by the finality gadget as a fresh vote.
  pub repeat-is_justified :
      (n : ℕ) (e : Engine)
      → IsStale e
      → 1 ≤ block_weight hash e
      → threshold e.finality.total_stake ≤ suc n
      → is_justified
          (get_epoch e.epoch_mgr b.number)
          (repeat threshold (suc n) v hash slot e).finality
        ≡ true
  repeat-is_justified n e s pos enough = repeated n e s pos (omega arith)
