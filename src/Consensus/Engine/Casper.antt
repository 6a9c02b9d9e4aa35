-- ===== src/Consensus/Engine/Casper.antt =====
-- `class ConsensusEngineCasper` of consensus/engine_casper.py.
use absolute_blockchain_ulti.Base.{ℕ, zero, suc, Bool, false, Option, none, some, [], nat_eq}
use absolute_blockchain_ulti.Base.Dict.{Dict, lookup, insert, or_else}
use absolute_blockchain_ulti.Consensus.Epoch.{EpochManager, get_epoch}
use absolute_blockchain_ulti.Consensus.Lmd
use absolute_blockchain_ulti.Consensus.Lmd.{LmdTable, get_weights, get_weights-support}
use absolute_blockchain_ulti.Consensus.Casper
use absolute_blockchain_ulti.Consensus.Casper.{CasperFinality, weight_of, is_justified}
use absolute_blockchain_ulti.Consensus.Tree
use absolute_blockchain_ulti.Consensus.Tree.{Tree, Block, own_hash}

pub record Engine : Type 0 where
  pub lmd : LmdTable
  pub finality : CasperFinality
  pub epoch_mgr : EpochManager
  pub block_tree : Tree
  pub blocks : Dict ℕ Block

-- `__init__`
abbrev pub init : ℕ → Engine
init size = record {
  lmd = Lmd.empty;
  finality = Casper.empty;
  epoch_mgr = record { epoch_size = size };
  block_tree = [];
  blocks = [];
}

unfoldable pub add_validator : ℕ → ℕ → Engine → Engine
add_validator v stake e =
    let lmd' = Lmd.add_validator v stake e.lmd in
    record e {
      lmd = lmd';
      finality = Casper.set_total_stake (Lmd.get_stats lmd').total_stake e.finality;
    }

unfoldable pub add_block : Block → Engine → Engine
add_block b e = record e {
  blocks = insert (own_hash b) b e.blocks;
  block_tree = Tree.add_block b e.block_tree;
}

module _ (threshold : ℕ → ℕ) where
  -- The vote is counted with the whole weight of its block, whatever `update` answered.
  unfoldable pub vote_for : Option Block → ℕ → LmdTable → Engine → Engine
  vote_for none hash lmd e = record e { lmd = lmd }
  vote_for (some b) hash lmd e = record e {
    lmd = lmd;
    finality =
        Casper.add_vote threshold (get_epoch e.epoch_mgr b.number) hash
          (or_else (lookup hash (get_weights lmd)) 0) e.finality;
  }

  unfoldable pub on_attestation : ℕ → ℕ → ℕ → Engine → Engine × Bool
  unfolding vote_for
  on_attestation v hash slot e =
      let (lmd', result) = Lmd.update v hash slot e.lmd in
      (vote_for (lookup hash e.blocks) hash lmd' e, result)

  -- The same attestation `n` times.
  unfoldable pub repeat : ℕ → ℕ → ℕ → ℕ → Engine → Engine
  repeat zero v hash slot e = e
  repeat (suc n) v hash slot e = repeat n v hash slot (on_attestation v hash slot e).0

unfoldable pub is_finalized : ℕ → Engine → Bool
is_finalized hash e = elim (lookup hash e.blocks) [
  | none ↦ false
  | some b ↦ Casper.is_finalized (get_epoch e.epoch_mgr b.number) e.finality
]
