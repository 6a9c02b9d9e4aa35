-- ===== src/Consensus/Engine/Beacon.antt =====
-- `class ConsensusEngineBeacon` of consensus/engine_beacon.py.
use absolute_blockchain_ulti.Base.{
  ℕ, ◌≡◌, Bool, true, false, none, some, [], if◌then◌else◌, nat_eq, arith,
}
use absolute_blockchain_ulti.Base.Dict.{Dict, lookup, insert, or_else}
use absolute_blockchain_ulti.Consensus.Lmd
use absolute_blockchain_ulti.Consensus.Lmd.{LmdTable}
use absolute_blockchain_ulti.Consensus.Beacon
use absolute_blockchain_ulti.Consensus.Beacon.{BeaconFinality}
use absolute_blockchain_ulti.Consensus.Tree
use absolute_blockchain_ulti.Consensus.Tree.{Tree, Block, own_hash}

pub record Engine : Type 0 where
  pub lmd : LmdTable
  pub finality : BeaconFinality
  pub block_tree : Tree
  pub blocks : Dict ℕ Block

-- `__init__`
abbrev pub init : ℕ → Engine
init size = record { lmd = Lmd.empty; finality = Beacon.init size; block_tree = []; blocks = [] }

unfoldable pub add_validator : ℕ → ℕ → Engine → Engine
add_validator v stake e =
    let lmd' = Lmd.add_validator v stake e.lmd in
    record e {
      lmd = lmd';
      finality = Beacon.set_total_stake (Lmd.get_stats lmd').total_stake e.finality;
    }

unfoldable pub add_block : Block → Engine → Engine
add_block b e = record e {
  blocks = insert (own_hash b) b e.blocks;
  block_tree = Tree.add_block b e.block_tree;
}

unfoldable pub on_attestation : (ℕ → ℕ) → ℕ → ℕ → ℕ → Engine → Engine × Bool
on_attestation threshold v hash slot e =
    let (lmd', result) = Lmd.update v hash slot e.lmd in
    if result
    then (
      record e {
        lmd = lmd';
        finality =
            Beacon.add_vote threshold hash slot (or_else (lookup v lmd'.validator_stake) 0)
              e.finality;
      },
      true,
    )
    else (record e { lmd = lmd' }, false)

-- `is_finalized`, of a block hash
unfoldable pub is_finalized : ℕ → Engine → Bool
is_finalized hash e = elim (lookup hash e.blocks) [
  | none ↦ false
  | some b ↦ Beacon.is_finalized b.number e.finality
]

-- An attestation that is not newer than the validator's last, or whose validator is unknown, is
-- refused and changes nothing at all.
pub stale_attestation :
    (threshold : ℕ → ℕ) (v hash slot : ℕ) (e : Engine)
    → (on_attestation threshold v hash slot e).1 ≡ false
    → (on_attestation threshold v hash slot e).0 ≡ e
unfolding on_attestation Lmd.update
stale_attestation threshold v hash slot e h = ground arith
