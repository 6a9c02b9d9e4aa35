-- ===== src/Consensus/Beacon/Defs.antt =====
-- Checkpoint votes, justification and finalisation (consensus/finality_beacon.py).
use absolute_blockchain_ulti.Base.{
  ℕ, zero, suc, ◌+◌, ◌/◌, Bool, Option, none, some, List, [], leb, if◌then◌else◌, nat_eq, ◌&&◌, not,
}
use absolute_blockchain_ulti.Base.Dict.{Dict, lookup, insert, or_else}
use absolute_blockchain_ulti.Base.Set.{member, add}
use absolute_blockchain_ulti.Consensus.Casper.{best_of}

pub record BeaconFinality : Type 0 where
  pub epoch_size : ℕ
  pub total_stake : ℕ
  pub votes : Dict ℕ (Dict ℕ ℕ)
  pub justified_checkpoint : Option ℕ
  pub justified_block : Option ℕ
  pub finalized_checkpoint : Option ℕ
  pub finalized_block : Option ℕ
  pub justified_epochs : List ℕ
  pub finalized_epochs : List ℕ
  pub justified_blocks : Dict ℕ ℕ

-- `__init__`
abbrev pub init : ℕ → BeaconFinality
init size = record {
  epoch_size = size;
  total_stake = 0;
  votes = [];
  justified_checkpoint = none;
  justified_block = none;
  finalized_checkpoint = none;
  finalized_block = none;
  justified_epochs = [];
  finalized_epochs = [];
  justified_blocks = [];
}

unfoldable pub set_total_stake : ℕ → BeaconFinality → BeaconFinality
set_total_stake stake f = record f { total_stake = stake }

unfoldable pub get_epoch : BeaconFinality → ℕ → ℕ
get_epoch f block_number = block_number / f.epoch_size

-- The four writes of a justification.
unfoldable pub justify : ℕ → ℕ → BeaconFinality → BeaconFinality
justify epoch block f = record f {
  justified_epochs = add epoch f.justified_epochs;
  justified_blocks = insert epoch block f.justified_blocks;
  justified_checkpoint = some epoch;
  justified_block = some block;
}

-- The inner `if`, on the epoch before; before epoch 0 lies epoch -1, which is never justified.
unfoldable pub finalize_previous : ℕ → BeaconFinality → BeaconFinality
finalize_previous zero f = f
finalize_previous (suc prev) f =
    if member prev f.justified_epochs && not (member prev f.finalized_epochs)
    then record f {
      finalized_epochs = add prev f.finalized_epochs;
      finalized_checkpoint = some prev;
      finalized_block = lookup prev f.justified_blocks;
    }
    else f

module _ (threshold : ℕ → ℕ) where
  unfoldable pub evaluate_best : ℕ → Option (ℕ × ℕ) → BeaconFinality → BeaconFinality
  evaluate_best epoch none f = f
  evaluate_best epoch (some (block, weight)) f =
      if leb (threshold f.total_stake) weight && not (member epoch f.justified_epochs)
      then finalize_previous epoch (justify epoch block f)
      else f

  -- `_evaluate`, with `_get_best_checkpoint`
  unfoldable pub evaluate : ℕ → BeaconFinality → BeaconFinality
  evaluate epoch f = evaluate_best epoch (best_of (or_else (lookup epoch f.votes) [])) f

-- The writes of `add_vote` before `_evaluate`.
unfoldable pub count_vote : ℕ → ℕ → ℕ → BeaconFinality → BeaconFinality
count_vote epoch block weight f =
    let votes = or_else (lookup epoch f.votes) [] in
    record f {
      votes = insert epoch (insert block (or_else (lookup block votes) 0 + weight) votes) f.votes;
    }

unfoldable pub add_vote : (ℕ → ℕ) → ℕ → ℕ → ℕ → BeaconFinality → BeaconFinality
add_vote threshold block slot weight f =
    evaluate threshold (get_epoch f slot) (count_vote (get_epoch f slot) block weight f)

unfoldable pub is_justified : ℕ → BeaconFinality → Bool
is_justified epoch f = member epoch f.justified_epochs

-- `epoch in self.finalized_epochs`
unfoldable pub epoch_finalized : ℕ → BeaconFinality → Bool
epoch_finalized epoch f = member epoch f.finalized_epochs

-- `is_finalized`, of a block number
unfoldable pub is_finalized : ℕ → BeaconFinality → Bool
unfolding epoch_finalized get_epoch
is_finalized block_number f = epoch_finalized (get_epoch f block_number) f
