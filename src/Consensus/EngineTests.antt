-- ===== src/Consensus/EngineTests.antt =====
-- The theorems about the beacon gadget, the block tree and the engines of consensus/ at concrete
-- inputs.
use absolute_blockchain_ulti.Base.{
  ℕ, ◌*◌, ◌/◌, ◌≤◌, ◌≡◌, refl, true, false, some, List, [], ◌∷◌, ◌||◌, ◌&&◌, not, arith, nat_eq,
  nat_beq,
}
use absolute_blockchain_ulti.Base.Dict.{lookup, insert, or_else}
use absolute_blockchain_ulti.Base.Set.{member, add}
use absolute_blockchain_ulti.Consensus.Epoch
use absolute_blockchain_ulti.Consensus.Lmd
use absolute_blockchain_ulti.Consensus.Slashing
use absolute_blockchain_ulti.Consensus.Casper
use absolute_blockchain_ulti.Consensus.Beacon
use absolute_blockchain_ulti.Consensus.Beacon.{BeaconFinality}
use absolute_blockchain_ulti.Consensus.Beacon.Finality as BeaconRule
use absolute_blockchain_ulti.Consensus.Tree.{Block}
use absolute_blockchain_ulti.Consensus.Casper.Finality.{reaches}
use absolute_blockchain_ulti.Consensus.Engine.Casper as CasperEngine
use absolute_blockchain_ulti.Consensus.Engine.Beacon as BeaconEngine
use absolute_blockchain_ulti.Consensus.Engine.Slashing as SlashingEngines
use absolute_blockchain_ulti.Consensus.Engine.Replay

-- Two thirds of the stake, rounded down.
abbrev two_thirds : ℕ → ℕ
two_thirds stake = stake * 2 / 3

abbrev beacon : BeaconFinality
beacon = record (Beacon.init 4) { total_stake = 30; justified_epochs = 1 ∷ [] }

add_vote-checkpoints_example :
    let won =
      reaches (two_thirds 30) (BeaconRule.counted (Beacon.get_epoch beacon 9) 50 20 beacon) in
    (Beacon.is_justified 1 (Beacon.add_vote two_thirds 50 9 20 beacon)
      ≡ (Beacon.is_justified 1 beacon || (nat_beq 1 (Beacon.get_epoch beacon 9) && won)))
    × (Beacon.epoch_finalized 1 (Beacon.add_vote two_thirds 50 9 20 beacon) ≡ (
        Beacon.epoch_finalized 1 beacon
        || (nat_beq 2 (Beacon.get_epoch beacon 9)
            && Beacon.is_justified 1 beacon
            && won
            && not (Beacon.is_justified (Beacon.get_epoch beacon 9) beacon))))
add_vote-checkpoints_example = BeaconRule.add_vote-checkpoints two_thirds 1 50 9 20 beacon

abbrev beacon_calls : List BeaconRule.Call
beacon_calls = BeaconRule.stake 30 ∷ BeaconRule.vote 50 5 20 ∷ BeaconRule.vote 60 9 20 ∷ []

beacon_program : Unit {0}
unfolding BeaconRule.run_calls BeaconRule.perform Beacon.add_vote Beacon.evaluate
    Beacon.evaluate_best Beacon.get_epoch Casper.heaviest Casper.best_of Beacon.justify
    Beacon.finalize_previous Beacon.epoch_finalized Beacon.is_justified Beacon.count_vote
    Beacon.set_total_stake lookup insert member add
beacon_program = tt

run_calls-IsTwoStep_example :
    (Beacon.is_justified 1 (BeaconRule.run_calls two_thirds beacon_calls (Beacon.init 4)) ≡ true)
    × (Beacon.is_justified 2 (BeaconRule.run_calls two_thirds beacon_calls (Beacon.init 4)) ≡ true)
unfolding beacon_program
run_calls-IsTwoStep_example = BeaconRule.run_calls-IsTwoStep two_thirds 4 beacon_calls 1 refl

-- Epoch 2 is justified before epoch 1, which then stays open for ever.
abbrev late : BeaconFinality
late = record (Beacon.init 4) { total_stake = 30; justified_epochs = 2 ∷ [] }

never_finalized_example :
    Beacon.epoch_finalized 1 (BeaconRule.run_calls two_thirds beacon_calls late) ≡ false
unfolding beacon_program
never_finalized_example = BeaconRule.never_finalized two_thirds beacon_calls 1 late refl refl

abbrev block : Block
block = record { hash = 50; block_hash = 0; parent_hash = 40; parent = 0; number = 7 }

-- Validator 1 has a stake of 3 of 30 and has voted for the block.
abbrev engine : CasperEngine.Engine
engine = record {
  lmd = record { latest_vote = (1, (50, 8)) ∷ []; validator_stake = (1, 3) ∷ (2, 27) ∷ [] };
  finality = record Casper.empty { total_stake = 30 };
  epoch_mgr = record { epoch_size = 4 };
  block_tree = [];
  blocks = (50, block) ∷ [];
}

repeat-is_justified_example :
    Casper.is_justified 1 (CasperEngine.repeat two_thirds 20 1 50 8 engine).finality ≡ true
unfolding Lmd.update Lmd.get_weights Lmd.tally lookup insert Epoch.get_epoch
repeat-is_justified_example =
    Replay.repeat-is_justified two_thirds 1 50 8 block 19 engine
      (record { known = refl; refused = refl }) (omega arith) (omega arith)

-- Validator 1 was slashed after it had voted for block 50.
abbrev guarded : SlashingEngines.Engine
guarded = record (SlashingEngines.init 4) {
  lmd = record { latest_vote = (1, (50, 8)) ∷ []; validator_stake = (1, 3) ∷ (2, 27) ∷ [] };
  slashing = record Slashing.empty {
    votes = (1, (8, 50) ∷ []) ∷ [];
    slashed = 1 ∷ [];
    stakes = (1, 3) ∷ (2, 27) ∷ [];
  };
}

abbrev slashing_calls : List SlashingEngines.Call
slashing_calls =
    SlashingEngines.attest 99 1 60 9
    ∷ SlashingEngines.attest 100 2 60 9
    ∷ SlashingEngines.register 3 5
    ∷ []

slashed_keeps_weight_example :
    let e' = SlashingEngines.perform_all two_thirds slashing_calls guarded in
    (Slashing.get_stake 1 e'.slashing ≡ 0)
    × (Lmd.get_validator_vote 1 e'.lmd ≡ some (50, 8))
    × (or_else (lookup 1 e'.lmd.validator_stake) 0 ≤ or_else (lookup 50 (Lmd.get_weights e'.lmd)) 0)
unfolding Slashing.is_slashed Lmd.get_validator_vote member lookup
slashed_keeps_weight_example =
    SlashingEngines.slashed_keeps_weight two_thirds 1 50 8 slashing_calls guarded refl refl

-- Validator 1 has voted in slot 8 already.
abbrev voted : BeaconEngine.Engine
voted = record (BeaconEngine.init 4) {
  lmd = record { latest_vote = (1, (50, 8)) ∷ []; validator_stake = (1, 3) ∷ [] };
}
