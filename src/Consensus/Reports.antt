-- ===== src/Consensus/Reports.antt =====
-- What the finality gadgets, the slashing engine and the engines report of themselves (`get_state`,
-- `get_stats`, `get_summary` of consensus/). The head of an engine's report is not modelled.
use absolute_blockchain_ulti.Base.{
  ℕ, ◌+◌, Bool, Option, List, [], ◌∷◌, if◌then◌else◌, leb, length, nat_eq, nat_beq,
}
use absolute_blockchain_ulti.Base.Int.{ℤ, pos, ◌-ℤ◌}
use absolute_blockchain_ulti.Base.Dict.{Dict, lookup, insert}
use absolute_blockchain_ulti.Base.Set.{member}
use absolute_blockchain_ulti.Consensus.Lmd
use absolute_blockchain_ulti.Consensus.Slashing
use absolute_blockchain_ulti.Consensus.Slashing.{SlashingEngine, SlashEvent, Reason}
use absolute_blockchain_ulti.Consensus.Casper
use absolute_blockchain_ulti.Consensus.Casper.{CasperFinality}
use absolute_blockchain_ulti.Consensus.Beacon.{BeaconFinality}
use absolute_blockchain_ulti.Consensus.Engine.Casper as CasperEngine
use absolute_blockchain_ulti.Consensus.Engine.Beacon as BeaconEngine
use absolute_blockchain_ulti.Consensus.Engine.Slashing as SlashingEngines

-- `sorted` of a set of numbers
unfoldable pub insert_sorted : ℕ → List ℕ → List ℕ
insert_sorted n [] = n ∷ []
insert_sorted n (m ∷ ms) = if leb n m then n ∷ (m ∷ ms) else m ∷ insert_sorted n ms

unfoldable pub sorted : List ℕ → List ℕ
unfolding insert_sorted
sorted [] = []
sorted (n ∷ ns) = insert_sorted n (sorted ns)

pub record FinalityStats : Type 0 where
  pub total_stake : ℕ
  pub justified_epochs : ℕ
  pub finalized_epochs : ℕ
  pub justified_list : List ℕ
  pub finalized_list : List ℕ

abbrev pub stats_of : ℕ → List ℕ → List ℕ → FinalityStats
stats_of stake justified finalized = record {
  total_stake = stake;
  justified_epochs = length justified;
  finalized_epochs = length finalized;
  justified_list = sorted justified;
  finalized_list = sorted finalized;
}

-- `get_stats` of the two gadgets
unfoldable pub casper_stats : CasperFinality → FinalityStats
unfolding sorted
casper_stats f = stats_of f.total_stake f.justified_epochs f.finalized_epochs

unfoldable pub beacon_stats : BeaconFinality → FinalityStats
unfolding sorted
beacon_stats f = stats_of f.total_stake f.justified_epochs f.finalized_epochs

pub record CasperState : Type 0 where
  pub epoch : ℕ
  pub justified : Bool
  pub finalized : Bool
  pub justified_block : Option ℕ
  pub justified_epochs : List ℕ
  pub finalized_epochs : List ℕ

-- `get_state` of consensus/finality_casper.py
unfoldable pub casper_state : ℕ → CasperFinality → CasperState
unfolding sorted
casper_state epoch f = record {
  epoch = epoch;
  justified = member epoch f.justified_epochs;
  finalized = member epoch f.finalized_epochs;
  justified_block = lookup epoch f.justified_blocks;
  justified_epochs = sorted f.justified_epochs;
  finalized_epochs = sorted f.finalized_epochs;
}

-- `update` of consensus/finality_casper.py
unfoldable pub casper_update : (ℕ → ℕ) → ℕ → CasperFinality → CasperFinality × CasperState
casper_update threshold epoch f =
    let f' = Casper.evaluate threshold epoch f in (f', casper_state epoch f')

pub record BeaconState : Type 0 where
  pub justified_checkpoint : Option ℕ
  pub justified_block : Option ℕ
  pub finalized_checkpoint : Option ℕ
  pub finalized_block : Option ℕ
  pub justified_epochs : List ℕ
  pub finalized_epochs : List ℕ

-- `get_state` of consensus/finality_beacon.py
unfoldable pub beacon_state : BeaconFinality → BeaconState
unfolding sorted
beacon_state f = record {
  justified_checkpoint = f.justified_checkpoint;
  justified_block = f.justified_block;
  finalized_checkpoint = f.finalized_checkpoint;
  finalized_block = f.finalized_block;
  justified_epochs = sorted f.justified_epochs;
  finalized_epochs = sorted f.finalized_epochs;
}

-- The position of the reason in `PENALTIES`.
abbrev pub number_of : Reason → ℕ
number_of Reason.double_vote = 0
number_of Reason.double_proposal = 1
number_of Reason.offline = 2
number_of Reason.invalid_proposal = 3
number_of Reason.surround_vote = 4
number_of Reason.unlisted = 5

abbrev pub same_reason : Reason → Reason → Bool
same_reason a b = nat_beq (number_of a) (number_of b)

-- `by_reason` of `get_stats`, for one reason
unfoldable pub by_reason : Reason → List SlashEvent → ℕ
by_reason r [] = 0
by_reason r (e ∷ es) = if same_reason e.reason r then by_reason r es + 1 else by_reason r es

-- `reasons` of `get_slashing_info`: the last event of each validator
unfoldable pub reasons : List SlashEvent → Dict ℕ Reason → Dict ℕ Reason
reasons [] d = d
reasons (e ∷ es) d = reasons es (insert e.validator e.reason d)

pub record EngineStats : Type 0 where
  pub validators : ℕ
  pub active_votes : ℕ
  pub total_stake : ℕ
  pub blocks : ℕ
  pub finality : FinalityStats

-- `get_stats` of the three engines
unfoldable pub casper_engine_stats : CasperEngine.Engine → EngineStats
unfolding casper_stats
casper_engine_stats e =
    let lmd = Lmd.get_stats e.lmd in
    record {
      validators = lmd.validators;
      active_votes = lmd.active_votes;
      total_stake = lmd.total_stake;
      blocks = length e.blocks;
      finality = casper_stats e.finality;
    }

unfoldable pub beacon_engine_stats : BeaconEngine.Engine → EngineStats
unfolding beacon_stats
beacon_engine_stats e =
    let lmd = Lmd.get_stats e.lmd in
    record {
      validators = lmd.validators;
      active_votes = lmd.active_votes;
      total_stake = lmd.total_stake;
      blocks = length e.blocks;
      finality = beacon_stats e.finality;
    }

pub record SlashingEngineStats : Type 0 where
  pub active_validators : ℤ
  pub active_stake : ℕ
  pub slashed_count : ℕ
  pub slashed_stake : ℕ
  pub engine : EngineStats

unfoldable pub slashing_engine_stats : SlashingEngines.Engine → SlashingEngineStats
unfolding beacon_stats
slashing_engine_stats e =
    let lmd = Lmd.get_stats e.lmd in
    let slashing = Slashing.get_stats e.slashing in
    record {
      active_validators = pos slashing.total_validators -ℤ pos slashing.slashed_count;
      active_stake = slashing.active_stake;
      slashed_count = slashing.slashed_count;
      slashed_stake = slashing.slashed_stake;
      engine = record {
        validators = lmd.validators;
        active_votes = lmd.active_votes;
        total_stake = slashing.active_stake;
        blocks = length e.blocks;
        finality = beacon_stats e.finality;
      };
    }
