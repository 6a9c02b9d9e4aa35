-- ===== src/Consensus/Tests.antt =====
-- The theorems about consensus/ at concrete inputs.
use absolute_blockchain_ulti.Base.{
  ℕ, ◌*◌, ◌/◌, ◌≡◌, refl, true, Option, none, some, List, [], ◌∷◌, ◌||◌, ◌&&◌, nat_eq, nat_beq,
}
use absolute_blockchain_ulti.Base.Dict.{lookup, insert, or_else}
use absolute_blockchain_ulti.Base.Set.{member, add}
use absolute_blockchain_ulti.Consensus.Epoch.{EpochManager}
use absolute_blockchain_ulti.Consensus.Lmd
use absolute_blockchain_ulti.Consensus.Lmd.{LmdTable}
use absolute_blockchain_ulti.Consensus.Slashing
use absolute_blockchain_ulti.Consensus.Slashing.{SlashingEngine}
use absolute_blockchain_ulti.Consensus.Slashing.Accounting
use absolute_blockchain_ulti.Consensus.Slashing.Equivocation
use absolute_blockchain_ulti.Consensus.Slashing.Events
use absolute_blockchain_ulti.Consensus.Casper
use absolute_blockchain_ulti.Consensus.Casper.Finality as CasperRule

abbrev epochs : EpochManager
epochs = record { epoch_size = 32 }

abbrev numbers : List (Option ℕ)
numbers = some 31 ∷ some 32 ∷ none ∷ some 63 ∷ []

-- Three validators, of which two vote.
abbrev table : LmdTable
table = record {
  latest_vote = (1, (50, 4)) ∷ (2, (50, 3)) ∷ [];
  validator_stake = (1, 10) ∷ (2, 20) ∷ (3, 5) ∷ [];
}

get_weights-support_example :
    or_else (lookup 50 (Lmd.get_weights table)) 0
    ≡ Lmd.support table.validator_stake 50 table.latest_vote
get_weights-support_example = Lmd.get_weights-support table 50

abbrev attestations : List Lmd.Vote
attestations = (3, 51, 4) ∷ (1, 52, 4) ∷ (3, 50, 9) ∷ (3, 52, 9) ∷ []

update_all-IsNewest_example :
    Lmd.IsNewest
      ((51, 4) ∷ (50, 9) ∷ (52, 9) ∷ [])
      (Lmd.get_validator_vote 3 (Lmd.update_all attestations table))
unfolding lookup Lmd.get_validator_vote
update_all-IsNewest_example = Lmd.update_all-IsNewest attestations 3 table refl

abbrev registered : SlashingEngine
registered = record Slashing.empty { stakes = (1, 10) ∷ (2, 20) ∷ [] }

registered-IsValid : Accounting.IsValid registered
unfolding lookup
registered-IsValid = record {
  slashed_once = tt;
  stakes_dict = (refl, (refl, tt));
  one_event_each = refl;
}

abbrev calls : List (ℕ × Accounting.Call)
calls = (5, Accounting.vote 1 3 70) ∷ (6, Accounting.vote 1 3 71) ∷ (7, Accounting.missed 2) ∷ []

-- Validator 1 has voted twice for slot 3.
perform_all-IsExplained_example :
    Events.IsExplained calls registered (Accounting.perform_all calls registered)
perform_all-IsExplained_example = Events.perform_all-IsExplained calls registered

abbrev after : SlashingEngine
after = record registered { slashed = 2 ∷ [] }

abbrev votes : List Equivocation.Vote
votes =
    record { now = 5; validator = 1; slot = 3; hash = 70 }
    ∷ record { now = 6; validator = 2; slot = 3; hash = 71 }
    ∷ record { now = 7; validator = 1; slot = 3; hash = 72 }
    ∷ []

slashed-equivocates_example :
    Slashing.is_slashed 1 (Equivocation.add_all votes registered) ≡ Equivocation.equivocates 1 votes
unfolding Slashing.is_slashed member lookup
slashed-equivocates_example = Equivocation.slashed-equivocates 1 votes registered refl refl

-- Two thirds of the stake, rounded down.
abbrev two_thirds : ℕ → ℕ
two_thirds stake = stake * 2 / 3

abbrev casper : Casper.CasperFinality
casper = record Casper.empty { total_stake = 30 }

add_vote-sets_example :
    let won =
      CasperRule.reaches (two_thirds casper.total_stake) (CasperRule.counted 1 50 20 casper) in
    (Casper.is_justified 1 (Casper.add_vote two_thirds 1 50 20 casper)
      ≡ (Casper.is_justified 1 casper || (nat_beq 1 1 && won)))
    × (Casper.is_finalized 1 (Casper.add_vote two_thirds 1 50 20 casper)
        ≡ (Casper.is_finalized 1 casper || (nat_beq 2 1 && Casper.is_justified 1 casper && won)))
add_vote-sets_example = CasperRule.add_vote-sets two_thirds 1 1 50 20 casper

-- The stake falls, and an update then justifies epoch 2.
abbrev casper_calls : List CasperRule.Call
casper_calls =
    CasperRule.stake 30
    ∷ CasperRule.vote 1 50 20
    ∷ CasperRule.vote 2 60 15
    ∷ CasperRule.stake 21
    ∷ CasperRule.update_epoch 2
    ∷ []

perform_all-IsTwoStep_example :
    (Casper.is_justified 1 (CasperRule.perform_all two_thirds casper_calls Casper.empty) ≡ true)
    × (Casper.is_justified 2 (CasperRule.perform_all two_thirds casper_calls Casper.empty) ≡ true)
unfolding CasperRule.perform_all CasperRule.perform Casper.add_vote Casper.evaluate
    Casper.evaluate_best Casper.get_best_block Casper.heaviest Casper.justify_epoch
    Casper.try_finalize Casper.is_finalized Casper.count_vote Casper.set_total_stake lookup insert
    member add
perform_all-IsTwoStep_example = CasperRule.perform_all-IsTwoStep two_thirds casper_calls 1 refl
