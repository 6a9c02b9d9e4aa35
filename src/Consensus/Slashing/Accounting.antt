-- ===== src/Consensus/Slashing/Accounting.antt =====
-- The books of the slashing engine (consensus/slashing.py): one event for each slashed validator,
-- and every stake either active or slashed.
use absolute_blockchain_ulti.Base.{
  ℕ, ◌+◌, ◌/◌, ◌≡◌, refl, none, List, [], ◌∷◌, length, if◌then◌else◌, nat_eq, arith, length-append,
}
use absolute_blockchain_ulti.Base.Dict.{
  Dict, lookup, insert, or_else, sum_entries, IsDict, insert-IsDict,
}
use absolute_blockchain_ulti.Base.Set.{member, IsFinSet, add-IsFinSet, length-add}
use absolute_blockchain_ulti.Consensus.Slashing.Defs.{
  Reason, event, SlashingEngine, register_validator, slash, record_vote, add_vote, record_proposal,
  record_missed_attestation, report_invalid_proposal, clear_epoch, get_stats,
  get_total_active_stake, stake_of_all,
}

-- Every call that changes the engine.
pub data Call : Type 0 where
  register : ℕ → ℕ → Call
  vote : ℕ → ℕ → ℕ → Call
  proposal : ℕ → ℕ → ℕ → Call
  missed : ℕ → Call
  invalid : ℕ → ℕ → Call
  clear : ℕ → Call

unfoldable pub perform : ℕ → Call → SlashingEngine → SlashingEngine
perform now (register v stake) e = register_validator v stake e
perform now (vote v slot hash) e = (add_vote now v slot hash e).0
perform now (proposal v height hash) e = (record_proposal now v height hash e).0
perform now (missed v) e = record_missed_attestation now v e
perform now (invalid v height) e = report_invalid_proposal now v height e
perform now (clear epoch) e = clear_epoch epoch e

-- Calls with the times at which they come.
unfoldable pub perform_all : List (ℕ × Call) → SlashingEngine → SlashingEngine
perform_all [] e = e
perform_all ((now, c) ∷ calls) e = perform_all calls (perform now c e)

pub record IsValid (e : SlashingEngine) : Type 0 where
  pub slashed_once : IsFinSet e.slashed
  pub stakes_dict : IsDict e.stakes
  pub one_event_each : length e.events ≡ length e.slashed

slash-IsValid :
    (now v : ℕ) (r : Reason) (epoch : ℕ) (e : SlashingEngine)
    → IsValid e
    → IsValid (slash now v r epoch e)
unfolding slash
slash-IsValid now v r epoch e h = ground (
  arith,
  add-IsFinSet v e.slashed,
  length-add v e.slashed,
  length-append e.events (event now v r epoch ∷ []),
)

record_vote-IsValid :
    (now v slot hash : ℕ) (e : SlashingEngine)
    → IsValid e
    → IsValid (record_vote now v slot hash e).0
unfolding record_vote
record_vote-IsValid now v slot hash e h =
    ground (arith, slash-IsValid now v Reason.double_vote slot e)

perform-IsValid : (now : ℕ) (c : Call) (e : SlashingEngine) → IsValid e → IsValid (perform now c e)
unfolding perform register_validator add_vote record_proposal record_missed_attestation
    report_invalid_proposal clear_epoch
perform-IsValid now (register v stake) e h = record {
  slashed_once = h.slashed_once;
  stakes_dict = insert-IsDict v stake e.stakes h.stakes_dict;
  one_event_each = h.one_event_each;
}
perform-IsValid now (vote v slot hash) e h = ground (arith, record_vote-IsValid now v slot hash e h)
perform-IsValid now (proposal v height hash) e h =
    ground (arith, slash-IsValid now v Reason.double_proposal (height / 32) e h)
perform-IsValid now (missed v) e h =
    let e' = record e {
      missed_attestations =
          insert v (or_else (lookup v e.missed_attestations) 0 + 1) e.missed_attestations;
    } in
    ground (arith, slash-IsValid now v Reason.offline 0 e')
perform-IsValid now (invalid v height) e h =
    slash-IsValid now v Reason.invalid_proposal (height / 32) e h
perform-IsValid now (clear epoch) e h = ground arith

-- Every sequence of calls keeps a valid engine valid: no validator is slashed twice, no stake is
-- listed twice, and there are exactly as many events as slashed validators.
pub perform_all-IsValid :
    (calls : List (ℕ × Call)) (e : SlashingEngine) → IsValid e → IsValid (perform_all calls e)
unfolding perform_all
perform_all-IsValid [] e h = h
perform_all-IsValid ((now, c) ∷ calls) e h =
    perform_all-IsValid calls (perform now c e) (perform-IsValid now c e h)

stake_of_all-new :
    (k stake : ℕ) (stakes : Dict ℕ ℕ) (vs : List ℕ)
    → lookup k stakes ≡ none
    → IsFinSet vs
    → stake_of_all ((k, stake) ∷ stakes) vs
      ≡ stake_of_all stakes vs + (if member k vs then stake else 0)
unfolding stake_of_all lookup member
stake_of_all-new k stake stakes [] fresh h = omega arith
stake_of_all-new k stake stakes (v ∷ vs) fresh h =
    ground (arith, stake_of_all-new k stake stakes vs fresh h.1)

stake_of_all-nil : (vs : List ℕ) → stake_of_all [] vs ≡ 0
unfolding stake_of_all lookup
stake_of_all-nil [] = refl
stake_of_all-nil (v ∷ vs) = omega (arith, stake_of_all-nil vs)

stake-split :
    (vs : List ℕ) (stakes : Dict ℕ ℕ)
    → IsFinSet vs
    → IsDict stakes
    → stake_of_all stakes vs + sum_entries (λ v stake. if member v vs then 0 else stake) stakes
      ≡ sum_entries (λ _ stake. stake) stakes
stake-split vs [] h d = omega (arith, stake_of_all-nil vs)
stake-split vs ((k, stake) ∷ stakes) h d =
    ground (arith, stake_of_all-new k stake stakes vs d.0 h, stake-split vs stakes h d.1)

-- In a valid engine no stake is lost or counted twice: the slashed stake and the active stake that
-- `get_stats` reports add up to all that is registered.
pub get_stats-split :
    (e : SlashingEngine)
    → IsValid e
    → (get_stats e).slashed_stake + (get_stats e).active_stake
      ≡ sum_entries (λ _ stake. stake) e.stakes
unfolding get_stats get_total_active_stake
get_stats-split e h = stake-split e.slashed e.stakes h.slashed_once h.stakes_dict
