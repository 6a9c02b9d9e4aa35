-- ===== src/Consensus/Slashing/Defs.antt =====
-- The state and the operations of the slashing engine (consensus/slashing.py). Validators and
-- hashes are only compared, so they are numbers; stakes, slots and heights are never below 0.
-- The clock is an argument, and what the slash callback is called with is the event that is
-- appended: the call itself, whose exceptions are dropped, changes nothing here.
use absolute_blockchain_ulti.Base.{
  ℕ, ◌+◌, ◌/◌, Bool, true, false, Option, none, some, List, [], ◌∷◌, ◌++◌, ltb, length,
  if◌then◌else◌, nat_eq, ◌==◌,
}
use absolute_blockchain_ulti.Base.Dict.{Dict, lookup, insert, erase, or_else, sum_entries}
use absolute_blockchain_ulti.Base.Set.{member, add}

-- The keys of `PENALTIES`, and any other reason.
pub data Reason : Type 0 where
  double_vote double_proposal offline invalid_proposal surround_vote unlisted : Reason

-- `self.PENALTIES.get(reason, 50)`
unfoldable pub penalty_of : Reason → ℕ
penalty_of double_vote = 100
penalty_of double_proposal = 200
penalty_of offline = 10
penalty_of invalid_proposal = 50
penalty_of surround_vote = 75
penalty_of unlisted = 50

pub record SlashEvent : Type 0 where
  pub validator : ℕ
  pub reason : Reason
  pub epoch : ℕ
  pub timestamp : ℕ
  pub penalty : ℕ

pub record SlashingEngine : Type 0 where
  pub votes : Dict ℕ (Dict ℕ ℕ)
  pub proposals : Dict ℕ (List ℕ)
  pub slashed : List ℕ
  pub events : List SlashEvent
  pub missed_attestations : Dict ℕ ℕ
  pub stakes : Dict ℕ ℕ

-- `__init__`
abbrev pub empty : SlashingEngine
empty = record {
  votes = [];
  proposals = [];
  slashed = [];
  events = [];
  missed_attestations = [];
  stakes = [];
}

unfoldable pub register_validator : ℕ → ℕ → SlashingEngine → SlashingEngine
register_validator v stake e = record e { stakes = insert v stake e.stakes }

unfoldable pub is_slashed : ℕ → SlashingEngine → Bool
is_slashed v e = member v e.slashed

unfoldable pub get_stake : ℕ → SlashingEngine → ℕ
get_stake v e = if member v e.slashed then 0 else or_else (lookup v e.stakes) 0

unfoldable pub get_total_active_stake : SlashingEngine → ℕ
get_total_active_stake e = sum_entries (λ v stake. if member v e.slashed then 0 else stake) e.stakes

-- The `SlashEvent` of a slash at the time `now`.
abbrev pub event : ℕ → ℕ → Reason → ℕ → SlashEvent
event now v reason epoch = record {
  validator = v;
  reason = reason;
  epoch = epoch;
  timestamp = now;
  penalty = penalty_of reason;
}

-- `_slash`
unfoldable pub slash : ℕ → ℕ → Reason → ℕ → SlashingEngine → SlashingEngine
slash now v reason epoch e =
    if member v e.slashed
    then e
    else record e { slashed = add v e.slashed; events = e.events ++ event now v reason epoch ∷ [] }

-- `self.votes[v]` after `if v not in self.votes: self.votes[v] = {}`
abbrev pub votes_of : ℕ → SlashingEngine → Dict ℕ ℕ
votes_of v e = or_else (lookup v e.votes) []

-- The end of `record_vote`: the vote that stands for the slot decides.
unfoldable pub judge_vote : ℕ → ℕ → ℕ → ℕ → Option ℕ → SlashingEngine → SlashingEngine × Bool
judge_vote now v slot hash none e =
    (record e { votes = insert v (insert slot hash (votes_of v e)) e.votes }, true)
judge_vote now v slot hash (some first) e =
    if first == hash then (e, true) else (slash now v double_vote slot e, false)

unfoldable pub record_vote : ℕ → ℕ → ℕ → ℕ → SlashingEngine → SlashingEngine × Bool
unfolding judge_vote
record_vote now v slot hash e =
    if member v e.slashed
    then (e, false)
    else judge_vote now v slot hash (lookup slot (votes_of v e)) e

unfoldable pub add_vote : ℕ → ℕ → ℕ → ℕ → SlashingEngine → SlashingEngine × Bool
add_vote now v slot hash e =
    if member v e.slashed then (e, false) else record_vote now v slot hash e

-- `self.proposals[height]`, a `defaultdict(set)`
abbrev pub proposers : ℕ → SlashingEngine → List ℕ
proposers height e = or_else (lookup height e.proposals) []

unfoldable pub record_proposal : ℕ → ℕ → ℕ → ℕ → SlashingEngine → SlashingEngine × Bool
record_proposal now v height hash e =
    if member v e.slashed
    then (e, false)
    else if member v (proposers height e)
    then (slash now v double_proposal (height / 32) e, false)
    else (record e { proposals = insert height (add v (proposers height e)) e.proposals }, true)

unfoldable pub record_missed_attestation : ℕ → ℕ → SlashingEngine → SlashingEngine
record_missed_attestation now v e =
    if member v e.slashed
    then e
    else let missed = or_else (lookup v e.missed_attestations) 0 + 1 in
      let e' = record e { missed_attestations = insert v missed e.missed_attestations } in
      if ltb 50 missed then slash now v offline 0 e' else e'

unfoldable pub report_invalid_proposal : ℕ → ℕ → ℕ → SlashingEngine → SlashingEngine
report_invalid_proposal now v height e = slash now v invalid_proposal (height / 32) e

-- The loop of `clear_epoch` over the validators' tables.
unfoldable pub clear_tables : ℕ → Dict ℕ (Dict ℕ ℕ) → Dict ℕ (Dict ℕ ℕ)
clear_tables epoch [] = []
clear_tables epoch ((v, table) ∷ votes) = (v, erase epoch table) ∷ clear_tables epoch votes

unfoldable pub clear_epoch : ℕ → SlashingEngine → SlashingEngine
clear_epoch epoch e = record e { votes = clear_tables epoch e.votes }

-- `sum(self._stakes.get(v, 0) for v in self.slashed)`
unfoldable pub stake_of_all : Dict ℕ ℕ → List ℕ → ℕ
stake_of_all stakes [] = 0
stake_of_all stakes (v ∷ vs) = or_else (lookup v stakes) 0 + stake_of_all stakes vs

pub record Stats : Type 0 where
  pub slashed_count : ℕ
  pub slashed_stake : ℕ
  pub active_stake : ℕ
  pub total_validators : ℕ
  pub total_events : ℕ

-- `get_stats`, without its count of the events by reason
unfoldable pub get_stats : SlashingEngine → Stats
get_stats e = record {
  slashed_count = length e.slashed;
  slashed_stake = stake_of_all e.stakes e.slashed;
  active_stake = get_total_active_stake e;
  total_validators = length e.stakes;
  total_events = length e.events;
}
