-- ===== src/Consensus/Lmd.antt =====
-- `class LMDTable` of consensus/lmd.py: the latest attestation of each validator. Validators and
-- block hashes are only compared, so they are numbers; stakes and slots are never below 0.
use absolute_blockchain_ulti.Base.{
  ℕ, ◌+◌, ◌≡◌, refl, Bool, true, false, Option, none, some, List, [], ◌∷◌, ltb, length,
  if◌then◌else◌, arith, nat_eq, ◌==◌, ◌++◌, ◌≤◌, ◌<◌, All, All-weaken, All-append, Bool-cases, inl,
  inr, sym,
}
use absolute_blockchain_ulti.Base.Dict.{
  Dict, lookup, insert, contains, or_else, sum_entries, lookup-insert,
}
use mathlib.Core.List.{append_assoc, append-nil}

pub record LmdTable : Type 0 where
  pub latest_vote : Dict ℕ (ℕ × ℕ)
  pub validator_stake : Dict ℕ ℕ

-- `__init__`
abbrev pub empty : LmdTable
empty = record { latest_vote = []; validator_stake = [] }

unfoldable pub add_validator : ℕ → ℕ → LmdTable → LmdTable
add_validator v stake t = record t { validator_stake = insert v stake t.validator_stake }

-- `current is None or slot > current[1]`
unfoldable pub is_newer : ℕ → Option (ℕ × ℕ) → Bool
is_newer slot none = true
is_newer slot (some current) = ltb current.1 slot

unfoldable pub update : ℕ → ℕ → ℕ → LmdTable → LmdTable × Bool
unfolding is_newer
update v block slot t =
    if contains v t.validator_stake
    then if is_newer slot (lookup v t.latest_vote)
      then (record t { latest_vote = insert v (block, slot) t.latest_vote }, true)
      else (t, false)
    else (t, false)

-- `weights[block_hash] = weights.get(block_hash, 0) + stake`, for each vote in turn
unfoldable pub tally : Dict ℕ ℕ → Dict ℕ (ℕ × ℕ) → Dict ℕ ℕ → Dict ℕ ℕ
tally stakes [] weights = weights
tally stakes ((v, (block, _)) ∷ votes) weights =
    tally stakes votes
      (insert block (or_else (lookup block weights) 0 + or_else (lookup v stakes) 0) weights)

unfoldable pub get_weights : LmdTable → Dict ℕ ℕ
get_weights t = tally t.validator_stake t.latest_vote []

unfoldable pub get_validator_vote : ℕ → LmdTable → Option (ℕ × ℕ)
get_validator_vote v t = lookup v t.latest_vote

pub record Stats : Type 0 where
  pub validators : ℕ
  pub active_votes : ℕ
  pub total_stake : ℕ
  pub blocks_with_votes : ℕ

unfoldable pub get_stats : LmdTable → Stats
get_stats t = record {
  validators = length t.validator_stake;
  active_votes = length t.latest_vote;
  total_stake = sum_entries (λ _ stake. stake) t.validator_stake;
  blocks_with_votes = length (get_weights t);
}

-- The specification of a weight: the stake of the validators whose latest vote is the block.
abbrev pub support : Dict ℕ ℕ → ℕ → Dict ℕ (ℕ × ℕ) → ℕ
support stakes block =
    sum_entries (λ v vote. if vote.0 == block then or_else (lookup v stakes) 0 else 0)

tally-support :
    (stakes : Dict ℕ ℕ) (block : ℕ) (votes : Dict ℕ (ℕ × ℕ)) (weights : Dict ℕ ℕ)
    → or_else (lookup block (tally stakes votes weights)) 0
      ≡ or_else (lookup block weights) 0 + support stakes block votes
unfolding tally
tally-support stakes block [] weights = omega arith
tally-support stakes block ((v, (b, s)) ∷ votes) weights =
    let w = or_else (lookup b weights) 0 + or_else (lookup v stakes) 0 in
    ground (
      arith,
      tally-support stakes block votes (insert b w weights),
      lookup-insert block b w weights,
    )

-- The weight of every block is the stake behind it: of each validator only the latest vote counts.
pub get_weights-support :
    (t : LmdTable) (block : ℕ)
    → or_else (lookup block (get_weights t)) 0 ≡ support t.validator_stake block t.latest_vote
unfolding get_weights lookup
get_weights-support t block = omega (arith, tally-support t.validator_stake block t.latest_vote [])

abbrev pub Vote : Type 0
Vote = ℕ × ℕ × ℕ

-- A run of attestations (validator, block, slot), in the order of their arrival.
unfoldable pub update_all : List Vote → LmdTable → LmdTable
update_all [] t = t
update_all ((v, block, slot) ∷ votes) t = update_all votes (update v block slot t).0

-- What `v` votes in the run, as (block, slot).
abbrev pub votes_by : ℕ → List Vote → List (ℕ × ℕ)
votes_by v [] = []
votes_by v ((w, block, slot) ∷ votes) =
    if w == v then (block, slot) ∷ votes_by v votes else votes_by v votes

abbrev pub as_list : Option (ℕ × ℕ) → List (ℕ × ℕ)
as_list none = []
as_list (some vote) = vote ∷ []

-- The specification: of the votes, the first for the highest slot, so all before it are for
-- lower slots and none after it is for a higher one.
abbrev pub IsNewest : List (ℕ × ℕ) → Option (ℕ × ℕ) → Type 0
IsNewest votes none = votes ≡ []
IsNewest votes (some vote) =
    (before after : List (ℕ × ℕ)) × (votes ≡ before ++ (vote ∷ after))
    × All (λ x. x.1 < vote.1) before
    × All (λ x. x.1 ≤ vote.1) after

update-stakes :
    (v block slot : ℕ) (t : LmdTable)
    → (update v block slot t).0.validator_stake ≡ t.validator_stake
unfolding update
update-stakes v block slot t = ground arith

-- What one vote for `slot` makes of the latest one.
abbrev later_of : ℕ × ℕ → Option (ℕ × ℕ) → Option (ℕ × ℕ)
later_of vote best = if is_newer vote.1 best then some vote else best

update-latest_vote :
    (v w block slot : ℕ) (t : LmdTable)
    → contains v t.validator_stake ≡ true
    → lookup v (update w block slot t).0.latest_vote
      ≡ (if w == v then later_of (block, slot) (lookup v t.latest_vote) else lookup v t.latest_vote)
unfolding update
update-latest_vote v w block slot t known =
    ground (arith, lookup-insert v w (block, slot) t.latest_vote)

later_of-IsNewest :
    (votes : List (ℕ × ℕ)) (best : Option (ℕ × ℕ)) (vote : ℕ × ℕ)
    → IsNewest votes best
    → IsNewest (votes ++ (vote ∷ [])) (later_of vote best)
unfolding is_newer
later_of-IsNewest votes none vote h = rw h ([], [], refl, tt, tt)
later_of-IsNewest votes (some best) vote (before, after, e, lower, upto) =
    elim (Bool-cases (ltb best.1 vote.1)) [
      | inl q ↦
          let less : best.1 < vote.1 = ground (arith, q) in
          let rest =
            All-weaken {P = λ x. x.1 ≤ best.1} {Q = λ x. x.1 < vote.1}
              (λ x k. omega (arith, k, less)) after upto in
          let first =
            All-weaken {P = λ x. x.1 < best.1} {Q = λ x. x.1 < vote.1}
              (λ x k. omega (arith, k, less)) before lower in
          rw q (
            votes,
            [],
            refl,
            rw e (All-append (λ x. x.1 < vote.1) before (best ∷ after) first (less, rest)),
            tt,
          )
      | inr q ↦
          let most : vote.1 ≤ best.1 = ground (arith, q) in
          rw q (
            before,
            after ++ (vote ∷ []),
            rw e (append_assoc before (best ∷ after) (vote ∷ [])),
            lower,
            All-append (λ x. x.1 ≤ best.1) after (vote ∷ []) upto (most, tt),
          )
    ]

update_all_from-IsNewest :
    (votes : List Vote) (v : ℕ) (t : LmdTable) (past : List (ℕ × ℕ))
    → contains v t.validator_stake ≡ true
    → IsNewest past (lookup v t.latest_vote)
    → IsNewest (past ++ votes_by v votes) (lookup v (update_all votes t).latest_vote)
unfolding update_all
update_all_from-IsNewest [] v t past known h = rw (append-nil past) h
update_all_from-IsNewest ((w, block, slot) ∷ votes) v t past known h =
    let t' = (update w block slot t).0 in
    let known' : contains v t'.validator_stake ≡ true = rw (update-stakes w block slot t) known in
    let step = update-latest_vote v w block slot t known in
    elim (Bool-cases (w == v)) [
      | inr q ↦
          let same : lookup v t'.latest_vote ≡ lookup v t.latest_vote = ground (arith, step, q) in
          rw q (update_all_from-IsNewest votes v t' past known' (rw same h))
      | inl q ↦
          let vote : ℕ × ℕ = (block, slot) in
          let one : lookup v t'.latest_vote ≡ later_of vote (lookup v t.latest_vote) =
            ground (arith, step, q) in
          let next = later_of-IsNewest past (lookup v t.latest_vote) vote h in
          let all =
            update_all_from-IsNewest votes v t' (past ++ (vote ∷ [])) known' (rw one next) in
          rw q (rw (sym (append_assoc past (vote ∷ []) (votes_by v votes))) all)
    ]

-- A vote alone is the newest.
as_list-IsNewest : (best : Option (ℕ × ℕ)) → IsNewest (as_list best) best
as_list-IsNewest none = refl
as_list-IsNewest (some vote) = ([], [], refl, tt, tt)

-- After any run of attestations, the table holds for each registered validator the first of its
-- votes for the highest slot, among the vote that stood before and those of the run; it holds none
-- only if there are none.
pub update_all-IsNewest :
    (votes : List Vote) (v : ℕ) (t : LmdTable)
    → contains v t.validator_stake ≡ true
    → IsNewest
        (as_list (get_validator_vote v t) ++ votes_by v votes)
        (get_validator_vote v (update_all votes t))
unfolding get_validator_vote
update_all-IsNewest votes v t known =
    update_all_from-IsNewest votes v t (as_list (lookup v t.latest_vote)) known
      (as_list-IsNewest (lookup v t.latest_vote))
