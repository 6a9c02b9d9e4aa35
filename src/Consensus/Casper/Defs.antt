-- ===== src/Consensus/Casper/Defs.antt =====
-- The votes of an epoch, justification and finalisation (consensus/finality_casper.py).
use absolute_blockchain_ulti.Base.{
  ℕ, zero, suc, ◌+◌, Bool, Option, none, some, List, [], ◌∷◌, ltb, leb, if◌then◌else◌, nat_eq, ◌&&◌,
  not,
}
use absolute_blockchain_ulti.Base.Dict.{Dict, lookup, insert, or_else}
use absolute_blockchain_ulti.Base.Set.{member, add}

pub record CasperFinality : Type 0 where
  pub epoch_votes : Dict ℕ (Dict ℕ ℕ)
  pub total_stake : ℕ
  pub justified_epochs : List ℕ
  pub finalized_epochs : List ℕ
  pub justified_blocks : Dict ℕ ℕ

-- `__init__`
abbrev pub empty : CasperFinality
empty = record {
  epoch_votes = [];
  total_stake = 0;
  justified_epochs = [];
  finalized_epochs = [];
  justified_blocks = [];
}

unfoldable pub set_total_stake : ℕ → CasperFinality → CasperFinality
set_total_stake stake f = record f { total_stake = stake }

-- `max(items, key=lambda x: x[1])`: the first entry of the highest weight.
unfoldable pub heaviest : ℕ × ℕ → Dict ℕ ℕ → ℕ × ℕ
heaviest best [] = best
heaviest best (x ∷ d) = heaviest (if ltb best.1 x.1 then x else best) d

-- `_get_best_block`. The votes of an epoch are never an empty dictionary, on which `max` raises:
-- `add_vote` writes an entry into each that it makes.
unfoldable pub best_of : Dict ℕ ℕ → Option (ℕ × ℕ)
best_of [] = none
best_of (x ∷ d) = some (heaviest x d)

unfoldable pub get_best_block : ℕ → CasperFinality → Option (ℕ × ℕ)
unfolding best_of
get_best_block epoch f = best_of (or_else (lookup epoch f.epoch_votes) [])

unfoldable pub justify_epoch : ℕ → ℕ → CasperFinality → CasperFinality
justify_epoch epoch block f = if member epoch f.justified_epochs then f else record f {
  justified_epochs = add epoch f.justified_epochs;
  justified_blocks = insert epoch block f.justified_blocks;
}

-- `_try_finalize`: before epoch 0 lies epoch -1, which is never justified.
unfoldable pub try_finalize : ℕ → CasperFinality → CasperFinality
try_finalize zero f = f
try_finalize (suc prev) f =
    if member prev f.justified_epochs && not (member prev f.finalized_epochs)
    then record f { finalized_epochs = add prev f.finalized_epochs }
    else f

-- The writes of `add_vote` before `_evaluate`.
unfoldable pub count_vote : ℕ → ℕ → ℕ → CasperFinality → CasperFinality
count_vote epoch block weight f =
    let votes = or_else (lookup epoch f.epoch_votes) [] in
    record f {
      epoch_votes =
          insert epoch (insert block (or_else (lookup block votes) 0 + weight) votes) f.epoch_votes;
    }

module _ (threshold : ℕ → ℕ) where
  unfoldable pub evaluate_best : ℕ → Option (ℕ × ℕ) → CasperFinality → CasperFinality
  evaluate_best epoch none f = f
  evaluate_best epoch (some (block, weight)) f =
      if leb (threshold f.total_stake) weight
      then try_finalize epoch (justify_epoch epoch block f)
      else f

  -- `_evaluate`, `update`
  unfoldable pub evaluate : ℕ → CasperFinality → CasperFinality
  evaluate epoch f = evaluate_best epoch (get_best_block epoch f) f

  unfoldable pub add_vote : ℕ → ℕ → ℕ → CasperFinality → CasperFinality
  add_vote epoch block weight f = evaluate epoch (count_vote epoch block weight f)

-- The weight that `block` has in `epoch`.
abbrev pub weight_of : ℕ → ℕ → CasperFinality → ℕ
weight_of epoch block f = or_else (lookup block (or_else (lookup epoch f.epoch_votes) [])) 0

-- `is_finalized`, for the epoch of the block
unfoldable pub is_finalized : ℕ → CasperFinality → Bool
is_finalized epoch f = member epoch f.finalized_epochs

unfoldable pub is_justified : ℕ → CasperFinality → Bool
is_justified epoch f = member epoch f.justified_epochs
