-- ===== src/Consensus/Casper/Finality.antt =====
-- The two-step rule of consensus/finality_casper.py.
use absolute_blockchain_ulti.Base.{
  ℕ, zero, suc, ◌+◌, ◌≡◌, refl, Bool, true, false, Option, none, some, List, [], ◌∷◌, ltb, leb,
  ◌||◌, ◌&&◌, if◌then◌else◌, nat_eq, ◌==◌, arith,
}
use absolute_blockchain_ulti.Base.Dict.{Dict, lookup, insert, or_else, lookup-insert}
use absolute_blockchain_ulti.Base.Set.{member, member-add}
use absolute_blockchain_ulti.Consensus.Casper.Defs.{
  CasperFinality, empty, set_total_stake, heaviest, best_of, get_best_block, justify_epoch,
  try_finalize, evaluate_best, evaluate, count_vote, add_vote, is_finalized, is_justified,
  weight_of,
}

-- Some entry has at least the weight `t`.
abbrev pub reaches : ℕ → Dict ℕ ℕ → Bool
reaches t [] = false
reaches t (x ∷ d) = leb t x.1 || reaches t d

pub heaviest-reaches :
    (t : ℕ) (x : ℕ × ℕ) (d : Dict ℕ ℕ) → leb t (heaviest x d).1 ≡ (leb t x.1 || reaches t d)
unfolding heaviest
heaviest-reaches t x [] = ground arith
heaviest-reaches t x (y ∷ d) = ground (arith, heaviest-reaches t (if ltb x.1 y.1 then y else x) d)

-- The votes of the epoch after `add_vote` has counted.
abbrev pub counted : ℕ → ℕ → ℕ → CasperFinality → Dict ℕ ℕ
counted epoch block weight f =
    or_else (lookup epoch (count_vote epoch block weight f).epoch_votes) []

justify_epoch-sets :
    (n epoch block : ℕ) (f : CasperFinality)
    → (is_justified n (justify_epoch epoch block f) ≡ (n == epoch || is_justified n f))
      × (is_finalized n (justify_epoch epoch block f) ≡ is_finalized n f)
unfolding justify_epoch is_justified is_finalized
justify_epoch-sets n epoch block f = ground (arith, member-add n epoch f.justified_epochs)

try_finalize-sets :
    (n epoch : ℕ) (f : CasperFinality)
    → (is_justified n (try_finalize epoch f) ≡ is_justified n f)
      × (is_finalized n (try_finalize epoch f)
          ≡ (is_finalized n f || (suc n == epoch && is_justified n f)))
unfolding try_finalize is_justified is_finalized
try_finalize-sets n zero f = ground arith
try_finalize-sets n (suc prev) f = ground (arith, member-add n prev f.finalized_epochs)

-- The calls that change the gadget: `add_vote`, `update` and `set_total_stake`.
pub data Call : Type 0 where
  vote : ℕ → ℕ → ℕ → Call
  update_epoch : ℕ → Call
  stake : ℕ → Call

module _ (threshold : ℕ → ℕ) where
  evaluate_best-sets :
      (n epoch : ℕ) (d : Dict ℕ ℕ) (f : CasperFinality)
      → let won = reaches (threshold f.total_stake) d in
        (is_justified n (evaluate_best threshold epoch (best_of d) f)
          ≡ (is_justified n f || (n == epoch && won)))
        × (is_finalized n (evaluate_best threshold epoch (best_of d) f)
            ≡ (is_finalized n f || (suc n == epoch && is_justified n f && won)))
  unfolding evaluate_best best_of
  evaluate_best-sets n epoch [] f = ground arith
  evaluate_best-sets n epoch (x ∷ d) f =
      let f' = justify_epoch epoch (heaviest x d).0 f in
      ground (
        arith,
        heaviest-reaches (threshold f.total_stake) x d,
        justify_epoch-sets n epoch (heaviest x d).0 f,
        try_finalize-sets n epoch f',
      )

  evaluate-sets :
      (n epoch : ℕ) (f : CasperFinality)
      → let won = reaches (threshold f.total_stake) (or_else (lookup epoch f.epoch_votes) []) in
        (is_justified n (evaluate threshold epoch f) ≡ (is_justified n f || (n == epoch && won)))
        × (is_finalized n (evaluate threshold epoch f)
            ≡ (is_finalized n f || (suc n == epoch && is_justified n f && won)))
  unfolding evaluate get_best_block
  evaluate-sets n epoch f = evaluate_best-sets n epoch (or_else (lookup epoch f.epoch_votes) []) f

  -- What one vote does to the two sets, at every epoch `n`: the voted epoch becomes justified
  -- exactly if some block of it now has the threshold, and the epoch before it becomes finalized
  -- exactly if moreover it was justified already. Nothing leaves either set.
  pub add_vote-sets :
      (n epoch block weight : ℕ) (f : CasperFinality)
      → let won = reaches (threshold f.total_stake) (counted epoch block weight f) in
        (is_justified n (add_vote threshold epoch block weight f)
          ≡ (is_justified n f || (n == epoch && won)))
        × (is_finalized n (add_vote threshold epoch block weight f)
            ≡ (is_finalized n f || (suc n == epoch && is_justified n f && won)))
  unfolding add_vote evaluate get_best_block is_justified is_finalized count_vote
  add_vote-sets n epoch block weight f =
      evaluate_best-sets n epoch (counted epoch block weight f) (count_vote epoch block weight f)

  unfoldable pub perform : Call → CasperFinality → CasperFinality
  perform (vote epoch block weight) f = add_vote threshold epoch block weight f
  perform (update_epoch epoch) f = evaluate threshold epoch f
  perform (stake s) f = set_total_stake s f

  unfoldable pub perform_all : List Call → CasperFinality → CasperFinality
  perform_all [] f = f
  perform_all (c ∷ cs) f = perform_all cs (perform c f)

  -- A finalized epoch is justified, and so is the epoch after it.
  abbrev pub IsTwoStep : CasperFinality → Type 0
  IsTwoStep f =
      (n : ℕ)
      → is_finalized n f ≡ true
      → (is_justified n f ≡ true) × (is_justified (suc n) f ≡ true)

  perform-IsTwoStep : (c : Call) (f : CasperFinality) → IsTwoStep f → IsTwoStep (perform c f)
  unfolding perform
  perform-IsTwoStep (vote epoch block weight) f inv n h = ground (
    arith,
    inv n,
    add_vote-sets n epoch block weight f,
    add_vote-sets (suc n) epoch block weight f,
  )
  perform-IsTwoStep (update_epoch epoch) f inv n h =
      ground (arith, inv n, evaluate-sets n epoch f, evaluate-sets (suc n) epoch f)
  perform-IsTwoStep (stake s) f inv n h =
      unfold set_total_stake is_finalized is_justified in inv n h

  perform_all_from-IsTwoStep :
      (cs : List Call) (f : CasperFinality) → IsTwoStep f → IsTwoStep (perform_all cs f)
  unfolding perform_all
  perform_all_from-IsTwoStep [] f inv = inv
  perform_all_from-IsTwoStep (c ∷ cs) f inv =
      perform_all_from-IsTwoStep cs (perform c f) (perform-IsTwoStep c f inv)

  -- The two-step rule is never broken, whatever votes, updates and changes of the stake come in
  -- whatever order: an epoch is finalized only if it and the epoch after it are justified.
  pub perform_all-IsTwoStep :
      (calls : List Call) (n : ℕ)
      → is_finalized n (perform_all calls empty) ≡ true
      → (is_justified n (perform_all calls empty) ≡ true)
        × (is_justified (suc n) (perform_all calls empty) ≡ true)
  unfolding is_finalized member
  perform_all-IsTwoStep calls = perform_all_from-IsTwoStep calls empty (λ n h. cc)

pub reaches-lookup :
    (t b w : ℕ) (d : Dict ℕ ℕ) → lookup b d ≡ some w → leb t w ≡ true → reaches t d ≡ true
unfolding lookup
reaches-lookup t b w [] e h = cc
reaches-lookup t b w (x ∷ d) e h = ground (arith, reaches-lookup t b w d)

pub lookup-counted :
    (epoch block weight : ℕ) (f : CasperFinality)
    → lookup block (counted epoch block weight f) ≡ some (weight_of epoch block f + weight)
unfolding count_vote
lookup-counted epoch block weight f =
    let votes = or_else (lookup epoch f.epoch_votes) [] in
    let w = or_else (lookup block votes) 0 + weight in
    ground (
      arith,
      lookup-insert epoch epoch (insert block w votes) f.epoch_votes,
      lookup-insert block block w votes,
    )

evaluate_best-votes :
    (threshold : ℕ → ℕ) (epoch : ℕ) (best : Option (ℕ × ℕ)) (f : CasperFinality)
    → ((evaluate_best threshold epoch best f).epoch_votes ≡ f.epoch_votes)
      × ((evaluate_best threshold epoch best f).total_stake ≡ f.total_stake)
unfolding evaluate_best try_finalize justify_epoch
evaluate_best-votes threshold epoch none f = (refl, refl)
evaluate_best-votes threshold zero (some (b, w)) f = ground arith
evaluate_best-votes threshold (suc epoch) (some (b, w)) f = ground arith

-- Evaluation touches neither the votes nor the stake.
pub add_vote-votes :
    (threshold : ℕ → ℕ) (epoch block weight : ℕ) (f : CasperFinality)
    → (weight_of epoch block (add_vote threshold epoch block weight f)
        ≡ weight_of epoch block f + weight)
      × ((add_vote threshold epoch block weight f).total_stake ≡ f.total_stake)
unfolding add_vote evaluate
add_vote-votes threshold epoch block weight f =
    let f' = count_vote epoch block weight f in
    let (same, total) = evaluate_best-votes threshold epoch (get_best_block epoch f') f' in
    (rw (same, lookup-counted epoch block weight f), unfold count_vote in total)
