-- ===== src/Consensus/Beacon/Finality.antt =====
-- The finality rule of consensus/finality_beacon.py.
use absolute_blockchain_ulti.Base.{
  ℕ, zero, suc, ◌≡◌, true, false, List, [], ◌∷◌, ◌||◌, ◌&&◌, not, nat_eq, ◌==◌, arith,
}
use absolute_blockchain_ulti.Base.Dict.{Dict, lookup, or_else}
use absolute_blockchain_ulti.Base.Set.{member, member-add}
use absolute_blockchain_ulti.Consensus.Casper.{heaviest, best_of}
use absolute_blockchain_ulti.Consensus.Casper.Finality.{reaches, heaviest-reaches}
use absolute_blockchain_ulti.Consensus.Beacon.Defs.{
  BeaconFinality, init, set_total_stake, justify, finalize_previous, evaluate_best, evaluate,
  get_epoch, count_vote, add_vote, epoch_finalized, is_justified,
}

-- The votes of the epoch after `add_vote` has counted.
abbrev pub counted : ℕ → ℕ → ℕ → BeaconFinality → Dict ℕ ℕ
counted epoch block weight f = or_else (lookup epoch (count_vote epoch block weight f).votes) []

justify-sets :
    (n epoch block : ℕ) (f : BeaconFinality)
    → (is_justified n (justify epoch block f) ≡ (n == epoch || is_justified n f))
      × (epoch_finalized n (justify epoch block f) ≡ epoch_finalized n f)
unfolding justify is_justified epoch_finalized
justify-sets n epoch block f = ground (arith, member-add n epoch f.justified_epochs)

finalize_previous-sets :
    (n epoch : ℕ) (f : BeaconFinality)
    → (is_justified n (finalize_previous epoch f) ≡ is_justified n f)
      × (epoch_finalized n (finalize_previous epoch f)
          ≡ (epoch_finalized n f || (suc n == epoch && is_justified n f)))
unfolding finalize_previous is_justified epoch_finalized
finalize_previous-sets n zero f = ground arith
finalize_previous-sets n (suc prev) f = ground (arith, member-add n prev f.finalized_epochs)

-- The calls that change the gadget: a vote (block, slot, weight) and a new total stake.
pub data Call : Type 0 where
  vote : ℕ → ℕ → ℕ → Call
  stake : ℕ → Call

module _ (threshold : ℕ → ℕ) where
  evaluate_best-sets :
      (n epoch : ℕ) (d : Dict ℕ ℕ) (f : BeaconFinality)
      → let won = reaches (threshold f.total_stake) d in
        (is_justified n (evaluate_best threshold epoch (best_of d) f)
          ≡ (is_justified n f || (n == epoch && won)))
        × (epoch_finalized n (evaluate_best threshold epoch (best_of d) f) ≡ (
            epoch_finalized n f
            || (suc n == epoch && is_justified n f && won && not (is_justified epoch f))))
  unfolding evaluate_best best_of
  evaluate_best-sets n epoch [] f = ground arith
  evaluate_best-sets n epoch (x ∷ d) f =
      let f' = justify epoch (heaviest x d).0 f in
      unfold is_justified in
      ground (
        arith,
        heaviest-reaches (threshold f.total_stake) x d,
        justify-sets n epoch (heaviest x d).0 f,
        finalize_previous-sets n epoch f',
      )

  -- What one vote does to the two sets, at every epoch `n`: the slot's epoch becomes justified
  -- exactly if some block of it now has the threshold, and the epoch before it becomes finalized
  -- exactly if moreover it was justified already and the slot's epoch was not.
  pub add_vote-checkpoints :
      (n block slot weight : ℕ) (f : BeaconFinality)
      → let epoch = get_epoch f slot in
        let won = reaches (threshold f.total_stake) (counted epoch block weight f) in
        (is_justified n (add_vote threshold block slot weight f)
          ≡ (is_justified n f || (n == epoch && won)))
        × (epoch_finalized n (add_vote threshold block slot weight f) ≡ (
            epoch_finalized n f
            || (suc n == epoch && is_justified n f && won && not (is_justified epoch f))))
  unfolding add_vote evaluate is_justified epoch_finalized count_vote
  add_vote-checkpoints n block slot weight f =
      let epoch = get_epoch f slot in
      evaluate_best-sets n epoch (counted epoch block weight f) (count_vote epoch block weight f)

  unfoldable pub perform : Call → BeaconFinality → BeaconFinality
  perform (vote block slot weight) f = add_vote threshold block slot weight f
  perform (stake s) f = set_total_stake s f

  unfoldable pub run_calls : List Call → BeaconFinality → BeaconFinality
  run_calls [] f = f
  run_calls (c ∷ cs) f = run_calls cs (perform c f)

  -- A finalized epoch is justified, and so is the epoch after it.
  abbrev pub IsTwoStep : BeaconFinality → Type 0
  IsTwoStep f =
      (n : ℕ)
      → epoch_finalized n f ≡ true
      → (is_justified n f ≡ true) × (is_justified (suc n) f ≡ true)

  perform-IsTwoStep : (c : Call) (f : BeaconFinality) → IsTwoStep f → IsTwoStep (perform c f)
  unfolding perform
  perform-IsTwoStep (vote block slot weight) f inv n h = ground (
    arith,
    inv n,
    add_vote-checkpoints n block slot weight f,
    add_vote-checkpoints (suc n) block slot weight f,
  )
  perform-IsTwoStep (stake s) f inv n h =
      unfold set_total_stake epoch_finalized is_justified in inv n h

  run_calls_from-IsTwoStep :
      (cs : List Call) (f : BeaconFinality) → IsTwoStep f → IsTwoStep (run_calls cs f)
  unfolding run_calls
  run_calls_from-IsTwoStep [] f inv = inv
  run_calls_from-IsTwoStep (c ∷ cs) f inv =
      run_calls_from-IsTwoStep cs (perform c f) (perform-IsTwoStep c f inv)

  -- From a new gadget, whatever votes and changes of the stake come: an epoch is finalized only if
  -- it and the epoch after it are justified.
  pub run_calls-IsTwoStep :
      (size : ℕ) (calls : List Call) (n : ℕ)
      → epoch_finalized n (run_calls calls (init size)) ≡ true
      → (is_justified n (run_calls calls (init size)) ≡ true)
        × (is_justified (suc n) (run_calls calls (init size)) ≡ true)
  unfolding epoch_finalized member
  run_calls-IsTwoStep size calls = run_calls_from-IsTwoStep calls (init size) (λ n h. cc)

  perform-missed :
      (c : Call) (n : ℕ) (f : BeaconFinality)
      → is_justified (suc n) f ≡ true
      → epoch_finalized n f ≡ false
      → (is_justified (suc n) (perform c f) ≡ true) × (epoch_finalized n (perform c f) ≡ false)
  unfolding perform
  perform-missed (vote block slot weight) n f after open_still = ground (
    arith,
    add_vote-checkpoints n block slot weight f,
    add_vote-checkpoints (suc n) block slot weight f,
  )
  perform-missed (stake s) n f after open_still =
      unfold set_total_stake epoch_finalized is_justified in (after, open_still)

  -- The order of justification matters: once the epoch after `n` is justified while `n` is not
  -- finalized, no further call finalizes `n`, also if `n` becomes justified later.
  pub never_finalized :
      (calls : List Call) (n : ℕ) (f : BeaconFinality)
      → is_justified (suc n) f ≡ true
      → epoch_finalized n f ≡ false
      → epoch_finalized n (run_calls calls f) ≡ false
  unfolding run_calls
  never_finalized [] n f after open_still = open_still
  never_finalized (c ∷ cs) n f after open_still =
      let (after', open') = perform-missed c n f after open_still in
      never_finalized cs n (perform c f) after' open'
