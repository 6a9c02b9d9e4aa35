-- ===== src/Node/Pools/Release.antt =====
-- How far the staking pool of runtime/pool_locks.py is released, over any sequence of calls.
use absolute_blockchain_ulti.Base.{
  ℕ, zero, suc, ◌+◌, ◌*◌, ◌/◌, ◌≤◌, ◌≡◌, refl, Option, none, some, List, [], ◌∷◌, Result, nat_eq,
  arith, Option-cases, Bool-cases, either, inl, inr, ltb, nat_beq_iff, ◌||◌,
}
use absolute_blockchain_ulti.Base.Int.{ℤ, pos, leb_ℤ, ◌+ℤ◌}
use absolute_blockchain_ulti.Base.Dict.{Dict, lookup, insert, lookup-insert, IsDict, insert-IsDict}
use mathlib.Core.Path.{subst}
use absolute_blockchain_ulti.Node.Strings.{Strings}
use absolute_blockchain_ulti.Node.Tables.{Connection, Pool, PoolId, PoolState}
use absolute_blockchain_ulti.Node.Db.Accounts.{commit}
use absolute_blockchain_ulti.Node.Tokenomics.{Addresses, AllocationPool, build_allocations}
use absolute_blockchain_ulti.Node.Pools.Locks.{
  ensure_pools, initial_pools, new_pool, is_staking, pool_state, save_pools, release_step,
  release_epoch, on_epoch_boundary, record_outgoing, release_epochs, under_dao,
}
use absolute_blockchain_ulti.Node.Pools.Votes.{
  dao_vote, cast_dao_vote, count_dao_vote, find_pool, registered_as, VoteError, VoteAnswer,
}

-- What a pool has released after `n` of its epochs: a hundredth of it for each.
abbrev pub IsReleased : ℕ → Pool → Type 0
IsReleased n info =
    (info.released ≡ n * (info.total / release_epochs)) × (info.released ≤ info.total)

mul_mono : (m n s : ℕ) → m ≤ n → m * s ≤ n * s
mul_mono zero n s h = omega arith
mul_mono (suc m) zero s h = absurd (ground arith)
mul_mono (suc m) (suc n) s h = omega (arith, mul_mono m n s (omega (arith, h)))

hundredth : (n total : ℕ) → suc n ≤ release_epochs → suc n * (total / release_epochs) ≤ total
hundredth n total h =
    let s = total / release_epochs in
    let whole : release_epochs * s ≤ total = omega arith in
    omega (arith, whole, mul_mono (suc n) release_epochs s h)

release_step-IsReleased :
    (n : ℕ) (info : Pool)
    → suc n ≤ release_epochs
    → IsReleased n info
    → IsReleased (suc n) (release_step info)
unfolding release_step
release_step-IsReleased n info h r =
    let s = info.total / release_epochs in
    let step : suc n * s ≡ n * s + s = omega arith in
    let top = hundredth n info.total h in ground (arith, r, step, top)

-- The state is a dictionary, and the staking pool is released as far as its epochs say.
pub record IsSound (at : Addresses) (state : PoolState) : Type 0 where
  pub dict : IsDict state.pools
  pub epochs : state.staking_epochs_released ≤ release_epochs
  pub staking_pool :
      (info : Pool)
      → lookup at.staking state.pools ≡ some info
      → IsReleased state.staking_epochs_released info

-- A pool is replaced by one that has released as much.
insert-IsSound :
    (at : Addresses) (state : PoolState) (a : ℕ) (old new : Pool)
    → IsSound at state
    → lookup a state.pools ≡ some old
    → new.released ≡ old.released
    → new.total ≡ old.total
    → IsSound at (record state { pools = insert a new state.pools })
insert-IsSound at state a old new sound h r t = record {
  dict = insert-IsDict a new state.pools sound.dict;
  epochs = sound.epochs;
  staking_pool = λ info e. ground (
    arith,
    r,
    t,
    h,
    e,
    nat_beq_iff at.staking a,
    lookup-insert at.staking a new state.pools,
    sound.staking_pool info,
    sound.staking_pool old,
  );
}

released_once :
    (at : Addresses) (state : PoolState) (info : Pool)
    → IsSound at state
    → lookup at.staking state.pools ≡ some info
    → suc state.staking_epochs_released ≤ release_epochs
    → IsSound at (record state {
      pools = insert at.staking (release_step info) state.pools;
      staking_epochs_released = state.staking_epochs_released + 1;
    })
released_once at state info sound e h = record {
  dict = insert-IsDict at.staking (release_step info) state.pools sound.dict;
  epochs = omega (arith, h);
  staking_pool = λ new k.
      let next =
        release_step-IsReleased state.staking_epochs_released info h (sound.staking_pool info e) in
      let same : new ≡ release_step info =
        ground (arith, k, lookup-insert at.staking at.staking (release_step info) state.pools) in
      let one : suc state.staking_epochs_released ≡ state.staking_epochs_released + 1 =
        omega arith in
      rw same (subst (λ n. IsReleased n (release_step info)) one next);
}

release_epoch-IsSound :
    (at : Addresses) (state : PoolState) → IsSound at state → IsSound at (release_epoch at state).0
unfolding release_epoch
release_epoch-IsSound at state sound = elim (Option-cases (lookup at.staking state.pools)) [
  | inl e ↦ rw (e, release_epoch) sound
  | inr (info, e) ↦ elim (Bool-cases (ltb state.staking_epochs_released release_epochs)) [
    | inr k ↦ rw (e, release_epoch) (rw k sound)
    | inl k ↦ rw (e, release_epoch) (rw k (released_once at state info sound e (ground arith)))
  ]
]

lookup-find_pool :
    (id : PoolId) (pools : Dict ℕ Pool) (r : ℕ × Pool)
    → IsDict pools
    → find_pool id pools ≡ some r
    → lookup r.0 pools ≡ some r.1
unfolding find_pool lookup
lookup-find_pool id [] r d h = absurd (ground arith)
lookup-find_pool id (q ∷ pools) r d h =
    ground (arith, d.0, lookup-find_pool id pools r d.1, nat_beq_iff r.0 q.0)

-- The calls that change the pools.
pub data PoolCall : Type 0 where
  epoch_call : ℕ → PoolCall
  outgoing_call : ℕ → ℤ → PoolCall
  vote_call : PoolId → ℕ → Option (List ℕ) → PoolCall

unfoldable pub perform : Addresses → Strings → PoolCall → Connection → Connection
unfolding on_epoch_boundary record_outgoing dao_vote
perform at str (epoch_call epoch) c = (on_epoch_boundary at epoch c).1
perform at str (outgoing_call a amount) c = record_outgoing a amount c
perform at str (vote_call id voter registry) c = (dao_vote str id voter registry c).1

unfoldable pub perform_all : Addresses → Strings → List PoolCall → Connection → Connection
unfolding perform
perform_all at str [] c = c
perform_all at str (call ∷ calls) c = perform_all at str calls (perform at str call c)

counted :
    (voter : ℕ) (registry : Option (List ℕ)) (info : Pool)
    → ((count_dao_vote voter registry info).released ≡ info.released)
      × ((count_dao_vote voter registry info).total ≡ info.total)
unfolding count_dao_vote
counted voter registry info = ground arith

cast_dao_vote-IsSound :
    (at : Addresses) (registry : Option (List ℕ)) (voter : Option ℕ) (found : Option (ℕ × Pool))
    (c : Connection)
    → IsSound at (pool_state c)
    → ((r : ℕ × Pool) → found ≡ some r → lookup r.0 (pool_state c).pools ≡ some r.1)
    → IsSound at (pool_state (cast_dao_vote registry voter found c).1)
unfolding cast_dao_vote pool_state save_pools commit
cast_dao_vote-IsSound at registry none found c sound h = sound
cast_dao_vote-IsSound at registry (some voter) none c sound h = sound
cast_dao_vote-IsSound at registry (some voter) (some (a, info)) c sound h =
    let same = counted voter registry info in
    insert-IsSound at (pool_state c) a info (count_dao_vote voter registry info) sound
      (h (a, info) refl) same.0 same.1

at_epoch :
    (at : Addresses) (state : PoolState) (epoch : ℤ)
    → IsSound at state
    → IsSound at (record state { last_epoch = epoch })
at_epoch at state epoch sound = record {
  dict = sound.dict;
  epochs = sound.epochs;
  staking_pool = sound.staking_pool;
}

on_epoch_boundary-IsSound :
    (at : Addresses) (epoch : ℕ) (c : Connection)
    → IsSound at (pool_state c)
    → IsSound at (pool_state (on_epoch_boundary at epoch c).1)
unfolding on_epoch_boundary save_pools commit pool_state
on_epoch_boundary-IsSound at epoch c sound =
    either (λ (r : ℕ × Connection). IsSound at (pool_state r.1))
      (leb_ℤ (pos epoch) (pool_state c).last_epoch) _ _ sound
      (at_epoch at (release_epoch at (pool_state c)).0 (pos epoch)
        (release_epoch-IsSound at (pool_state c) sound))

record_outgoing-IsSound :
    (at : Addresses) (a : ℕ) (amount : ℤ) (c : Connection)
    → IsSound at (pool_state c)
    → IsSound at (pool_state (record_outgoing a amount c))
unfolding record_outgoing save_pools commit pool_state
record_outgoing-IsSound at a amount c sound = elim (Option-cases (lookup a (pool_state c).pools)) [
  | inl e ↦ rw (e, record_outgoing) sound
  | inr (info, e) ↦
      rw (e, record_outgoing)
        (insert-IsSound at (pool_state c) a info (record info { spent = info.spent +ℤ amount })
          sound e refl refl)
]

perform-IsSound :
    (at : Addresses) (str : Strings) (call : PoolCall) (c : Connection)
    → IsSound at (pool_state c)
    → IsSound at (pool_state (perform at str call c))
unfolding perform dao_vote
perform-IsSound at str (epoch_call epoch) c sound = on_epoch_boundary-IsSound at epoch c sound
perform-IsSound at str (outgoing_call a amount) c sound =
    record_outgoing-IsSound at a amount c sound
perform-IsSound at str (vote_call id voter registry) c sound =
    either (λ (r : Result VoteError VoteAnswer × Connection). IsSound at (pool_state r.1))
      (under_dao id) _ _
      (cast_dao_vote-IsSound at registry (registered_as str voter registry)
        (find_pool id (pool_state c).pools) c sound
        (λ r h. lookup-find_pool id (pool_state c).pools r sound.dict h))
      sound

perform_all-IsSound :
    (at : Addresses) (str : Strings) (calls : List PoolCall) (c : Connection)
    → IsSound at (pool_state c)
    → IsSound at (pool_state (perform_all at str calls c))
unfolding perform_all
perform_all-IsSound at str [] c sound = sound
perform_all-IsSound at str (call ∷ calls) c sound =
    perform_all-IsSound at str calls (perform at str call c) (perform-IsSound at str call c sound)

-- A dictionary of pools that have released nothing.
abbrev pub Unreleased : Dict ℕ Pool → Type 0
Unreleased pools =
    IsDict pools × ((a : ℕ) (info : Pool) → lookup a pools ≡ some info → info.released ≡ 0)

no_pools : Unreleased []
unfolding lookup
no_pools = (tt, λ a info e. absurd (ground (arith, e)))

insert-Unreleased :
    (pool : AllocationPool) (pools : Dict ℕ Pool)
    → Unreleased pools
    → Unreleased (insert pool.address_key (new_pool pool) pools)
insert-Unreleased pool pools h = (
  insert-IsDict pool.address_key (new_pool pool) pools h.0,
  λ a info e. ground (arith, e, lookup-insert a pool.address_key (new_pool pool) pools, h.1 a info),
)

initial_pools-Unreleased :
    (allocations : List AllocationPool) (pools : Dict ℕ Pool)
    → Unreleased pools
    → Unreleased (initial_pools allocations pools)
unfolding initial_pools
initial_pools-Unreleased [] pools h = h
initial_pools-Unreleased (pool ∷ rest) pools h = initial_pools-Unreleased rest _ (
    either Unreleased (under_dao pool.id || is_staking pool.id) _ pools
      (insert-Unreleased pool pools h) h)

-- The pools that `_ensure_state` makes have released nothing.
ensure_pools-IsSound :
    (at : Addresses) (founder : ℕ) (c : Connection)
    → c.live.pool_locks_state ≡ none
    → IsSound at (pool_state (ensure_pools at founder c))
unfolding ensure_pools save_pools commit pool_state
ensure_pools-IsSound at founder c h =
    let made = initial_pools-Unreleased (build_allocations at founder) [] no_pools in
    rw (h, ensure_pools)
      (record {
        dict = made.0;
        epochs = omega arith;
        staking_pool = λ info e. ground (arith, made.1 at.staking info e);
      })

-- Whatever epochs, payments and votes come in whatever order after the pools were made: the
-- staking pool has released a hundredth of its total for each epoch that counted, and never more
-- than its total; at most a hundred epochs count.
pub perform_all-IsReleased :
    (at : Addresses) (str : Strings) (founder : ℕ) (calls : List PoolCall) (c : Connection)
    (info : Pool)
    → c.live.pool_locks_state ≡ none
    → lookup at.staking (pool_state (perform_all at str calls (ensure_pools at founder c))).pools
      ≡ some info
    → IsReleased
        (pool_state (perform_all at str calls (ensure_pools at founder c))).staking_epochs_released
        info
      × ((pool_state (perform_all at str calls (ensure_pools at founder c))).staking_epochs_released
          ≤ release_epochs)
perform_all-IsReleased at str founder calls c info fresh h =
    let sound =
      perform_all-IsSound at str calls (ensure_pools at founder c)
        (ensure_pools-IsSound at founder c fresh) in
    (sound.staking_pool info h, sound.epochs)
