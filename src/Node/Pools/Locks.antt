-- ===== src/Node/Pools/Locks.antt =====
-- `class PoolLockManager` of runtime/pool_locks.py: the coins of the system pools are spent only as
-- far as they are unlocked. Each change is saved under one key of the table `meta`, and committed.
use absolute_blockchain_ulti.Base.{
  ℕ, zero, suc, ◌+◌, ◌-◌, ◌*◌, ◌/◌, Bool, true, false, Option, none, some, List, [], ◌∷◌,
  if◌then◌else◌, nat_eq, leb, ltb, not, ◌||◌,
}
use absolute_blockchain_ulti.Base.Int.{ℤ, pos, negsuc, pos_part, ◌+ℤ◌, ◌-ℤ◌, ltb_ℤ, leb_ℤ}
use absolute_blockchain_ulti.Base.Dict.{Dict, lookup, insert, contains, is_some}
use absolute_blockchain_ulti.Node.Tables.{Connection, Pool, PoolId, PoolState}
use absolute_blockchain_ulti.Node.Db.Accounts.{on_live, commit}
use absolute_blockchain_ulti.Node.Tokenomics.{Addresses, AllocationPool, build_allocations, coin}

-- `STAKING_RELEASE_EPOCHS`
abbrev pub release_epochs : ℕ
release_epochs = 100

-- Why an outgoing payment is not allowed.
pub data Denial : Type 0 where
  dao_locked : PoolId → Denial
  staking_locked pool_locked : Denial

abbrev pub under_dao : PoolId → Bool
under_dao PoolId.ecosystem = true
under_dao PoolId.treasury = true
under_dao _ = false

abbrev pub is_staking : PoolId → Bool
is_staking PoolId.staking = true
is_staking _ = false

abbrev pub new_pool : AllocationPool → Pool
new_pool pool = record {
  id = pool.id;
  locked = pool.locked;
  total = pool.amount_abs * coin;
  released = 0;
  spent = pos 0;
  dao_unlocked = false;
  dao_votes = [];
}

-- The loop of `_ensure_state`.
unfoldable pub initial_pools : List AllocationPool → Dict ℕ Pool → Dict ℕ Pool
initial_pools [] pools = pools
initial_pools (pool ∷ rest) pools = initial_pools rest (
    if under_dao pool.id || is_staking pool.id
    then insert pool.address_key (new_pool pool) pools
    else pools)

-- `_save`
unfoldable pub save_pools : PoolState → Connection → Connection
unfolding commit
save_pools state c = commit (on_live (λ t. record t { pool_locks_state = some state }) c)

-- `_ensure_state`
unfoldable pub ensure_pools : Addresses → ℕ → Connection → Connection
unfolding initial_pools build_allocations save_pools
ensure_pools at founder c =
    if is_some c.live.pool_locks_state
    then c
    else save_pools
        (record {
          pools = initial_pools (build_allocations at founder) [];
          staking_epochs_released = 0;
          last_epoch = negsuc 0;
        })
        c

-- `_state`
unfoldable pub pool_state : Connection → PoolState
pool_state c = elim c.live.pool_locks_state [
  | none ↦ record { pools = []; staking_epochs_released = 0; last_epoch = negsuc 0 }
  | some state ↦ state
]

unfoldable pub is_system_pool : ℕ → Connection → Bool
unfolding pool_state
is_system_pool a c = contains a (pool_state c).pools

-- `max(0.0, x)`
abbrev pub at_least_0 : ℤ → ℕ
at_least_0 = pos_part

-- The rest of `spendable_balance`, for a pool.
unfoldable pub spendable_of : Pool → ℕ → ℕ
spendable_of info balance =
    if is_staking info.id
    then at_least_0 (pos info.released -ℤ info.spent)
    else if under_dao info.id
    then if info.dao_unlocked then at_least_0 (pos info.total -ℤ info.spent) else 0
    else balance

unfoldable pub spendable_balance : ℕ → ℕ → Connection → ℕ
unfolding pool_state spendable_of
spendable_balance a balance c = elim (lookup a (pool_state c).pools) [
  | none ↦ balance
  | some info ↦ spendable_of info balance
]

-- The tolerance of 1e-9 is one unit.
unfoldable pub denial_of : Pool → ℤ → ℕ → Option Denial
unfolding spendable_of
denial_of info amount balance =
    if not (ltb_ℤ (pos (spendable_of info balance + 1)) amount)
    then none
    else if under_dao info.id
    then if info.dao_unlocked then some pool_locked else some (dao_locked info.id)
    else if is_staking info.id
    then some staking_locked
    else some pool_locked

-- `is_outgoing_allowed`: `none` allows.
unfoldable pub is_outgoing_allowed : ℕ → ℤ → ℕ → Connection → Option Denial
unfolding pool_state denial_of
is_outgoing_allowed a amount balance c = elim (lookup a (pool_state c).pools) [
  | none ↦ none
  | some info ↦ denial_of info amount balance
]

unfoldable pub record_outgoing : ℕ → ℤ → Connection → Connection
unfolding pool_state save_pools
record_outgoing a amount c = elim (lookup a (pool_state c).pools) [
  | none ↦ c
  | some info ↦
      save_pools
        (record (pool_state c) {
          pools = insert a (record info { spent = info.spent +ℤ amount }) (pool_state c).pools;
        })
        c
]

abbrev pub lesser : ℕ → ℕ → ℕ
lesser a b = if leb a b then a else b

-- What `on_epoch_boundary` does to the staking pool while epochs are left.
unfoldable pub release_step : Pool → Pool
release_step info = record info {
  released = lesser info.total (info.released + info.total / release_epochs);
}

-- The state that `on_epoch_boundary` saves, and what it has released.
unfoldable pub release_epoch : Addresses → PoolState → PoolState × ℕ
unfolding release_step
release_epoch at state = elim (lookup at.staking state.pools) [
  | none ↦ (state, 0)
  | some info ↦
      if ltb state.staking_epochs_released release_epochs
      then (
        record state {
          pools = insert at.staking (release_step info) state.pools;
          staking_epochs_released = state.staking_epochs_released + 1;
        },
        (release_step info).released - info.released,
      )
      else (state, 0)
]

-- `on_epoch_boundary`, and `staking_released_delta` of its answer (nothing where it is skipped).
unfoldable pub on_epoch_boundary : Addresses → ℕ → Connection → ℕ × Connection
unfolding pool_state release_epoch save_pools
on_epoch_boundary at epoch c =
    let state = pool_state c in
    let next = release_epoch at state in
    if leb_ℤ (pos epoch) state.last_epoch
    then (0, c)
    else (next.1, save_pools (record (next.0) { last_epoch = pos epoch }) c)

-- `n` rounds of the loop of `catch_up_epochs`, from epoch `from`.
unfoldable pub catch_up : Addresses → ℕ → ℕ → ℕ → Connection → ℕ × Connection
unfolding on_epoch_boundary
catch_up at zero from total c = (total, c)
catch_up at (suc n) from total c =
    let r = on_epoch_boundary at from c in catch_up at n (from + 1) (total + r.0) r.1

unfoldable pub catch_up_epochs : Addresses → ℕ → Connection → ℕ × Connection
unfolding catch_up
catch_up_epochs at current = catch_up at (current + 1) 0 0
