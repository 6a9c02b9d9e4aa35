-- ===== src/Node/Pools/Votes.antt =====
-- `dao_vote` of runtime/pool_locks.py: the validators vote on unlocking a pool.
use absolute_blockchain_ulti.Base.{
  ℕ, ◌*◌, Bool, true, false, Option, none, some, List, [], ◌∷◌, Result, ok, raised, if◌then◌else◌,
  nat_eq, nat_beq, leb, length,
}
use absolute_blockchain_ulti.Base.Dict.{Dict, insert}
use absolute_blockchain_ulti.Base.Set.{member, add}
use absolute_blockchain_ulti.Node.Strings.{Strings}
use absolute_blockchain_ulti.Node.Tables.{Connection, Pool, PoolId}
use absolute_blockchain_ulti.Node.Pools.Locks.{under_dao, pool_state, save_pools}

pub data VoteError : Type 0 where
  invalid_pool not_a_validator pool_not_found : VoteError

pub record VoteAnswer : Type 0 where
  pub votes : ℕ
  pub validators : ℕ
  pub quorum_reached : Bool
  pub unlocked : Bool

abbrev pub same_pool : PoolId → PoolId → Bool
same_pool PoolId.founder PoolId.founder = true
same_pool PoolId.ecosystem PoolId.ecosystem = true
same_pool PoolId.treasury PoolId.treasury = true
same_pool PoolId.staking PoolId.staking = true
same_pool PoolId.mining PoolId.mining = true
same_pool _ _ = false

-- The first address that has the voter's letters, in upper or lower case.
unfoldable pub find_spelling : Strings → ℕ → List ℕ → Option ℕ
find_spelling str voter [] = none
find_spelling str voter (a ∷ validators) =
    if nat_beq (str.lower a) (str.lower voter) then some a else find_spelling str voter validators

-- The name under which the voter is registered; without a registry, anyone is.
unfoldable pub registered_as : Strings → ℕ → Option (List ℕ) → Option ℕ
unfolding find_spelling
registered_as str voter none = some voter
registered_as str voter (some validators) =
    if member voter validators then some voter else find_spelling str voter validators

unfoldable pub find_pool : PoolId → Dict ℕ Pool → Option (ℕ × Pool)
find_pool id [] = none
find_pool id (r ∷ pools) = if same_pool r.1.id id then some r else find_pool id pools

-- `max(1, len(validator_registry.validators))`
unfoldable pub total_validators_of : Option (List ℕ) → ℕ
total_validators_of none = 1
total_validators_of (some []) = 1
total_validators_of (some validators) = length validators

-- `vote_count / total_validators >= DAO_VOTE_THRESHOLD`, which is 0.51
unfoldable pub has_quorum : ℕ → ℕ → Bool
has_quorum votes validators = leb (51 * validators) (100 * votes)

-- The pool after a vote of `voter`.
unfoldable pub count_dao_vote : ℕ → Option (List ℕ) → Pool → Pool
unfolding has_quorum total_validators_of
count_dao_vote voter registry info =
    let votes = add voter info.dao_votes in
    if has_quorum (length votes) (total_validators_of registry)
    then record info { dao_votes = votes; dao_unlocked = true; locked = false }
    else record info { dao_votes = votes }

-- The rest of `dao_vote`, for a registered voter and the pool's address and entry.
unfoldable pub cast_dao_vote :
    Option (List ℕ)
    → Option ℕ
    → Option (ℕ × Pool)
    → Connection
    → Result VoteError VoteAnswer × Connection
unfolding pool_state save_pools count_dao_vote has_quorum total_validators_of
cast_dao_vote registry none found c = (raised not_a_validator, c)
cast_dao_vote registry (some voter) none c = (raised pool_not_found, c)
cast_dao_vote registry (some voter) (some (a, info)) c =
    let info' = count_dao_vote voter registry info in
    let state = pool_state c in
    (
      ok (record {
        votes = length info'.dao_votes;
        validators = total_validators_of registry;
        quorum_reached = has_quorum (length info'.dao_votes) (total_validators_of registry);
        unlocked = info'.dao_unlocked;
      }),
      save_pools (record state { pools = insert a info' state.pools }) c,
    )

unfoldable pub dao_vote :
    Strings → PoolId → ℕ → Option (List ℕ) → Connection → Result VoteError VoteAnswer × Connection
unfolding cast_dao_vote registered_as find_pool pool_state
dao_vote str id voter registry c =
    if under_dao id
    then cast_dao_vote registry (registered_as str voter registry)
        (find_pool id (pool_state c).pools) c
    else (raised invalid_pool, c)
