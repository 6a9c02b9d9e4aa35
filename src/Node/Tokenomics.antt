-- ===== src/Node/Tokenomics.antt =====
-- runtime/tokenomics.py: what the coins are allotted to.
use absolute_blockchain_ulti.Base.{
  ℕ, ◌*◌, ◌/◌, Bool, true, false, List, [], ◌∷◌, if◌then◌else◌, nat_eq,
}
use absolute_blockchain_ulti.Base.Dict.{Dict, insert}
use absolute_blockchain_ulti.Node.Strings.{non_empty}
use absolute_blockchain_ulti.Node.Tables.{PoolId}

-- One coin, in the units of the tables.
abbrev pub coin : ℕ
coin = 1000000000

abbrev pub max_supply_abs : ℕ
max_supply_abs = 221000000

abbrev pub founder_amount_abs : ℕ
founder_amount_abs = max_supply_abs * 174 / 1000

pub data Release : Type 0 where
  genesis_release mining_release staking_release : Release

-- The fields of `AllocationPool` that the code reads; the amount is in whole coins.
pub record AllocationPool : Type 0 where
  pub id : PoolId
  pub amount_abs : ℕ
  pub address_key : ℕ
  pub locked : Bool
  pub release_type : Release

-- The addresses in the source, which are only compared.
pub record Addresses : Type 0 where
  pub default_founder : ℕ
  pub ecosystem : ℕ
  pub treasury : ℕ
  pub staking : ℕ
  pub mining : ℕ

unfoldable pub build_allocations : Addresses → ℕ → List AllocationPool
build_allocations at founder =
    (record {
      id = PoolId.founder;
      amount_abs = founder_amount_abs;
      address_key = if non_empty founder then founder else at.default_founder;
      locked = false;
      release_type = genesis_release;
    })
    ∷ (record {
      id = PoolId.ecosystem;
      amount_abs = max_supply_abs * 10 / 100;
      address_key = at.ecosystem;
      locked = true;
      release_type = genesis_release;
    })
    ∷ (record {
      id = PoolId.treasury;
      amount_abs = max_supply_abs * 10 / 100;
      address_key = at.treasury;
      locked = true;
      release_type = genesis_release;
    })
    ∷ (record {
      id = PoolId.staking;
      amount_abs = max_supply_abs * 126 / 1000;
      address_key = at.staking;
      locked = true;
      release_type = staking_release;
    })
    ∷ (record {
      id = PoolId.mining;
      amount_abs = max_supply_abs * 50 / 100;
      address_key = at.mining;
      locked = false;
      release_type = mining_release;
    })
    ∷ []

abbrev pub is_genesis : Release → Bool
is_genesis genesis_release = true
is_genesis _ = false

-- The loop of `genesis_balances`, in the units of the tables.
unfoldable pub genesis_of : List AllocationPool → Dict ℕ ℕ → Dict ℕ ℕ
genesis_of [] result = result
genesis_of (pool ∷ pools) result = genesis_of pools (
    if is_genesis pool.release_type
    then insert pool.address_key (pool.amount_abs * coin) result
    else result)

unfoldable pub genesis_balances : Addresses → ℕ → Dict ℕ ℕ
unfolding genesis_of build_allocations
genesis_balances at founder = genesis_of (build_allocations at founder) []

unfoldable pub resolve_founder_address : Addresses → ℕ → ℕ → ℕ
resolve_founder_address at founder miner =
    if non_empty founder then founder else if non_empty miner then miner else at.default_founder
