-- ===== src/Satoshi/Tests.antt =====
-- A replay of blockchain/immutable_state.py.
use absolute_blockchain_ulti.Base.{◌≡◌, refl, List, [], ◌∷◌}
use absolute_blockchain_ulti.Base.Int.{pos, ◌-ℤ◌, ◌+ℤ◌}
use absolute_blockchain_ulti.Base.Dict.{lookup, insert}
use absolute_blockchain_ulti.Satoshi.{
  State, Payment, new_account, ensure_account, balance_of, add_balance, apply_transaction, replay,
  get_total_supply_satoshi, all_burned, replay-all_burned,
}

abbrev state : State
state = (1, record new_account { balance_satoshi = pos 100 }) ∷ []

-- 30 to account 2 at a fee of 5, twice, and a payment that account 2 cannot cover.
abbrev payments : List Payment
payments =
    record { from_addr = 1; to_addr = 2; amount_satoshi = pos 30; fee_satoshi = pos 5 }
    ∷ record { from_addr = 1; to_addr = 2; amount_satoshi = pos 30; fee_satoshi = pos 5 }
    ∷ record { from_addr = 2; to_addr = 1; amount_satoshi = pos 70; fee_satoshi = pos 1 }
    ∷ []

supply-payments : get_total_supply_satoshi (replay payments state) ≡ pos 90
unfolding lookup insert ensure_account balance_of add_balance apply_transaction replay
    get_total_supply_satoshi ◌-ℤ◌ ◌+ℤ◌
supply-payments = refl

replay-all_burned_example :
    get_total_supply_satoshi (replay payments state)
    ≡ get_total_supply_satoshi state -ℤ all_burned payments state
replay-all_burned_example = replay-all_burned payments state
