-- ===== src/MiniVm/Tests.antt =====
-- Runs of the machine of execution/vm.py, and its theorems at concrete programs.
use absolute_blockchain_ulti.Base.{◌+◌, ◌≡◌, refl, true, none, some, [], ◌∷◌, Result, ok, raised}
use absolute_blockchain_ulti.Base.Int.{pos, negsuc}
use absolute_blockchain_ulti.MiniVm.Defs.{Op, Fault, Code, Outcome, step, run, execute, init}
use absolute_blockchain_ulti.Base.Dict.{insert, lookup}
use absolute_blockchain_ulti.MiniVm.Termination.{execute_total}

program : Unit {0}
unfolding step run execute init insert lookup
program = tt

-- PUSH 7, PUSH 5, SUB, PUSH 3, PUSH 9, SSTORE, STOP
abbrev code : Code
code =
    (Op.push, some (pos 5))
    ∷ (Op.push, some (pos 7))
    ∷ (Op.sub, none)
    ∷ (Op.push, some (pos 3))
    ∷ (Op.push, some (pos 9))
    ∷ (Op.sstore, none)
    ∷ (Op.stop, none)
    ∷ []

abbrev after : Outcome
after = record {
  stack = negsuc 1 ∷ [];
  storage = (pos 3, pos 9) ∷ [];
  gas_used = 31;
  success = true;
}

execute-code : execute 20 code (init 100) ≡ some (ok after)
unfolding program
execute-code = refl

-- JUMPDEST-free loop: PUSH 0, JUMP runs until the gas is gone.
abbrev loop : Code
loop = (Op.push, some (pos 0)) ∷ (Op.jump, none) ∷ []

execute-loop : execute 20 loop (init 10) ≡ some (raised Fault.out_of_gas)
unfolding program
execute-loop = refl

execute_total_example :
    (r : Result Fault Outcome) × (execute 13 loop (init 10) ≡ some r)
    × (execute (13 + 7) loop (init 10) ≡ some r)
unfolding program
execute_total_example = execute_total loop (init 10) 7
