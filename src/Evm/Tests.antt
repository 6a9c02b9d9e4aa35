-- ===== src/Evm/Tests.antt =====
-- Runs of evm_interpreter.py, and the theorems about it at concrete codes.
use absolute_blockchain_ulti.Base.{
  ℕ, ◌≤◌, ◌≡◌, refl, true, none, some, List, [], ◌∷◌, Result, ok, raised, arith, All, nat_eq,
  Option, ◌-◌, ◌^◌, take, drop, replicate,
}
use absolute_blockchain_ulti.Base.Dict.{Dict, IsDict, lookup}
use absolute_blockchain_ulti.Evm.Word.{to_word, read_bytes, sub_word}
use absolute_blockchain_ulti.Evm.Memory.{slice, splice, mem_extend, write_word, pad_right, copy_in}
use absolute_blockchain_ulti.Evm.Opcode.{Opcode, decode, gas_cost}
use absolute_blockchain_ulti.Evm.State.{
  Fault, Evm, init, ◌>>=◌, ◌>>◌, pure, gets, set_memory, set_pc, set_return_data, stop_running,
  append_trace, consume_gas, push_word, pop_word,
}
use absolute_blockchain_ulti.Evm.Call.{Context}
use absolute_blockchain_ulti.Evm.Exec.{
  Flow, read_push, do_push_n, do_binary, do_mstore, read_memory, do_return, do_stop, store_word,
  exec, do_push, do_jump, jump_to, is_jumpdest, do_unary,
}
use absolute_blockchain_ulti.Evm.Run.{
  charge, advance, step, run, start, outcome, execute_bytecode, Outcome,
}
use absolute_blockchain_ulti.Evm.Sound.{IsWord}
use absolute_blockchain_ulti.Evm.Safety.{execute_bytecode-safe}
use absolute_blockchain_ulti.Evm.Termination.{execute_bytecode-total}
use absolute_blockchain_ulti.Evm.Roundtrip.{mload-mstore}

program : Unit {0}
unfolding decode gas_cost ◌>>=◌ ◌>>◌ pure gets set_memory set_pc set_return_data stop_running
    append_trace consume_gas push_word pop_word read_push do_push_n do_push do_binary do_unary
    do_mstore read_memory do_return do_stop do_jump jump_to is_jumpdest exec charge advance step run
    start outcome execute_bytecode init to_word read_bytes slice splice mem_extend write_word
    pad_right copy_in store_word take drop replicate sub_word
program = tt

-- A node without callbacks, and a stand-in for the digest.
abbrev context : Context (Unit {0})
context = record {
  caller = 7;
  origin = 7;
  address = 9;
  calldata = 1 ∷ 2 ∷ [];
  value = 0;
  block_number = 1;
  timestamp = 100;
  chain_id = 1;
  balance_of = none;
  code_size_of = none;
  code_copy_of = none;
  block_hash_of = none;
  emit_log = none;
  selfdestruct = none;
  contract_call = none;
  contract_create = none;
  sha3_256 = λ _. 0;
}

-- PUSH1 5, PUSH1 3, SUB
abbrev subtract : List ℕ
subtract = 0x60 ∷ 5 ∷ 0x60 ∷ 3 ∷ 0x03 ∷ []

abbrev fresh : Evm (Unit {0})
fresh = init 100 tt

abbrev subtracted : Option (Result Fault (Outcome × Evm (Unit {0})))
unfolding program
subtracted = execute_bytecode 103 context subtract fresh

abbrev difference : Outcome
unfolding program
difference = elim subtracted [ some (ok (o, _)) ↦ o | _ ↦ outcome fresh ]

abbrev stopped : Evm (Unit {0})
unfolding program
stopped = elim subtracted [ some (ok (_, s)) ↦ s | _ ↦ fresh ]

run-subtract : execute_bytecode 103 context subtract fresh ≡ some (ok (difference, stopped))
unfolding program
run-subtract = refl

stack-difference : difference.stack ≡ (2 ^ 256 - 2) ∷ []
unfolding program
stack-difference = refl

gas-difference : (difference.gas_used ≡ 9) × (difference.success ≡ true)
unfolding program
gas-difference = (refl, refl)

execute_bytecode-safe_example : (difference.gas_used ≤ 100) × All IsWord difference.stack
unfolding program
execute_bytecode-safe_example =
    execute_bytecode-safe context 103 subtract fresh {o = difference} {s' = stopped} run-subtract

-- JUMPDEST, PUSH1 0, JUMP: a loop that the gas ends
abbrev loop : List ℕ
loop = 0x5b ∷ 0x60 ∷ 0 ∷ 0x56 ∷ []

execute_bytecode-loop : execute_bytecode 103 context loop fresh ≡ some (raised Fault.out_of_gas)
unfolding program
execute_bytecode-loop = refl

execute_bytecode-total_example :
    (r : Result Fault (Outcome × Evm (Unit {0}))) × (execute_bytecode 103 context loop fresh
      ≡ some r)
unfolding program
execute_bytecode-total_example = execute_bytecode-total context 103 loop fresh (omega arith)

-- A word that lies across the end of the memory.
mload-mstore_example :
    (exec context Opcode.mstore >>= λ _. push_word 3 >> exec context Opcode.mload)
      (record (init 100 tt) { memory = 1 ∷ 2 ∷ 3 ∷ 4 ∷ []; stack = 3 ∷ 258 ∷ 5 ∷ [] })
    ≡ ok (
      Flow.next,
      record (init 100 tt) { stack = 258 ∷ 5 ∷ []; memory = write_word 3 258 (1 ∷ 2 ∷ 3 ∷ 4 ∷ []) },
    )
unfolding init
mload-mstore_example =
    mload-mstore context 3 258 (5 ∷ []) (record (init 100 tt) { memory = 1 ∷ 2 ∷ 3 ∷ 4 ∷ [] })
      (omega arith) (omega arith)

abbrev storage : Dict ℕ ℕ
storage = (4, 8) ∷ (5, 1) ∷ []

storage-IsDict : IsDict storage
unfolding lookup
storage-IsDict = (refl, (refl, tt))
