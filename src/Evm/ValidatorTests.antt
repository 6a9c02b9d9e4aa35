-- ===== src/Evm/ValidatorTests.antt =====
-- The check of execution/evm_bytecode_validator.py at concrete codes.
use absolute_blockchain_ulti.Base.{
  ℕ, ◌≡◌, refl, true, false, none, some, List, take, drop, replicate, [], ◌∷◌, ◌&&◌, not, arith,
  nat_eq,
}
use absolute_blockchain_ulti.Base.Set.{member}
use absolute_blockchain_ulti.Evm.Word.{to_word, read_bytes}
use absolute_blockchain_ulti.Evm.Memory.{slice, pad_right}
use absolute_blockchain_ulti.Evm.Opcode.{Opcode, decode, gas_cost}
use absolute_blockchain_ulti.Evm.State.{
  Evm, ◌>>=◌, ◌>>◌, pure, gets, set_pc, push_word, append_trace, consume_gas, init,
}
use absolute_blockchain_ulti.Evm.Call.{Context}
use absolute_blockchain_ulti.Evm.Exec.{exec, do_push_n, read_push}
use absolute_blockchain_ulti.Evm.Run.{start, step, charge, advance}
use absolute_blockchain_ulti.Evm.Stepping.{Runs}
use absolute_blockchain_ulti.Evm.Validator.{
  has_branch, unlisted, is_supported_opcode, next_pc, scan_from, scan_bytecode,
  is_supported_opcode-decode, scan_bytecode-decode,
}

scanning : Unit {0}
unfolding is_supported_opcode next_pc scan_from scan_bytecode member
scanning = tt

-- PUSH1 0x42, STOP: the data of PUSH is TIMESTAMP's byte.
abbrev code : List ℕ
code = 0x60 ∷ 0x42 ∷ 0x00 ∷ []

scan_bytecode-timestamp :
    scan_bytecode (0x42 ∷ []) ≡ some (false, record { pc = 0; opcode = 0x42 } ∷ [])
unfolding scanning
scan_bytecode-timestamp = refl

is_supported_opcode-decode_example :
    is_supported_opcode 0x42 ≡ (has_branch (decode 0x42) && not (member 0x42 unlisted))
is_supported_opcode-decode_example = is_supported_opcode-decode 0x42 (omega arith)

abbrev context : Context (Unit {0})
context = record {
  caller = 7;
  origin = 7;
  address = 9;
  calldata = [];
  value = 0;
  block_number = 1;
  timestamp = 100;
  chain_id = 1;
  balance_of = none;
  code_size_of = none;
  code_copy_of = none;
  block_hash_of = none;
  emit_log = none;
  selfdestruct = none;
  contract_call = none;
  contract_create = none;
  sha3_256 = λ _. 0;
}

-- After the first iteration.
abbrev pushed : Evm (Unit {0})
pushed = record (start code (init 100 tt)) {
  pc = 2;
  stack = 0x42 ∷ [];
  gas_used = 3;
  trace = record { pc = 0; op = Opcode.push 1; stack_depth = 0 } ∷ [];
}

scan_bytecode-decode_example : has_branch (decode 0x00) ≡ true
unfolding scanning decode step charge append_trace exec do_push_n advance ◌>>=◌ ◌>>◌ pure gets
    set_pc push_word consume_gas gas_cost read_push slice pad_right start init to_word read_bytes
    take drop replicate
scan_bytecode-decode_example =
    scan_bytecode-decode context code (init 100 tt) pushed {op = 0x00} {is = []}
      (omega arith, (omega arith, (omega arith, tt))) refl
      (Runs.ahead {t = pushed} {b = 0x60} refl refl refl Runs.here) refl
