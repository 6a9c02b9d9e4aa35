-- ===== src/Evm/Run.antt =====
-- The loop of `execute_bytecode` (evm_interpreter.py). It takes fuel; `Evm.Termination` gives a
-- fuel that always suffices.
use absolute_blockchain_ulti.Base.{
  ℕ, zero, suc, ◌+◌, Bool, true, false, Option, none, some, List, [], ◌∷◌, ◌&&◌, ◌||◌, not, Result,
  ok, raised, if◌then◌else◌, get_elem?,
}
use absolute_blockchain_ulti.Base.Dict.{Dict}
use absolute_blockchain_ulti.Evm.Opcode.{Opcode, decode, gas_cost}
use absolute_blockchain_ulti.Evm.State.{
  Fault, Evm, M, ◌>>=◌, ◌>>◌, pure, gets, set_pc, append_trace, consume_gas, LogEntry, TraceEntry,
}
use absolute_blockchain_ulti.Evm.Call.{Context}
use absolute_blockchain_ulti.Evm.Exec.{Flow, next, jumped, halted, exec}

module _ {W : Type 0} where
  -- LOG charges in its own branch.
  unfoldable pub charge : Opcode → M W (Unit {0})
  charge (Opcode.log n) = pure tt
  charge op = consume_gas (gas_cost op)

  -- `self.pc += 1`, unless the branch has said `continue` or `break`
  unfoldable pub advance : Flow → M W (Unit {0})
  advance next = do pc ← gets (λ s. s.pc); set_pc (pc + 1)
  advance jumped = pure tt
  advance halted = pure tt

  -- One iteration.
  unfoldable pub step : Context W → Opcode → M W (Unit {0})
  step ctx op = do charge op; append_trace op; flow ← exec ctx op; advance flow

  -- `none` means that the fuel ran out.
  unfoldable pub run : ℕ → Context W → Evm W → Option (Result Fault (Evm W))
  run zero ctx s = none
  run (suc fuel) ctx s = elim (if s.running then get_elem? s.bytecode s.pc else none) [
    | none ↦ some (ok s)
    | some b ↦ elim (step ctx (decode b) s) [
      | ok (_, s') ↦ run fuel ctx s'
      | raised e ↦ some (raised e)
    ]
  ]

  -- What `execute_bytecode` sets before the loop: memory and storage stay.
  unfoldable pub start : List ℕ → Evm W → Evm W
  start code s = record s {
    pc = 0;
    stack = [];
    gas_used = 0;
    running = true;
    reverted = false;
    return_data = [];
    trace = [];
    logs = [];
    bytecode = code;
  }

-- `bool(l)`
abbrev pub non_empty {ℓ} : {A : Type ℓ} → List A → Bool
non_empty [] = false
non_empty (_ ∷ _) = true

-- The dictionary that `execute_bytecode` returns.
pub record Outcome : Type 0 where
  pub success : Bool
  pub reverted : Bool
  pub stack : List ℕ
  pub memory : List ℕ
  pub storage : Dict ℕ ℕ
  pub gas_used : ℕ
  pub return_data : List ℕ
  pub trace : List TraceEntry
  pub logs : List LogEntry

module _ {W : Type 0} where
  unfoldable pub outcome : Evm W → Outcome
  outcome s = record {
    success = s.running || (not s.reverted && (non_empty s.return_data || non_empty s.stack));
    reverted = s.reverted;
    stack = s.stack;
    memory = s.memory;
    storage = s.storage;
    gas_used = s.gas_used;
    return_data = s.return_data;
    trace = s.trace;
    logs = s.logs;
  }

  -- The returned dictionary beside the object that stays.
  unfoldable pub execute_bytecode :
      ℕ → Context W → List ℕ → Evm W → Option (Result Fault (Outcome × Evm W))
  execute_bytecode fuel ctx code s = elim (run fuel ctx (start code s)) [
    | none ↦ none
    | some (ok s') ↦ some (ok (outcome s', s'))
    | some (raised e) ↦ some (raised e)
  ]
