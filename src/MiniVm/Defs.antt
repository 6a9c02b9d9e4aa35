-- ===== src/MiniVm/Defs.antt =====
-- The machine's state, its gas table, one step and the loop of `execute` (execution/vm.py).
use absolute_blockchain_ulti.Base.{
  ℕ, zero, suc, ◌+◌, Bool, true, false, Option, none, some, List, [], ◌∷◌, Result, ok, raised,
  ◌>>=◌, if◌then◌else◌, ltb, leb, length, get_elem?,
}
use absolute_blockchain_ulti.Base.Int.{
  ℤ, pos, negsuc, ◌+ℤ◌, ◌-ℤ◌, ◌*ℤ◌, floor_div, ltb_ℤ, int_beq, int_eq,
}
use absolute_blockchain_ulti.Base.Dict.{Dict, lookup, insert, or_else}

-- The mnemonics that `execute` tests for; `other` is any other string.
pub data Op : Type 0 where
  push pop add sub mul div store sstore mstore load sload mload inc dec eq lt gt : Op
  jump jumpi stop other : Op

-- The exceptions that `execute` raises; `pop_empty` is the IndexError of `[].pop()`.
pub data Fault : Type 0 where
  out_of_gas push_needs_argument pop_empty invalid_jump unknown_opcode : Fault

pub record Vm : Type 0 where
  pub stack : List ℤ
  pub storage : Dict ℤ ℤ
  pub gas_used : ℕ
  pub gas_limit : ℕ
  pub pc : ℕ
  pub running : Bool

abbrev pub Code : Type 0
Code = List (Op × Option ℤ)

-- `GAS_COSTS`, with the default 1 of `.get(op, 1)`
unfoldable pub gas_cost : Op → ℕ
gas_cost Op.push = 2
gas_cost Op.pop = 2
gas_cost Op.add = 3
gas_cost Op.sub = 3
gas_cost Op.mul = 5
gas_cost Op.div = 5
gas_cost Op.store = 20
gas_cost Op.sstore = 20
gas_cost Op.mstore = 20
gas_cost Op.load = 20
gas_cost Op.sload = 20
gas_cost Op.mload = 20
gas_cost Op.inc = 2
gas_cost Op.dec = 2
gas_cost Op.eq = 3
gas_cost Op.lt = 3
gas_cost Op.gt = 3
gas_cost Op.jump = 1
gas_cost Op.jumpi = 1
gas_cost Op.stop = 0
gas_cost Op.other = 1

-- `_consume_gas`
unfoldable pub consume_gas : Op → Vm → Result Fault Vm
consume_gas op m =
    if ltb m.gas_limit (m.gas_used + gas_cost op)
    then raised out_of_gas
    else ok (record m { gas_used = m.gas_used + gas_cost op })

-- The end of an iteration: a new stack, and `self.pc += 1`.
abbrev pub advance : List ℤ → Vm → Result Fault Vm
advance s m = ok (record m { stack = s; pc = m.pc + 1 })

-- `b = pop(); a = pop(); push(f a b)`, on a stack that has its top first.
unfoldable pub binary : (ℤ → ℤ → ℤ) → List ℤ → Vm → Result Fault Vm
binary f (b ∷ a ∷ s) m = advance (f a b ∷ s) m
binary f _ m = raised pop_empty

-- `a // b if b != 0 else 0`
unfoldable pub div_or_zero : ℤ → ℤ → ℤ
div_or_zero a b = if int_beq b (pos 0) then pos 0 else floor_div a b

-- `1 if c else 0`
abbrev pub flag : Bool → ℤ
flag c = if c then pos 1 else pos 0

unfoldable pub do_store : List ℤ → Vm → Result Fault Vm
do_store (value ∷ key ∷ s) m =
    ok (record m { stack = s; storage = insert key value m.storage; pc = m.pc + 1 })
do_store _ m = raised pop_empty

unfoldable pub do_load : List ℤ → Vm → Result Fault Vm
do_load (key ∷ s) m = advance (or_else (lookup key m.storage) (pos 0) ∷ s) m
do_load [] m = raised pop_empty

-- `if not stack: stack.append(0)`, then `stack[-1] += 1` or `-= 1`
unfoldable pub bump : (ℤ → ℤ) → List ℤ → Vm → Result Fault Vm
bump f (a ∷ s) m = advance (f a ∷ s) m
bump f [] m = advance (f (pos 0) ∷ []) m

-- A jump: a destination below 0 or past the code is refused.
unfoldable pub jump_to : ℕ → ℤ → List ℤ → Vm → Result Fault Vm
jump_to size (negsuc _) s m = raised invalid_jump
jump_to size (pos dest) s m =
    if leb size dest then raised invalid_jump else ok (record m { stack = s; pc = dest })

unfoldable pub do_jump : ℕ → List ℤ → Vm → Result Fault Vm
unfolding jump_to
do_jump size (dest ∷ s) m = jump_to size dest s m
do_jump size [] m = raised pop_empty

unfoldable pub do_jumpi : ℕ → List ℤ → Vm → Result Fault Vm
unfolding jump_to
do_jumpi size (dest ∷ c ∷ s) m = if int_beq c (pos 0) then advance s m else jump_to size dest s m
do_jumpi size _ m = raised pop_empty

unfoldable pub do_push : Option ℤ → List ℤ → Vm → Result Fault Vm
do_push none s m = raised push_needs_argument
do_push (some v) s m = advance (v ∷ s) m

unfoldable pub do_pop : List ℤ → Vm → Result Fault Vm
do_pop (_ ∷ s) m = advance s m
do_pop [] m = raised pop_empty

-- The branches of the `if`/`elif` chain, for code of `size` entries.
unfoldable pub dispatch : ℕ → Op → Option ℤ → Vm → Result Fault Vm
unfolding binary div_or_zero do_store do_load bump do_jump do_jumpi do_push do_pop ◌+ℤ◌ ◌-ℤ◌ ◌*ℤ◌
    floor_div
dispatch size Op.push arg m = do_push arg m.stack m
dispatch size Op.pop arg m = do_pop m.stack m
dispatch size Op.add arg m = binary ◌+ℤ◌ m.stack m
dispatch size Op.sub arg m = binary ◌-ℤ◌ m.stack m
dispatch size Op.mul arg m = binary ◌*ℤ◌ m.stack m
dispatch size Op.div arg m = binary div_or_zero m.stack m
dispatch size Op.store arg m = do_store m.stack m
dispatch size Op.sstore arg m = do_store m.stack m
dispatch size Op.mstore arg m = do_store m.stack m
dispatch size Op.load arg m = do_load m.stack m
dispatch size Op.sload arg m = do_load m.stack m
dispatch size Op.mload arg m = do_load m.stack m
dispatch size Op.inc arg m = bump (λ a. a +ℤ pos 1) m.stack m
dispatch size Op.dec arg m = bump (λ a. a -ℤ pos 1) m.stack m
dispatch size Op.eq arg m = binary (λ a b. flag (int_beq a b)) m.stack m
dispatch size Op.lt arg m = binary (λ a b. flag (ltb_ℤ a b)) m.stack m
dispatch size Op.gt arg m = binary (λ a b. flag (ltb_ℤ b a)) m.stack m
dispatch size Op.jump arg m = do_jump size m.stack m
dispatch size Op.jumpi arg m = do_jumpi size m.stack m
dispatch size Op.stop arg m = ok (record m { running = false })
dispatch size Op.other arg m = raised unknown_opcode

-- One iteration of the loop, on the instruction at `pc`.
unfoldable pub step : ℕ → Op × Option ℤ → Vm → Result Fault Vm
unfolding consume_gas gas_cost dispatch
step size (op, arg) m = do m' ← consume_gas op m; dispatch size op arg m'

-- `while self.pc < len(bytecode) and self.running`. `none` means that the fuel ran out.
unfoldable pub run : ℕ → Code → Vm → Option (Result Fault Vm)
run zero code m = none
run (suc fuel) code m = elim (if m.running then get_elem? code m.pc else none) [
  | none ↦ some (ok m)
  | some i ↦ elim (step (length code) i m) [ ok m' ↦ run fuel code m' | raised f ↦ some (raised f) ]
]

-- `__init__`
unfoldable pub init : ℕ → Vm
init limit = record {
  stack = [];
  storage = [];
  gas_used = 0;
  gas_limit = limit;
  pc = 0;
  running = true;
}

-- The state that `execute` sets up: the storage stays.
unfoldable pub start : Vm → Vm
start m = record m { pc = 0; gas_used = 0; stack = []; running = true }

-- The dictionary that `execute` returns.
pub record Outcome : Type 0 where
  pub stack : List ℤ
  pub storage : Dict ℤ ℤ
  pub gas_used : ℕ
  pub success : Bool

unfoldable pub outcome : Vm → Outcome
outcome m = record {
  stack = m.stack;
  storage = m.storage;
  gas_used = m.gas_used;
  success = leb m.gas_used m.gas_limit;
}

unfoldable pub execute : ℕ → Code → Vm → Option (Result Fault Outcome)
unfolding start outcome
execute fuel code m = elim (run fuel code (start m)) [
  | none ↦ none
  | some (ok m') ↦ some (ok (outcome m'))
  | some (raised f) ↦ some (raised f)
]

-- `reset`: the gas limit and the running flag stay.
unfoldable pub reset : Vm → Vm
reset m = record m { stack = []; storage = []; gas_used = 0; pc = 0 }
