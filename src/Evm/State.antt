-- ===== src/Evm/State.antt =====
-- The interpreter's state and its monad: a step returns with a new state, or raises (class EVM of
-- evm_interpreter.py). The stack is kept top first. `W` is the state of the world behind the
-- callbacks of the context.
use absolute_blockchain_ulti.Base.{
  ℕ, zero, suc, ◌+◌, ◌-◌, Bool, true, false, Option, none, some, List, [], ◌∷◌, ◌++◌, Result, ok,
  raised, if◌then◌else◌, ltb, length, get_elem?,
}
use absolute_blockchain_ulti.Base.Dict.{Dict}
use absolute_blockchain_ulti.Evm.Word.{to_word}
use absolute_blockchain_ulti.Evm.Opcode.{Opcode}

pub data Fault : Type 0 where
  out_of_gas stack_underflow invalid_jump invalid_opcode unsupported_opcode : Fault

pub record LogEntry : Type 0 where
  pub topics : List ℕ
  pub contents : List ℕ

pub record TraceEntry : Type 0 where
  pub pc : ℕ
  pub op : Opcode
  pub stack_depth : ℕ

pub record Evm (W : Type 0) : Type 0 where
  pub stack : List ℕ
  pub memory : List ℕ
  pub storage : Dict ℕ ℕ
  pub gas_used : ℕ
  pub gas_limit : ℕ
  pub pc : ℕ
  pub running : Bool
  pub reverted : Bool
  pub return_data : List ℕ
  pub trace : List TraceEntry
  pub bytecode : List ℕ
  pub logs : List LogEntry
  pub world : W

-- `__init__`
unfoldable pub init : {W : Type 0} → ℕ → W → Evm W
init limit w = record {
  stack = [];
  memory = [];
  storage = [];
  gas_used = 0;
  gas_limit = limit;
  pc = 0;
  running = true;
  reverted = false;
  return_data = [];
  trace = [];
  bytecode = [];
  logs = [];
  world = w;
}

abbrev pub M : Type 0 → Type 0 → Type 0
M W A = Evm W → Result Fault (A × Evm W)

infixl 5 ◌>>=◌ ◌>>◌
unfoldable pub ◌>>=◌ : {W A B : Type 0} → M W A → (A → M W B) → M W B
◌>>=◌ m f s = elim (m s) [ ok (a, s') ↦ f a s' | raised e ↦ raised e ]

unfoldable pub ◌>>◌ : {W B : Type 0} → M W (Unit {0}) → M W B → M W B
unfolding ◌>>=◌
m >> k = m >>= λ _. k

module _ {W : Type 0} where
  unfoldable pub pure : {A : Type 0} → A → M W A
  pure a s = ok (a, s)

  unfoldable pub fail : {A : Type 0} → Fault → M W A
  fail e s = raised e

  unfoldable pub gets : {A : Type 0} → (Evm W → A) → M W A
  gets f s = ok (f s, s)

  -- Writes to single attributes.
  unfoldable pub set_memory : List ℕ → M W (Unit {0})
  set_memory m s = ok (tt, record s { memory = m })

  unfoldable pub set_storage : Dict ℕ ℕ → M W (Unit {0})
  set_storage d s = ok (tt, record s { storage = d })

  unfoldable pub set_return_data : List ℕ → M W (Unit {0})
  set_return_data d s = ok (tt, record s { return_data = d })

  unfoldable pub set_pc : ℕ → M W (Unit {0})
  set_pc pc s = ok (tt, record s { pc = pc })

  unfoldable pub set_world : W → M W (Unit {0})
  set_world w s = ok (tt, record s { world = w })

  unfoldable pub set_reverted : M W (Unit {0})
  set_reverted s = ok (tt, record s { reverted = true })

  unfoldable pub stop_running : M W (Unit {0})
  stop_running s = ok (tt, record s { running = false })

  unfoldable pub append_log : LogEntry → M W (Unit {0})
  append_log l s = ok (tt, record s { logs = s.logs ++ l ∷ [] })

  -- `self.trace.append(…)`
  unfoldable pub append_trace : Opcode → M W (Unit {0})
  append_trace op s = ok (
    tt,
    record s {
      trace = s.trace ++ record { pc = s.pc; op = op; stack_depth = length s.stack } ∷ [];
    },
  )

  -- `_consume_gas`, of the cost in the table and the extra
  unfoldable pub consume_gas : ℕ → M W (Unit {0})
  consume_gas cost s =
      if ltb s.gas_limit (s.gas_used + cost)
      then raised out_of_gas
      else ok (tt, record s { gas_used = s.gas_used + cost })

  -- `_charge_subcall_gas`: the test follows the write, which an exception does not undo.
  unfoldable pub charge_subcall_gas : ℕ → M W (Unit {0})
  charge_subcall_gas sub_gas s =
      if ltb 0 sub_gas
      then if ltb s.gas_limit (s.gas_used + sub_gas)
        then raised out_of_gas
        else ok (tt, record s { gas_used = s.gas_used + sub_gas })
      else ok (tt, s)

  -- `_push`
  unfoldable pub push_word : ℕ → M W (Unit {0})
  push_word value s = ok (tt, record s { stack = to_word value ∷ s.stack })

  unfoldable pub pop_from : List ℕ → M W ℕ
  pop_from [] s = raised stack_underflow
  pop_from (x ∷ xs) s = ok (x, record s { stack = xs })

  -- `_pop`
  unfoldable pub pop_word : M W ℕ
  unfolding pop_from
  pop_word s = pop_from s.stack s

  -- `max(0, self.gas_limit - self.gas_used)`
  abbrev pub remaining_gas : Evm W → ℕ
  remaining_gas s = s.gas_limit - s.gas_used

-- `self.stack[-n]`
unfoldable pub peek : ℕ → List ℕ → Option ℕ
peek zero stack = none
peek (suc n) stack = get_elem? stack n

-- `stack[i] = v`
unfoldable pub set_at : ℕ → ℕ → List ℕ → List ℕ
set_at i v [] = []
set_at zero v (x ∷ xs) = v ∷ xs
set_at (suc i) v (x ∷ xs) = x ∷ set_at i v xs

module _ {W : Type 0} where
  unfoldable pub push_found : Option ℕ → M W (Unit {0})
  push_found none s = raised stack_underflow
  push_found (some v) s = push_word v s

  -- DUP1..DUP16
  unfoldable pub dup_word : ℕ → M W (Unit {0})
  dup_word n s =
      if ltb (length s.stack) n then raised stack_underflow else push_found (peek n s.stack) s

  unfoldable pub swap_in : ℕ → List ℕ → Evm W → Result Fault (Unit {0} × Evm W)
  swap_in n [] s = raised stack_underflow
  swap_in n (a ∷ rest) s = elim (get_elem? rest n) [
    | none ↦ raised stack_underflow
    | some b ↦ ok (tt, record s { stack = b ∷ set_at n a rest })
  ]

  -- SWAP1..SWAP16: the top and the word `n` below it
  unfoldable pub swap_words : ℕ → M W (Unit {0})
  swap_words zero s = swap_in 0 [] s
  swap_words (suc n) s = swap_in n s.stack s
