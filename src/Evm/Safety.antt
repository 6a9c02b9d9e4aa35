-- ===== src/Evm/Safety.antt =====
-- Every branch of `execute_bytecode` (evm_interpreter.py) keeps the meter and the words.
use absolute_blockchain_ulti.Base.{
  ℕ, zero, suc, ◌≤◌, ◌≡◌, Bool, true, false, Option, none, some, List, ◌∷◌, ok, if◌then◌else◌, All,
  arith, Result-cases, Option-cases, inl, inr, get_elem?,
}
use absolute_blockchain_ulti.Evm.Opcode.{Opcode, decode}
use absolute_blockchain_ulti.Evm.State.{Evm, M}
use absolute_blockchain_ulti.Evm.Call.{
  Context, CallRequest, CallOut, CallArgs, CreateOut, finish_call, execute_call, execute_create,
}
use absolute_blockchain_ulti.Evm.Exec.{
  Flow, next, do_unary, do_binary, do_push, do_push_n, do_pop, do_copy, read_memory, do_mload,
  do_mstore, do_mstore8, do_sload, do_sstore, jump_to, do_jump, jump_if, do_jumpi, pop_many,
  call_out, do_return, do_sha3, do_ask, do_calldataload, do_extcodecopy, do_log, do_create,
  do_create2, pop_value, do_call, do_selfdestruct, do_stop, exec,
}
use absolute_blockchain_ulti.Evm.Run.{
  charge, advance, step, run, start, execute_bytecode, Outcome, outcome,
}
use absolute_blockchain_ulti.Evm.Sound.{
  Keeps-refl, Keeps-trans, Sound-bind, Sound-then, Sound-pure, Sound-pop_word, Sound-consume_gas,
  Sound-append_trace, Sound, Keeps, IsWord, sound_rules,
}

module _ {W : Type 0} where
  Sound-do_unary : (f : ℕ → ℕ) → Sound {W = W} (do_unary f)
  unfolding do_unary
  Sound-do_unary f = search sound_rules depth 12

  Sound-do_binary : (f : ℕ → ℕ → ℕ) → Sound {W = W} (do_binary f)
  unfolding do_binary
  Sound-do_binary f = search sound_rules depth 12

  Sound-do_push : (f : Evm W → ℕ) → Sound {W = W} (do_push f)
  unfolding do_push
  Sound-do_push f = search sound_rules depth 14

  Sound-do_push_n : (n : ℕ) → Sound {W = W} (do_push_n n)
  unfolding do_push_n
  Sound-do_push_n n = search sound_rules depth 14

  Sound-do_pop : Sound {W = W} do_pop
  unfolding do_pop
  Sound-do_pop = search sound_rules depth 14

  Sound-do_copy : (f : Evm W → List ℕ) → Sound {W = W} (do_copy f)
  unfolding do_copy
  Sound-do_copy f = search sound_rules depth 18

  pub Sound-read_memory : (o n : ℕ) → Sound {W = W} (read_memory o n)
  unfolding read_memory
  Sound-read_memory o n = search sound_rules depth 14

  Sound-do_mload : Sound {W = W} do_mload
  unfolding do_mload
  Sound-do_mload = search (sound_rules, Sound-read_memory) depth 14

  Sound-do_mstore : Sound {W = W} do_mstore
  unfolding do_mstore
  Sound-do_mstore = search sound_rules depth 14

  Sound-do_mstore8 : Sound {W = W} do_mstore8
  unfolding do_mstore8
  Sound-do_mstore8 = search sound_rules depth 14

  Sound-do_sload : Sound {W = W} do_sload
  unfolding do_sload
  Sound-do_sload = search sound_rules depth 14

  Sound-do_sstore : Sound {W = W} do_sstore
  unfolding do_sstore
  Sound-do_sstore = search sound_rules depth 14

  Sound-jump_to : (b : Bool) (n : ℕ) → Sound {W = W} (jump_to b n)
  unfolding jump_to
  Sound-jump_to true n = search sound_rules depth 8
  Sound-jump_to false n = search sound_rules

  Sound-do_jump : Sound {W = W} do_jump
  unfolding do_jump
  Sound-do_jump = search (sound_rules, Sound-jump_to) depth 14

  Sound-jump_if : (b : Bool) (n : ℕ) → Sound {W = W} (jump_if b n)
  unfolding jump_if
  Sound-jump_if true n = search sound_rules
  Sound-jump_if false n = search (sound_rules, Sound-jump_to) depth 8

  Sound-do_jumpi : Sound {W = W} do_jumpi
  unfolding do_jumpi
  Sound-do_jumpi = search (sound_rules, Sound-jump_if) depth 14

  pub Sound-pop_many : (n : ℕ) → Sound {W = W} (pop_many n)
  unfolding pop_many
  Sound-pop_many zero = search sound_rules
  Sound-pop_many (suc n) =
      Sound-bind Sound-pop_word (λ x. Sound-bind (Sound-pop_many n) (λ xs. Sound-pure (x ∷ xs)))

  pub Sound-call_out : (f : Option (W → W)) → Sound (call_out f)
  unfolding call_out
  Sound-call_out none = search sound_rules
  Sound-call_out (some f) = search sound_rules depth 8

  Sound-do_return : (m : M W (Unit {0})) → Sound m → Sound (do_return m)
  unfolding do_return
  Sound-do_return m h = search (sound_rules, Sound-read_memory) depth 18

  Sound-finish_call :
      (a : CallArgs) (gas : ℕ) (out : CallOut) → Sound {W = W} (finish_call a gas out)
  unfolding finish_call
  Sound-finish_call a gas out = search sound_rules depth 18

  Sound-execute_call :
      (f : Option (CallRequest → W → CallOut × W)) (a : CallArgs) → Sound (execute_call f a)
  unfolding execute_call
  Sound-execute_call none a = search sound_rules
  Sound-execute_call (some f) a = search (sound_rules, Sound-finish_call) depth 18

  Sound-execute_create :
      (f : Option (List ℕ → ℕ → Option ℕ → W → CreateOut × W)) (v o n : ℕ) (salt : Option ℕ)
      → Sound (execute_create f v o n salt)
  unfolding execute_create
  Sound-execute_create none v o n salt = search sound_rules
  Sound-execute_create (some f) v o n salt = search sound_rules depth 18

module _ {W : Type 0} (ctx : Context W) where
  Sound-do_sha3 : Sound {W = W} (do_sha3 ctx)
  unfolding do_sha3
  Sound-do_sha3 = search (sound_rules, Sound-read_memory) depth 14

  Sound-do_ask : (f : Option (W → ℕ → ℕ)) (k : ℕ → ℕ) → Sound (do_ask ctx f k)
  unfolding do_ask
  Sound-do_ask f k = search sound_rules depth 12

  Sound-do_calldataload : Sound (do_calldataload ctx)
  unfolding do_calldataload
  Sound-do_calldataload = Sound-do_unary _

  Sound-do_extcodecopy : Sound {W = W} (do_extcodecopy ctx)
  unfolding do_extcodecopy
  Sound-do_extcodecopy = search sound_rules depth 20

  Sound-do_log : (n : ℕ) → Sound {W = W} (do_log ctx n)
  unfolding do_log
  Sound-do_log n = search (sound_rules, Sound-read_memory, Sound-call_out, Sound-pop_many) depth 20

  Sound-do_create : Sound {W = W} (do_create ctx)
  unfolding do_create
  Sound-do_create = search (sound_rules, Sound-execute_create) depth 16

  Sound-do_create2 : Sound {W = W} (do_create2 ctx)
  unfolding do_create2
  Sound-do_create2 = search (sound_rules, Sound-execute_create) depth 18

  Sound-pop_value : (b : Bool) → Sound (pop_value ctx b)
  unfolding pop_value
  Sound-pop_value true = search sound_rules
  Sound-pop_value false = search sound_rules

  Sound-do_call : (v d t c : Bool) → Sound (do_call ctx v d t c)
  unfolding do_call
  Sound-do_call v d t c = search (sound_rules, Sound-execute_call, Sound-pop_value) depth 26

  Sound-do_selfdestruct : Sound (do_selfdestruct ctx)
  unfolding do_selfdestruct
  Sound-do_selfdestruct = search (sound_rules, Sound-call_out) depth 12

  Sound-do_stop : Sound (do_stop ctx)
  unfolding do_stop
  Sound-do_stop = search sound_rules depth 8

ruleset branch_rules = (
  sound_rules, Sound-do_unary, Sound-do_binary, Sound-do_push, Sound-do_pop, Sound-do_copy,
  Sound-do_mload, Sound-do_mstore, Sound-do_mstore8, Sound-do_sload, Sound-do_sstore, Sound-do_jump,
  Sound-do_jumpi, Sound-do_return, Sound-do_sha3, Sound-do_ask, Sound-do_calldataload,
  Sound-do_extcodecopy, Sound-do_log, Sound-do_create, Sound-do_create2, Sound-do_call,
  Sound-do_selfdestruct, Sound-do_stop,
)

module _ {W : Type 0} (ctx : Context W) where
  -- Every branch of the chain.
  pub Sound-exec : (op : Opcode) → Sound (exec ctx op)
  unfolding exec
  Sound-exec (Opcode.push n) = Sound-do_push_n n
  Sound-exec op = search branch_rules depth 8

  pub Sound-charge : (op : Opcode) → Sound {W = W} (charge op)
  unfolding charge
  Sound-charge (Opcode.log n) = Sound-pure tt
  Sound-charge op = Sound-consume_gas _

  pub Sound-advance : (flow : Flow) → Sound {W = W} (advance flow)
  unfolding advance
  Sound-advance next = search sound_rules depth 8
  Sound-advance flow = Sound-pure tt

  pub Sound-step : (op : Opcode) → Sound (step ctx op)
  unfolding step
  Sound-step op =
      Sound-then (Sound-charge op)
        (Sound-then (Sound-append_trace op) (Sound-bind (Sound-exec op) Sound-advance))

  pub run-Keeps : (fuel : ℕ) (s : Evm W) {s' : Evm W} → run fuel ctx s ≡ some (ok s') → Keeps s s'
  unfolding run
  run-Keeps zero s h = absurd (ground arith)
  run-Keeps (suc fuel) s {s' = s'} h =
      elim (Option-cases (if s.running then get_elem? s.bytecode s.pc else none)) [
        | inl e ↦ let same : s' ≡ s = ground arith in rw same (Keeps-refl s)
        | inr (b, e) ↦ elim (Result-cases (step ctx (decode b) s)) [
          | inl ((a, t), k) ↦
              Keeps-trans ((Sound-step (decode b)).keeps s a t k)
                (run-Keeps fuel t {s' = s'} (ground arith))
          | inr (f, k) ↦ absurd (ground arith)
        ]
      ]

  -- A call of `execute_bytecode` that returns has used no more than the gas limit, subcalls
  -- included, whatever the callbacks answer, and every entry of the stack that it returns is a
  -- 256-bit word.
  pub execute_bytecode-safe :
      (fuel : ℕ) (code : List ℕ) (s : Evm W) {o : Outcome} {s' : Evm W}
      → execute_bytecode fuel ctx code s ≡ some (ok (o, s'))
      → (o.gas_used ≤ s.gas_limit) × All IsWord o.stack
  unfolding execute_bytecode outcome start
  execute_bytecode-safe fuel code s {o = o} {s' = s'} h =
      elim (Option-cases (run fuel ctx (start code s))) [
        | inl e ↦ absurd (ground arith)
        | inr (r, e) ↦ elim (Result-cases r) [
          | inl (t, k) ↦
              let keeps = run-Keeps fuel (start code s) {s' = t} (ground arith) in
              let same : o ≡ outcome t = ground arith in
              rw same (keeps.within (omega arith), keeps.words tt)
          | inr (f, k) ↦ absurd (ground arith)
        ]
      ]
