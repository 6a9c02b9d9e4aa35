-- ===== src/Evm/PlaceBranches.antt =====
-- Every branch of `execute_bytecode` (evm_interpreter.py) but PUSH and the jumps leaves the program
-- counter to the loop.
use absolute_blockchain_ulti.Base.{
  ℕ, zero, suc, ◌≡◌, Bool, true, false, Option, none, some, List, ◌∷◌, arith,
}
use absolute_blockchain_ulti.Evm.Opcode.{Opcode}
use absolute_blockchain_ulti.Evm.State.{Evm, M}
use absolute_blockchain_ulti.Evm.Call.{
  Context, CallRequest, CallOut, CallArgs, CreateOut, finish_call, execute_call, execute_create,
}
use absolute_blockchain_ulti.Evm.Exec.{
  do_unary, do_binary, do_push, do_pop, do_copy, read_memory, do_mload, do_mstore, do_mstore8,
  do_sload, do_sstore, pop_many, call_out, do_return, do_sha3, do_ask, do_calldataload,
  do_extcodecopy, do_log, do_create, do_create2, pop_value, do_call, do_selfdestruct, do_stop, exec,
}
use absolute_blockchain_ulti.Evm.Run.{charge}
use absolute_blockchain_ulti.Evm.Place.{
  Stays, Stays-bind, Stays-pure, Stays-pop_word, Stays-consume_gas, place_rules,
}

-- The branch does not write the counter.
abbrev pub stays_put : Opcode → Bool
stays_put (Opcode.push n) = false
stays_put Opcode.jump = false
stays_put Opcode.jumpi = false
stays_put op = true

module _ {W : Type 0} where
  Stays-do_unary : (f : ℕ → ℕ) → Stays {W = W} (do_unary f)
  unfolding do_unary
  Stays-do_unary f = search place_rules depth 12

  Stays-do_binary : (f : ℕ → ℕ → ℕ) → Stays {W = W} (do_binary f)
  unfolding do_binary
  Stays-do_binary f = search place_rules depth 12

  Stays-do_push : (f : Evm W → ℕ) → Stays {W = W} (do_push f)
  unfolding do_push
  Stays-do_push f = search place_rules depth 14

  Stays-do_pop : Stays {W = W} do_pop
  unfolding do_pop
  Stays-do_pop = search place_rules depth 14

  Stays-do_copy : (f : Evm W → List ℕ) → Stays {W = W} (do_copy f)
  unfolding do_copy
  Stays-do_copy f = search place_rules depth 18

  pub Stays-read_memory : (o n : ℕ) → Stays {W = W} (read_memory o n)
  unfolding read_memory
  Stays-read_memory o n = search place_rules depth 14

  Stays-do_mload : Stays {W = W} do_mload
  unfolding do_mload
  Stays-do_mload = search (place_rules, Stays-read_memory) depth 14

  Stays-do_mstore : Stays {W = W} do_mstore
  unfolding do_mstore
  Stays-do_mstore = search place_rules depth 14

  Stays-do_mstore8 : Stays {W = W} do_mstore8
  unfolding do_mstore8
  Stays-do_mstore8 = search place_rules depth 14

  Stays-do_sload : Stays {W = W} do_sload
  unfolding do_sload
  Stays-do_sload = search place_rules depth 14

  Stays-do_sstore : Stays {W = W} do_sstore
  unfolding do_sstore
  Stays-do_sstore = search place_rules depth 14

  pub Stays-pop_many : (n : ℕ) → Stays {W = W} (pop_many n)
  unfolding pop_many
  Stays-pop_many zero = search place_rules
  Stays-pop_many (suc n) =
      Stays-bind Stays-pop_word (λ x. Stays-bind (Stays-pop_many n) (λ xs. Stays-pure (x ∷ xs)))

  pub Stays-call_out : (f : Option (W → W)) → Stays (call_out f)
  unfolding call_out
  Stays-call_out none = search place_rules
  Stays-call_out (some f) = search place_rules depth 8

  Stays-do_return : (m : M W (Unit {0})) → Stays m → Stays (do_return m)
  unfolding do_return
  Stays-do_return m h = search (place_rules, Stays-read_memory) depth 18

  Stays-finish_call :
      (a : CallArgs) (gas : ℕ) (out : CallOut) → Stays {W = W} (finish_call a gas out)
  unfolding finish_call
  Stays-finish_call a gas out = search place_rules depth 18

  Stays-execute_call :
      (f : Option (CallRequest → W → CallOut × W)) (a : CallArgs) → Stays (execute_call f a)
  unfolding execute_call
  Stays-execute_call none a = search place_rules
  Stays-execute_call (some f) a = search (place_rules, Stays-finish_call) depth 18

  Stays-execute_create :
      (f : Option (List ℕ → ℕ → Option ℕ → W → CreateOut × W)) (v o n : ℕ) (salt : Option ℕ)
      → Stays (execute_create f v o n salt)
  unfolding execute_create
  Stays-execute_create none v o n salt = search place_rules
  Stays-execute_create (some f) v o n salt = search place_rules depth 18

module _ {W : Type 0} (ctx : Context W) where
  Stays-do_sha3 : Stays {W = W} (do_sha3 ctx)
  unfolding do_sha3
  Stays-do_sha3 = search (place_rules, Stays-read_memory) depth 14

  Stays-do_ask : (f : Option (W → ℕ → ℕ)) (k : ℕ → ℕ) → Stays (do_ask ctx f k)
  unfolding do_ask
  Stays-do_ask f k = search place_rules depth 12

  Stays-do_calldataload : Stays (do_calldataload ctx)
  unfolding do_calldataload
  Stays-do_calldataload = Stays-do_unary _

  Stays-do_extcodecopy : Stays {W = W} (do_extcodecopy ctx)
  unfolding do_extcodecopy
  Stays-do_extcodecopy = search place_rules depth 20

  Stays-do_log : (n : ℕ) → Stays {W = W} (do_log ctx n)
  unfolding do_log
  Stays-do_log n = search (place_rules, Stays-read_memory, Stays-call_out, Stays-pop_many) depth 20

  Stays-do_create : Stays {W = W} (do_create ctx)
  unfolding do_create
  Stays-do_create = search (place_rules, Stays-execute_create) depth 16

  Stays-do_create2 : Stays {W = W} (do_create2 ctx)
  unfolding do_create2
  Stays-do_create2 = search (place_rules, Stays-execute_create) depth 18

  Stays-pop_value : (b : Bool) → Stays (pop_value ctx b)
  unfolding pop_value
  Stays-pop_value true = search place_rules
  Stays-pop_value false = search place_rules

  Stays-do_call : (v d t c : Bool) → Stays (do_call ctx v d t c)
  unfolding do_call
  Stays-do_call v d t c = search (place_rules, Stays-execute_call, Stays-pop_value) depth 26

  Stays-do_selfdestruct : Stays (do_selfdestruct ctx)
  unfolding do_selfdestruct
  Stays-do_selfdestruct = search (place_rules, Stays-call_out) depth 12

  Stays-do_stop : Stays (do_stop ctx)
  unfolding do_stop
  Stays-do_stop = search place_rules depth 8

ruleset branch_rules = (
  place_rules, Stays-do_unary, Stays-do_binary, Stays-do_push, Stays-do_pop, Stays-do_copy,
  Stays-do_mload, Stays-do_mstore, Stays-do_mstore8, Stays-do_sload, Stays-do_sstore,
  Stays-do_return, Stays-do_sha3, Stays-do_ask, Stays-do_calldataload, Stays-do_extcodecopy,
  Stays-do_log, Stays-do_create, Stays-do_create2, Stays-do_call, Stays-do_selfdestruct,
  Stays-do_stop,
)

module _ {W : Type 0} (ctx : Context W) where
  -- Every branch of the chain but the jumps, which write the counter, and PUSH, which skips its data.
  pub Stays-exec : (op : Opcode) → stays_put op ≡ true → Stays (exec ctx op)
  unfolding exec
  Stays-exec (Opcode.push n) h = absurd (ground (arith, h))
  Stays-exec Opcode.jump h = absurd (ground (arith, h))
  Stays-exec Opcode.jumpi h = absurd (ground (arith, h))
  Stays-exec op h = search branch_rules depth 8

  pub Stays-charge : (op : Opcode) → Stays {W = W} (charge op)
  unfolding charge
  Stays-charge (Opcode.log n) = Stays-pure tt
  Stays-charge op = Stays-consume_gas _
