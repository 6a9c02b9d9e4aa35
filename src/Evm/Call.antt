-- ===== src/Evm/Call.antt =====
-- The execution context, `_execute_call` and `_execute_create` of evm_interpreter.py. The callbacks
-- of the context, which the embedding node supplies, are functions of the world's state and may
-- change it; one that is absent is `none`. An address string is the number that its 40 digits
-- write, and `addr_int` of the context's own three addresses is what the fields hold.
use absolute_blockchain_ulti.Base.{
  ℕ, ◌+◌, ◌*◌, ◌/◌, ◌%◌, Bool, Option, none, some, List, [], ◌&&◌, ◌||◌, not, if◌then◌else◌, ltb,
  nat_beq,
}
use Prim.Native.Nat.{min}
use absolute_blockchain_ulti.Base.Dict.{Dict}
use absolute_blockchain_ulti.Evm.Word.{address_size, bit}
use absolute_blockchain_ulti.Evm.Memory.{slice, mem_extend, write_return}
use absolute_blockchain_ulti.Evm.State.{
  M, ◌>>=◌, ◌>>◌, pure, gets, set_memory, set_storage, set_return_data, set_world,
  charge_subcall_gas, remaining_gas,
}

-- The arguments of `contract_call`, and the keys of its result that the code reads.
pub record CallRequest : Type 0 where
  pub to_addr : ℕ
  pub call_data : List ℕ
  pub value : ℕ
  pub call_gas : ℕ
  pub delegate : Bool
  pub static : Bool
  pub callcode : Bool

pub record CallOut : Type 0 where
  pub gas_used : ℕ
  pub return_data : List ℕ
  pub storage : Option (Dict ℕ ℕ)
  pub success : Bool
  pub reverted : Bool

-- `address` is `addr_int` of the new address, or 0 where there is none.
pub record CreateOut : Type 0 where
  pub gas_used : ℕ
  pub success : Bool
  pub reverted : Bool
  pub address : ℕ

pub record Context (W : Type 0) : Type 0 where
  pub caller : ℕ
  pub origin : ℕ
  pub address : ℕ
  pub calldata : List ℕ
  pub value : ℕ
  pub block_number : ℕ
  pub timestamp : ℕ
  pub chain_id : ℕ
  pub balance_of : Option (W → ℕ → ℕ)
  pub code_size_of : Option (W → ℕ → ℕ)
  pub code_copy_of : Option (W → ℕ → ℕ → ℕ → List ℕ)
  pub block_hash_of : Option (W → ℕ → ℕ)
  pub emit_log : Option (ℕ → List ℕ → List ℕ → W → W)
  pub selfdestruct : Option (ℕ → W → W)
  pub contract_call : Option (CallRequest → W → CallOut × W)
  pub contract_create : Option (List ℕ → ℕ → Option ℕ → W → CreateOut × W)
  -- `hashlib.sha3_256`, as the number that the digest writes
  pub sha3_256 : List ℕ → ℕ

-- `_word_to_addr`
unfoldable pub word_to_addr : ℕ → ℕ
word_to_addr word = word % address_size

-- `_call_gas_cap`: at most 63/64 of the remaining gas; a request of 0 takes it all
unfoldable pub call_gas_cap : ℕ → ℕ → ℕ
call_gas_cap remaining requested =
    let cap = remaining * 63 / 64 in if nat_beq requested 0 then cap else min requested cap

-- The gas that a call is given: with a value it gets the stipend of 2300 on top.
unfoldable pub call_gas : ℕ → ℕ → ℕ → Bool → ℕ
unfolding call_gas_cap
call_gas remaining requested value plain =
    if ltb 0 value && plain
    then min remaining (call_gas_cap remaining requested + 2300)
    else call_gas_cap remaining requested

-- What the four call opcodes hand to `_execute_call`.
pub record CallArgs : Type 0 where
  pub to_word : ℕ
  pub value : ℕ
  pub args_offset : ℕ
  pub args_size : ℕ
  pub ret_offset : ℕ
  pub ret_size : ℕ
  pub gas : ℕ
  pub delegate : Bool
  pub static : Bool
  pub callcode : Bool

-- `if (delegate or callcode) and isinstance(out.get("storage"), dict)`
unfoldable pub kept_storage : Bool → Option (Dict ℕ ℕ) → Dict ℕ ℕ → Dict ℕ ℕ
kept_storage shared none old = old
kept_storage shared (some d) old = if shared then d else old

unfoldable pub request : CallArgs → ℕ → List ℕ → CallRequest
request a gas memory = record {
  to_addr = word_to_addr a.to_word;
  call_data = slice a.args_offset a.args_size memory;
  value = a.value;
  call_gas = gas;
  delegate = a.delegate;
  static = a.static;
  callcode = a.callcode;
}

module _ {W : Type 0} where
  -- The part of `_execute_call` after the callback has returned.
  unfoldable pub finish_call : CallArgs → ℕ → CallOut → M W ℕ
  finish_call a gas out = do
    charge_subcall_gas (min out.gas_used gas)
    set_return_data out.return_data
    storage ← gets (λ s. s.storage)
    set_storage (kept_storage (a.delegate || a.callcode) out.storage storage)
    memory ← gets (λ s. s.memory)
    set_memory (write_return a.ret_offset a.ret_size out.return_data memory)
    pure (bit (out.success && not out.reverted))

  -- `_execute_call`
  unfoldable pub execute_call : Option (CallRequest → W → CallOut × W) → CallArgs → M W ℕ
  execute_call none a = do set_return_data []; pure 0
  execute_call (some contract_call) a = do
    memory ← gets (λ s. s.memory)
    set_memory (mem_extend a.args_offset a.args_size memory)
    extended ← gets (λ s. s.memory)
    remaining ← gets remaining_gas
    world ← gets (λ s. s.world)
    let gas = call_gas remaining a.gas a.value (not a.static && not a.delegate)
    let answer = contract_call (request a gas extended) world
    set_world answer.1
    finish_call a gas answer.0

  -- `_execute_create`
  unfoldable pub execute_create :
      Option (List ℕ → ℕ → Option ℕ → W → CreateOut × W) → ℕ → ℕ → ℕ → Option ℕ → M W ℕ
  execute_create none value offset size salt = pure 0
  execute_create (some contract_create) value offset size salt = do
    memory ← gets (λ s. s.memory)
    set_memory (mem_extend offset size memory)
    extended ← gets (λ s. s.memory)
    world ← gets (λ s. s.world)
    let answer = contract_create (slice offset size extended) value salt world
    set_world answer.1
    charge_subcall_gas answer.0.gas_used
    pure (if not answer.0.success || answer.0.reverted then 0 else answer.0.address)
