-- ===== src/Evm/Exec/Host.antt =====
-- The branches of `execute_bytecode` (evm_interpreter.py) that ask the context.
use absolute_blockchain_ulti.Base.{
  ℕ, ◌+◌, ◌*◌, Bool, true, false, Option, none, some, [], length, nat_eq,
}
use absolute_blockchain_ulti.Evm.Word.{to_word, from_bytes}
use absolute_blockchain_ulti.Evm.Memory.{slice, splice, mem_extend, pad_right}
use absolute_blockchain_ulti.Evm.State.{
  M, ◌>>=◌, ◌>>◌, pure, gets, set_memory, stop_running, append_log, consume_gas, push_word,
  pop_word,
}
use absolute_blockchain_ulti.Evm.Call.{Context, execute_call, execute_create, word_to_addr}
use absolute_blockchain_ulti.Evm.Exec.Branch.{
  Flow, reversed, do_unary, read_memory, pop_many, call_out, ask, copy_of, next, halted,
}

module _ {W : Type 0} (ctx : Context W) where
  unfoldable pub do_sha3 : M W Flow
  do_sha3 = do
    offset ← pop_word
    size ← pop_word
    bytes ← read_memory offset size
    push_word (ctx.sha3_256 bytes)
    pure next

  unfoldable pub do_ask : Option (W → ℕ → ℕ) → (ℕ → ℕ) → M W Flow
  do_ask callback key = do
    x ← pop_word
    world ← gets (λ s. s.world)
    push_word (ask callback world (key x))
    pure next

  unfoldable pub do_calldataload : M W Flow
  do_calldataload = do_unary (λ i. from_bytes (pad_right 32 (slice i 32 ctx.calldata)))

  unfoldable pub do_extcodecopy : M W Flow
  do_extcodecopy = do
    code_offset ← pop_word
    mem_offset ← pop_word
    size ← pop_word
    who ← pop_word
    world ← gets (λ s. s.world)
    let chunk = copy_of ctx.code_copy_of world (word_to_addr who) code_offset size
    memory ← gets (λ s. s.memory)
    set_memory
        (splice mem_offset (length chunk) chunk (mem_extend mem_offset (length chunk) memory))
    pure next

  -- LOG0..LOG4
  unfoldable pub do_log : ℕ → M W Flow
  do_log n = do
    popped ← pop_many n
    let topics = reversed popped []
    size ← pop_word
    offset ← pop_word
    consume_gas (375 + (n * 375 + size))
    bytes ← read_memory offset size
    call_out (elim ctx.emit_log [ none ↦ none | some emit ↦ some (emit n topics bytes) ])
    append_log (record { topics = topics; contents = bytes })
    pure next

  unfoldable pub do_create : M W Flow
  do_create = do
    size ← pop_word
    offset ← pop_word
    value ← pop_word
    address ← execute_create ctx.contract_create value offset size none
    push_word address
    pure next

  unfoldable pub do_create2 : M W Flow
  do_create2 = do
    salt ← pop_word
    size ← pop_word
    offset ← pop_word
    value ← pop_word
    address ← execute_create ctx.contract_create value offset size (some salt)
    push_word address
    pure next

  -- CALL and CALLCODE pop a value, DELEGATECALL and STATICCALL do not.
  unfoldable pub pop_value : Bool → M W ℕ
  pop_value true = pop_word
  pop_value false = pure 0

  unfoldable pub do_call : Bool → Bool → Bool → Bool → M W Flow
  do_call with_value delegate static callcode = do
    gas ← pop_word
    to_word ← pop_word
    value ← pop_value with_value
    args_offset ← pop_word
    args_size ← pop_word
    ret_offset ← pop_word
    ret_size ← pop_word
    success ← execute_call ctx.contract_call (record {
      to_word = to_word;
      value = value;
      args_offset = args_offset;
      args_size = args_size;
      ret_offset = ret_offset;
      ret_size = ret_size;
      gas = gas;
      delegate = delegate;
      static = static;
      callcode = callcode;
    })
    push_word success
    pure next

  unfoldable pub do_selfdestruct : M W Flow
  do_selfdestruct = do
    beneficiary ← pop_word
    call_out (elim ctx.selfdestruct [ none ↦ none | some f ↦ some (f (word_to_addr beneficiary)) ])
    stop_running
    pure halted

  unfoldable pub do_stop : M W Flow
  do_stop = do stop_running; pure halted
