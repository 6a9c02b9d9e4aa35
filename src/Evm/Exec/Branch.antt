-- ===== src/Evm/Exec/Branch.antt =====
-- The branches of `execute_bytecode` (evm_interpreter.py) that need nothing of the context.
use absolute_blockchain_ulti.Base.{
  ℕ, zero, suc, ◌+◌, ◌%◌, Bool, true, false, Option, none, some, List, [], ◌∷◌, ◌&&◌, if◌then◌else◌,
  nat_beq, get_elem?, nat_eq,
}
use absolute_blockchain_ulti.Base.Dict.{Dict, lookup, insert, erase, contains, or_else}
use absolute_blockchain_ulti.Evm.Word.{from_bytes}
use absolute_blockchain_ulti.Evm.Memory.{slice, splice, mem_extend, write_word, pad_right, copy_in}
use absolute_blockchain_ulti.Evm.State.{
  Fault, Evm, M, ◌>>=◌, ◌>>◌, pure, fail, gets, set_memory, set_storage, set_return_data, set_pc,
  set_world, stop_running, push_word, pop_word,
}

-- How an iteration goes on: to `self.pc += 1`, to `continue`, or to `break`.
pub data Flow : Type 0 where
  next jumped halted : Flow

-- `_read_push`
unfoldable pub read_push : ℕ → ℕ → List ℕ → ℕ
read_push pc n bytecode = from_bytes (pad_right n (slice (pc + 1) n bytecode))

-- `_is_jumpdest`
unfoldable pub is_jumpdest : List ℕ → ℕ → Bool
is_jumpdest bytecode dest = elim (get_elem? bytecode dest) [
  | none ↦ false
  | some b ↦ nat_beq b 0x5b
]

-- SSTORE: a zero deletes an entry that is there.
unfoldable pub store_word : ℕ → ℕ → Dict ℕ ℕ → Dict ℕ ℕ
store_word key value storage =
    if nat_beq value 0 && contains key storage then erase key storage else insert key value storage

-- `list.reverse`
unfoldable pub reversed : List ℕ → List ℕ → List ℕ
reversed [] acc = acc
reversed (x ∷ xs) acc = reversed xs (x ∷ acc)

module _ {W : Type 0} where
  unfoldable pub do_unary : (ℕ → ℕ) → M W Flow
  do_unary f = do a ← pop_word; push_word (f a); pure next

  unfoldable pub do_binary : (ℕ → ℕ → ℕ) → M W Flow
  do_binary f = do a ← pop_word; b ← pop_word; push_word (f a b); pure next

  unfoldable pub do_push : (Evm W → ℕ) → M W Flow
  do_push f = do v ← gets f; push_word v; pure next

  -- PUSH1..PUSH32
  unfoldable pub do_push_n : ℕ → M W Flow
  do_push_n n = do
    pc ← gets (λ s. s.pc)
    bytecode ← gets (λ s. s.bytecode)
    push_word (read_push pc n bytecode)
    set_pc (pc + n)
    pure next

  unfoldable pub do_pop : M W Flow
  do_pop = do _ ← pop_word; pure next

  -- CALLDATACOPY, CODECOPY, RETURNDATACOPY
  unfoldable pub do_copy : (Evm W → List ℕ) → M W Flow
  do_copy source = do
    dest ← pop_word
    offset ← pop_word
    size ← pop_word
    bytes ← gets source
    memory ← gets (λ s. s.memory)
    set_memory (copy_in dest offset size bytes memory)
    pure next

  -- An extension, and the bytes between.
  unfoldable pub read_memory : ℕ → ℕ → M W (List ℕ)
  read_memory offset size = do
    memory ← gets (λ s. s.memory)
    set_memory (mem_extend offset size memory)
    extended ← gets (λ s. s.memory)
    pure (slice offset size extended)

  unfoldable pub do_mload : M W Flow
  do_mload = do
    offset ← pop_word
    bytes ← read_memory offset 32
    push_word (from_bytes bytes)
    pure next

  unfoldable pub do_mstore : M W Flow
  do_mstore = do
    offset ← pop_word
    value ← pop_word
    memory ← gets (λ s. s.memory)
    set_memory (write_word offset value memory)
    pure next

  unfoldable pub do_mstore8 : M W Flow
  do_mstore8 = do
    offset ← pop_word
    value ← pop_word
    memory ← gets (λ s. s.memory)
    set_memory (splice offset 1 (value % 256 ∷ []) (mem_extend offset 1 memory))
    pure next

  unfoldable pub do_sload : M W Flow
  do_sload = do
    key ← pop_word
    storage ← gets (λ s. s.storage)
    push_word (or_else (lookup key storage) 0)
    pure next

  unfoldable pub do_sstore : M W Flow
  do_sstore = do
    key ← pop_word
    value ← pop_word
    storage ← gets (λ s. s.storage)
    set_storage (store_word key value storage)
    pure next

  unfoldable pub jump_to : Bool → ℕ → M W Flow
  jump_to false dest = fail Fault.invalid_jump
  jump_to true dest = do set_pc dest; pure jumped

  unfoldable pub do_jump : M W Flow
  do_jump = do
    dest ← pop_word
    bytecode ← gets (λ s. s.bytecode)
    jump_to (is_jumpdest bytecode dest) dest

  unfoldable pub jump_if : Bool → ℕ → M W Flow
  jump_if true dest = pure next
  jump_if false dest = do
    bytecode ← gets (λ s. s.bytecode)
    jump_to (is_jumpdest bytecode dest) dest

  unfoldable pub do_jumpi : M W Flow
  do_jumpi = do dest ← pop_word; condition ← pop_word; jump_if (nat_beq condition 0) dest

  -- `[self._pop() for _ in range(n)]`
  unfoldable pub pop_many : ℕ → M W (List ℕ)
  pop_many zero = pure []
  pop_many (suc n) = do x ← pop_word; xs ← pop_many n; pure (x ∷ xs)

  unfoldable pub call_out : Option (W → W) → M W (Unit {0})
  call_out none = pure tt
  call_out (some f) = do world ← gets (λ s. s.world); set_world (f world)

  -- RETURN, REVERT: the memory that they return
  unfoldable pub do_return : M W (Unit {0}) → M W Flow
  do_return mark = do
    offset ← pop_word
    size ← pop_word
    bytes ← read_memory offset size
    set_return_data bytes
    mark
    stop_running
    pure halted

  -- `address_of_the_optional_callback(world, x)`, or 0
  unfoldable pub ask : Option (W → ℕ → ℕ) → W → ℕ → ℕ
  ask none w x = 0
  ask (some f) w x = f w x

  unfoldable pub copy_of : Option (W → ℕ → ℕ → ℕ → List ℕ) → W → ℕ → ℕ → ℕ → List ℕ
  copy_of none w a o n = []
  copy_of (some f) w a o n = f w a o n
