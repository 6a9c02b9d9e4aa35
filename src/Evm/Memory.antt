-- ===== src/Evm/Memory.antt =====
-- The byte memory of evm_interpreter.py: a Python bytearray and its slices.
use absolute_blockchain_ulti.Base.{ℕ, ◌+◌, ◌-◌, List, ◌++◌, length, take, drop, replicate}
use absolute_blockchain_ulti.Evm.Word.{to_bytes, to_word}

-- `memory[offset:offset + size]`
unfoldable pub slice : ℕ → ℕ → List ℕ → List ℕ
slice offset size memory = take size (drop offset memory)

-- `memory[offset:offset + size] = chunk`: a chunk of another length moves what stands behind it.
unfoldable pub splice : ℕ → ℕ → List ℕ → List ℕ → List ℕ
splice offset size chunk memory = take offset memory ++ (chunk ++ drop (offset + size) memory)

-- `_mem_extend`
unfoldable pub mem_extend : ℕ → ℕ → List ℕ → List ℕ
mem_extend offset size memory = memory ++ replicate (offset + size - length memory) 0

-- `_write_word`
unfoldable pub write_word : ℕ → ℕ → List ℕ → List ℕ
write_word offset value memory =
    splice offset 32 (to_bytes 32 (to_word value)) (mem_extend offset 32 memory)

-- `chunk + b"\x00" * (n - len(chunk))`
unfoldable pub pad_right : ℕ → List ℕ → List ℕ
pad_right n chunk = chunk ++ replicate (n - length chunk) 0

-- The copy of CALLDATACOPY, CODECOPY and RETURNDATACOPY.
unfoldable pub copy_in : ℕ → ℕ → ℕ → List ℕ → List ℕ → List ℕ
copy_in dest offset size source memory =
    splice dest size (slice offset size source) (mem_extend dest size memory)

-- `_write_return_to_memory`
unfoldable pub write_return : ℕ → ℕ → List ℕ → List ℕ → List ℕ
write_return offset size source memory =
    let chunk = take size source in
    splice offset (length chunk) chunk (mem_extend offset size memory)
