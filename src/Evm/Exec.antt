-- ===== src/Evm/Exec.antt =====
-- The chain of branches in `execute_bytecode` (evm_interpreter.py).
mod Branch
mod Host
use Prim.Native.Nat.{bit_and, bit_or, bit_xor}
use absolute_blockchain_ulti.Base.{◌+◌, ◌*◌, Bool, true, false, ltb, nat_beq, length}
use absolute_blockchain_ulti.Evm.Word.{
  sub_word, not_word, div_word, mod_word, byte_of, shl_word, shr_word, bit,
}
use absolute_blockchain_ulti.Evm.Opcode.{Opcode}
use absolute_blockchain_ulti.Evm.State.{
  Fault, M, ◌>>=◌, ◌>>◌, pure, fail, set_reverted, remaining_gas, dup_word, swap_words,
}
use absolute_blockchain_ulti.Evm.Call.{Context, word_to_addr}
unfoldable pub use Branch.*
unfoldable pub use Host.*

module _ {W : Type 0} (ctx : Context W) where
  -- The chain of branches.
  unfoldable pub exec : Opcode → M W Flow
  exec (Opcode.push n) = do_push_n n
  exec (Opcode.log n) = do_log ctx n
  exec (Opcode.dup n) = do dup_word n; pure next
  exec (Opcode.swap n) = do swap_words n; pure next
  exec Opcode.stop = do_stop ctx
  exec Opcode.add = do_binary (λ a b. a + b)
  exec Opcode.mul = do_binary (λ a b. a * b)
  exec Opcode.sub = do_binary sub_word
  exec Opcode.div = do_binary div_word
  exec Opcode.mod_op = do_binary mod_word
  exec Opcode.and_op = do_binary bit_and
  exec Opcode.or_op = do_binary bit_or
  exec Opcode.xor_op = do_binary bit_xor
  exec Opcode.eq = do_binary (λ a b. bit (nat_beq a b))
  exec Opcode.iszero = do_unary (λ a. bit (nat_beq a 0))
  exec Opcode.lt = do_binary (λ a b. bit (ltb a b))
  exec Opcode.gt = do_binary (λ a b. bit (ltb b a))
  exec Opcode.not_op = do_unary not_word
  exec Opcode.byte = do_binary byte_of
  exec Opcode.shl = do_binary shl_word
  exec Opcode.shr = do_binary shr_word
  exec Opcode.sha3 = do_sha3 ctx
  exec Opcode.address = do_push (λ _. ctx.address)
  exec Opcode.balance = do_ask ctx ctx.balance_of word_to_addr
  exec Opcode.origin = do_push (λ _. ctx.origin)
  exec Opcode.caller = do_push (λ _. ctx.caller)
  exec Opcode.callvalue = do_push (λ _. ctx.value)
  exec Opcode.calldataload = do_calldataload ctx
  exec Opcode.calldatasize = do_push (λ _. length ctx.calldata)
  exec Opcode.calldatacopy = do_copy (λ _. ctx.calldata)
  exec Opcode.codesize = do_push (λ s. length s.bytecode)
  exec Opcode.codecopy = do_copy (λ s. s.bytecode)
  exec Opcode.returndatasize = do_push (λ s. length s.return_data)
  exec Opcode.returndatacopy = do_copy (λ s. s.return_data)
  exec Opcode.extcodesize = do_ask ctx ctx.code_size_of word_to_addr
  exec Opcode.extcodecopy = do_extcodecopy ctx
  exec Opcode.blockhash = do_ask ctx ctx.block_hash_of (λ n. n)
  exec Opcode.timestamp = do_push (λ _. ctx.timestamp)
  exec Opcode.number = do_push (λ _. ctx.block_number)
  exec Opcode.gaslimit = do_push (λ s. s.gas_limit)
  exec Opcode.chainid = do_push (λ _. ctx.chain_id)
  exec Opcode.pop = do_pop
  exec Opcode.mload = do_mload
  exec Opcode.mstore = do_mstore
  exec Opcode.mstore8 = do_mstore8
  exec Opcode.sload = do_sload
  exec Opcode.sstore = do_sstore
  exec Opcode.jump = do_jump
  exec Opcode.jumpi = do_jumpi
  exec Opcode.gas = do_push remaining_gas
  exec Opcode.jumpdest = pure next
  exec Opcode.push0 = do_push (λ _. 0)
  exec Opcode.create = do_create ctx
  exec Opcode.create2 = do_create2 ctx
  exec Opcode.callcode = do_call ctx true false false true
  exec Opcode.call = do_call ctx true false false false
  exec Opcode.delegatecall = do_call ctx false true false false
  exec Opcode.staticcall = do_call ctx false false true false
  exec Opcode.return_op = do_return (pure tt)
  exec Opcode.revert = do_return set_reverted
  exec Opcode.invalid = fail Fault.invalid_opcode
  exec Opcode.selfdestruct = do_selfdestruct ctx
  exec Opcode.unsupported = fail Fault.unsupported_opcode
