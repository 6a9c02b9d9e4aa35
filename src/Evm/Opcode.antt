-- ===== src/Evm/Opcode.antt =====
-- The opcodes of evm_interpreter.py: their bytes, in the order of the tests in
-- `execute_bytecode`, and their gas.
use absolute_blockchain_ulti.Base.{ℕ, ◌-◌, Bool, ◌&&◌, leb, nat_beq, if◌then◌else◌}

-- The branches of the `if`/`elif` chain; `unsupported` is its `else`.
pub data Opcode : Type 0 where
  push log dup swap : ℕ → Opcode
  stop add mul sub div mod_op and_op or_op xor_op eq iszero lt gt not_op byte shl shr sha3 : Opcode
  address balance origin caller callvalue calldataload calldatasize calldatacopy codesize : Opcode
  codecopy returndatasize returndatacopy extcodesize extcodecopy blockhash timestamp : Opcode
  number gaslimit chainid pop mload mstore mstore8 sload sstore jump jumpi gas jumpdest : Opcode
  push0 create create2 callcode call delegatecall staticcall return_op revert invalid : Opcode
  selfdestruct unsupported : Opcode

-- `first <= op <= last`
abbrev pub between : ℕ → ℕ → ℕ → Bool
between first last op = leb first op && leb op last

-- The chain from this test on.
unfoldable pub decode_from_jumpdest : ℕ → Opcode
decode_from_jumpdest op =
    if nat_beq op 0x5b
    then jumpdest
    else if nat_beq op 0x5f
    then push0
    else if between 0x80 0x8f op
    then dup (op - 0x7f)
    else if between 0x90 0x9f op
    then swap (op - 0x8f)
    else if nat_beq op 0xf0
    then create
    else if nat_beq op 0xf5
    then create2
    else if nat_beq op 0xf2
    then callcode
    else if nat_beq op 0xf1
    then call
    else if nat_beq op 0xf4
    then delegatecall
    else if nat_beq op 0xfa
    then staticcall
    else if nat_beq op 0xf3
    then return_op
    else if nat_beq op 0xfd
    then revert
    else if nat_beq op 0xfe
    then invalid
    else if nat_beq op 0xff
    then selfdestruct
    else unsupported

-- The chain from this test on.
unfoldable pub decode_from_extcodecopy : ℕ → Opcode
unfolding decode_from_jumpdest
decode_from_extcodecopy op =
    if nat_beq op 0x3c
    then extcodecopy
    else if between 0xa0 0xa4 op
    then log (op - 0xa0)
    else if nat_beq op 0x40
    then blockhash
    else if nat_beq op 0x42
    then timestamp
    else if nat_beq op 0x43
    then number
    else if nat_beq op 0x45
    then gaslimit
    else if nat_beq op 0x46
    then chainid
    else if nat_beq op 0x50
    then pop
    else if nat_beq op 0x51
    then mload
    else if nat_beq op 0x52
    then mstore
    else if nat_beq op 0x53
    then mstore8
    else if nat_beq op 0x54
    then sload
    else if nat_beq op 0x55
    then sstore
    else if nat_beq op 0x56
    then jump
    else if nat_beq op 0x57
    then jumpi
    else if nat_beq op 0x5a
    then gas
    else decode_from_jumpdest op

-- The chain from this test on.
unfoldable pub decode_from_shl : ℕ → Opcode
unfolding decode_from_extcodecopy
decode_from_shl op =
    if nat_beq op 0x1b
    then shl
    else if nat_beq op 0x1c
    then shr
    else if nat_beq op 0x20
    then sha3
    else if nat_beq op 0x30
    then address
    else if nat_beq op 0x31
    then balance
    else if nat_beq op 0x32
    then origin
    else if nat_beq op 0x33
    then caller
    else if nat_beq op 0x34
    then callvalue
    else if nat_beq op 0x35
    then calldataload
    else if nat_beq op 0x36
    then calldatasize
    else if nat_beq op 0x37
    then calldatacopy
    else if nat_beq op 0x38
    then codesize
    else if nat_beq op 0x39
    then codecopy
    else if nat_beq op 0x3d
    then returndatasize
    else if nat_beq op 0x3e
    then returndatacopy
    else if nat_beq op 0x3b
    then extcodesize
    else decode_from_extcodecopy op

-- The chain of tests on `op_byte`.
unfoldable pub decode : ℕ → Opcode
unfolding decode_from_shl
decode op =
    if nat_beq op 0x00
    then stop
    else if between 0x60 0x7f op
    then push (op - 0x5f)
    else if nat_beq op 0x01
    then add
    else if nat_beq op 0x02
    then mul
    else if nat_beq op 0x03
    then sub
    else if nat_beq op 0x04
    then div
    else if nat_beq op 0x06
    then mod_op
    else if nat_beq op 0x10
    then and_op
    else if nat_beq op 0x11
    then or_op
    else if nat_beq op 0x12
    then xor_op
    else if nat_beq op 0x14
    then eq
    else if nat_beq op 0x15
    then iszero
    else if nat_beq op 0x16
    then lt
    else if nat_beq op 0x17
    then gt
    else if nat_beq op 0x19
    then not_op
    else if nat_beq op 0x1a
    then byte
    else decode_from_shl op

-- `GAS_COSTS.get(_opcode_name(op), 3)`. The names of PUSH, DUP, SWAP, CALLDATACOPY, INVALID and of
-- an unknown byte are not in the table. LOG is charged by its own branch.
unfoldable pub gas_cost : Opcode → ℕ
gas_cost stop = 0
gas_cost mul = 5
gas_cost div = 5
gas_cost mod_op = 5
gas_cost sha3 = 30
gas_cost address = 2
gas_cost balance = 400
gas_cost origin = 2
gas_cost caller = 2
gas_cost callvalue = 2
gas_cost calldatasize = 2
gas_cost codesize = 2
gas_cost returndatasize = 2
gas_cost extcodesize = 700
gas_cost extcodecopy = 700
gas_cost blockhash = 20
gas_cost timestamp = 2
gas_cost number = 2
gas_cost gaslimit = 2
gas_cost chainid = 2
gas_cost pop = 2
gas_cost sload = 200
gas_cost sstore = 5000
gas_cost jump = 8
gas_cost jumpi = 10
gas_cost gas = 2
gas_cost jumpdest = 1
gas_cost push0 = 2
gas_cost create = 32000
gas_cost create2 = 32000
gas_cost callcode = 700
gas_cost call = 700
gas_cost delegatecall = 700
gas_cost staticcall = 700
gas_cost return_op = 0
gas_cost revert = 0
gas_cost selfdestruct = 5000
gas_cost (log n) = 0
gas_cost other = 3
