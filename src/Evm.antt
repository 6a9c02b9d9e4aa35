-- ===== src/Evm.antt =====
-- The EVM interpreter (evm_interpreter.py) and the static check of its code
-- (execution/evm_bytecode_validator.py).
pub mod Word
pub mod Memory
pub mod Opcode
pub mod State
pub mod Call
pub mod Exec
pub mod Run
pub mod Sound
pub mod Safety
pub mod Place
pub mod PlaceBranches
pub mod Stepping
pub mod Roundtrip
pub mod Termination
mod Tests
mod ValidatorTests
pub mod Validator
