-- ===== src/Lib.antt =====
-- Models of the parts of a proof-of-stake blockchain node, and proofs about them.
--
-- The node executes transactions and contracts, agrees on blocks by votes, and proves inclusion of
-- data. A block's transactions go through the state engine or the replay of the chain; contract
-- code goes through one of two machines, after a static check; validators' attestations go through
-- an engine, which hands them to the slashing engine, the table of latest messages and a finality
-- gadget; reorganizations respect what is final; Merkle proofs serve light clients; a wallet with
-- several owners stands beside the chain.
--
-- Base: Boolean tests, lists, dictionaries and sets as Python has them (entries in the order of
--   insertion, one for a key), and integers over the native numbers.
-- StateEngine: class StateEngine of execution/state_engine.py, with the payload of
--   execution/state_root.py. Defs has the operations under their names in the source; an exception
--   is `raised`. `transition` returns the result beside the engine, so what an exception leaves
--   behind is visible. A deep copy is the identity on values, so a copy that is missing cannot be
--   seen here.
-- Satoshi: class ImmutableStateManager of blockchain/immutable_state.py.
-- Evm: class EVM of evm_interpreter.py. Word and Memory have the arithmetic and the byte memory,
--   Opcode the chain of tests on the opcode byte and the gas table, State the attributes and the
--   monad of a step, Call `_execute_call` and `_execute_create`, Exec the branches (Branch those
--   that need nothing of the context, Host the others), Run the loop. The callbacks of EVMContext
--   are functions of a state of the world, which is a parameter. Sound and Safety carry the
--   invariant through every branch, Place and PlaceBranches the program counter, which Stepping
--   follows from opcode to opcode; Termination has the progress of the meter, Roundtrip reading
--   after writing. Validator is execution/evm_bytecode_validator.py.
-- MiniVm: class MiniVM of execution/vm.py.
-- Consensus: Epoch is consensus/epoch.py, Lmd consensus/lmd.py, Slashing consensus/slashing.py,
--   Casper consensus/finality_casper.py, Beacon consensus/finality_beacon.py, Reorg
--   consensus/reorg_engine.py. Engine.Casper, Engine.Beacon and Engine.Slashing are
--   consensus/engine_casper.py, engine_beacon.py and engine_slashing.py, and Tree is the block tree
--   that the three share. Engine.Replay is about repeated attestations. Reports has what the parts
--   tell of themselves.
-- Merkle: crypto/merkle.py with the Python code of crypto/native.py. LightClient is
--   light/light_client.py on top of it, with the headers of core/block_header.py in Headers.
-- Features: Multisig is features/multisig.py, Authority who can bring a transaction of it to its
--   execution.
--
-- Node: the node's own chain, core/blockchain.py over the tables of storage/database.py. Tables has
--   the rows and `Connection`, the rows as statements see them beside the committed ones; Db the
--   queries and writes; Tokenomics and Pools runtime/tokenomics.py and runtime/pool_locks.py;
--   Chain the class Blockchain, with execution/block_validator.py in Chain.Dicts. State, Checks,
--   Apply, BlockChecks, Add, Dicts, Make and Rollback of Chain are definitions, the other files
--   proofs. The contract adapter is a parameter there. Mempool is the pool of
--   blockchain/mempool.py, whose `add` asks the chain.
--
-- Strings that are only compared (addresses, hashes, names of validators) are numbers. Digests,
-- clocks, identifiers drawn at random, Python's methods on strings and products with a fraction in
-- floating point are parameters; coins are counted in units of 10^-9 in Node, so equations and
-- bounds on balances there are exact where the source rounds doubles. Locks, printing and copies
-- returned by queries are left out.
--
-- Loops without a bound in the source take fuel: the interpreters gas_limit + 3 rounds, since every
-- round that goes on uses gas; the walk over a block's ancestors two rounds more than there are
-- blocks, since it visits none twice; the scan of code one more than its length; the loops over a
-- Merkle tree's layers as many as leaves. That the fuel suffices is proved for each.
--
-- Not modelled: the HTTP interface, the tables of storage beside those of the chain, the network,
-- the node's main class, the contract adapter, bridges, the assembler, the fork choice of
-- consensus/ghost.py, the mempools of execution, and the features that rest on floats or services.
pub mod Base
pub mod MiniVm
pub mod StateEngine
pub mod Consensus
pub mod Evm
pub mod Features
pub mod Merkle
pub mod LightClient
pub mod Node
pub mod Satoshi
