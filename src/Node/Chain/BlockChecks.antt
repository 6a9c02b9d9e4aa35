-- ===== src/Node/Chain/BlockChecks.antt =====
-- The checks of core/blockchain.py on a block, and how it takes a peer's state root.
use absolute_blockchain_ulti.Base.{
  ℕ, ◌+◌, Bool, true, false, Option, none, some, List, [], ◌∷◌, if◌then◌else◌, nat_eq, nat_beq, leb,
  ltb, not, ◌&&◌, ◌||◌, length, map,
}
use absolute_blockchain_ulti.Base.Dict.{Dict}
use absolute_blockchain_ulti.Base.Set.{member}
use absolute_blockchain_ulti.Consensus.Slashing.{SlashingEngine}
use absolute_blockchain_ulti.Node.Strings.{Strings, non_empty, genesis_name}
use absolute_blockchain_ulti.Node.Tables.{Block, Connection, ValidatorRow}
use absolute_blockchain_ulti.Node.Db.Blocks.{get_last_block}
use absolute_blockchain_ulti.Node.Chain.State.{Node, Chain, Refusal}
use absolute_blockchain_ulti.Node.Chain.Checks.{Check, passed, refuse_if, ◌>>◌}

unfoldable pub validate_block_structure : Block → Connection → Check
unfolding get_last_block
validate_block_structure block c = elim (get_last_block c) [
  | none ↦
      refuse_if (not (nat_beq block.height 0 || nat_beq block.height 1))
        Refusal.expected_genesis_height
  | some last ↦
      refuse_if (not (nat_beq block.height (last.height + 1))) Refusal.height_mismatch
      >> refuse_if (not (nat_beq block.parent_hash last.hash)) Refusal.parent_hash_mismatch
]

-- The addresses that `get_validators(active_only=True)` reads.
unfoldable pub active_addresses : Dict ℕ ValidatorRow → List ℕ
active_addresses [] = []
active_addresses ((a, row) ∷ rows) =
    let rest = active_addresses rows in if row.active && not row.slashed then a ∷ rest else rest

-- `if addr: allowed.add(addr.lower())`
abbrev pub with_lower : Strings → ℕ → List ℕ → List ℕ
with_lower str a allowed = if non_empty a then str.lower a ∷ allowed else allowed

-- The members of `allowed` in `_verify_block_proposer`.
unfoldable pub allowed_proposers : Node → Connection → List ℕ
unfolding active_addresses
allowed_proposers node c =
    let str = node.services.strings in
    with_lower str node.config.miner_address (
      with_lower str node.config.signing_address
        (map str.lower (active_addresses c.live.validators)))

abbrev pub is_slashed_in : Option SlashingEngine → ℕ → Bool
is_slashed_in none a = false
is_slashed_in (some engine) a = member a engine.slashed

unfoldable pub verify_block_proposer : Node → Block → Chain → Check
unfolding allowed_proposers active_addresses
verify_block_proposer node block chain =
    if not (non_empty block.miner) || nat_beq block.miner genesis_name
    then passed
    else refuse_if (is_slashed_in chain.slashing block.miner) Refusal.proposer_slashed
      >> (if not node.config.enforce_proposer
            || leb (length (active_addresses chain.db.live.validators)) 1
          then passed
          else refuse_if
              (not (
                member (node.services.strings.lower block.miner) (allowed_proposers node chain.db)))
              Refusal.unauthorized_proposer)

-- `validate_block`
unfoldable pub validate_block : Node → Block → Chain → Check
unfolding validate_block_structure verify_block_proposer
validate_block node block chain =
    validate_block_structure block chain.db
    >> refuse_if (not (nat_beq block.hash (node.services.hash_of block))) Refusal.invalid_hash
    >> verify_block_proposer node block chain

pub data RootMode : Type 0 where
  strict legacy_warn skip : RootMode

-- `_state_root_check_mode`; the root is never empty where `add_block` asks.
unfoldable pub state_root_check_mode : Node → ℕ → ℕ → ℕ → Bool → RootMode
state_root_check_mode node baseline height root preserve_peer =
    let peer_root = node.services.strings.strip root in
    if not node.config.verify_peer_state_root
    then skip
    else if not (non_empty peer_root)
    then skip
    else if ltb (node.services.strings.len peer_root) 64
    then legacy_warn
    else if preserve_peer && not node.config.state_root_strict_p2p
    then legacy_warn
    else if leb height baseline
    then legacy_warn
    else strict

abbrev pub is_strict : RootMode → Bool
is_strict strict = true
is_strict _ = false
