-- ===== src/Node/Strings.antt =====
-- Python's methods on strings, which the node calls and this library does not define.
use absolute_blockchain_ulti.Base.{ℕ, Bool, not, nat_beq}

pub record Strings : Type 0 where
  -- `s.strip()`, `s.lower()` and `s.replace("0x", "")`
  pub strip : ℕ → ℕ
  pub lower : ℕ → ℕ
  pub without_0x : ℕ → ℕ
  -- `len(s)`
  pub len : ℕ → ℕ
  -- `s[:n]`
  pub prefix : ℕ → ℕ → ℕ

-- The empty string, and the name of the first block's miner.
abbrev pub empty_string : ℕ
empty_string = 0

abbrev pub genesis_name : ℕ
genesis_name = 1

-- `GENESIS_HASH`, `"0" * 64`
abbrev pub genesis_hash : ℕ
genesis_hash = 2

-- `bool(s)`
abbrev pub non_empty : ℕ → Bool
non_empty s = not (nat_beq s empty_string)

-- `_normalize_address` of storage/database.py
unfoldable pub normalize_address : Strings → ℕ → ℕ
normalize_address str a = str.lower (str.strip a)
