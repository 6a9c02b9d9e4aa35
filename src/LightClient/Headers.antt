-- ===== src/LightClient/Headers.antt =====
-- The header of a block (core/block_header.py), and how it is made from a block's dictionary.
use absolute_blockchain_ulti.Base.{ℕ, zero, suc, Option, none, some, List, [], ◌∷◌, map}
use absolute_blockchain_ulti.Base.Dict.{or_else}
use absolute_blockchain_ulti.Merkle.{Str, merkle_root}

pub record Header : Type 0 where
  pub number : ℕ
  pub parent_hash : Str
  pub proposer : Str
  pub state_root : Str
  pub tx_root : Str
  pub timestamp : ℕ
  pub extra_data : Str
  pub block_hash : Str

-- `BlockHeader.hash`, where the digest of the fields is a parameter
unfoldable pub hash_of_header : (Header → Str) → Header → Str
hash_of_header digest h = elim h.block_hash [ [] ↦ digest h | c ∷ cs ↦ c ∷ cs ]

-- An entry of "transactions" of a block's dictionary: a dictionary, with its "hash" where it has
-- one and its JSON text, or anything else as `str` writes it.
pub data TxEntry : Type 0 where
  dict_entry : Option Str → Str → TxEntry
  other_entry : Str → TxEntry

-- What `from_block_dict` takes of an entry.
unfoldable pub tx_item : TxEntry → Str
tx_item (dict_entry (some hash) json) = hash
tx_item (dict_entry none json) = json
tx_item (other_entry text) = text

-- The block's dictionary; `none` is a key that is not there.
pub record BlockDict : Type 0 where
  pub height : Option ℕ
  pub number : Option ℕ
  pub parent_hash : Option Str
  pub miner : Option Str
  pub proposer : Option Str
  pub state_root : Option Str
  pub tx_root : Option Str
  pub timestamp : Option ℕ
  pub extra_data : Option Str
  pub hash : Option Str
  pub block_hash : Option Str
  pub transactions : List TxEntry

abbrev pub first_given {ℓ} : {A : Type ℓ} → Option A → Option A → Option A
first_given none o = o
first_given (some a) o = some a

-- `x or root`
abbrev pub root_or : Option Str → Str → Str
root_or none root = root
root_or (some []) root = root
root_or (some (c ∷ cs)) root = c ∷ cs

-- `timestamp or int(time.time())`
abbrev pub time_or : ℕ → ℕ → ℕ
time_or now zero = now
time_or now (suc t) = suc t

-- `BlockHeader.from_block_dict`; `empty_text` is the string "empty". The Merkle root is never out
-- of fuel.
unfoldable pub from_block_dict : (Str → Str) → Str → ℕ → BlockDict → Header
unfolding tx_item merkle_root
from_block_dict hash_data empty_text now b = record {
  number = or_else (first_given b.height b.number) 0;
  parent_hash = or_else b.parent_hash [];
  proposer = or_else (first_given b.miner b.proposer) [];
  state_root = or_else b.state_root [];
  tx_root =
      root_or b.tx_root
        (or_else (merkle_root hash_data empty_text (map tx_item b.transactions)) []);
  timestamp = time_or now (or_else b.timestamp 0);
  extra_data = or_else b.extra_data [];
  block_hash = or_else (first_given b.hash b.block_hash) [];
}
