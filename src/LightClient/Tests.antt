-- ===== src/LightClient/Tests.antt =====
-- A light client that was filled from a chain of one block.
use absolute_blockchain_ulti.Base.{◌≡◌, refl, false, some, none, arith, [], ◌∷◌}
use absolute_blockchain_ulti.Base.Dict.{lookup, insert}
use absolute_blockchain_ulti.Merkle.{
  Str, str_beq, evened, new_layer, leaves, root_loop, merkle_root,
}
use absolute_blockchain_ulti.LightClient.{
  Header, LightClient, Answer, empty, get_header, add_header, add_all, index_of,
  verify_transaction_in_block, synced_block_refused, BlockDict, TxEntry, sync_from,
  sync_from_blockchain, from_block_dict, tx_item, hash_of_header,
}

lighting : Unit {0}
unfolding lookup insert str_beq evened new_layer leaves root_loop merkle_root get_header add_header
    add_all index_of sync_from sync_from_blockchain from_block_dict tx_item hash_of_header
lighting = tt

-- A stand-in for the digest, and one for a header's hash.
abbrev bracketed : Str → Str
bracketed s = 40 ∷ s

abbrev numbered : Header → Str
numbered h = h.number ∷ []

-- A block of the chain with one transaction, whose hash is "ab" and whose text is "{}".
abbrev block : BlockDict
block = record {
  height = some 0;
  number = none;
  parent_hash = none;
  miner = none;
  proposer = none;
  state_root = none;
  tx_root = none;
  timestamp = some 1;
  extra_data = none;
  hash = some (99 ∷ []);
  block_hash = none;
  transactions = TxEntry.dict_entry (some (97 ∷ 98 ∷ [])) (123 ∷ 125 ∷ []) ∷ [];
}

abbrev client : LightClient
client = (sync_from_blockchain numbered bracketed [] 5 0 (λ n. some block) empty).0

synced_block_refused_example :
    verify_transaction_in_block bracketed 0 (123 ∷ 125 ∷ []) ((123 ∷ 125 ∷ []) ∷ []) client
    ≡ Answer.checked false (40 ∷ 97 ∷ 98 ∷ []) []
unfolding lighting
synced_block_refused_example =
    synced_block_refused bracketed [] 5 0 block client refl refl refl (λ e. ground (arith, e))
