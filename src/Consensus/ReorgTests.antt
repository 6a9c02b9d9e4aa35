-- ===== src/Consensus/ReorgTests.antt =====
-- Reorganizations of consensus/reorg_engine.py at a small chain with a fork.
use absolute_blockchain_ulti.Base.{ℕ, ◌≡◌, refl, Bool, true, false, some, nat_eq, ◌⊎◌}
use absolute_blockchain_ulti.Base.Dict.{contains, insert, lookup}
use absolute_blockchain_ulti.Base.Set.{member, add}
use absolute_blockchain_ulti.Consensus.Reorg.{
  ReorgEngine, empty, add_block, set_head, set_finalized, parent_in, walk, chain_contains,
  contains_all, try_reorg, Descends, chain_contains-total, try_reorg-Descends,
}

-- 1 ← 2 ← 3 and 1 ← 4; block 2 is final.
abbrev engine : ReorgEngine
engine =
    set_finalized 2 (add_block 4 1 1 (add_block 3 2 2 (add_block 2 1 1 (add_block 1 0 0 empty))))

reorganizing : Unit {0}
unfolding add_block set_head set_finalized parent_in walk chain_contains contains_all try_reorg
    lookup insert member add
reorganizing = tt

try_reorg-engine : ((try_reorg 3 engine).1 ≡ true) × ((try_reorg 4 engine).1 ≡ false)
unfolding reorganizing
try_reorg-engine = (refl, refl)

chain_contains-total_example : (r : Bool) × (chain_contains 4 2 engine.blocks ≡ some r)
chain_contains-total_example = chain_contains-total 4 2 engine.blocks

try_reorg-Descends_example :
    (((try_reorg 3 engine).1 ≡ true)
      × (contains 3 engine.blocks ≡ true)
      × ((try_reorg 3 engine).0 ≡ set_head 3 engine)
      × ((f : ℕ) → member f engine.finalized ≡ true → Descends engine.blocks 3 f))
    ⊎ (try_reorg 3 engine ≡ (engine, false))
try_reorg-Descends_example = try_reorg-Descends 3 engine
