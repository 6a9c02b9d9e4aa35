-- ===== src/Consensus/Tree.antt =====
-- The block tree that every engine of consensus/ keeps: `add_block` of consensus/engine_casper.py,
-- which engine_beacon.py and engine_slashing.py repeat word for word. Hashes are only compared,
-- so they are numbers; 0 stands for `None` and 1 for the empty string, the two that Python's `or`
-- and `if` treat as false.
use absolute_blockchain_ulti.Base.{
  ℕ, ◌≡◌, Bool, true, none, some, List, [], ltb, ◌||◌, ◌&&◌, not, if◌then◌else◌, nat_eq, ◌==◌,
  arith, Option-cases, inl, inr,
}
use absolute_blockchain_ulti.Base.Dict.{Dict, lookup, insert, contains, lookup-insert}
use absolute_blockchain_ulti.Base.Set.{member, add, member-add, IsFinSet, add-IsFinSet}

-- The keys of a block's dictionary that the engines read.
pub record Block : Type 0 where
  pub hash : ℕ
  pub block_hash : ℕ
  pub parent_hash : ℕ
  pub parent : ℕ
  pub number : ℕ

pub record Node : Type 0 where
  pub parent : ℕ
  pub children : List ℕ
  pub number : ℕ

abbrev pub Tree : Type 0
Tree = Dict ℕ Node

abbrev pub truthy : ℕ → Bool
truthy h = ltb 1 h

-- `block.get("hash") or block.get("block_hash")`
abbrev pub own_hash : Block → ℕ
own_hash b = if truthy b.hash then b.hash else b.block_hash

abbrev pub parent_of : Block → ℕ
parent_of b = if truthy b.parent_hash then b.parent_hash else b.parent

-- `if h not in self._block_tree: self._block_tree[h] = {…}`
unfoldable pub ensure_node : ℕ → ℕ → ℕ → Tree → Tree
ensure_node h parent number t =
    if contains h t
    then t
    else insert h (record { parent = parent; children = []; number = number }) t

-- `tree.get(h, {}).get("children", [])`
unfoldable pub children_of : ℕ → Tree → List ℕ
children_of h t = elim (lookup h t) [ none ↦ [] | some n ↦ n.children ]

-- `if h not in children: children.append(h)`, which is `add`; the parent has its node by then
unfoldable pub link : ℕ → ℕ → Tree → Tree
link parent h t = elim (lookup parent t) [
  | none ↦ t
  | some n ↦ insert parent (record n { children = add h n.children }) t
]

-- The changes that `add_block` makes to `_block_tree`.
unfoldable pub add_block : Block → Tree → Tree
add_block b t =
    let t1 = ensure_node (own_hash b) (parent_of b) b.number t in
    if truthy (parent_of b)
    then link (parent_of b) (own_hash b) (ensure_node (parent_of b) 0 0 t1)
    else t1

lookup-ensure_node :
    (q h parent number : ℕ) (t : Tree)
    → lookup q (ensure_node h parent number t) ≡ (
        if q == h && not (contains h t)
        then some (record { parent = parent; children = []; number = number })
        else lookup q t)
unfolding ensure_node
lookup-ensure_node q h parent number t =
    ground (arith, lookup-insert q h (record { parent = parent; children = []; number = number }) t)

children_of-ensure_node :
    (q h parent number : ℕ) (t : Tree)
    → children_of q (ensure_node h parent number t) ≡ children_of q t
unfolding children_of
children_of-ensure_node q h parent number t = ground (arith, lookup-ensure_node q h parent number t)

contains-ensure_node :
    (h parent number : ℕ) (t : Tree) → contains h (ensure_node h parent number t) ≡ true
contains-ensure_node h parent number t = ground (arith, lookup-ensure_node h h parent number t)

children_of-link :
    (q parent h : ℕ) (t : Tree)
    → contains parent t ≡ true
    → children_of q (link parent h t)
      ≡ (if q == parent then add h (children_of parent t) else children_of q t)
unfolding children_of link
children_of-link q parent h t known = elim (Option-cases (lookup parent t)) [
  | inl e ↦ absurd (ground arith)
  | inr (n, e) ↦ ground (arith, lookup-insert q parent (record n { children = add h n.children }) t)
]

children_of-add_block :
    (q : ℕ) (b : Block) (t : Tree)
    → children_of q (add_block b t) ≡ (
        if truthy (parent_of b) && q == parent_of b
        then add (own_hash b) (children_of q t)
        else children_of q t)
unfolding add_block
children_of-add_block q b t =
    let t1 = ensure_node (own_hash b) (parent_of b) b.number t in
    ground (
      arith,
      children_of-link q (parent_of b) (own_hash b) (ensure_node (parent_of b) 0 0 t1)
          (contains-ensure_node (parent_of b) 0 0 t1),
      children_of-ensure_node q (parent_of b) 0 0 t1,
      children_of-ensure_node q (own_hash b) (parent_of b) b.number t,
    )

-- Adding a block adds exactly one link to the tree, from the block's parent to the block, and none
-- if the block names no parent: no other link appears, and none is lost.
pub member-children_of-add_block :
    (q c : ℕ) (b : Block) (t : Tree)
    → member c (children_of q (add_block b t)) ≡ (
        member c (children_of q t) || (truthy (parent_of b) && q == parent_of b && c == own_hash b))
member-children_of-add_block q c b t =
    ground (arith, children_of-add_block q b t, member-add c (own_hash b) (children_of q t))

-- No block is twice among the children of another.
pub children_of-IsFinSet :
    (b : Block) (t : Tree) (q : ℕ)
    → IsFinSet (children_of q t)
    → IsFinSet (children_of q (add_block b t))
children_of-IsFinSet b t q h =
    ground (arith, children_of-add_block q b t, add-IsFinSet (own_hash b) (children_of q t) h)
