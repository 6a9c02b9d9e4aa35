-- ===== src/Consensus/Reorg.antt =====
-- The finality-safe reorganization of the chain (consensus/reorg_engine.py). A hash is a number,
-- and 0 stands for `None` or an empty string.
use absolute_blockchain_ulti.Base.{
  ℕ, zero, suc, ◌+◌, ◌≤◌, ◌<◌, ◌≡◌, refl, Bool, true, false, Option, none, some, List, [], ◌∷◌, not,
  ◌&&◌, if◌then◌else◌, nat_eq, ◌==◌, nat_beq, length, arith, Bool-cases, Option-cases, inl, inr,
  ◌⊎◌,
}
use absolute_blockchain_ulti.Base.Dict.{Dict, lookup, insert, contains, or_else}
use absolute_blockchain_ulti.Base.Set.{member, add, member-add}

pub record BlockInfo : Type 0 where
  pub hash : ℕ
  pub parent : ℕ
  pub number : ℕ

pub record ReorgEngine : Type 0 where
  pub blocks : Dict ℕ BlockInfo
  pub head : ℕ
  pub finalized : List ℕ

-- `__init__`
abbrev pub empty : ReorgEngine
empty = record { blocks = []; head = 0; finalized = [] }

unfoldable pub add_block : ℕ → ℕ → ℕ → ReorgEngine → ReorgEngine
add_block hash parent number e = record e {
  blocks = insert hash (record { hash = hash; parent = parent; number = number }) e.blocks;
}

unfoldable pub set_head : ℕ → ReorgEngine → ReorgEngine
set_head hash e = record e { head = hash }

unfoldable pub set_finalized : ℕ → ReorgEngine → ReorgEngine
set_finalized hash e = record e { finalized = add hash e.finalized }

-- `self._blocks.get(current, {}).get("parent")`
unfoldable pub parent_in : ℕ → Dict ℕ BlockInfo → ℕ
parent_in current blocks = elim (lookup current blocks) [ none ↦ 0 | some b ↦ b.parent ]

-- `current and current not in visited`
abbrev pub goes_on : ℕ → List ℕ → Bool
goes_on current visited = not (nat_beq current 0) && not (member current visited)

-- The loop of `_chain_contains`; `none` means that the fuel ran out.
unfoldable pub walk : ℕ → Dict ℕ BlockInfo → ℕ → List ℕ → ℕ → Option Bool
walk zero blocks target visited current = none
walk (suc n) blocks target visited current = elim (goes_on current visited) [
  | false ↦ some false
  | true ↦ elim (current == target) [
    | true ↦ some true
    | false ↦ walk n blocks target (add current visited) (parent_in current blocks)
  ]
]

-- `_chain_contains`
unfoldable pub chain_contains : ℕ → ℕ → Dict ℕ BlockInfo → Option Bool
chain_contains tip target blocks = walk (length blocks + 2) blocks target [] tip

-- The loop over the finalized blocks.
unfoldable pub contains_all : ℕ → List ℕ → Dict ℕ BlockInfo → Bool
contains_all tip [] blocks = true
contains_all tip (f ∷ fs) blocks =
    or_else (chain_contains tip f blocks) false && contains_all tip fs blocks

unfoldable pub try_reorg : ℕ → ReorgEngine → ReorgEngine × Bool
unfolding set_head
try_reorg new_head e =
    if contains new_head e.blocks && contains_all new_head e.finalized e.blocks
    then (set_head new_head e, true)
    else (e, false)

-- How many blocks the walk has not seen.
unseen : List ℕ → Dict ℕ BlockInfo → ℕ
unseen visited [] = 0
unseen visited (x ∷ d) = if member x.0 visited then unseen visited d else unseen visited d + 1

unseen-le-length : (d : Dict ℕ BlockInfo) → unseen [] d ≤ length d
unfolding unseen member
unseen-le-length [] = omega arith
unseen-le-length (x ∷ d) = ground (arith, unseen-le-length d)

unseen-add-le :
    (c : ℕ) (visited : List ℕ) (d : Dict ℕ BlockInfo) → unseen (add c visited) d ≤ unseen visited d
unfolding unseen
unseen-add-le c visited [] = omega arith
unseen-add-le c visited (x ∷ d) =
    ground (arith, unseen-add-le c visited d, member-add x.0 c visited)

unseen-add-lt :
    (c : ℕ) (visited : List ℕ) (d : Dict ℕ BlockInfo) {b : BlockInfo}
    → lookup c d ≡ some b
    → member c visited ≡ false
    → unseen (add c visited) d < unseen visited d
unfolding unseen lookup
unseen-add-lt c visited [] h fresh = absurd (ground arith)
unseen-add-lt c visited (x ∷ d) {b = b} h fresh = elim (Bool-cases (nat_beq c x.0)) [
  | inl e ↦
      let same : c ≡ x.0 = ground arith in
      ground (arith, unseen-add-le c visited d, member-add x.0 c visited)
  | inr e ↦
      ground
        (arith, unseen-add-lt c visited d {b = b} (ground arith) fresh, member-add x.0 c visited)
]

-- An unknown block has no parent, and there the walk ends.
walk-stop :
    (n : ℕ) (blocks : Dict ℕ BlockInfo) (target : ℕ) (visited : List ℕ)
    → walk (suc n) blocks target visited 0 ≡ some false
unfolding walk
walk-stop n blocks target visited = refl

Ends : ℕ → Dict ℕ BlockInfo → ℕ → List ℕ → ℕ → Type 0
Ends n blocks target visited current = (r : Bool) × (walk n blocks target visited current ≡ some r)

walk-step :
    (n : ℕ) (blocks : Dict ℕ BlockInfo) (target : ℕ) (visited : List ℕ) (current : ℕ)
    → (goes_on current visited ≡ true
        → Ends n blocks target (add current visited) (parent_in current blocks))
    → Ends (suc n) blocks target visited current
unfolding walk Ends
walk-step n blocks target visited current next = elim (Bool-cases (goes_on current visited)) [
  | inr stop ↦ (false, ground arith)
  | inl on ↦
      let (r, k) = next on in
      elim (Bool-cases (current == target)) [
        | inl e ↦ (true, ground arith)
        | inr e ↦ (r, ground arith)
      ]
]

walk-total :
    (n : ℕ) (blocks : Dict ℕ BlockInfo) (target : ℕ) (visited : List ℕ) (current : ℕ)
    → unseen visited blocks + 1 < n
    → Ends n blocks target visited current
unfolding parent_in Ends
walk-total zero blocks target visited current h = absurd (omega arith)
walk-total (suc zero) blocks target visited current h = absurd (omega arith)
walk-total (suc (suc n)) blocks target visited current h =
    walk-step (suc n) blocks target visited current (λ on.
      elim (Option-cases (lookup current blocks)) [
        | inl out ↦
            let orphan : parent_in current blocks ≡ 0 = ground arith in
            rw orphan (false, walk-stop n blocks target (add current visited))
        | inr (b, found) ↦
            walk-total (suc n) blocks target (add current visited) (parent_in current blocks)
              (omega (arith, unseen-add-lt current visited blocks {b = b} found (ground arith)))
      ])

-- The walk over the ancestors always ends: along a cycle of parents too, the fuel of two more than
-- the number of blocks suffices.
pub chain_contains-total :
    (tip target : ℕ) (blocks : Dict ℕ BlockInfo)
    → (r : Bool) × (chain_contains tip target blocks ≡ some r)
unfolding chain_contains Ends
chain_contains-total tip target blocks =
    walk-total (length blocks + 2) blocks target [] tip (omega (arith, unseen-le-length blocks))

-- `b` is `a` or an ancestor of it.
pub data Descends (blocks : Dict ℕ BlockInfo) : ℕ → ℕ → Type 0 where
  itself : {a : ℕ} → Descends blocks a a
  through_parent : {a b : ℕ} → Descends blocks (parent_in a blocks) b → Descends blocks a b

walk-Descends :
    (n : ℕ) (blocks : Dict ℕ BlockInfo) (target : ℕ) (visited : List ℕ) (current : ℕ)
    → walk n blocks target visited current ≡ some true
    → Descends blocks current target
unfolding walk
walk-Descends zero blocks target visited current h = absurd (ground arith)
walk-Descends (suc n) blocks target visited current h =
    elim (Bool-cases (goes_on current visited)) [
      | inr stop ↦ absurd (ground arith)
      | inl on ↦ elim (Bool-cases (nat_beq current target)) [
        | inl e ↦ let same : current ≡ target = ground arith in rw same Descends.itself
        | inr e ↦ Descends.through_parent (
            walk-Descends n blocks target (add current visited) (parent_in current blocks)
              (ground arith))
      ]
    ]

contains_all-Descends :
    (tip f : ℕ) (fs : List ℕ) (blocks : Dict ℕ BlockInfo)
    → contains_all tip fs blocks ≡ true
    → member f fs ≡ true
    → Descends blocks tip f
unfolding contains_all member chain_contains
contains_all-Descends tip f [] blocks h m = absurd (ground arith)
contains_all-Descends tip f (x ∷ fs) blocks h m = elim (Bool-cases (nat_beq f x)) [
  | inl e ↦
      let same : f ≡ x = ground arith in
      rw same (walk-Descends (length blocks + 2) blocks x [] tip (ground arith))
  | inr e ↦ contains_all-Descends tip f fs blocks (ground arith) (ground arith)
]

-- A reorganization that is accepted leads to a known block that descends from every finalized
-- block, and changes the head only; one that is refused changes nothing.
pub try_reorg-Descends :
    (new_head : ℕ) (e : ReorgEngine)
    → (((try_reorg new_head e).1 ≡ true)
        × (contains new_head e.blocks ≡ true)
        × ((try_reorg new_head e).0 ≡ set_head new_head e)
        × ((f : ℕ) → member f e.finalized ≡ true → Descends e.blocks new_head f))
      ⊎ (try_reorg new_head e ≡ (e, false))
unfolding try_reorg
try_reorg-Descends new_head e =
    elim (Bool-cases (contains new_head e.blocks && contains_all new_head e.finalized e.blocks)) [
      | inl accepted ↦ inl (
        ground arith,
        ground arith,
        ground arith,
        λ f m. contains_all-Descends new_head f e.finalized e.blocks (ground arith) m,
      )
      | inr refused ↦ inr (ground arith)
    ]
