-- ===== src/Node/Chain/Floor.antt =====
-- `reorg_to_ancestor` of core/blockchain.py: what goes, what stays, and what a failure leaves.
use absolute_blockchain_ulti.Base.{
  ℕ, zero, suc, ◌+◌, ◌≤◌, ◌≡◌, refl, sym, ap, ◌∙◌, Bool, true, false, Option, none, some, ok,
  nat_eq, arith, Option-cases, Result-cases, Bool-cases, inl, inr, if◌then◌else◌, leb, ltb, All,
  ◌&&◌,
}
use absolute_blockchain_ulti.Base.Dict.{Dict, lookup, IsDict}
use absolute_blockchain_ulti.Node.Strings.{non_empty}
use absolute_blockchain_ulti.Node.Tables.{Block, Connection}
use absolute_blockchain_ulti.Node.Db.Accounts.{
  commit, rollback, atomic, get_all_accounts, balance_delta,
}
use absolute_blockchain_ulti.Node.Db.Blocks.{get_block, get_chain_tip, highest, keep, delete_above}
use absolute_blockchain_ulti.Node.Db.Rows.{highest-none, highest_bounds, lookup-keep, kept}
use absolute_blockchain_ulti.Node.Pools.Locks.{pool_state}
use absolute_blockchain_ulti.Node.Chain.State.{Node}
use absolute_blockchain_ulti.Node.Chain.Apply.{apply_block_reward, pay}
use absolute_blockchain_ulti.Node.Chain.Add.{
  run_on_returned, apply_transactions, compute_state_root,
}
use absolute_blockchain_ulti.Node.Chain.Refused.{
  Uncommitted, IsQuiet, IsClosed, IsQuiet-later, apply_transactions-Uncommitted,
}
use absolute_blockchain_ulti.Node.Chain.Rollback.{
  replay_block, replay_blocks, cut_back, check_replay_root, replay_from_genesis, reorg_to_ancestor,
  completed,
}

-- No block of the table has a transaction for a contract, or from a pool.
abbrev pub AllQuiet : Node → Connection → Type 0
AllQuiet node c =
    (h : ℕ) (b : Block) → lookup h c.live.blocks ≡ some b → All (IsQuiet node c) b.transactions

Uncommitted-trans : (a b c : Connection) → Uncommitted a b → Uncommitted b c → Uncommitted a c
Uncommitted-trans a b c u v = (v.0 ∙ u.0, v.1 ∙ u.1, v.2 ∙ u.2)

replay_block-Uncommitted :
    (node : Node) (b : Block) (c : Connection)
    → All (IsQuiet node c) b.transactions
    → Uncommitted c (replay_block node b c).1
unfolding replay_block apply_block_reward pay balance_delta
replay_block-Uncommitted node b c h =
    let r = apply_transactions node b.height b.miner b.transactions c in
    let u = apply_transactions-Uncommitted node b.height b.miner b.transactions c h in
    elim (Result-cases r.0) [
      | inr (f, e) ↦ ground (arith, e, u)
      | inl (s, e) ↦ ground (arith, e, u)
    ]

AllQuiet-later :
    (node : Node) (c c' : Connection) → Uncommitted c c' → AllQuiet node c → AllQuiet node c'
AllQuiet-later node c c' u q =
    λ h b e. IsQuiet-later node c c' b.transactions u.1 (q h b (ground (arith, e, u)))

replay_blocks-Uncommitted :
    (node : Node) (n h : ℕ) (c : Connection)
    → AllQuiet node c
    → Uncommitted c (replay_blocks node n h c).1
unfolding replay_blocks get_block
replay_blocks-Uncommitted node zero h c q = (refl, refl, refl)
replay_blocks-Uncommitted node (suc n) h c q = elim (Option-cases (lookup h c.live.blocks)) [
  | inl e ↦ ground (arith, e)
  | inr (b, e) ↦
      let r = replay_block node b c in
      let u = replay_block-Uncommitted node b c (q h b e) in
      let v = replay_blocks-Uncommitted node n (h + 1) r.1 (AllQuiet-later node c r.1 u q) in
      elim (Result-cases r.0) [
        | inr (f, k) ↦ ground (arith, e, k, u)
        | inl (s, k) ↦ ground (arith, e, k, u, v)
      ]
]

-- The rows that stay.
abbrev pub cut_rows : ℕ → ℕ → Dict ℕ Block → Dict ℕ Block
cut_rows cut tip rows = if leb tip cut then rows else keep (λ h _. leb h cut) rows

cut_back_rows :
    (node : Node) (cut tip : ℕ) (c : Connection)
    → ((cut_back node cut tip c).live.blocks ≡ cut_rows cut tip c.live.blocks)
      × ((cut_back node cut tip c).saved ≡ c.saved)
      × ((cut_back node cut tip c).live.pool_locks_state ≡ c.live.pool_locks_state)
unfolding cut_back delete_above
cut_back_rows node cut tip c = ground arith

-- `get_chain_tip` of these rows
abbrev pub tip_of : Dict ℕ Block → ℕ
tip_of rows = elim (highest rows) [ none ↦ 0 | some r ↦ r.0 ]

-- No row is above the tip.
above_tip :
    (h cut : ℕ) (rows : Dict ℕ Block)
    → tip_of rows ≤ cut
    → lookup h rows ≡ (if leb h cut then lookup h rows else none)
above_tip h cut rows e = elim (Option-cases (highest rows)) [
  | inl n ↦ ground (arith, highest-none h rows n)
  | inr (r, n) ↦ elim (Option-cases (lookup h rows)) [
    | inl k ↦ ground (arith, k)
    | inr (b, k) ↦ ground (arith, n, k, e, highest_bounds h b rows r n k)
  ]
]

kept_below :
    (h cut : ℕ) (o : Option Block) → kept (λ h _. leb h cut) h o ≡ (if leb h cut then o else none)
kept_below h cut none = ground arith
kept_below h cut (some b) = refl

lookup-cut_rows :
    (h cut : ℕ) (rows : Dict ℕ Block)
    → IsDict rows
    → lookup h (cut_rows cut (tip_of rows) rows) ≡ (if leb h cut then lookup h rows else none)
lookup-cut_rows h cut rows d = elim (Bool-cases (leb (tip_of rows) cut)) [
  | inl e ↦ rw e (above_tip h cut rows (ground arith))
  | inr e ↦ rw e (lookup-keep (λ h _. leb h cut) h rows d ∙ kept_below h cut (lookup h rows))
]

cut_quiet :
    (node : Node) (cut : ℕ) (c : Connection)
    → IsDict c.live.blocks
    → AllQuiet node c
    → AllQuiet node (cut_back node cut (tip_of c.live.blocks) c)
unfolding pool_state
cut_quiet node cut c d q = λ h b e.
    let start = cut_back node cut (tip_of c.live.blocks) c in
    let rows = cut_back_rows node cut (tip_of c.live.blocks) c in
    let was : lookup h c.live.blocks ≡ some b =
      ground (arith, e, rows.0, lookup-cut_rows h cut c.live.blocks d) in
    IsQuiet-later node c start b.transactions rows.2 (q h b was)

-- What the replay begins with, and what it commits.
replayed :
    (node : Node) (cut : ℕ) (c : Connection)
    → IsDict c.live.blocks
    → AllQuiet node c
    → Uncommitted
        (cut_back node cut (tip_of c.live.blocks) c)
        (replay_from_genesis node cut (tip_of c.live.blocks) c).1
unfolding replay_from_genesis check_replay_root
replayed node cut c d q =
    let start = cut_back node cut (tip_of c.live.blocks) c in
    let r = replay_blocks node cut 1 start in
    let u = replay_blocks-Uncommitted node cut 1 start (cut_quiet node cut c d q) in
    elim (Result-cases r.0) [
      | inr (f, e) ↦ ground (arith, e, u)
      | inl (s, e) ↦ elim (Option-cases (get_block cut r.1)) [
        | inl k ↦ ground (arith, e, k, u)
        | inr (b, k) ↦ ground (arith, e, k, u)
      ]
    ]

-- What a call may do, seen at the height `h`: nothing, or drop the blocks above `cut`.
abbrev pub Rolled : ℕ → ℕ → Connection → Bool × Connection → Type 0
Rolled h cut c (false, c') = c' ≡ c
Rolled h cut c (true, c') =
    (c'.saved ≡ c'.live) × (get_block h c' ≡ (if leb h cut then get_block h c else none))

completed-Rolled :
    (node : Node) (h cut : ℕ) (c : Connection)
    → IsDict c.live.blocks
    → AllQuiet node c
    → IsClosed c
    → Rolled h cut c (completed (atomic (replay_from_genesis node cut (tip_of c.live.blocks)) c))
unfolding atomic commit rollback get_block
completed-Rolled node h cut c d q closed =
    let run = replay_from_genesis node cut (tip_of c.live.blocks) c in
    let u = replayed node cut c d q in
    let rows = cut_back_rows node cut (tip_of c.live.blocks) c in
    elim (Result-cases run.0) [
      | inr (f, e) ↦ rw (e, Rolled) (ground (arith, u, rows, closed))
      | inl (s, e) ↦
          rw (e, Rolled)
            (ground (arith, e), ground (arith, u, rows, lookup-cut_rows h cut c.live.blocks d))
    ]

-- A call that fails leaves the tables as they were. One that succeeds drops the blocks above the
-- height and keeps the others.
pub reorg_to_ancestor-Rolled :
    (node : Node) (floor cut h : ℕ) (c : Connection)
    → IsDict c.live.blocks
    → AllQuiet node c
    → IsClosed c
    → Rolled h cut c (reorg_to_ancestor node floor cut c)
unfolding reorg_to_ancestor get_chain_tip get_block
reorg_to_ancestor-Rolled node floor cut h c d q closed =
    elim (Bool-cases (ltb 0 floor && ltb cut floor)) [
      | inl e ↦ rw e refl
      | inr e ↦ rw e (elim (Bool-cases (ltb (tip_of c.live.blocks) cut)) [
        | inl k ↦ rw k (sym closed, above_tip h cut c.live.blocks (ground arith))
        | inr k ↦ rw k (completed-Rolled node h cut c d q closed)
      ])
    ]

Rolled-kept :
    (h cut : ℕ) (c : Connection) (r : Bool × Connection)
    → Rolled h cut c r
    → h ≤ cut
    → get_block h r.1 ≡ get_block h c
Rolled-kept h cut c (false, c') k le = ap (get_block h) k
Rolled-kept h cut c (true, c') k le = ground (arith, k, le)

-- A rollback, whether it succeeds or fails, leaves every block at or below the finalized height as
-- it is. No transaction of the database is open, no height has two rows, and the blocks'
-- transactions are without contracts and come from addresses that are no pool's.
pub reorg_to_ancestor_keeps_final :
    (node : Node) (floor cut h : ℕ) (c : Connection)
    → IsDict c.live.blocks
    → AllQuiet node c
    → IsClosed c
    → h ≤ floor
    → get_block h (reorg_to_ancestor node floor cut c).1 ≡ get_block h c
unfolding reorg_to_ancestor
reorg_to_ancestor_keeps_final node floor cut h c d q closed le =
    elim (Bool-cases (ltb 0 floor && ltb cut floor)) [
      | inl e ↦ rw e refl
      | inr e ↦
          Rolled-kept h cut c (reorg_to_ancestor node floor cut c)
            (reorg_to_ancestor-Rolled node floor cut h c d q closed) (ground arith)
    ]

check_replay_root_passed :
    (node : Node) (cut : ℕ) (c c' : Connection) (b : Block) (u : Unit)
    → check_replay_root node cut c ≡ (ok u, c')
    → get_block cut c' ≡ some b
    → non_empty b.state_root ≡ true
    → compute_state_root node c' ≡ b.state_root
unfolding check_replay_root
check_replay_root_passed node cut c c' b u h found root = elim (Option-cases (get_block cut c)) [
  | inl e ↦ absurd (ground (arith, e, h, found))
  | inr (x, e) ↦ ground (arith, e, h, found, root)
]

replay_from_genesis_root :
    (node : Node) (cut tip : ℕ) (c c' : Connection) (b : Block) (u : Unit)
    → replay_from_genesis node cut tip c ≡ (ok u, c')
    → get_block cut c' ≡ some b
    → non_empty b.state_root ≡ true
    → compute_state_root node c' ≡ b.state_root
unfolding replay_from_genesis
replay_from_genesis_root node cut tip c c' b u h found root =
    let (s, m, a, last) =
      run_on_returned (replay_blocks node cut 1 (cut_back node cut tip c)) _ u c' h in
    check_replay_root_passed node cut m c' b u last found root

-- After a rollback to a height up to the tip that succeeds, the accounts have the state root that
-- the block at that height names, if it names one.
pub compute_state_root-reorg_to_ancestor :
    (node : Node) (floor cut : ℕ) (c c' : Connection) (b : Block)
    → reorg_to_ancestor node floor cut c ≡ (true, c')
    → cut ≤ get_chain_tip c
    → get_block cut c' ≡ some b
    → non_empty b.state_root ≡ true
    → compute_state_root node c' ≡ b.state_root
unfolding reorg_to_ancestor atomic commit get_block compute_state_root get_all_accounts
compute_state_root-reorg_to_ancestor node floor cut c c' b h le found root =
    let run = replay_from_genesis node cut (get_chain_tip c) c in
    elim (Bool-cases (ltb 0 floor && ltb cut floor)) [
      | inl e ↦ absurd (ground (arith, e, h))
      | inr e ↦ elim (Result-cases run.0) [
        | inr (f, k) ↦ absurd (ground (arith, e, k, h, le))
        | inl (u, k) ↦
            let done : c' ≡ commit run.1 = ground (arith, e, k, h, le) in
            let same : replay_from_genesis node cut (get_chain_tip c) c ≡ (ok u, run.1) =
              ground (arith, k) in
            rw done (
              replay_from_genesis_root node cut (get_chain_tip c) c run.1 b u same
                (ground (arith, done, found)) root)
      ]
    ]
