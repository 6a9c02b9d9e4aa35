-- ===== src/Node/Chain/Accepted.antt =====
-- What `add_block` of core/blockchain.py has done when it returns true.
use absolute_blockchain_ulti.Base.{
  ℕ, ◌≡◌, ap, ◌∙◌, Bool, true, false, Option, none, some, List, Result, ok, raised, nat_eq, arith,
  Option-cases, Result-cases, Bool-cases, inl, inr, if◌then◌else◌, nat_beq, not, ◌||◌,
}
use absolute_blockchain_ulti.Base.Int.{ℤ, pos, ltb_ℤ}
use absolute_blockchain_ulti.Base.Dict.{lookup-insert}
use absolute_blockchain_ulti.Consensus.Slashing.{SlashingEngine}
use absolute_blockchain_ulti.Node.Strings.{empty_string}
use absolute_blockchain_ulti.Node.Tables.{Transaction, Block, Connection}
use absolute_blockchain_ulti.Node.Db.Accounts.{atomic, commit}
use absolute_blockchain_ulti.Node.Db.Blocks.{get_block, replace_block, keep}
use absolute_blockchain_ulti.Node.Db.Frame.{blocks-persist_block_locked}
use absolute_blockchain_ulti.Node.Db.Persist.{persist_block_locked}
use absolute_blockchain_ulti.Node.Chain.State.{Node, Refusal, Chain}
use absolute_blockchain_ulti.Node.Chain.Apply.{apply_block_reward}
use absolute_blockchain_ulti.Node.Chain.Add.{
  run_on_returned, with_failure, apply_transactions, after_transactions, execute_block,
  compute_state_root, is_root_refused, sealed, finish_block, note_proposal, conclude, check_block,
  add_block,
}

-- Where the burnt fees are credited.
abbrev pub burn_target : Node → Block → ℕ
burn_target node b = if ltb_ℤ (pos 0) b.total_burned then node.config.burn_address else empty_string

with_failure_returned :
    {A : Type 0} (s : Option SlashingEngine) {a : A} {c : Connection}
    (r : Result Refusal A × Connection)
    → with_failure s r ≡ (ok a, c)
    → r ≡ (ok a, c)
with_failure_returned s (ok a, c) h = ground arith
with_failure_returned s (raised e, c) h = absurd (ground arith)

module _ (node : Node) (now : ℕ) (preserve : Bool) (block : Block) (chain : Chain) where
  -- The rows after the transactions and the reward, and the block that is written.
  abbrev pub rewarded : Connection → Connection
  rewarded m = (apply_block_reward node.config true block.miner m).1

  abbrev pub stored : List Transaction × ℤ → Connection → Block
  stored done m = sealed node preserve block done.0 done.1 (compute_state_root node (rewarded m))

  -- The writes of `_persist_block_locked`, in the call of `add_block`.
  abbrev pub persisted : Block → Connection → Connection
  persisted b m =
      persist_block_locked node.services.strings now b b.transactions b.total_burned
        (burn_target node b) m

  -- The steps of an accepted block.
  pub record IsAccepted (chain' : Chain) : Type 0 where
    pub done : List Transaction × ℤ
    pub middle : Connection
    pub is_new : get_block block.height chain.db ≡ none
    pub checked : check_block node block chain ≡ ok tt
    pub applied :
        apply_transactions node block.height block.miner block.transactions chain.db
        ≡ (ok done, middle)
    pub root_accepted :
        is_root_refused node chain.state_root_baseline preserve block
          (compute_state_root node (rewarded middle))
        ≡ false
    pub proposed : (note_proposal now (stored done middle) chain.slashing).1 ≡ true
    pub written : chain'.db ≡ commit (persisted (stored done middle) (rewarded middle))

  finished :
      (b : Block) (s s' : Option SlashingEngine) (c c' : Connection)
      → finish_block node now b s c ≡ (ok s', c')
      → ((note_proposal now b s).1 ≡ true) × (c' ≡ persisted b c)
  unfolding finish_block
  finished b s s' c c' h = ground arith

  passed_on :
      (done : List Transaction × ℤ) (m c : Connection) (s : Option SlashingEngine)
      → after_transactions node now preserve block chain done m ≡ (ok s, c)
      → (is_root_refused node chain.state_root_baseline preserve block
            (compute_state_root node (rewarded m))
          ≡ false)
        × (finish_block node now (stored done m) chain.slashing (rewarded m) ≡ (ok s, c))
  unfolding after_transactions
  passed_on done m c s h =
      elim (Bool-cases (
        is_root_refused node chain.state_root_baseline preserve block
          (compute_state_root node (rewarded m)))) [
            | inl e ↦ absurd (ground (arith, e))
            | inr e ↦ (e, ground (arith, e))
          ]

  -- The body returned.
  accept :
      (s : Option SlashingEngine) (c : Connection) (chain' : Chain)
      → get_block block.height chain.db ≡ none
      → check_block node block chain ≡ ok tt
      → execute_block node now preserve block chain chain.db ≡ (ok s, c)
      → chain'.db ≡ commit c
      → IsAccepted chain'
  unfolding execute_block
  accept s c chain' n k h w =
      let run = apply_transactions node block.height block.miner block.transactions chain.db in
      let (done, m, e, after) =
        run_on_returned (with_failure chain.slashing run)
          (after_transactions node now preserve block chain) s c h in
      let (r, f) = passed_on done m c s after in
      let (p, q) = finished (stored done m) chain.slashing s (rewarded m) c f in
      record {
        done = done;
        middle = m;
        is_new = n;
        checked = k;
        applied = with_failure_returned chain.slashing run e;
        root_accepted = r;
        proposed = p;
        written = w ∙ ap commit q;
      }

  pub add_block-IsAccepted :
      (chain' : Chain)
      → add_block node now preserve block chain ≡ (true, chain')
      → IsAccepted chain'
  unfolding add_block conclude atomic
  add_block-IsAccepted chain' h = elim (Option-cases (get_block block.height chain.db)) [
    | inr (old, e) ↦ absurd (ground arith)
    | inl e ↦ elim (Result-cases (check_block node block chain)) [
      | inr (f, k) ↦ absurd (ground arith)
      | inl (_, k) ↦ elim (Result-cases (execute_block node now preserve block chain chain.db).0) [
        | inr (f, l) ↦ absurd (ground arith)
        | inl (s, l) ↦
            accept s (execute_block node now preserve block chain chain.db).1 chain' e k
              (ground (arith, l)) (ground arith)
      ]
    ]
  ]

  -- The block is then in the table.
  pub accepted_found :
      (chain' : Chain) (a : IsAccepted chain')
      → get_block block.height chain'.db ≡ some (stored a.done a.middle)
  unfolding get_block commit replace_block sealed
  accepted_found chain' a =
      let b = stored a.done a.middle in
      rw a.written (
        rw
          (blocks-persist_block_locked node.services.strings now b b.transactions b.total_burned
            (burn_target node b) (rewarded a.middle))
          (ground (
            arith,
            lookup-insert block.height b.height b (
                keep (λ h r. nat_beq h b.height || not (nat_beq r.hash b.hash))
                  (rewarded a.middle).live.blocks),
          )))
