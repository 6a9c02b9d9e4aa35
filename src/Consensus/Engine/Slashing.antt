-- ===== src/Consensus/Engine/Slashing.antt =====
-- `class ConsensusEngineSlashing` of consensus/engine_slashing.py.
use absolute_blockchain_ulti.Base.{
  ℕ, ◌≡◌, refl, ◌≢◌, ◌≤◌, Bool, true, false, none, some, List, [], ◌∷◌, ltb, if◌then◌else◌, nat_eq,
  nat_beq, nat_beq_iff, arith, Bool-cases, inl, inr, either, ap, ◌∙◌, ◌&&◌, ◌==◌,
}
use absolute_blockchain_ulti.Base.Dict.{
  Dict, lookup, insert, contains, or_else, lookup-insert, entry-le-sum_entries,
}
use absolute_blockchain_ulti.Base.Set.{member-add}
use absolute_blockchain_ulti.Consensus.Lmd
use absolute_blockchain_ulti.Consensus.Lmd.{LmdTable, get_weights, get_weights-support}
use absolute_blockchain_ulti.Consensus.Beacon
use absolute_blockchain_ulti.Consensus.Beacon.{BeaconFinality}
use absolute_blockchain_ulti.Consensus.Slashing
use absolute_blockchain_ulti.Consensus.Slashing.{SlashingEngine}
use absolute_blockchain_ulti.Consensus.Tree
use absolute_blockchain_ulti.Consensus.Tree.{Tree, Block, own_hash}

pub record Engine : Type 0 where
  pub lmd : LmdTable
  pub finality : BeaconFinality
  pub slashing : SlashingEngine
  pub block_tree : Tree
  pub blocks : Dict ℕ Block

-- `__init__`
abbrev pub init : ℕ → Engine
init size = record {
  lmd = Lmd.empty;
  finality = Beacon.init size;
  slashing = Slashing.empty;
  block_tree = [];
  blocks = [];
}

-- `self.finality.set_total_stake(self.slashing.get_total_active_stake())`
unfoldable pub refresh_stake : Engine → Engine
refresh_stake e = record e {
  finality = Beacon.set_total_stake (Slashing.get_total_active_stake e.slashing) e.finality;
}

unfoldable pub add_validator : ℕ → ℕ → Engine → Engine
add_validator v stake e = refresh_stake (record e {
  lmd = Lmd.add_validator v stake e.lmd;
  slashing = Slashing.register_validator v stake e.slashing;
})

unfoldable pub add_block : Block → Engine → Engine
add_block b e = record e {
  blocks = insert (own_hash b) b e.blocks;
  block_tree = Tree.add_block b e.block_tree;
}

module _ (threshold : ℕ → ℕ) where
  -- `if stake > 0: …`
  unfoldable pub count_stake : ℕ → ℕ → ℕ → ℕ → Engine → Engine
  count_stake stake v hash slot e =
      if ltb 0 stake
      then record e {
        lmd = (Lmd.update v hash slot e.lmd).0;
        finality =
            if contains hash e.blocks
            then Beacon.add_vote threshold hash slot stake e.finality
            else e.finality;
      }
      else e

  -- `now` is the time of a slash
  unfoldable pub on_attestation : ℕ → ℕ → ℕ → ℕ → Engine → Engine × Bool
  unfolding count_stake refresh_stake
  on_attestation now v hash slot e =
      let (slashing', accepted) = Slashing.add_vote now v slot hash e.slashing in
      let e' = record e { slashing = slashing' } in
      if accepted
      then (refresh_stake (count_stake (Slashing.get_stake v slashing') v hash slot e'), true)
      else (e', false)

  unfoldable pub is_finalized : ℕ → Engine → Bool
  is_finalized hash e = elim (lookup hash e.blocks) [
    | none ↦ false
    | some b ↦ Beacon.is_finalized b.number e.finality
  ]

-- The calls that change the engine.
pub data Call : Type 0 where
  attest : ℕ → ℕ → ℕ → ℕ → Call
  register : ℕ → ℕ → Call
  block : Block → Call

add_vote-is_slashed :
    (now w slot hash v : ℕ) (e : SlashingEngine)
    → Slashing.is_slashed v e ≡ true
    → Slashing.is_slashed v (Slashing.add_vote now w slot hash e).0 ≡ true
unfolding Slashing.add_vote Slashing.record_vote Slashing.judge_vote Slashing.slash
    Slashing.is_slashed
add_vote-is_slashed now w slot hash v e h = ground (arith, h, member-add v w e.slashed)

add_vote_refused :
    (now v slot hash : ℕ) (e : SlashingEngine)
    → Slashing.is_slashed v e ≡ true
    → Slashing.add_vote now v slot hash e ≡ (e, false)
unfolding Slashing.add_vote Slashing.is_slashed
add_vote_refused now v slot hash e h = ground (arith, h)

no_stake :
    (v : ℕ) (e : SlashingEngine) → Slashing.is_slashed v e ≡ true → Slashing.get_stake v e ≡ 0
unfolding Slashing.is_slashed Slashing.get_stake
no_stake v e h = ground (arith, h)

update_other :
    (v w hash slot : ℕ) (t : LmdTable)
    → v ≢ w
    → Lmd.get_validator_vote v (Lmd.update w hash slot t).0 ≡ Lmd.get_validator_vote v t
unfolding Lmd.update Lmd.get_validator_vote
update_other v w hash slot t other =
    ground (arith, other, lookup-insert v w (hash, slot) t.latest_vote)

module _ (threshold : ℕ → ℕ) where
  unfoldable pub perform : Call → Engine → Engine
  perform (attest now v hash slot) e = (on_attestation threshold now v hash slot e).0
  perform (register v stake) e = add_validator v stake e
  perform (block b) e = add_block b e

  unfoldable pub perform_all : List Call → Engine → Engine
  perform_all [] e = e
  perform_all (c ∷ calls) e = perform_all calls (perform c e)

  -- What an attestation does to the slashing engine and to the latest messages.
  on_attestation-parts :
      (now w hash slot : ℕ) (e : Engine)
      → let r = Slashing.add_vote now w slot hash e.slashing in
        ((on_attestation threshold now w hash slot e).0.slashing ≡ r.0)
        × ((on_attestation threshold now w hash slot e).0.lmd ≡ (
            if r.1 && ltb 0 (Slashing.get_stake w r.0)
            then (Lmd.update w hash slot e.lmd).0
            else e.lmd))
  unfolding on_attestation count_stake refresh_stake
  on_attestation-parts now w hash slot e =
      let r = Slashing.add_vote now w slot hash e.slashing in
      elim (Bool-cases r.1) [
        | inr q ↦ rw q (refl, refl)
        | inl q ↦ elim (Bool-cases (ltb 0 (Slashing.get_stake w r.0))) [
          | inl k ↦ rw (q, k) (refl, refl)
          | inr k ↦ rw (q, k) (refl, refl)
        ]
      ]

  -- The validator is slashed, and its latest vote is this.
  abbrev Voted : ℕ → ℕ × ℕ → Engine → Type 0
  Voted v vote e =
      (Slashing.is_slashed v e.slashing ≡ true) × (Lmd.get_validator_vote v e.lmd ≡ some vote)

  perform-Voted :
      (v : ℕ) (vote : ℕ × ℕ) (c : Call) (e : Engine) → Voted v vote e → Voted v vote (perform c e)
  unfolding perform add_validator add_block refresh_stake Lmd.add_validator Lmd.get_validator_vote
      Slashing.register_validator Slashing.is_slashed
  perform-Voted v vote (register w stake) e h = h
  perform-Voted v vote (block b) e h = h
  perform-Voted v vote (attest now w hash slot) e h =
      let r = Slashing.add_vote now w slot hash e.slashing in
      let parts = on_attestation-parts now w hash slot e in
      let stays = add_vote-is_slashed now w slot hash v e.slashing h.0 in
      let voted : Lmd.get_validator_vote v (on_attestation threshold now w hash slot e).0.lmd
          ≡ some vote =
        elim (Bool-cases (nat_beq v w)) [
          | inl q ↦
              let me : v ≡ w = (nat_beq_iff v w).0 q in
              let refused = add_vote_refused now w slot hash e.slashing (rw me at h.0) in
              let same : (on_attestation threshold now w hash slot e).0.lmd ≡ e.lmd =
                ground (arith, parts.1, ap (λ x. x.1) refused) in
              rw same (h.1)
          | inr q ↦
              let other : v ≢ w = ground (arith, q) in
              rw parts.1 (
                either (λ t. Lmd.get_validator_vote v t ≡ some vote)
                  (r.1 && ltb 0 (Slashing.get_stake w r.0)) _ _
                  (update_other v w hash slot e.lmd other ∙ h.1) (h.1))
        ] in
      (rw parts.0 stays, voted)

  perform_all-Voted :
      (v : ℕ) (vote : ℕ × ℕ) (calls : List Call) (e : Engine)
      → Voted v vote e
      → Voted v vote (perform_all calls e)
  unfolding perform_all
  perform_all-Voted v vote [] e h = h
  perform_all-Voted v vote (c ∷ calls) e h =
      perform_all-Voted v vote calls (perform c e) (perform-Voted v vote c e h)

  -- A slashed validator whose vote stands in the latest-message table keeps it, whatever
  -- attestations, registrations and blocks follow: though the slashing engine gives it no stake, all
  -- its stake still counts for the block in the weights of the fork choice.
  pub slashed_keeps_weight :
      (v hash slot : ℕ) (calls : List Call) (e : Engine)
      → Slashing.is_slashed v e.slashing ≡ true
      → Lmd.get_validator_vote v e.lmd ≡ some (hash, slot)
      → let e' = perform_all calls e in
        (Slashing.get_stake v e'.slashing ≡ 0)
        × (Lmd.get_validator_vote v e'.lmd ≡ some (hash, slot))
        × (or_else (lookup v e'.lmd.validator_stake) 0
            ≤ or_else (lookup hash (get_weights e'.lmd)) 0)
  slashed_keeps_weight v hash slot calls e slashed voted =
      let e' = perform_all calls e in
      let kept = perform_all-Voted v (hash, slot) calls e (slashed, voted) in
      let part =
        entry-le-sum_entries
          (λ w vote. if vote.0 == hash then or_else (lookup w e'.lmd.validator_stake) 0 else 0) v
          (hash, slot) e'.lmd.latest_vote (unfold Lmd.get_validator_vote in kept.1) in
      (
        no_stake v e'.slashing kept.0,
        kept.1,
        rw (get_weights-support e'.lmd hash) (ground (arith, part, nat_beq_iff hash hash)),
      )
