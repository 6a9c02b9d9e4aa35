-- ===== src/Consensus/Slashing/Events.antt =====
-- The log of the slashing engine (consensus/slashing.py): what each event says, and why it is there.
use absolute_blockchain_ulti.Base.{
  ℕ, ◌+◌, ◌/◌, ◌≡◌, refl, ap, sym, ◌∙◌, Bool, false, List, [], ◌∷◌, ◌++◌, map, All, All-weaken,
  nat_eq, ◌==◌, ltb, arith, ◌⊎◌, inl, inr, Bool-cases, Option-cases, either,
}
use absolute_blockchain_ulti.Base.Dict.{lookup, insert, or_else}
use absolute_blockchain_ulti.Base.Set.{member, add}
use mathlib.Core.List.{append_assoc, append-nil}
use absolute_blockchain_ulti.Consensus.Slashing.Defs.{
  Reason, SlashEvent, event, penalty_of, SlashingEngine, register_validator, slash, judge_vote,
  record_vote, add_vote, votes_of, proposers, record_proposal, record_missed_attestation,
  report_invalid_proposal, clear_epoch,
}
use absolute_blockchain_ulti.Consensus.Slashing.Accounting.{Call, perform, perform_all}

-- The event that a call may leave.
abbrev pub Causes : ℕ × Call → SlashEvent → Type 0
Causes (now, Call.vote v slot hash) x = x ≡ record {
  validator = v;
  reason = Reason.double_vote;
  epoch = slot;
  timestamp = now;
  penalty = 100;
}
Causes (now, Call.proposal v height hash) x = x ≡ record {
  validator = v;
  reason = Reason.double_proposal;
  epoch = height / 32;
  timestamp = now;
  penalty = 200;
}
Causes (now, Call.missed v) x =
    x ≡ record { validator = v; reason = Reason.offline; epoch = 0; timestamp = now; penalty = 10 }
Causes (now, Call.invalid v height) x = x ≡ record {
  validator = v;
  reason = Reason.invalid_proposal;
  epoch = height / 32;
  timestamp = now;
  penalty = 50;
}
Causes (now, Call.register v stake) x = ⊥
Causes (now, Call.clear epoch) x = ⊥

-- One of the calls may have left the event.
abbrev pub IsCaused : List (ℕ × Call) → SlashEvent → Type 0
IsCaused [] x = ⊥
IsCaused (c ∷ calls) x = Causes c x ⊎ IsCaused calls x

add_new : (v : ℕ) (s : List ℕ) → member v s ≡ false → add v s ≡ s ++ (v ∷ [])
unfolding member add
add_new v [] h = refl
add_new v (x ∷ s) h = elim (Bool-cases (v == x)) [
  | inl q ↦ absurd (ground (arith, q, h))
  | inr q ↦ rw q (ap (◌∷◌ x) (add_new v s (ground (arith, q, h))))
]

-- What one call may do: nothing to the log and to the slashed ones, or one event for a validator who was not slashed.
abbrev Grows : ℕ × Call → SlashingEngine → SlashingEngine → Type 0
Grows c e e' =
    ((e'.events ≡ e.events) × (e'.slashed ≡ e.slashed))
    ⊎ ((x : SlashEvent) × (e'.events ≡ e.events ++ (x ∷ []))
        × (e'.slashed ≡ e.slashed ++ (x.validator ∷ []))
        × Causes c x)

slash-Grows :
    (c : ℕ × Call) (now v : ℕ) (r : Reason) (epoch : ℕ) (e : SlashingEngine)
    → Causes c (event now v r epoch)
    → Grows c e (slash now v r epoch e)
unfolding slash
slash-Grows c now v r epoch e why = elim (Bool-cases (member v e.slashed)) [
  | inl q ↦ inl (rw q (refl, refl))
  | inr q ↦ inr (event now v r epoch, rw q refl, rw q (add_new v e.slashed q), why)
]

record_vote-Grows :
    (now v slot hash : ℕ) (e : SlashingEngine)
    → Grows (now, Call.vote v slot hash) e (record_vote now v slot hash e).0
unfolding record_vote judge_vote penalty_of
record_vote-Grows now v slot hash e =
    let grows = λ (r : SlashingEngine × Bool). Grows (now, Call.vote v slot hash) e (r.0) in
    either grows (member v e.slashed) _ _ (inl (refl, refl))
      (elim (Option-cases (lookup slot (votes_of v e))) [
        | inl q ↦ rw q (inl (refl, refl))
        | inr (first, q) ↦ rw q (
            either grows (first == hash) _ _ (inl (refl, refl))
              (slash-Grows (now, Call.vote v slot hash) now v Reason.double_vote slot e refl))
      ])

perform-Grows : (now : ℕ) (c : Call) (e : SlashingEngine) → Grows (now, c) e (perform now c e)
unfolding perform register_validator add_vote record_proposal record_missed_attestation
    report_invalid_proposal clear_epoch penalty_of
perform-Grows now (Call.register v stake) e = inl (refl, refl)
perform-Grows now (Call.vote v slot hash) e =
    either (λ (r : SlashingEngine × Bool). Grows (now, Call.vote v slot hash) e (r.0))
      (member v e.slashed) _ _ (inl (refl, refl)) (record_vote-Grows now v slot hash e)
perform-Grows now (Call.proposal v height hash) e =
    let grows = λ (r : SlashingEngine × Bool). Grows (now, Call.proposal v height hash) e (r.0) in
    either grows (member v e.slashed) _ _ (inl (refl, refl)) (
      either grows (member v (proposers height e)) _ _
        (slash-Grows (now, Call.proposal v height hash) now v Reason.double_proposal (height / 32) e
          refl)
        (inl (refl, refl)))
perform-Grows now (Call.missed v) e =
    let missed = or_else (lookup v e.missed_attestations) 0 + 1 in
    let e' = record e { missed_attestations = insert v missed e.missed_attestations } in
    let grows = λ (r : SlashingEngine). Grows (now, Call.missed v) e r in
    either grows (member v e.slashed) _ _ (inl (refl, refl)) (
      either grows (ltb 50 missed) _ _
        (slash-Grows (now, Call.missed v) now v Reason.offline 0 e' refl) (inl (refl, refl)))
perform-Grows now (Call.invalid v height) e =
    slash-Grows (now, Call.invalid v height) now v Reason.invalid_proposal (height / 32) e refl
perform-Grows now (Call.clear epoch) e = inl (refl, refl)

-- The log keeps what it held, and has one more event for each validator whom one of the calls got
-- slashed.
abbrev pub IsExplained : List (ℕ × Call) → SlashingEngine → SlashingEngine → Type 0
IsExplained calls before after =
    (new : List SlashEvent) × (after.events ≡ before.events ++ new)
    × (after.slashed ≡ before.slashed ++ map (λ x. x.validator) new)
    × All (IsCaused calls) new

-- Whatever calls come in whatever order, the log keeps its events and gets one more for each
-- validator who is newly slashed, in the same order. Each new event goes back to a call about this
-- validator, with the reason, the epoch, the time and the penalty that this kind of call calls for.
pub perform_all-IsExplained :
    (calls : List (ℕ × Call)) (e : SlashingEngine) → IsExplained calls e (perform_all calls e)
unfolding perform_all
perform_all-IsExplained [] e = ([], sym (append-nil e.events), sym (append-nil e.slashed), tt)
perform_all-IsExplained ((now, c) ∷ calls) e =
    let e' = perform now c e in
    let (new, events, slashed, why) = perform_all-IsExplained calls e' in
    let why' =
      All-weaken {P = IsCaused calls} {Q = IsCaused ((now, c) ∷ calls)} (λ x k. inr k) new why in
    elim (perform-Grows now c e) [
      | inl (same, same') ↦ (
        new,
        events ∙ ap (λ l. l ++ new) same,
        slashed ∙ ap (λ l. l ++ map (λ y. y.validator) new) same',
        why',
      )
      | inr (x, grown, grown', cause) ↦ (
        x ∷ new,
        events ∙ (ap (λ l. l ++ new) grown ∙ append_assoc e.events (x ∷ []) new),
        slashed
            ∙ (ap (λ l. l ++ map (λ y. y.validator) new) grown'
                ∙ append_assoc e.slashed (x.validator ∷ []) (map (λ y. y.validator) new)),
        (inl cause, why'),
      )
    ]
