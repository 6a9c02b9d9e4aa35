-- ===== src/Evm/Stepping.antt =====
-- How the loop of evm_interpreter.py goes from opcode to opcode: past the data of PUSH, and
-- anywhere by a jump.
use absolute_blockchain_ulti.Base.{
  ℕ, ◌+◌, ◌≡◌, refl, sym, ◌∙◌, ap, Bool, true, false, some, List, ok, arith, get_elem?, ◌⊎◌, inl,
  inr,
}
use absolute_blockchain_ulti.Evm.Opcode.{Opcode, decode}
use absolute_blockchain_ulti.Evm.State.{
  Evm, ◌>>=◌, ◌>>◌, pure, fail, gets, set_pc, push_word, pop_word, append_trace,
}
use absolute_blockchain_ulti.Evm.Call.{Context}
use absolute_blockchain_ulti.Evm.Exec.{
  Flow, next, jumped, halted, exec, do_push_n, jump_to, do_jump, jump_if, do_jumpi, is_jumpdest,
}
use absolute_blockchain_ulti.Evm.Run.{charge, advance, step}
use absolute_blockchain_ulti.Evm.Sound.{bind-inv}
use absolute_blockchain_ulti.Evm.Place.{SamePlace, Stays-append_trace, Stays-pop_word}
use absolute_blockchain_ulti.Evm.PlaceBranches.{stays_put, Stays-exec, Stays-charge}

-- The bytes of an opcode with its data.
abbrev pub width : Opcode → ℕ
width (Opcode.push n) = n + 1
width op = 1

abbrev pub is_jump : Opcode → Bool
is_jump Opcode.jump = true
is_jump Opcode.jumpi = true
is_jump op = false

-- The positions at which an opcode of the code starts.
pub data Boundary (code : List ℕ) : ℕ → Type 0 where
  first : Boundary code 0
  after :
      {pc b : ℕ}
      → Boundary code pc
      → get_elem? code pc ≡ some b
      → Boundary code (pc + width (decode b))

abbrev after_flow : Flow → ℕ → ℕ
after_flow next pc = pc + 1
after_flow jumped pc = pc
after_flow halted pc = pc

after_flow-cases : (flow : Flow) (p q : ℕ) → p ≡ after_flow flow q → (p ≡ q + 1) ⊎ (p ≡ q)
after_flow-cases next p q h = inl h
after_flow-cases jumped p q h = inr h
after_flow-cases halted p q h = inr h

module _ {W : Type 0} where
  abbrev SameCode : Evm W → Evm W → Type 0
  SameCode s t = t.bytecode ≡ s.bytecode

  advance-SameCode :
      (flow : Flow) (s : Evm W) {u : Unit {0}} {t : Evm W}
      → advance flow s ≡ ok (u, t)
      → SameCode s t × (t.pc ≡ after_flow flow s.pc)
  unfolding advance ◌>>=◌ gets set_pc pure
  advance-SameCode next s h = ground (arith, h)
  advance-SameCode jumped s h = ground (arith, h)
  advance-SameCode halted s h = ground (arith, h)

  do_push_n-next :
      (n : ℕ) (s : Evm W) {flow : Flow} {t : Evm W}
      → do_push_n n s ≡ ok (flow, t)
      → (flow ≡ next) × SameCode s t × (t.pc ≡ s.pc + n)
  unfolding do_push_n ◌>>=◌ ◌>>◌ gets push_word set_pc pure
  do_push_n-next n s h = ground (arith, h)

  jump_to-SameCode :
      (b : Bool) (dest : ℕ) (s : Evm W) {flow : Flow} {t : Evm W}
      → jump_to b dest s ≡ ok (flow, t)
      → SameCode s t
  unfolding jump_to set_pc pure ◌>>◌ ◌>>=◌ fail
  jump_to-SameCode false dest s h = absurd (ground (arith, h))
  jump_to-SameCode true dest s h = ground (arith, h)

  jump_if-SameCode :
      (b : Bool) (dest : ℕ) (s : Evm W) {flow : Flow} {t : Evm W}
      → jump_if b dest s ≡ ok (flow, t)
      → SameCode s t
  unfolding jump_if pure ◌>>=◌ gets
  jump_if-SameCode true dest s h = ground (arith, h)
  jump_if-SameCode false dest s {flow} {t} h =
      jump_to-SameCode (is_jumpdest s.bytecode dest) dest s {flow = flow} {t = t} h

  do_jump-SameCode : (s : Evm W) {flow : Flow} {t : Evm W} → do_jump s ≡ ok (flow, t) → SameCode s t
  unfolding do_jump
  do_jump-SameCode s {flow} {t} h =
      let (dest, a, p, rest) = bind-inv pop_word _ s {b = flow} {u = t} h in
      let (code, b, q, last) = bind-inv (gets (λ s. s.bytecode)) _ a {b = flow} {u = t} rest in
      let same : b ≡ a = unfold gets in ground (arith, q) in
      jump_to-SameCode (is_jumpdest code dest) dest b {flow = flow} {t = t} last
      ∙ (ap (λ s. s.bytecode) same ∙ (Stays-pop_word.stays s dest a p).1)

  do_jumpi-SameCode :
      (s : Evm W) {flow : Flow} {t : Evm W} → do_jumpi s ≡ ok (flow, t) → SameCode s t
  unfolding do_jumpi
  do_jumpi-SameCode s {flow} {t} h =
      let (dest, a, p, rest) = bind-inv pop_word _ s {b = flow} {u = t} h in
      let (condition, b, q, last) = bind-inv pop_word _ a {b = flow} {u = t} rest in
      jump_if-SameCode _ dest b {flow = flow} {t = t} last
      ∙ ((Stays-pop_word.stays a condition b q).1 ∙ (Stays-pop_word.stays s dest a p).1)

module _ {W : Type 0} (ctx : Context W) where
  step-inv :
      (op : Opcode) (s : Evm W) {t : Evm W}
      → step ctx op s ≡ ok (tt, t)
      → (flow : Flow) × (a b : Evm W) × SamePlace s a
        × (exec ctx op a ≡ ok (flow, b))
        × (advance flow b ≡ ok (tt, t))
  unfolding step ◌>>◌
  step-inv op s {t} h =
      let (_, s', p, h') = bind-inv (charge op) _ s {b = tt} {u = t} h in
      let (_, a, q, h'') = bind-inv (append_trace op) _ s' {b = tt} {u = t} h' in
      let (flow, b, e, last) = bind-inv (exec ctx op) advance a {b = tt} {u = t} h'' in
      let charged = (Stays-charge ctx op).stays s tt s' p in
      let traced = (Stays-append_trace op).stays s' tt a q in
      (flow, a, b, (traced.0 ∙ charged.0, traced.1 ∙ charged.1), e, last)

  -- An iteration for an opcode that does not write the counter.
  put-moves :
      (op : Opcode) (s : Evm W) {t : Evm W}
      → stays_put op ≡ true
      → step ctx op s ≡ ok (tt, t)
      → SameCode s t × ((t.pc ≡ s.pc + 1) ⊎ (t.pc ≡ s.pc))
  put-moves op s {t} put h =
      let (flow, a, b, same, e, last) = step-inv op s {t = t} h in
      let kept = (Stays-exec ctx op put).stays a flow b e in
      let moved = advance-SameCode flow b {u = tt} {t = t} last in
      (
        moved.0 ∙ (kept.1 ∙ same.1),
        after_flow-cases flow t.pc s.pc (rw (sym (kept.0 ∙ same.0)) moved.1),
      )

  push-moves :
      (n : ℕ) (s : Evm W) {t : Evm W}
      → step ctx (Opcode.push n) s ≡ ok (tt, t)
      → SameCode s t × (t.pc ≡ s.pc + (n + 1))
  unfolding exec
  push-moves n s {t} h =
      let (flow, a, b, same, e, last) = step-inv (Opcode.push n) s {t = t} h in
      let pushed = do_push_n-next n a {flow = flow} {t = b} e in
      let moved = advance-SameCode flow b {u = tt} {t = t} last in
      let on : t.pc ≡ b.pc + 1 = rw pushed.0 at moved.1 in
      (moved.0 ∙ (pushed.1 ∙ same.1), omega (arith, on, pushed.2, same.0))

  -- An iteration for an opcode that is no jump goes on behind the opcode and its data, or it stops
  -- the loop and stays.
  straight-moves :
      (op : Opcode) (s : Evm W) {t : Evm W}
      → is_jump op ≡ false
      → step ctx op s ≡ ok (tt, t)
      → SameCode s t × ((t.pc ≡ s.pc + width op) ⊎ (t.pc ≡ s.pc))
  straight-moves (Opcode.push n) s {t} straight h =
      let moved = push-moves n s {t = t} h in (moved.0, inl moved.1)
  straight-moves Opcode.jump s {t} straight h = absurd (ground (arith, straight))
  straight-moves Opcode.jumpi s {t} straight h = absurd (ground (arith, straight))
  straight-moves op s {t} straight h = put-moves op s {t = t} refl h

  jump-moves :
      (op : Opcode) (s : Evm W) {t : Evm W}
      → is_jump op ≡ true
      → step ctx op s ≡ ok (tt, t)
      → SameCode s t
  unfolding exec
  jump-moves Opcode.jump s {t} jumps h =
      let (flow, a, b, same, e, last) = step-inv Opcode.jump s {t = t} h in
      (advance-SameCode flow b {u = tt} {t = t} last).0
      ∙ (do_jump-SameCode a {flow = flow} {t = b} e ∙ same.1)
  jump-moves Opcode.jumpi s {t} jumps h =
      let (flow, a, b, same, e, last) = step-inv Opcode.jumpi s {t = t} h in
      (advance-SameCode flow b {u = tt} {t = t} last).0
      ∙ (do_jumpi-SameCode a {flow = flow} {t = b} e ∙ same.1)
  jump-moves op s {t} jumps h = absurd (ground (arith, jumps))

-- Iterations of the loop one after the other; a jump lands where an opcode of the code starts.
pub data Runs {W : Type 0} (ctx : Context W) : Evm W → Evm W → Type 0 where
  here : {s : Evm W} → Runs ctx s s
  ahead :
      {s t u : Evm W} {b : ℕ}
      → get_elem? s.bytecode s.pc ≡ some b
      → is_jump (decode b) ≡ false
      → step ctx (decode b) s ≡ ok (tt, t)
      → Runs ctx t u
      → Runs ctx s u
  leap :
      {s t u : Evm W} {b : ℕ}
      → get_elem? s.bytecode s.pc ≡ some b
      → is_jump (decode b) ≡ true
      → step ctx (decode b) s ≡ ok (tt, t)
      → Boundary t.bytecode t.pc
      → Runs ctx t u
      → Runs ctx s u

-- The loop stands only where an opcode of the code starts.
pub Runs-Boundary :
    {W : Type 0} (ctx : Context W) (code : List ℕ) {s u : Evm W}
    → s.bytecode ≡ code
    → Boundary code s.pc
    → Runs ctx s u
    → (u.bytecode ≡ code) × Boundary code u.pc
Runs-Boundary ctx code same at Runs.here = (same, at)
Runs-Boundary ctx code {s} {u} same at (Runs.ahead {t = t} {b = b} fetched straight stepped rest) =
    let (kept, moved) = straight-moves ctx (decode b) s {t = t} straight stepped in
    let fetched' : get_elem? code s.pc ≡ some b = rw same at fetched in
    let next_at : Boundary code t.pc = elim moved [
      | inl on ↦ rw on (Boundary.after {b = b} at fetched')
      | inr stay ↦ rw stay at
    ] in
    Runs-Boundary ctx code {s = t} {u = u} (kept ∙ same) next_at rest
Runs-Boundary ctx code {s} {u} same at
      (Runs.leap {t = t} {b = b} fetched jumps stepped lands rest) =
    let kept = jump-moves ctx (decode b) s {t = t} jumps stepped in
    let all = kept ∙ same in Runs-Boundary ctx code {s = t} {u = u} all (rw all at lands) rest
