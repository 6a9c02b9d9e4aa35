-- ===== src/Evm/Termination.antt =====
-- The loop of evm_interpreter.py ends: an iteration after which the machine still runs has used
-- gas. STOP, RETURN and REVERT are free and end the loop; LOG is charged in its own branch.
use absolute_blockchain_ulti.Base.{
  ℕ, zero, suc, ◌+◌, ◌-◌, ◌≤◌, ◌<◌, ◌≡◌, true, false, none, some, List, Result, ok, raised,
  if◌then◌else◌, arith, Result-cases, Option-cases, inl, inr, get_elem?,
}
use absolute_blockchain_ulti.Evm.Opcode.{Opcode, decode, gas_cost}
use absolute_blockchain_ulti.Evm.State.{
  Fault, Evm, M, ◌>>=◌, ◌>>◌, pure, consume_gas, stop_running, append_trace, set_reverted,
}
use absolute_blockchain_ulti.Evm.Call.{Context}
use absolute_blockchain_ulti.Evm.Exec.{Flow, halted, do_return, do_stop, do_log, exec}
use absolute_blockchain_ulti.Evm.Run.{
  charge, advance, step, run, start, execute_bytecode, Outcome, outcome,
}
use absolute_blockchain_ulti.Evm.Sound.{
  Sound, Sound-bind, Sound-then, Sound-pop_word, Sound-append_trace, bind-inv, sound_rules,
}
use absolute_blockchain_ulti.Evm.Safety.{
  Sound-exec, Sound-charge, Sound-advance, Sound-step, Sound-read_memory, Sound-call_out,
  Sound-pop_many,
}

-- A computation that uses gas, whenever it returns.
record Spends {W A : Type 0} (m : M W A) : Type 0 where
  spends : (s : Evm W) (a : A) (s' : Evm W) → m s ≡ ok (a, s') → s.gas_used < s'.gas_used

-- A branch that ends in `break`, with the machine stopped.
record Halts {W : Type 0} (m : M W Flow) : Type 0 where
  halts :
      (s : Evm W) (a : Flow) (s' : Evm W) → m s ≡ ok (a, s') → (a ≡ halted) × (s'.running ≡ false)

module _ {W : Type 0} where
  Spends-consume_gas : (cost : ℕ) → 1 ≤ cost → Spends {W = W} (consume_gas cost)
  unfolding consume_gas
  Spends-consume_gas cost h = record { spends = λ s a s' e. ground arith }

  Spends-bind_left :
      {A B : Type 0} {m : M W A} {f : A → M W B}
      → Spends m
      → ((a : A) → Sound (f a))
      → Spends (m >>= f)
  Spends-bind_left {m = m} {f = f} p q = record {
    spends = λ s b u h.
        let (a, t, e, g) = bind-inv m f s h in
        omega (arith, p.spends s a t e, ((q a).keeps t b u g).grows);
  }

  Spends-bind_right :
      {A B : Type 0} {m : M W A} {f : A → M W B}
      → Sound m
      → ((a : A) → Spends (f a))
      → Spends (m >>= f)
  Spends-bind_right {m = m} {f = f} p q = record {
    spends = λ s b u h.
        let (a, t, e, g) = bind-inv m f s h in
        omega (arith, (p.keeps s a t e).grows, (q a).spends t b u g);
  }

  Spends-then_left :
      {B : Type 0} {m : M W (Unit {0})} {k : M W B} → Spends m → Sound k → Spends (m >> k)
  unfolding ◌>>◌
  Spends-then_left p q = Spends-bind_left p (λ _. q)

  Spends-then_right :
      {B : Type 0} {m : M W (Unit {0})} {k : M W B} → Sound m → Spends k → Spends (m >> k)
  unfolding ◌>>◌
  Spends-then_right p q = Spends-bind_right p (λ _. q)

  Halts-bind :
      {A : Type 0} (m : M W A) {f : A → M W Flow} → ((a : A) → Halts (f a)) → Halts (m >>= f)
  Halts-bind m {f = f} q = record {
    halts = λ s b u h. let (a, t, e, g) = bind-inv m f s h in (q a).halts t b u g;
  }

  Halts-then : (m : M W (Unit {0})) {k : M W Flow} → Halts k → Halts (m >> k)
  unfolding ◌>>◌
  Halts-then m q = Halts-bind m (λ _. q)

  Halts-stop : Halts {W = W} (stop_running >> pure halted)
  unfolding ◌>>◌ ◌>>=◌ stop_running pure
  Halts-stop = record { halts = λ s a s' e. ground arith }

  Halts-do_return : (m : M W (Unit {0})) → Halts (do_return m)
  unfolding do_return
  Halts-do_return m =
      Halts-bind _
        (λ o. Halts-bind _ (λ n. Halts-bind _ (λ b. Halts-then _ (Halts-then m Halts-stop))))

module _ {W : Type 0} (ctx : Context W) where
  Spends-do_log : (n : ℕ) → Spends (do_log ctx n)
  unfolding do_log
  Spends-do_log n = Spends-bind_right (Sound-pop_many n) (λ popped.
      Spends-bind_right Sound-pop_word (λ size. Spends-bind_right Sound-pop_word (λ offset.
        Spends-then_left (Spends-consume_gas _ (omega arith))
          (search (sound_rules, Sound-read_memory, Sound-call_out) depth 14))))

  advance-halted :
      (m : M W Flow) (s : Evm W) (a : Unit {0}) (u : Evm W)
      → Halts m
      → (m >>= advance) s ≡ ok (a, u)
      → u.running ≡ false
  unfolding advance
  advance-halted m s a u h e =
      let (flow, t, k, g) = bind-inv m advance s e in
      let (stops, off) = h.halts s flow t k in unfold pure in ground arith

  -- One iteration makes progress.
  abbrev Progress : Opcode → Type 0
  Progress op =
      (s : Evm W) (a : Unit {0}) (u : Evm W)
      → step ctx op s ≡ ok (a, u)
      → u.running ≡ true
      → s.gas_used < u.gas_used

  stopped_later :
      (m k : M W (Unit {0})) (s : Evm W) (a : Unit {0}) (u : Evm W)
      → ((t : Evm W) (b : Unit {0}) (v : Evm W) → k t ≡ ok (b, v) → v.running ≡ false)
      → (m >> k) s ≡ ok (a, u)
      → u.running ≡ false
  unfolding ◌>>◌
  stopped_later m k s a u h e =
      let (b, t, first, second) = bind-inv m (λ _. k) s e in h t a u second

  halting-Progress : (op : Opcode) → Halts (exec ctx op) → Progress op
  unfolding step
  halting-Progress op h s a u e on =
      let off : u.running ≡ false =
        stopped_later (charge op) (append_trace op >> (exec ctx op >>= advance)) s a u
          (λ t b v.
            stopped_later (append_trace op) (exec ctx op >>= advance) t b v
              (λ t' b' v'. advance-halted (exec ctx op) t' b' v' h))
          e in
      absurd (ground arith)

  charged-Progress : (op : Opcode) → Spends (charge {W = W} op) → Progress op
  unfolding step
  charged-Progress op p s a u e on =
      (Spends-then_left p (
          Sound-then (Sound-append_trace op)
            (Sound-bind (Sound-exec ctx op) (Sound-advance ctx)))).spends
        s a u e

  log-Progress : (n : ℕ) → Progress (Opcode.log n)
  unfolding step exec
  log-Progress n s a u e on =
      (Spends-then_right (Sound-charge ctx (Opcode.log n)) (
          Spends-then_right (Sound-append_trace (Opcode.log n))
            (Spends-bind_left (Spends-do_log n) (Sound-advance ctx)))).spends
        s a u e

  step-Progress : (op : Opcode) → Progress op
  unfolding charge gas_cost exec do_stop
  step-Progress Opcode.stop = halting-Progress Opcode.stop Halts-stop
  step-Progress Opcode.return_op = halting-Progress Opcode.return_op (Halts-do_return (pure tt))
  step-Progress Opcode.revert = halting-Progress Opcode.revert (Halts-do_return set_reverted)
  step-Progress (Opcode.log n) = log-Progress n
  step-Progress op = charged-Progress op (Spends-consume_gas _ (omega arith))

  -- How many iterations can still come.
  measure : Evm W → ℕ
  measure s = if s.running then s.gas_limit + 2 - s.gas_used else 1

  start-measure : (code : List ℕ) (s : Evm W) → measure (start code s) < s.gas_limit + 3
  unfolding measure start
  start-measure code s = omega arith

  step-measure :
      (op : Opcode) (s : Evm W) (a : Unit {0}) (u : Evm W)
      → s.running ≡ true
      → s.gas_used ≤ s.gas_limit
      → step ctx op s ≡ ok (a, u)
      → (measure u < measure s) × (u.gas_used ≤ u.gas_limit)
  unfolding measure
  step-measure op s a u on fits e =
      let keeps = (Sound-step ctx op).keeps s a u e in
      let bound : u.gas_used ≤ u.gas_limit = omega (arith, keeps.limit, keeps.within fits) in
      (ground (arith, keeps.limit, keeps.within fits, step-Progress op s a u e), bound)

  run_total :
      (fuel : ℕ) (s : Evm W)
      → measure s < fuel
      → s.gas_used ≤ s.gas_limit
      → (r : Result Fault (Evm W)) × (run fuel ctx s ≡ some r)
  unfolding run
  run_total zero s lt fits = absurd (omega arith)
  run_total (suc fuel) s lt fits =
      elim (Option-cases (if s.running then get_elem? s.bytecode s.pc else none)) [
        | inl e ↦ (ok s, ground arith)
        | inr (b, e) ↦ elim (Result-cases (step ctx (decode b) s)) [
          | inl ((a, t), k) ↦
              let on : s.running ≡ true = ground arith in
              let (less, within) = step-measure (decode b) s a t on fits k in
              let (r, found) = run_total fuel t (omega arith) within in (r, ground arith)
          | inr (f, k) ↦ (raised f, ground arith)
        ]
      ]

  -- Every call of `execute_bytecode` ends, with a result or an exception: whatever the code and
  -- the callbacks, `gas_limit + 3` rounds of fuel suffice, and so does any larger number.
  pub execute_bytecode-total :
      (fuel : ℕ) (code : List ℕ) (s : Evm W)
      → s.gas_limit + 3 ≤ fuel
      → (r : Result Fault (Outcome × Evm W)) × (execute_bytecode fuel ctx code s ≡ some r)
  unfolding execute_bytecode
  execute_bytecode-total fuel code s enough =
      let fits : (start code s).gas_used ≤ (start code s).gas_limit = unfold start in omega arith in
      let (r, found) = run_total fuel (start code s) (omega (arith, start-measure code s)) fits in
      elim (Result-cases r) [
        | inl (t, k) ↦ (ok (outcome t, t), ground arith)
        | inr (f, k) ↦ (raised f, ground arith)
      ]
