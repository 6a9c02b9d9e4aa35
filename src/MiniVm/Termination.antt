-- ===== src/MiniVm/Termination.antt =====
-- The loop of execution/vm.py ends: every instruction but STOP costs gas, and STOP ends the loop.
use absolute_blockchain_ulti.Base.{
  ℕ, zero, suc, ◌+◌, ◌-◌, ◌≤◌, ◌<◌, ◌≡◌, inl, inr, true, Option, none, some, Result, ok, raised,
  length, arith, Result-cases, Option-cases, get_elem?, if◌then◌else◌,
}
use absolute_blockchain_ulti.Base.Int.{ℤ}
use absolute_blockchain_ulti.MiniVm.Defs.{
  Op, Fault, Vm, Code, Outcome, gas_cost, consume_gas, dispatch, step, run, start, outcome, execute,
}
use absolute_blockchain_ulti.MiniVm.Gas.{step-gas}

-- An instruction after which the machine still runs has a price.
step_pays :
    (n : ℕ) (op : Op) (a : Option ℤ) (m : Vm) {m' : Vm}
    → step n (op, a) m ≡ ok m'
    → m'.running ≡ true
    → 1 ≤ gas_cost op
unfolding gas_cost step consume_gas dispatch
step_pays n Op.stop a m h r = ground arith
step_pays n op a m h r = omega arith

-- How many iterations can still come.
measure : Vm → ℕ
measure m = if m.running then m.gas_limit + 2 - m.gas_used else 1

step-measure :
    (n : ℕ) (op : Op) (a : Option ℤ) (m : Vm) {m' : Vm}
    → m.running ≡ true
    → step n (op, a) m ≡ ok m'
    → measure m' < measure m
unfolding measure
step-measure n op a m r h = ground (arith, step-gas n op a m h, step_pays n op a m h)

run_total :
    (fuel : ℕ) (code : Code) (m : Vm)
    → measure m < fuel
    → (r : Result Fault Vm) × (run fuel code m ≡ some r)
unfolding run
run_total zero code m lt = absurd (omega arith)
run_total (suc fuel) code m lt =
    elim (Option-cases (if m.running then get_elem? code m.pc else none)) [
      | inl e ↦ (ok m, ground arith)
      | inr ((op, a), e) ↦ elim (Result-cases (step (length code) (op, a) m)) [
        | inl (m1, s) ↦
            let on : m.running ≡ true = ground arith in
            let less : measure m1 < measure m = step-measure (length code) op a m on s in
            let (r, found) = run_total fuel code m1 (omega arith) in (r, ground arith)
        | inr (f, s) ↦ (raised f, ground arith)
      ]
    ]

start-measure : (m : Vm) → measure (start m) < m.gas_limit + 3
unfolding measure start
start-measure m = omega arith

suc_add : (a b : ℕ) → suc a + b ≡ suc (a + b)
suc_add a b = omega arith

-- The result does not depend on the fuel, once the loop has ended.
run_more :
    (fuel extra : ℕ) (code : Code) (m : Vm) {r : Result Fault Vm}
    → run fuel code m ≡ some r
    → run (fuel + extra) code m ≡ some r
unfolding run
run_more zero extra code m h = cc
run_more (suc fuel) extra code m {r} h =
    rw suc_add (elim (Option-cases (if m.running then get_elem? code m.pc else none)) [
      | inl e ↦ ground arith
      | inr ((op, a), e) ↦ elim (Result-cases (step (length code) (op, a) m)) [
        | inl (m1, s) ↦ ground (arith, run_more fuel extra code m1 {r = r})
        | inr (f, s) ↦ ground arith
      ]
    ])

-- Every call of `execute` ends, with a result or an exception: whatever the code, `gas_limit + 3`
-- rounds of fuel suffice, and any larger fuel gives the same result.
pub execute_total :
    (code : Code) (m : Vm) (extra : ℕ)
    → (r : Result Fault Outcome) × (execute (m.gas_limit + 3) code m ≡ some r)
      × (execute (m.gas_limit + 3 + extra) code m ≡ some r)
unfolding execute start
execute_total code m extra =
    let (r, found) = run_total (m.gas_limit + 3) code (start m) (start-measure m) in
    let more = run_more (m.gas_limit + 3) extra code (start m) found in
    elim (Result-cases r) [
      | inl (m', e) ↦ (ok (outcome m'), ground arith, ground arith)
      | inr (f, e) ↦ (raised f, ground arith, ground arith)
    ]
