-- ===== src/MiniVm/Gas.antt =====
-- Gas of the machine in execution/vm.py: what one instruction costs, and the limit.
use absolute_blockchain_ulti.Base.{
  ℕ, zero, suc, ◌+◌, ◌≤◌, ◌≡◌, inl, inr, true, Option, none, some, List, [], ◌∷◌, ok, length, arith,
  Result-cases, Option-cases, get_elem?, if◌then◌else◌,
}
use absolute_blockchain_ulti.Base.Int.{ℤ, pos, ◌+ℤ◌, ◌-ℤ◌}
use absolute_blockchain_ulti.MiniVm.Defs.{
  Op, Vm, Code, Outcome, gas_cost, consume_gas, binary, do_store, do_load, bump, jump_to, do_jump,
  do_jumpi, do_push, do_pop, dispatch, step, run, start, execute,
}

-- Two states with the same meter.
abbrev pub SameGas : Vm → Vm → Type 0
SameGas m m' = (m'.gas_used ≡ m.gas_used) × (m'.gas_limit ≡ m.gas_limit)

module _ (m : Vm) {m' : Vm} where
  binary-SameGas : (f : ℤ → ℤ → ℤ) (s : List ℤ) → binary f s m ≡ ok m' → SameGas m m'
  unfolding binary
  binary-SameGas f [] h = cc
  binary-SameGas f (b ∷ []) h = cc
  binary-SameGas f (b ∷ a ∷ s) h = ground arith

  do_store-SameGas : (s : List ℤ) → do_store s m ≡ ok m' → SameGas m m'
  unfolding do_store
  do_store-SameGas [] h = cc
  do_store-SameGas (b ∷ []) h = cc
  do_store-SameGas (b ∷ a ∷ s) h = ground arith

  do_load-SameGas : (s : List ℤ) → do_load s m ≡ ok m' → SameGas m m'
  unfolding do_load
  do_load-SameGas [] h = cc
  do_load-SameGas (b ∷ s) h = ground arith

  bump-SameGas : (f : ℤ → ℤ) (s : List ℤ) → bump f s m ≡ ok m' → SameGas m m'
  unfolding bump
  bump-SameGas f [] h = ground arith
  bump-SameGas f (b ∷ s) h = ground arith

  jump_to-SameGas : (n : ℕ) (d : ℤ) (s : List ℤ) → jump_to n d s m ≡ ok m' → SameGas m m'
  unfolding jump_to
  jump_to-SameGas n (ℤ.negsuc d) s h = cc
  jump_to-SameGas n (ℤ.pos d) s h = ground arith

  do_jump-SameGas : (n : ℕ) (s : List ℤ) → do_jump n s m ≡ ok m' → SameGas m m'
  unfolding do_jump
  do_jump-SameGas n [] h = cc
  do_jump-SameGas n (d ∷ s) h = jump_to-SameGas n d s h

  do_jumpi-SameGas : (n : ℕ) (s : List ℤ) → do_jumpi n s m ≡ ok m' → SameGas m m'
  unfolding do_jumpi
  do_jumpi-SameGas n [] h = cc
  do_jumpi-SameGas n (d ∷ []) h = cc
  do_jumpi-SameGas n (d ∷ c ∷ s) h = ground (arith, jump_to-SameGas n d s)

  do_push-SameGas : (a : Option ℤ) (s : List ℤ) → do_push a s m ≡ ok m' → SameGas m m'
  unfolding do_push
  do_push-SameGas none s h = cc
  do_push-SameGas (some v) s h = ground arith

  do_pop-SameGas : (s : List ℤ) → do_pop s m ≡ ok m' → SameGas m m'
  unfolding do_pop
  do_pop-SameGas [] h = cc
  do_pop-SameGas (b ∷ s) h = ground arith

  -- No branch of the chain touches the meter.
  pub dispatch-SameGas : (n : ℕ) (op : Op) (a : Option ℤ) → dispatch n op a m ≡ ok m' → SameGas m m'
  unfolding dispatch
  dispatch-SameGas n Op.push a h = do_push-SameGas a m.stack h
  dispatch-SameGas n Op.pop a h = do_pop-SameGas m.stack h
  dispatch-SameGas n Op.store a h = do_store-SameGas m.stack h
  dispatch-SameGas n Op.sstore a h = do_store-SameGas m.stack h
  dispatch-SameGas n Op.mstore a h = do_store-SameGas m.stack h
  dispatch-SameGas n Op.load a h = do_load-SameGas m.stack h
  dispatch-SameGas n Op.sload a h = do_load-SameGas m.stack h
  dispatch-SameGas n Op.mload a h = do_load-SameGas m.stack h
  dispatch-SameGas n Op.inc a h = bump-SameGas (λ x. x +ℤ pos 1) m.stack h
  dispatch-SameGas n Op.dec a h = bump-SameGas (λ x. x -ℤ pos 1) m.stack h
  dispatch-SameGas n Op.jump a h = do_jump-SameGas n m.stack h
  dispatch-SameGas n Op.jumpi a h = do_jumpi-SameGas n m.stack h
  dispatch-SameGas n Op.stop a h = ground arith
  dispatch-SameGas n Op.other a h = cc
  dispatch-SameGas n op a h = binary-SameGas _ m.stack h

-- An instruction that is carried out costs its price, and the price was there.
pub step-gas :
    (n : ℕ) (op : Op) (a : Option ℤ) (m : Vm) {m' : Vm}
    → step n (op, a) m ≡ ok m'
    → (m'.gas_used ≡ m.gas_used + gas_cost op)
      × (m'.gas_limit ≡ m.gas_limit)
      × (m'.gas_used ≤ m.gas_limit)
unfolding step consume_gas
step-gas n op a m h =
    ground (arith, dispatch-SameGas (record m { gas_used = m.gas_used + gas_cost op }) n op a)

-- The loop ends at or below the limit, if it begins there.
pub run-gas :
    (fuel : ℕ) (code : Code) (m : Vm) {m' : Vm}
    → m.gas_used ≤ m.gas_limit
    → run fuel code m ≡ some (ok m')
    → (m'.gas_used ≤ m'.gas_limit) × (m'.gas_limit ≡ m.gas_limit)
unfolding run
run-gas zero code m le h = cc
run-gas (suc fuel) code m {m' = m'} le h =
    elim (Option-cases (if m.running then get_elem? code m.pc else none)) [
      | inl e ↦ ground arith
      | inr ((op, a), e) ↦ elim (Result-cases (step (length code) (op, a) m)) [
        | inl (m1, s) ↦
            ground (arith, step-gas (length code) op a m s, run-gas fuel code m1 {m' = m'})
        | inr (f, s) ↦ ground arith
      ]
    ]

-- A call of `execute` that returns has stayed within the gas limit, so the `success` that it
-- reports is always true: running out of gas is an exception, never a `success` of false.
execute_within_gas :
    (fuel : ℕ) (code : Code) (m : Vm) {o : Outcome}
    → execute fuel code m ≡ some (ok o)
    → (o.gas_used ≤ m.gas_limit) × (o.success ≡ true)
unfolding execute
execute_within_gas fuel code m h = elim (Option-cases (run fuel code (start m))) [
  | inl e ↦ ground arith
  | inr (r, e) ↦ elim (Result-cases r) [
    | inl (m', s) ↦ ground (arith, run-gas fuel code (start m) {m' = m'})
    | inr (f, s) ↦ ground arith
  ]
]
