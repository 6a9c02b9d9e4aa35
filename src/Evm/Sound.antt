-- ===== src/Evm/Sound.antt =====
-- What every step of evm_interpreter.py keeps: the gas only grows and stays within the limit, and
-- the stack holds 256-bit words. A rule for each primitive and one for sequencing let `search`
-- prove it branch by branch.
use absolute_blockchain_ulti.Base.{
  ℕ, zero, suc, ◌≤◌, ◌<◌, ◌≡◌, refl, Option, none, some, List, [], ◌∷◌, ok, ltb, All, arith,
  Result-cases, Option-cases, Bool-cases, inl, inr, get_elem?, length, All-get_elem?,
}
use absolute_blockchain_ulti.Evm.Word.{word_size, to_word, to_word-lt}
use absolute_blockchain_ulti.Evm.Opcode.{Opcode}
use absolute_blockchain_ulti.Evm.State.{
  Fault, Evm, M, ◌>>=◌, ◌>>◌, pure, fail, gets, set_memory, set_storage, set_return_data, set_pc,
  set_world, set_reverted, stop_running, append_log, append_trace, consume_gas, charge_subcall_gas,
  push_word, pop_word, pop_from, dup_word, push_found, swap_in, swap_words, set_at, LogEntry, peek,
}
use absolute_blockchain_ulti.Base.Dict.{Dict}

abbrev pub IsWord : ℕ → Type 0
IsWord n = n < word_size

All-set_at : (i v : ℕ) (xs : List ℕ) → IsWord v → All IsWord xs → All IsWord (set_at i v xs)
unfolding set_at
All-set_at i v [] h p = tt
All-set_at zero v (x ∷ xs) h p = (h, p.1)
All-set_at (suc i) v (x ∷ xs) h p = (p.0, All-set_at i v xs h p.1)

-- From the state `s` to the state `s'`.
pub record Keeps {W : Type 0} (s s' : Evm W) : Type 0 where
  pub limit : s'.gas_limit ≡ s.gas_limit
  pub grows : s.gas_used ≤ s'.gas_used
  pub within : s.gas_used ≤ s.gas_limit → s'.gas_used ≤ s.gas_limit
  pub words : All IsWord s.stack → All IsWord s'.stack

-- Whatever a computation returns, it keeps this.
pub record Sound {W A : Type 0} (m : M W A) : Type 0 where
  pub keeps : (s : Evm W) (a : A) (s' : Evm W) → m s ≡ ok (a, s') → Keeps s s'

module _ {W : Type 0} where
  pub Keeps-refl : (s : Evm W) → Keeps s s
  Keeps-refl s = record { limit = refl; grows = omega arith; within = λ h. h; words = λ h. h }

  pub Keeps-trans : {s t u : Evm W} → Keeps s t → Keeps t u → Keeps s u
  Keeps-trans p q = record {
    limit = omega (arith, p.limit, q.limit);
    grows = omega (arith, p.grows, q.grows);
    within = λ h. omega (arith, p.within h, q.within, p.limit);
    words = λ h. q.words (p.words h);
  }

  -- A write that leaves the meter and the stack alone.
  abbrev SameMeter : Evm W → Evm W → Type 0
  SameMeter s s' = (s'.gas_limit ≡ s.gas_limit) × (s'.gas_used ≡ s.gas_used) × (s'.stack ≡ s.stack)

  Keeps-same : (s s' : Evm W) → SameMeter s s' → Keeps s s'
  Keeps-same s s' h = record {
    limit = h.0;
    grows = omega (arith, h.1);
    within = λ p. omega (arith, h.1, p);
    words = λ p. rw h.2 p;
  }

  Sound-same :
      {A : Type 0} (m : M W A)
      → ((s : Evm W) (a : A) (s' : Evm W) → m s ≡ ok (a, s') → SameMeter s s')
      → Sound m
  Sound-same m h = record { keeps = λ s a s' e. Keeps-same s s' (h s a s' e) }

  pub bind-inv :
      {A B : Type 0} (m : M W A) (f : A → M W B) (s : Evm W) {b : B} {u : Evm W}
      → (m >>= f) s ≡ ok (b, u)
      → (a : A) × (t : Evm W) × (m s ≡ ok (a, t)) × (f a t ≡ ok (b, u))
  unfolding ◌>>=◌
  bind-inv m f s h = elim (Result-cases (m s)) [
    | inl ((a, t), e) ↦ (a, t, e, ground arith)
    | inr (x, e) ↦ absurd (ground arith)
  ]

  pub Sound-bind :
      {A B : Type 0} {m : M W A} {f : A → M W B}
      → Sound m
      → ((a : A) → Sound (f a))
      → Sound (m >>= f)
  Sound-bind {m = m} {f = f} p q = record {
    keeps = λ s b u h.
        let (a, t, e, g) = bind-inv m f s h in Keeps-trans (p.keeps s a t e) ((q a).keeps t b u g);
  }

  pub Sound-then :
      {B : Type 0} {m : M W (Unit {0})} {k : M W B} → Sound m → Sound k → Sound (m >> k)
  unfolding ◌>>◌
  Sound-then p q = Sound-bind p (λ _. q)

  pub Sound-pure : {A : Type 0} (a : A) → Sound {W = W} (pure a)
  unfolding pure
  Sound-pure a = Sound-same (pure a) (λ s b u h. ground arith)

  pub Sound-fail : {A : Type 0} (e : Fault) → Sound {W = W} {A = A} (fail e)
  unfolding fail
  Sound-fail e = Sound-same (fail e) (λ s b u h. ground arith)

  pub Sound-gets : {A : Type 0} (f : Evm W → A) → Sound (gets f)
  unfolding gets
  Sound-gets f = Sound-same (gets f) (λ s b u h. ground arith)

  pub Sound-set_memory : (m : List ℕ) → Sound {W = W} (set_memory m)
  unfolding set_memory
  Sound-set_memory m = Sound-same (set_memory m) (λ s b u h. ground arith)

  pub Sound-set_storage : (m : Dict ℕ ℕ) → Sound {W = W} (set_storage m)
  unfolding set_storage
  Sound-set_storage m = Sound-same (set_storage m) (λ s b u h. ground arith)

  pub Sound-set_return_data : (m : List ℕ) → Sound {W = W} (set_return_data m)
  unfolding set_return_data
  Sound-set_return_data m = Sound-same (set_return_data m) (λ s b u h. ground arith)

  pub Sound-set_pc : (m : ℕ) → Sound {W = W} (set_pc m)
  unfolding set_pc
  Sound-set_pc m = Sound-same (set_pc m) (λ s b u h. ground arith)

  pub Sound-set_world : (m : W) → Sound {W = W} (set_world m)
  unfolding set_world
  Sound-set_world m = Sound-same (set_world m) (λ s b u h. ground arith)

  pub Sound-append_log : (m : LogEntry) → Sound {W = W} (append_log m)
  unfolding append_log
  Sound-append_log m = Sound-same (append_log m) (λ s b u h. ground arith)

  pub Sound-append_trace : (m : Opcode) → Sound {W = W} (append_trace m)
  unfolding append_trace
  Sound-append_trace m = Sound-same (append_trace m) (λ s b u h. ground arith)

  pub Sound-set_reverted : Sound {W = W} set_reverted
  unfolding set_reverted
  Sound-set_reverted = Sound-same set_reverted (λ s b u h. ground arith)

  pub Sound-stop_running : Sound {W = W} stop_running
  unfolding stop_running
  Sound-stop_running = Sound-same stop_running (λ s b u h. ground arith)

  pub Sound-consume_gas : (cost : ℕ) → Sound {W = W} (consume_gas cost)
  unfolding consume_gas
  Sound-consume_gas cost = record {
    keeps = λ s b u h.
        let e : (u.gas_limit ≡ s.gas_limit)
            × (u.stack ≡ s.stack)
            × (s.gas_used ≤ u.gas_used)
            × (u.gas_used ≤ s.gas_limit) =
          ground arith in
        record { limit = e.0; grows = e.2; within = λ _. e.3; words = λ p. rw e.1 p };
  }

  pub Sound-charge_subcall_gas : (gas : ℕ) → Sound {W = W} (charge_subcall_gas gas)
  unfolding charge_subcall_gas
  Sound-charge_subcall_gas gas = record {
    keeps = λ s b u h.
        let e : (u.gas_limit ≡ s.gas_limit)
            × (u.stack ≡ s.stack)
            × (s.gas_used ≤ u.gas_used)
            × (s.gas_used ≤ s.gas_limit → u.gas_used ≤ s.gas_limit) =
          ground arith in
        record { limit = e.0; grows = e.2; within = e.3; words = λ p. rw e.1 p };
  }

  pub Sound-push_word : (v : ℕ) → Sound {W = W} (push_word v)
  unfolding push_word
  Sound-push_word v = record {
    keeps = λ s b u h.
        let e : (u.gas_limit ≡ s.gas_limit)
            × (u.gas_used ≡ s.gas_used)
            × (u.stack ≡ to_word v ∷ s.stack) =
          ground arith in
        record {
          limit = e.0;
          grows = omega (arith, e.1);
          within = λ p. omega (arith, e.1, p);
          words = λ p. rw e.2 (to_word-lt v, p);
        };
  }

  pop_from-Keeps :
      (xs : List ℕ) (s : Evm W) (a : ℕ) (u : Evm W)
      → s.stack ≡ xs
      → pop_from xs s ≡ ok (a, u)
      → Keeps s u
  unfolding pop_from
  pop_from-Keeps [] s a u e h = absurd (ground arith)
  pop_from-Keeps (x ∷ xs) s a u e h =
      let k : (u.gas_limit ≡ s.gas_limit) × (u.gas_used ≡ s.gas_used) × (u.stack ≡ xs) =
        ground arith in
      record {
        limit = k.0;
        grows = omega (arith, k.1);
        within = λ p. omega (arith, k.1, p);
        words = λ p. rw k.2 (let q : All IsWord (x ∷ xs) = rw e at p in q.1);
      }

  pub Sound-pop_word : Sound {W = W} pop_word
  unfolding pop_word
  Sound-pop_word = record { keeps = λ s a u h. pop_from-Keeps s.stack s a u refl h }

  Sound-push_found : (o : Option ℕ) → Sound {W = W} (push_found o)
  unfolding push_found
  Sound-push_found none = Sound-same (push_found none) (λ s b u h. ground arith)
  Sound-push_found (some v) = Sound-push_word v

  pub Sound-dup_word : (n : ℕ) → Sound {W = W} (dup_word n)
  unfolding dup_word
  Sound-dup_word n = record {
    keeps = λ s b u h. elim (Bool-cases (ltb (length s.stack) n)) [
      | inl short ↦ absurd (ground arith)
      | inr enough ↦ (Sound-push_found (peek n s.stack)).keeps s b u (ground arith)
    ];
  }

  swap_in-Keeps :
      (n : ℕ) (xs : List ℕ) (s : Evm W) (b : Unit {0}) (u : Evm W)
      → s.stack ≡ xs
      → swap_in n xs s ≡ ok (b, u)
      → Keeps s u
  unfolding swap_in
  swap_in-Keeps n [] s b u e h = absurd (ground arith)
  swap_in-Keeps n (x ∷ xs) s b u e h = elim (Option-cases (get_elem? xs n)) [
    | inl none_there ↦ absurd (ground arith)
    | inr (v, there) ↦
        let k : (u.gas_limit ≡ s.gas_limit)
            × (u.gas_used ≡ s.gas_used)
            × (u.stack ≡ v ∷ set_at n x xs) =
          ground arith in
        record {
          limit = k.0;
          grows = omega (arith, k.1);
          within = λ p. omega (arith, k.1, p);
          words = λ p.
              let q : All IsWord (x ∷ xs) = rw e at p in
              rw k.2 (All-get_elem? IsWord xs n q.1 there, All-set_at n x xs q.0 q.1);
        }
  ]

  pub Sound-swap_words : (n : ℕ) → Sound {W = W} (swap_words n)
  unfolding swap_words
  Sound-swap_words zero = record { keeps = λ s b u h. absurd (unfold swap_in in ground arith) }
  Sound-swap_words (suc n) = record { keeps = λ s b u h. swap_in-Keeps n s.stack s b u refl h }

pub ruleset sound_rules = (
  Sound-bind, Sound-then, Sound-pure, Sound-fail, Sound-gets, Sound-set_memory, Sound-set_storage,
  Sound-set_return_data, Sound-set_pc, Sound-set_world, Sound-append_log, Sound-append_trace,
  Sound-set_reverted, Sound-stop_running, Sound-consume_gas, Sound-charge_subcall_gas,
  Sound-push_word, Sound-pop_word, Sound-dup_word, Sound-swap_words,
)
