-- ===== src/Evm/Place.antt =====
-- Which steps of evm_interpreter.py leave the program counter and the code alone: all but the
-- writes of the counter itself. A rule for each primitive and one for sequencing let `search`
-- prove it branch by branch.
use absolute_blockchain_ulti.Base.{
  ℕ, zero, suc, ◌≡◌, ◌∙◌, Option, none, some, List, [], ◌∷◌, ok, ltb, arith, Option-cases,
  Bool-cases, inl, inr, get_elem?, length,
}
use absolute_blockchain_ulti.Base.Dict.{Dict}
use absolute_blockchain_ulti.Evm.Opcode.{Opcode}
use absolute_blockchain_ulti.Evm.State.{
  Fault, Evm, M, ◌>>=◌, ◌>>◌, pure, fail, gets, set_memory, set_storage, set_return_data, set_world,
  set_reverted, stop_running, append_log, append_trace, consume_gas, charge_subcall_gas, push_word,
  pop_word, pop_from, dup_word, push_found, swap_in, swap_words, LogEntry, peek,
}
use absolute_blockchain_ulti.Evm.Sound.{bind-inv}

abbrev pub SamePlace : {W : Type 0} → Evm W → Evm W → Type 0
SamePlace s s' = (s'.pc ≡ s.pc) × (s'.bytecode ≡ s.bytecode)

-- Whatever a computation returns, it keeps this.
pub record Stays {W A : Type 0} (m : M W A) : Type 0 where
  pub stays : (s : Evm W) (a : A) (s' : Evm W) → m s ≡ ok (a, s') → SamePlace s s'

module _ {W : Type 0} where
  pub Stays-bind :
      {A B : Type 0} {m : M W A} {f : A → M W B}
      → Stays m
      → ((a : A) → Stays (f a))
      → Stays (m >>= f)
  Stays-bind {m = m} {f = f} p q = record {
    stays = λ s b u h.
        let (a, t, e, g) = bind-inv m f s h in
        let first = p.stays s a t e in
        let last = (q a).stays t b u g in (last.0 ∙ first.0, last.1 ∙ first.1);
  }

  pub Stays-then :
      {B : Type 0} {m : M W (Unit {0})} {k : M W B} → Stays m → Stays k → Stays (m >> k)
  unfolding ◌>>◌
  Stays-then p q = Stays-bind p (λ _. q)

  pub Stays-pure : {A : Type 0} (a : A) → Stays {W = W} (pure a)
  unfolding pure
  Stays-pure a = record { stays = λ s b u h. ground (arith, h) }

  pub Stays-fail : {A : Type 0} (e : Fault) → Stays {W = W} {A = A} (fail e)
  unfolding fail
  Stays-fail e = record { stays = λ s b u h. ground (arith, h) }

  pub Stays-gets : {A : Type 0} (f : Evm W → A) → Stays (gets f)
  unfolding gets
  Stays-gets f = record { stays = λ s b u h. ground (arith, h) }

  pub Stays-set_memory : (m : List ℕ) → Stays {W = W} (set_memory m)
  unfolding set_memory
  Stays-set_memory m = record { stays = λ s b u h. ground (arith, h) }

  pub Stays-set_storage : (m : Dict ℕ ℕ) → Stays {W = W} (set_storage m)
  unfolding set_storage
  Stays-set_storage m = record { stays = λ s b u h. ground (arith, h) }

  pub Stays-set_return_data : (m : List ℕ) → Stays {W = W} (set_return_data m)
  unfolding set_return_data
  Stays-set_return_data m = record { stays = λ s b u h. ground (arith, h) }

  pub Stays-set_world : (m : W) → Stays {W = W} (set_world m)
  unfolding set_world
  Stays-set_world m = record { stays = λ s b u h. ground (arith, h) }

  pub Stays-append_log : (m : LogEntry) → Stays {W = W} (append_log m)
  unfolding append_log
  Stays-append_log m = record { stays = λ s b u h. ground (arith, h) }

  pub Stays-append_trace : (m : Opcode) → Stays {W = W} (append_trace m)
  unfolding append_trace
  Stays-append_trace m = record { stays = λ s b u h. ground (arith, h) }

  pub Stays-set_reverted : Stays {W = W} set_reverted
  unfolding set_reverted
  Stays-set_reverted = record { stays = λ s b u h. ground (arith, h) }

  pub Stays-stop_running : Stays {W = W} stop_running
  unfolding stop_running
  Stays-stop_running = record { stays = λ s b u h. ground (arith, h) }

  pub Stays-consume_gas : (cost : ℕ) → Stays {W = W} (consume_gas cost)
  unfolding consume_gas
  Stays-consume_gas cost = record { stays = λ s b u h. ground (arith, h) }

  pub Stays-charge_subcall_gas : (gas : ℕ) → Stays {W = W} (charge_subcall_gas gas)
  unfolding charge_subcall_gas
  Stays-charge_subcall_gas gas = record { stays = λ s b u h. ground (arith, h) }

  pub Stays-push_word : (v : ℕ) → Stays {W = W} (push_word v)
  unfolding push_word
  Stays-push_word v = record { stays = λ s b u h. ground (arith, h) }

  pop_from-SamePlace :
      (xs : List ℕ) (s : Evm W) (a : ℕ) (u : Evm W) → pop_from xs s ≡ ok (a, u) → SamePlace s u
  unfolding pop_from
  pop_from-SamePlace [] s a u h = absurd (ground arith)
  pop_from-SamePlace (x ∷ xs) s a u h = ground (arith, h)

  pub Stays-pop_word : Stays {W = W} pop_word
  unfolding pop_word
  Stays-pop_word = record { stays = λ s a u h. pop_from-SamePlace s.stack s a u h }

  Stays-push_found : (o : Option ℕ) → Stays {W = W} (push_found o)
  unfolding push_found
  Stays-push_found none = record { stays = λ s b u h. absurd (ground (arith, h)) }
  Stays-push_found (some v) = Stays-push_word v

  pub Stays-dup_word : (n : ℕ) → Stays {W = W} (dup_word n)
  unfolding dup_word
  Stays-dup_word n = record {
    stays = λ s b u h. elim (Bool-cases (ltb (length s.stack) n)) [
      | inl short ↦ absurd (ground arith)
      | inr enough ↦ (Stays-push_found (peek n s.stack)).stays s b u (ground arith)
    ];
  }

  swap_in-SamePlace :
      (n : ℕ) (xs : List ℕ) (s : Evm W) (b : Unit {0}) (u : Evm W)
      → swap_in n xs s ≡ ok (b, u)
      → SamePlace s u
  unfolding swap_in
  swap_in-SamePlace n [] s b u h = absurd (ground arith)
  swap_in-SamePlace n (x ∷ xs) s b u h = elim (Option-cases (get_elem? xs n)) [
    | inl none_there ↦ absurd (ground arith)
    | inr (v, there) ↦ ground (arith, there, h)
  ]

  pub Stays-swap_words : (n : ℕ) → Stays {W = W} (swap_words n)
  unfolding swap_words
  Stays-swap_words zero = record { stays = λ s b u h. absurd (unfold swap_in in ground arith) }
  Stays-swap_words (suc n) = record { stays = λ s b u h. swap_in-SamePlace n s.stack s b u h }

pub ruleset place_rules = (
  Stays-bind, Stays-then, Stays-pure, Stays-fail, Stays-gets, Stays-set_memory, Stays-set_storage,
  Stays-set_return_data, Stays-set_world, Stays-append_log, Stays-append_trace, Stays-set_reverted,
  Stays-stop_running, Stays-consume_gas, Stays-charge_subcall_gas, Stays-push_word, Stays-pop_word,
  Stays-dup_word, Stays-swap_words,
)
