-- ===== src/Base/Dict.antt =====
-- Python's `dict` and `set`: entries in insertion order, at most one for a key that was written.
use Prim.Native.Nat.{ℕ, ◌+◌, ◌≤◌}
use mathlib.Core.Path.{◌≡◌, refl}
use mathlib.Core.Bool.{Bool, true, false}
use mathlib.Core.Option.{Option, none, some}
use mathlib.Core.List.{List, [], ◌∷◌, map}
use native.Mathlib.Omega.{arith}
use absolute_blockchain_ulti.Base.Basics.{Eq, ◌==◌, if◌then◌else◌}

abbrev pub Dict {ℓ κ} : Type ℓ → Type κ → Type (ℓ ⊔ κ)
Dict K V = List (K × V)

-- `o if o is not None else x`, as in `d.get(k, x)`
abbrev pub or_else {ℓ} : {A : Type ℓ} → Option A → A → A
or_else none x = x
or_else (some a) _ = a

abbrev pub is_some {ℓ} : {A : Type ℓ} → Option A → Bool
is_some none = false
is_some (some _) = true

module _ {ℓ κ} {K : Type ℓ} {V : Type κ} where
  abbrev pub keys : Dict K V → List K
  keys = map (λ e. e.0)

  abbrev pub values : Dict K V → List V
  values = map (λ e. e.1)

module _ {ℓ κ} {K : Type ℓ} {V : Type κ} ⦃e : Eq K⦄ where
  -- `d.get(k)`
  unfoldable pub lookup : K → Dict K V → Option V
  lookup k [] = none
  lookup k (x ∷ d) = if k == x.0 then some x.1 else lookup k d

  -- `k in d`
  abbrev pub contains : K → Dict K V → Bool
  contains k d = is_some (lookup k d)

  -- `d[k] = v`
  unfoldable pub insert : K → V → Dict K V → Dict K V
  insert k v [] = (k, v) ∷ []
  insert k v (x ∷ d) = if k == x.0 then (k, v) ∷ d else x ∷ insert k v d

  -- `del d[k]`, `d.pop(k, None)`
  unfoldable pub erase : K → Dict K V → Dict K V
  erase k [] = []
  erase k (x ∷ d) = if k == x.0 then d else x ∷ erase k d

  -- No key stands twice.
  abbrev pub IsDict : Dict K V → Type κ
  IsDict [] = Unit
  IsDict (x ∷ d) = (lookup x.0 d ≡ none) × IsDict d

  pub lookup-insert :
      (j k : K) (v : V) (d : Dict K V)
      → lookup j (insert k v d) ≡ (if j == k then some v else lookup j d)
  unfolding lookup insert
  lookup-insert j k v [] = refl
  lookup-insert j k v (x ∷ d) =
      ground (
        arith,
        lookup-insert j k v d,
        e.same_key_iff k x.0,
        e.same_key_iff j x.0,
        e.same_key_iff j k,
      )

  pub insert-IsDict : (k : K) (v : V) (d : Dict K V) → IsDict d → IsDict (insert k v d)
  unfolding insert lookup
  insert-IsDict k v [] h = (refl, tt)
  insert-IsDict k v (x ∷ d) h = ground (
    arith,
    insert-IsDict k v d h.1,
    lookup-insert x.0 k v d,
    e.same_key_iff k x.0,
    e.same_key_iff x.0 k,
  )

  pub lookup-erase :
      (j k : K) (d : Dict K V)
      → IsDict d
      → lookup j (erase k d) ≡ (if j == k then none else lookup j d)
  unfolding lookup erase
  lookup-erase j k [] h = ground arith
  lookup-erase j k (x ∷ d) h = ground (
    arith,
    lookup-erase j k d h.1,
    e.same_key_iff k x.0,
    e.same_key_iff j x.0,
    e.same_key_iff j k,
  )

  lookup-erase_absent : (j k : K) (d : Dict K V) → lookup j d ≡ none → lookup j (erase k d) ≡ none
  unfolding lookup erase
  lookup-erase_absent j k [] h = refl
  lookup-erase_absent j k (x ∷ d) h = ground (arith, lookup-erase_absent j k d)

  pub erase-IsDict : (k : K) (d : Dict K V) → IsDict d → IsDict (erase k d)
  unfolding erase
  erase-IsDict k [] h = tt
  erase-IsDict k (x ∷ d) h = ground (arith, erase-IsDict k d h.1, lookup-erase_absent x.0 k d)

-- The sum of what `f` gives at each entry.
abbrev pub sum_entries {ℓ κ} : {K : Type ℓ} {V : Type κ} → (K → V → ℕ) → Dict K V → ℕ
sum_entries f [] = 0
sum_entries f (x ∷ d) = f x.0 x.1 + sum_entries f d

module _ {ℓ κ} {K : Type ℓ} {V : Type κ} ⦃e : Eq K⦄ (f : K → V → ℕ) where
  pub sum_entries-insert :
      (k : K) (v old : V) (d : Dict K V)
      → lookup k d ≡ some old
      → sum_entries f (insert k v d) + f k old ≡ sum_entries f d + f k v
  unfolding insert lookup
  sum_entries-insert k v old [] h = cc
  sum_entries-insert k v old (x ∷ d) h =
      ground (arith, sum_entries-insert k v old d, e.same_key_iff k x.0)

  pub sum_entries-insert_new :
      (k : K) (v : V) (d : Dict K V)
      → lookup k d ≡ none
      → sum_entries f (insert k v d) ≡ sum_entries f d + f k v
  unfolding insert lookup
  sum_entries-insert_new k v [] h = omega arith
  sum_entries-insert_new k v (x ∷ d) h = ground (arith, sum_entries-insert_new k v d)

  pub sum_entries-erase :
      (k : K) (old : V) (d : Dict K V)
      → lookup k d ≡ some old
      → sum_entries f (erase k d) + f k old ≡ sum_entries f d
  unfolding erase lookup
  sum_entries-erase k old [] h = cc
  sum_entries-erase k old (x ∷ d) h =
      ground (arith, sum_entries-erase k old d, e.same_key_iff k x.0)

  -- One entry is part of the sum.
  pub entry-le-sum_entries :
      (k : K) (v : V) (d : Dict K V) → lookup k d ≡ some v → f k v ≤ sum_entries f d
  unfolding lookup
  entry-le-sum_entries k v [] h = cc
  entry-le-sum_entries k v (x ∷ d) h =
      ground (arith, entry-le-sum_entries k v d, e.same_key_iff k x.0)
