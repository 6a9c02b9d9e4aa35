-- ===== src/Base/Set.antt =====
-- Python's `set`, as the list of its members in the order of their first `add`.
use Prim.Native.Nat.{◌+◌}
use mathlib.Core.Path.{◌≡◌, refl}
use mathlib.Core.Bool.{Bool, true, false, ◌||◌}
use mathlib.Core.List.{List, [], ◌∷◌}
use native.Mathlib.Omega.{arith}
use absolute_blockchain_ulti.Base.Basics.{Eq, ◌==◌, if◌then◌else◌}
use absolute_blockchain_ulti.Base.Lists.{length}

module _ {ℓ} {A : Type ℓ} ⦃e : Eq A⦄ where
  -- `a in s`
  unfoldable pub member : A → List A → Bool
  member a [] = false
  member a (x ∷ s) = if a == x then true else member a s

  -- `s.add(a)`
  unfoldable pub add : A → List A → List A
  add a [] = a ∷ []
  add a (x ∷ s) = if a == x then x ∷ s else x ∷ add a s

  pub member-add : (b a : A) (s : List A) → member b (add a s) ≡ (b == a || member b s)
  unfolding member add
  member-add b a [] = ground arith
  member-add b a (x ∷ s) =
      ground (arith, member-add b a s, e.same_key_iff a x, e.same_key_iff b x, e.same_key_iff b a)

  -- No member stands twice.
  abbrev pub IsFinSet : List A → Type 0
  IsFinSet [] = Unit
  IsFinSet (x ∷ s) = (member x s ≡ false) × IsFinSet s

  pub add-IsFinSet : (a : A) (s : List A) → IsFinSet s → IsFinSet (add a s)
  unfolding member add
  add-IsFinSet a [] h = (refl, tt)
  add-IsFinSet a (x ∷ s) h =
      ground (arith, add-IsFinSet a s h.1, member-add x a s, e.same_key_iff a x, e.same_key_iff x a)

  pub length-add :
      (a : A) (s : List A) → length (add a s) ≡ (if member a s then length s else length s + 1)
  unfolding member add
  length-add a [] = refl
  length-add a (x ∷ s) = ground (arith, length-add a s)
