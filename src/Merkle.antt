-- ===== src/Merkle.antt =====
-- Merkle trees and their proofs (crypto/merkle.py, by the Python code of crypto/native.py). A string
-- is the list of its characters. The digest is a parameter, and no property of it is used. The
-- compiled library that native.py prefers where it is installed is not modelled.
mod Tests
use absolute_blockchain_ulti.Base.{
  ℕ, zero, suc, ◌+◌, ◌-◌, ◌*◌, ◌/◌, ◌%◌, ◌≤◌, ◌<◌, ◌≡◌, refl, Bool, true, false, Option, none, some,
  List, [], ◌∷◌, ◌++◌, if◌then◌else◌, ltb, leb, nat_beq, length, get_elem?, map, arith, Bool-cases,
  Option-cases, inl, inr,
}

abbrev pub Str : Type 0
Str = List ℕ

-- `==` of strings
unfoldable pub str_beq : Str → Str → Bool
str_beq [] [] = true
str_beq [] (_ ∷ _) = false
str_beq (_ ∷ _) [] = false
str_beq (a ∷ s) (b ∷ t) = if nat_beq a b then str_beq s t else false

pub str_beq_refl : (s : Str) → str_beq s s ≡ true
unfolding str_beq
str_beq_refl [] = refl
str_beq_refl (a ∷ s) = ground (arith, str_beq_refl s)

-- A layer of odd length gets its last entry a second time.
unfoldable pub evened : List Str → List Str
evened [] = []
evened (a ∷ []) = a ∷ (a ∷ [])
evened (a ∷ b ∷ layer) = a ∷ (b ∷ evened layer)

-- `index + 1 if index % 2 == 0 else index - 1`
unfoldable pub sibling_index : ℕ → ℕ
sibling_index index = if nat_beq (index % 2) 0 then index + 1 else index - 1

module _ (hash_data : Str → Str) where
  unfoldable pub new_layer : List Str → List Str
  new_layer [] = []
  new_layer (a ∷ []) = []
  new_layer (a ∷ b ∷ layer) = hash_data (a ++ b) ∷ new_layer layer

  unfoldable pub leaves : List Str → List Str
  leaves [] = []
  leaves (item ∷ items) = hash_data item ∷ leaves items

  -- The loop of `_python_merkle_root_strings`; `none` means that the fuel ran out.
  unfoldable pub root_loop : ℕ → List Str → Option Str
  unfolding new_layer evened
  root_loop zero layer = none
  root_loop (suc n) [] = none
  root_loop (suc n) (a ∷ []) = some a
  root_loop (suc n) (a ∷ b ∷ layer) = root_loop n (new_layer (evened (a ∷ b ∷ layer)))

  -- `_python_merkle_root_strings`, where `empty` is the string "empty"
  unfoldable pub merkle_root : Str → List Str → Option Str
  unfolding root_loop leaves
  merkle_root empty [] = some (hash_data empty)
  merkle_root empty (item ∷ items) = root_loop (length (item ∷ items)) (leaves (item ∷ items))

  -- `proof.append(layer[sibling_index])`, where the index is in range
  unfoldable pub with_sibling : Option Str → Option (List Str) → Option (List Str)
  with_sibling s none = none
  with_sibling none (some proof) = some proof
  with_sibling (some s) (some proof) = some (s ∷ proof)

  -- The loop of `_python_generate_proof_strings`; `none` means that the fuel ran out.
  unfoldable pub proof_loop : ℕ → List Str → ℕ → Option (List Str)
  unfolding new_layer evened sibling_index with_sibling
  proof_loop zero layer index = none
  proof_loop (suc n) [] index = some []
  proof_loop (suc n) (a ∷ []) index = some []
  proof_loop (suc n) (a ∷ b ∷ layer) index =
      let even = evened (a ∷ b ∷ layer) in
      with_sibling (get_elem? even (sibling_index index))
        (proof_loop n (new_layer even) (index / 2))

  -- `_python_generate_proof_strings`
  unfoldable pub generate_proof : List Str → ℕ → Option (List Str)
  unfolding proof_loop leaves
  generate_proof items target_index =
      if leb (length items) target_index
      then some []
      else proof_loop (length items) (leaves items) target_index

  -- The digest of a node and its sibling, on the side that the index says.
  unfoldable pub combine : ℕ → Str → Str → Str
  combine index current sibling =
      hash_data (if nat_beq (index % 2) 0 then current ++ sibling else sibling ++ current)

  -- The loop of `_python_merkle_root_from_proof_string`.
  unfoldable pub climb : Str → ℕ → List Str → Str
  unfolding combine
  climb current index [] = current
  climb current index (s ∷ proof) = climb (combine index current s) (index / 2) proof

  -- `_python_merkle_root_from_proof_string`
  unfoldable pub merkle_root_from_proof : Str → List Str → ℕ → Str
  unfolding climb
  merkle_root_from_proof item proof target_index = climb (hash_data item) target_index proof

  -- `verify_proof`, with the test on strings that it ends with
  unfoldable pub verify_proof : Str → List Str → Str → ℕ → Bool
  unfolding merkle_root_from_proof
  verify_proof item proof expected_root target_index =
      str_beq (merkle_root_from_proof item proof target_index) expected_root

  -- One round up: the sibling is there, and the two together stand at half the index.
  layer-sibling :
      (layer : List Str) (i : ℕ) {x : Str}
      → get_elem? layer i ≡ some x
      → (s : Str) × (get_elem? (evened layer) (sibling_index i) ≡ some s)
        × (get_elem? (new_layer (evened layer)) (i / 2) ≡ some (combine i x s))
  unfolding evened new_layer sibling_index combine
  layer-sibling [] i h = absurd (ground arith)
  layer-sibling (a ∷ []) zero h = (a, ground arith, ground arith)
  layer-sibling (a ∷ []) (suc i) h = absurd (ground arith)
  layer-sibling (a ∷ b ∷ layer) zero h = (b, ground arith, ground arith)
  layer-sibling (a ∷ b ∷ layer) (suc zero) h = (a, ground arith, ground arith)
  layer-sibling (a ∷ b ∷ layer) (suc (suc i)) {x = x} h =
      let (s, there, up) = layer-sibling layer i {x = x} h in
      let further : sibling_index (suc (suc i)) ≡ suc (suc (sibling_index i)) = ground arith in
      let half : suc (suc i) / 2 ≡ suc (i / 2) = omega arith in
      let side : suc (suc i) % 2 ≡ i % 2 = omega arith in
      let same : combine (suc (suc i)) x s ≡ combine i x s = rw side refl in
      (s, rw further there, rw half (rw same up))

  length-new_layer : (layer : List Str) → length (new_layer (evened layer)) * 2 ≤ length layer + 1
  unfolding evened new_layer
  length-new_layer [] = omega arith
  length-new_layer (a ∷ []) = omega arith
  length-new_layer (a ∷ b ∷ layer) = omega (arith, length-new_layer layer)

  -- The loops of the root and of the proof end together, and the proof leads to the root.
  loops-climb :
      (n : ℕ) (layer : List Str) (i : ℕ) {x : Str}
      → length layer ≤ n
      → get_elem? layer i ≡ some x
      → (proof : List Str) × (root : Str) × (proof_loop n layer i ≡ some proof)
        × (root_loop n layer ≡ some root)
        × (climb x i proof ≡ root)
  unfolding proof_loop root_loop climb
  loops-climb n [] i enough h = absurd (ground arith)
  loops-climb zero (a ∷ layer) i enough h = absurd (omega arith)
  loops-climb (suc n) (a ∷ []) zero {x = x} enough h = ([], a, refl, refl, ground arith)
  loops-climb (suc n) (a ∷ []) (suc i) enough h = absurd (ground arith)
  loops-climb (suc n) (a ∷ b ∷ layer) i {x = x} enough h =
      let (s, there, up) = layer-sibling (a ∷ b ∷ layer) i {x = x} h in
      let above = new_layer (evened (a ∷ b ∷ layer)) in
      let fits : length above ≤ n = omega (arith, length-new_layer (a ∷ b ∷ layer), enough) in
      let (proof, root, p, r, c) = loops-climb n above (i / 2) {x = combine i x s} fits up in
      (s ∷ proof, root, rw there (rw p refl), r, c)

  length-leaves : (items : List Str) → length (leaves items) ≡ length items
  unfolding leaves
  length-leaves [] = refl
  length-leaves (x ∷ items) = omega (arith, length-leaves items)

  leaves-at :
      (items : List Str) (i : ℕ) {x : Str}
      → get_elem? items i ≡ some x
      → (get_elem? (leaves items) i ≡ some (hash_data x)) × (i < length items)
  unfolding leaves
  leaves-at [] i h = absurd (ground arith)
  leaves-at (y ∷ items) zero h = (ground arith, omega arith)
  leaves-at (y ∷ items) (suc i) {x = x} h =
      let (found, less) = leaves-at items i {x = x} h in (found, omega arith)

  -- Both loops end on every list of items: as many rounds as there are items suffice. For each item
  -- there is a proof, and it verifies against the root of the tree: whatever the digest, and also
  -- where a layer of odd length has its last entry doubled.
  pub verify_proof-generate_proof :
      (empty : Str) (items : List Str) (i : ℕ) {item : Str}
      → get_elem? items i ≡ some item
      → (proof : List Str) × (root : Str) × (generate_proof items i ≡ some proof)
        × (merkle_root empty items ≡ some root)
        × (verify_proof item proof root i ≡ true)
  unfolding generate_proof merkle_root verify_proof merkle_root_from_proof
  verify_proof-generate_proof empty [] i h = absurd (ground arith)
  verify_proof-generate_proof empty (y ∷ items) i {item = item} h =
      let (found, less) = leaves-at (y ∷ items) i {x = item} h in
      let (proof, root, p, r, c) =
        loops-climb (length (y ∷ items)) (leaves (y ∷ items)) i {x = hash_data item}
          (omega (arith, length-leaves (y ∷ items))) found in
      (proof, root, ground arith, r, rw c (str_beq_refl root))
