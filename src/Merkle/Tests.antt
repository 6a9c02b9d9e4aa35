-- ===== src/Merkle/Tests.antt =====
-- A proof of crypto/merkle.py in a tree of three leaves.
use absolute_blockchain_ulti.Base.{◌≡◌, refl, true, some, List, [], ◌∷◌}
use absolute_blockchain_ulti.Merkle.{
  Str, merkle_root, generate_proof, verify_proof, verify_proof-generate_proof,
}

-- A stand-in for the digest.
abbrev bracketed : Str → Str
bracketed s = 40 ∷ s

abbrev items : List Str
items = (97 ∷ []) ∷ (98 ∷ []) ∷ (99 ∷ []) ∷ []

-- The third leaf is its own sibling.
verify_proof-generate_proof_example :
    (proof : List Str) × (root : Str) × (generate_proof bracketed items 2 ≡ some proof)
    × (merkle_root bracketed (101 ∷ []) items ≡ some root)
    × (verify_proof bracketed (99 ∷ []) proof root 2 ≡ true)
verify_proof-generate_proof_example = verify_proof-generate_proof bracketed (101 ∷ []) items 2 refl
