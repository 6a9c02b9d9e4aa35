-- ===== src/Consensus/Slashing/Equivocation.antt =====
-- Double votes in consensus/slashing.py: over a run of attestations exactly the validators that
-- voted for two blocks in one slot are slashed.
use absolute_blockchain_ulti.Base.{
  ℕ, ◌≡◌, refl, Bool, true, false, none, some, List, [], ◌∷◌, ◌||◌, ◌&&◌, not, if◌then◌else◌,
  nat_eq, ◌==◌, arith, Bool-cases, inl, inr,
}
use absolute_blockchain_ulti.Base.Dict.{Dict, lookup, insert, lookup-insert}
use absolute_blockchain_ulti.Base.Set.{member-add}
use absolute_blockchain_ulti.Consensus.Slashing.Defs.{
  SlashingEngine, slash, votes_of, record_vote, add_vote, is_slashed,
}

-- An attestation: its time, validator, slot and block hash.
pub record Vote : Type 0 where
  pub now : ℕ
  pub validator : ℕ
  pub slot : ℕ
  pub hash : ℕ

-- The attestations in the order of their arrival.
unfoldable pub add_all : List Vote → SlashingEngine → SlashingEngine
add_all [] e = e
add_all (x ∷ xs) e = add_all xs (add_vote x.now x.validator x.slot x.hash e).0

-- A vote of `v` for another block in the same slot stands among the votes.
abbrev pub contradicted : ℕ → ℕ → ℕ → List Vote → Bool
contradicted v slot hash [] = false
contradicted v slot hash (x ∷ xs) =
    (x.validator == v && x.slot == slot && not (x.hash == hash)) || contradicted v slot hash xs

-- The specification: two votes of `v` for different blocks in one slot.
abbrev pub equivocates : ℕ → List Vote → Bool
equivocates v [] = false
equivocates v (x ∷ xs) = (x.validator == v && contradicted v x.slot x.hash xs) || equivocates v xs

-- A vote of `v` contradicts the table of its earlier votes.
abbrev clashes : ℕ → Dict ℕ ℕ → List Vote → Bool
clashes v table [] = false
clashes v table (x ∷ xs) =
    (x.validator == v
      && elim (lookup x.slot table) [ none ↦ false | some first ↦ not (first == x.hash) ])
    || clashes v table xs

clashes-insert :
    (v slot hash : ℕ) (table : Dict ℕ ℕ) (xs : List Vote)
    → lookup slot table ≡ none
    → clashes v (insert slot hash table) xs ≡ (clashes v table xs || contradicted v slot hash xs)
clashes-insert v slot hash table [] new = refl
clashes-insert v slot hash table (x ∷ xs) new =
    ground (arith, clashes-insert v slot hash table xs new, lookup-insert x.slot slot hash table)

clashes-kept :
    (v slot hash : ℕ) (table : Dict ℕ ℕ) (xs : List Vote)
    → lookup slot table ≡ some hash
    → contradicted v slot hash xs ≡ true
    → clashes v table xs ≡ true
clashes-kept v slot hash table [] old h = cc
clashes-kept v slot hash table (x ∷ xs) old h =
    ground (arith, clashes-kept v slot hash table xs old)

clashes-nil : (v : ℕ) (xs : List Vote) → clashes v [] xs ≡ false
unfolding lookup
clashes-nil v [] = refl
clashes-nil v (x ∷ xs) = ground (arith, clashes-nil v xs)

-- One attestation, seen from the validator `v`.
slashed-add_vote :
    (v : ℕ) (x : Vote) (e : SlashingEngine)
    → is_slashed v (add_vote x.now x.validator x.slot x.hash e).0
      ≡ (is_slashed v e || clashes v (votes_of v e) (x ∷ []))
unfolding add_vote record_vote slash is_slashed
slashed-add_vote v x e = ground (arith, member-add v x.validator e.slashed)

-- The table of a validator that is not slashed: the first vote for each slot.
votes_of-add_vote :
    (v : ℕ) (x : Vote) (e : SlashingEngine)
    → is_slashed v (add_vote x.now x.validator x.slot x.hash e).0 ≡ false
    → votes_of v (add_vote x.now x.validator x.slot x.hash e).0 ≡ (
        if x.validator == v
        then elim (lookup x.slot (votes_of v e)) [
          | none ↦ insert x.slot x.hash (votes_of v e)
          | some _ ↦ votes_of v e
        ]
        else votes_of v e)
unfolding add_vote record_vote slash is_slashed
votes_of-add_vote v x e h = ground (
  arith,
  member-add v x.validator e.slashed,
  lookup-insert v x.validator (insert x.slot x.hash (votes_of x.validator e)) e.votes,
)

stays_slashed :
    (v : ℕ) (xs : List Vote) (e : SlashingEngine)
    → is_slashed v e ≡ true
    → is_slashed v (add_all xs e) ≡ true
unfolding add_all
stays_slashed v [] e h = h
stays_slashed v (x ∷ xs) e h =
    stays_slashed v xs (add_vote x.now x.validator x.slot x.hash e).0
      (ground (arith, slashed-add_vote v x e))

add_all-clashes :
    (v : ℕ) (xs : List Vote) (e : SlashingEngine)
    → is_slashed v e ≡ false
    → is_slashed v (add_all xs e) ≡ (clashes v (votes_of v e) xs || equivocates v xs)
unfolding add_all
add_all-clashes v [] e h = h
add_all-clashes v (x ∷ xs) e h =
    let e' = (add_vote x.now x.validator x.slot x.hash e).0 in
    elim (Bool-cases (is_slashed v e')) [
      | inl out ↦ ground (arith, stays_slashed v xs e' out, slashed-add_vote v x e)
      | inr still ↦ ground (
        arith,
        add_all-clashes v xs e' still,
        slashed-add_vote v x e,
        votes_of-add_vote v x e still,
        clashes-insert v x.slot x.hash (votes_of v e) xs,
        clashes-kept v x.slot x.hash (votes_of v e) xs,
      )
    ]

-- Over any run of attestations that begins with a validator that is not slashed and has no votes
-- on record, the validator ends up slashed exactly if it voted for two different blocks in one
-- slot: no equivocation escapes, and nobody else is slashed.
pub slashed-equivocates :
    (v : ℕ) (xs : List Vote) (e : SlashingEngine)
    → is_slashed v e ≡ false
    → lookup v e.votes ≡ none
    → is_slashed v (add_all xs e) ≡ equivocates v xs
slashed-equivocates v xs e h fresh = ground (arith, add_all-clashes v xs e h, clashes-nil v xs)
