-- ===== src/LightClient.antt =====
-- The light client (light/light_client.py). A transaction is its JSON text, as the code compares
-- and hashes it. The digest and a header's own hash are parameters; the local chain that it is
-- filled from is a function from heights to the blocks' dictionaries (core/block_header.py).
mod Headers
mod Tests
unfoldable pub use Headers.*
use absolute_blockchain_ulti.Base.{
  ℕ, zero, suc, ◌+◌, ◌-◌, ◌≤◌, ◌<◌, ◌≡◌, ◌≢◌, map, refl, Bool, true, false, Option, none, some,
  List, [], ◌∷◌, ◌++◌, not, ◌&&◌, if◌then◌else◌, ltb, leb, nat_beq, nat_eq, Eq, length, get_elem?,
  take, arith, Bool-cases, Option-cases, inl, inr,
}
use absolute_blockchain_ulti.Base.Dict.{Dict, lookup, insert, contains, lookup-insert, or_else}
use absolute_blockchain_ulti.Merkle.{
  Str, str_beq, str_beq_refl, merkle_root, generate_proof, verify_proof,
  verify_proof-generate_proof, root_loop, leaves, proof_loop, merkle_root_from_proof, climb,
}

pub str_beq-eq : (s t : Str) → str_beq s t ≡ true → s ≡ t
unfolding str_beq
str_beq-eq [] [] h = refl
str_beq-eq [] (b ∷ t) h = absurd (ground arith)
str_beq-eq (a ∷ s) [] h = absurd (ground arith)
str_beq-eq (a ∷ s) (b ∷ t) h =
    let heads : a ≡ b = ground arith in
    let tails = str_beq-eq s t (ground arith) in rw heads (rw tails refl)

instance abbrev pub str_eq : Eq Str
str_eq = record {
  same_key = str_beq;
  same_key_iff = λ s t. (str_beq-eq s t, λ h. rw h (str_beq_refl t));
}

pub record LightClient : Type 0 where
  pub headers : List Header
  pub header_by_hash : Dict Str Header
  pub header_by_number : Dict ℕ Header

-- `__init__`
abbrev pub empty : LightClient
empty = record { headers = []; header_by_hash = []; header_by_number = [] }

unfoldable pub get_header : ℕ → LightClient → Option Header
get_header number c = lookup number c.header_by_number

-- `max(self.headers, key=lambda h: h.number)`: the first of the highest
unfoldable pub latest_from : Header → List Header → Header
latest_from best [] = best
latest_from best (h ∷ hs) = latest_from (if ltb best.number h.number then h else best) hs

unfoldable pub latest_of : List Header → Option Header
unfolding latest_from
latest_of [] = none
latest_of (h ∷ hs) = some (latest_from h hs)

unfoldable pub get_latest_header : LightClient → Option Header
unfolding latest_of
get_latest_header c = latest_of c.headers

unfoldable pub get_chain_height : LightClient → ℕ
get_chain_height c = elim (get_latest_header c) [ none ↦ 0 | some h ↦ h.number ]

-- `tx_strings.index(target_str)`; `none` where it raises
unfoldable pub index_of : Str → List Str → Option ℕ
index_of s [] = none
index_of s (t ∷ ts) = elim (str_beq s t) [
  | true ↦ some 0
  | false ↦ elim (index_of s ts) [ none ↦ none | some i ↦ some (suc i) ]
]

pub data Answer : Type 0 where
  header_not_found tx_not_in_block : Answer
  -- `valid`, `tx_root` and `proof`
  checked : Bool → Str → List Str → Answer

module _ (header_digest : Header → Str) where
  unfoldable pub add_header : Header → LightClient → LightClient × Bool
  unfolding hash_of_header
  add_header h c = if contains h.number c.header_by_number then (c, false) else (
    record {
      headers = c.headers ++ h ∷ [];
      header_by_hash = insert (hash_of_header header_digest h) h c.header_by_hash;
      header_by_number = insert h.number h c.header_by_number;
    },
    true,
  )

  -- The loop of `sync_from_blockchain` over `count` heights from `n` on: how many were added.
  unfoldable pub sync_from :
      (BlockDict → Header) → ℕ → ℕ → (ℕ → Option BlockDict) → LightClient → LightClient × ℕ
  unfolding add_header
  sync_from header_of zero n get_block c = (c, 0)
  sync_from header_of (suc count) n get_block c = elim (get_block n) [
    | none ↦ sync_from header_of count (n + 1) get_block c
    | some b ↦
        let (c', added) = add_header (header_of b) c in
        let (c'', more) = sync_from header_of count (n + 1) get_block c' in
        (c'', if added then more + 1 else more)
  ]

  unfoldable pub sync_from_blockchain :
      (Str → Str) → Str → ℕ → ℕ → (ℕ → Option BlockDict) → LightClient → LightClient × ℕ
  unfolding from_block_dict
  sync_from_blockchain hash_data empty_text now height get_block c =
      sync_from (from_block_dict hash_data empty_text now) (height + 1) 0 get_block c

  unfoldable pub add_all : List Header → LightClient → LightClient
  add_all [] c = c
  add_all (h ∷ hs) c = add_all hs (add_header h c).0

  -- The first header of a list with the number.
  abbrev pub first_with : ℕ → List Header → Option Header
  first_with n [] = none
  first_with n (h ∷ hs) = if nat_beq n h.number then some h else first_with n hs

  add_header-get_header :
      (n : ℕ) (h : Header) (c : LightClient)
      → get_header n (add_header h c).0 ≡ elim (get_header n c) [
        | some old ↦ some old
        | none ↦ if nat_beq n h.number then some h else none
      ]
  unfolding get_header add_header
  add_header-get_header n h c = ground (arith, lookup-insert n h.number h c.header_by_number)

  -- The client keeps the first header that it is given for a number, and a later one never replaces
  -- it.
  pub get_header-add_all :
      (n : ℕ) (hs : List Header) (c : LightClient)
      → get_header n (add_all hs c)
        ≡ elim (get_header n c) [ some old ↦ some old | none ↦ first_with n hs ]
  unfolding add_all
  get_header-add_all n [] c = ground arith
  get_header-add_all n (h ∷ hs) c =
      ground (arith, get_header-add_all n hs (add_header h c).0, add_header-get_header n h c)

module _ (hash_data : Str → Str) where
  unfoldable pub verify_transaction : Str → Str → List Str → ℕ → Bool
  verify_transaction tx tx_root proof index = verify_proof hash_data tx proof tx_root index

  -- The check of `verify_transaction_in_block` once the position is found; the proof is never out
  -- of fuel.
  unfoldable pub check_at : Header → Str → List Str → Option ℕ → Answer
  check_at h tx transactions none = Answer.tx_not_in_block
  check_at h tx transactions (some index) = elim (generate_proof hash_data transactions index) [
    | none ↦ Answer.checked false h.tx_root []
    | some proof ↦ Answer.checked (verify_proof hash_data tx proof h.tx_root index) h.tx_root proof
  ]

  unfoldable pub verify_transaction_in_block : ℕ → Str → List Str → LightClient → Answer
  unfolding check_at
  verify_transaction_in_block number tx transactions c = elim (get_header number c) [
    | none ↦ Answer.header_not_found
    | some h ↦ check_at h tx transactions (index_of tx transactions)
  ]

  index_of-get_elem? :
      (tx : Str) (ts : List Str) (i : ℕ) → index_of tx ts ≡ some i → get_elem? ts i ≡ some tx
  unfolding index_of
  index_of-get_elem? tx [] i h = absurd (ground arith)
  index_of-get_elem? tx (t ∷ ts) i h = elim (Bool-cases (str_beq tx t)) [
    | inl e ↦ let at : i ≡ 0 = ground arith in let same = str_beq-eq tx t e in rw at (rw same refl)
    | inr e ↦ elim (Option-cases (index_of tx ts)) [
      | inl f ↦ absurd (ground arith)
      | inr (j, f) ↦ let at : i ≡ suc j = ground arith in rw at (index_of-get_elem? tx ts j f)
    ]
  ]

  -- A transaction of a block whose header is known and carries the Merkle root of the JSON texts is
  -- found to be valid.
  verify_transaction_in_block-merkle_root :
      (blank : Str) (number : ℕ) (tx : Str) (transactions : List Str) (c : LightClient) {h : Header}
      {i : ℕ}
      → get_header number c ≡ some h
      → merkle_root hash_data blank transactions ≡ some h.tx_root
      → index_of tx transactions ≡ some i
      → (proof : List Str) × (verify_transaction_in_block number tx transactions c
          ≡ Answer.checked true h.tx_root proof)
  unfolding verify_transaction_in_block check_at
  verify_transaction_in_block-merkle_root blank number tx transactions c {h = h} {i = i} known root
        at =
      let (proof, r, p, q, v) =
        verify_proof-generate_proof hash_data blank transactions i {item = tx}
          (index_of-get_elem? tx transactions i at) in
      let same : r ≡ h.tx_root = ground arith in (proof, ground (arith, same))

  -- A header that was made from a block's dictionary carries a root of the transactions' hashes, but
  -- the check is about their JSON texts. So a block with a single transaction, which has a hash, is
  -- in the chain, its transaction is asked for, and the answer is that it is not valid, unless the digest of the JSON
  -- text is the digest of the hash.
  pub synced_block_refused :
      (empty_text : Str) (now number : ℕ) (b : BlockDict) (c : LightClient) {hash json : Str}
      → b.transactions ≡ dict_entry (some hash) json ∷ []
      → root_or b.tx_root (hash_data hash) ≡ hash_data hash
      → get_header number c ≡ some (from_block_dict hash_data empty_text now b)
      → hash_data json ≢ hash_data hash
      → verify_transaction_in_block number json (json ∷ []) c
        ≡ Answer.checked false (hash_data hash) []
  unfolding verify_transaction_in_block check_at index_of from_block_dict tx_item merkle_root
      root_loop leaves generate_proof proof_loop verify_proof merkle_root_from_proof climb
  synced_block_refused empty_text now number b c {hash} {json} one root known apart =
      let h = from_block_dict hash_data empty_text now b in
      let refused : str_beq (hash_data json) (hash_data hash) ≡ false =
        elim (Bool-cases (str_beq (hash_data json) (hash_data hash))) [
          | inl q ↦ absurd (apart (str_beq-eq (hash_data json) (hash_data hash) q))
          | inr q ↦ q
        ] in
      let at : index_of json (json ∷ []) ≡ some 0 = ground (arith, str_beq_refl json) in
      let own : h.tx_root ≡ hash_data hash = rw one root in
      let checked : check_at h json (json ∷ []) (some 0)
          ≡ Answer.checked false (hash_data hash) [] =
        ground (arith, own, refused) in
      ground (arith, known, at, checked)
