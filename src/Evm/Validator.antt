-- ===== src/Evm/Validator.antt =====
-- The static check of code before a deployment (execution/evm_bytecode_validator.py). The name of
-- an opcode in an issue only repeats its byte and is left out, and so is the reading of the hex
-- string.
use absolute_blockchain_ulti.Base.{
  ℕ, zero, suc, ◌+◌, ◌-◌, ◌<◌, ◌≡◌, refl, Bool, true, false, Option, none, some, List, [], ◌∷◌, not,
  ◌&&◌, ◌||◌, if◌then◌else◌, nat_eq, nat_beq, nat_beq_iff, length, get_elem?, arith, Bool-cases,
  Option-cases, inl, inr, ◌⊎◌, All, All-get_elem?,
}
use absolute_blockchain_ulti.Base.Set.{member}
use absolute_blockchain_ulti.Evm.Opcode.{Opcode, decode, between}
use absolute_blockchain_ulti.Evm.State.{Evm}
use absolute_blockchain_ulti.Evm.Call.{Context}
use absolute_blockchain_ulti.Evm.Run.{start}
use absolute_blockchain_ulti.Evm.Stepping.{width, Boundary, Runs, Runs-Boundary}

-- `_SINGLE_BYTE_SUPPORTED`
abbrev pub single_byte_supported : List ℕ
single_byte_supported =
    0x00 ∷ 0x01 ∷ 0x02 ∷ 0x03 ∷ 0x04 ∷ 0x06 ∷ 0x10 ∷ 0x11 ∷ 0x12 ∷ 0x14 ∷ 0x15 ∷ 0x16 ∷ 0x17 ∷ 0x19
    ∷ 0x1a ∷ 0x1b ∷ 0x1c ∷ 0x20 ∷ 0x30 ∷ 0x31 ∷ 0x32 ∷ 0x33 ∷ 0x34 ∷ 0x35 ∷ 0x36 ∷ 0x37 ∷ 0x38
    ∷ 0x39 ∷ 0x3b ∷ 0x3c ∷ 0x3d ∷ 0x3e ∷ 0x40 ∷ 0xa0 ∷ 0xa1 ∷ 0xa2 ∷ 0xa3 ∷ 0xa4 ∷ 0x50 ∷ 0x51
    ∷ 0x52 ∷ 0x53 ∷ 0x54 ∷ 0x55 ∷ 0x56 ∷ 0x57 ∷ 0x5a ∷ 0x5b ∷ 0x5f ∷ 0xf0 ∷ 0xf1 ∷ 0xf2 ∷ 0xf3
    ∷ 0xf4 ∷ 0xf5 ∷ 0xfa ∷ 0xfd ∷ 0xfe ∷ 0xff ∷ []

unfoldable pub is_supported_opcode : ℕ → Bool
is_supported_opcode op =
    if between 0x60 0x7f op || (between 0x80 0x8f op || between 0x90 0x9f op)
    then true
    else member op single_byte_supported

pub record Issue : Type 0 where
  pub pc : ℕ
  pub opcode : ℕ

-- Where the scan goes on after the opcode at `pc`.
unfoldable pub next_pc : ℕ → ℕ → ℕ
next_pc pc op = if between 0x60 0x7f op then pc + (1 + (op - 0x5f)) else pc + 1

abbrev pub issue_at : ℕ → ℕ → List Issue → List Issue
issue_at pc op rest =
    if is_supported_opcode op then rest else record { pc = pc; opcode = op } ∷ rest

-- The loop of `scan_bytecode`: the issues from `pc` on. `none` means that the fuel ran out.
unfoldable pub scan_from : ℕ → List ℕ → ℕ → Option (List Issue)
scan_from zero code pc = none
scan_from (suc n) code pc = elim (get_elem? code pc) [
  | none ↦ some []
  | some op ↦ elim (scan_from n code (next_pc pc op)) [
    | none ↦ none
    | some rest ↦ some (issue_at pc op rest)
  ]
]

unfoldable pub scan_bytecode : List ℕ → Option (Bool × List Issue)
scan_bytecode code = elim (scan_from (length code + 1) code 0) [
  | none ↦ none
  | some [] ↦ some (true, [])
  | some (i ∷ is) ↦ some (false, i ∷ is)
]

-- The interpreter has a branch for the opcode.
abbrev pub has_branch : Opcode → Bool
has_branch Opcode.unsupported = false
has_branch op = true

-- TIMESTAMP, NUMBER, GASLIMIT, CHAINID
abbrev pub unlisted : List ℕ
unlisted = 0x42 ∷ 0x43 ∷ 0x45 ∷ 0x46 ∷ []

same : Bool → Bool → Bool
same true b = b
same false b = not b

same-eq : (a b : Bool) → same a b ≡ true → a ≡ b
unfolding same
same-eq true b h = ground arith
same-eq false b h = ground arith

-- What the validator accepts, in terms of the interpreter.
abbrev pub listed : ℕ → Bool
listed op = has_branch (decode op) && not (member op unlisted)

agrees : ℕ → Bool
unfolding is_supported_opcode member decode same
agrees op = same (is_supported_opcode op) (listed op)

all_below : ℕ → (ℕ → Bool) → Bool
all_below zero p = true
all_below (suc n) p = p n && all_below n p

all_below-at : (n : ℕ) (p : ℕ → Bool) (k : ℕ) → all_below n p ≡ true → k < n → p k ≡ true
unfolding all_below
all_below-at zero p k h lt = absurd (omega arith)
all_below-at (suc n) p k h lt = elim (Bool-cases (nat_beq k n)) [
  | inl e ↦ let same : k ≡ n = ground arith in rw same (ground arith)
  | inr e ↦ all_below-at n p k (ground arith) (ground arith)
]

agrees-bytes : all_below 256 agrees ≡ true
unfolding all_below agrees
agrees-bytes = refl

-- For every byte, the validator's list is the interpreter's chain of branches less TIMESTAMP,
-- NUMBER, GASLIMIT and CHAINID, which the interpreter runs.
pub is_supported_opcode-decode :
    (op : ℕ)
    → op < 256
    → is_supported_opcode op ≡ (has_branch (decode op) && not (member op unlisted))
unfolding agrees
is_supported_opcode-decode op lt =
    same-eq (is_supported_opcode op) (listed op) (all_below-at 256 agrees op agrees-bytes lt)

same_width : ℕ → Bool
unfolding next_pc decode
same_width op = nat_beq (next_pc 0 op) (width (decode op))

same_width-bytes : all_below 256 same_width ≡ true
unfolding all_below same_width
same_width-bytes = refl

-- The scan goes on where the interpreter does.
next_pc-width : (pc op : ℕ) → op < 256 → next_pc pc op ≡ pc + width (decode op)
unfolding same_width
next_pc-width pc op lt =
    let bit = all_below-at 256 same_width op same_width-bytes lt in
    let from_0 : next_pc 0 op ≡ width (decode op) =
      (nat_beq_iff (next_pc 0 op) (width (decode op))).0 bit in
    let shifted : next_pc pc op ≡ pc + next_pc 0 op = unfold next_pc in ground arith in
    omega (arith, from_0, shifted)

scan_from-clean :
    (n : ℕ) (code : List ℕ) (pc : ℕ) {op : ℕ}
    → scan_from (suc n) code pc ≡ some []
    → get_elem? code pc ≡ some op
    → (is_supported_opcode op ≡ true) × (scan_from n code (next_pc pc op) ≡ some [])
unfolding scan_from
scan_from-clean n code pc {op = op} h at_pc =
    elim (Option-cases (scan_from n code (next_pc pc op))) [
      | inl out ↦ absurd (ground arith)
      | inr (rest, k) ↦ ground arith
    ]

scan_from-positive :
    (m : ℕ) (code : List ℕ) (q : ℕ)
    → scan_from m code q ≡ some []
    → (k : ℕ) × (scan_from (suc k) code q ≡ some [])
scan_from-positive zero code q e = absurd (unfold scan_from in ground arith)
scan_from-positive (suc k) code q e = (k, e)

-- Where an opcode starts, the scan finds nothing from there on if it found nothing at all.
scan_from-Boundary :
    (n : ℕ) (code : List ℕ) {q : ℕ}
    → All (λ b. b < 256) code
    → scan_from n code 0 ≡ some []
    → Boundary code q
    → (m : ℕ) × (scan_from (suc m) code q ≡ some [])
scan_from-Boundary zero code bytes h Boundary.first = absurd (unfold scan_from in ground arith)
scan_from-Boundary (suc n) code bytes h Boundary.first = (n, h)
scan_from-Boundary n code bytes h (Boundary.after {pc = pc} {b = b} at fetched) =
    let (m, clean) = scan_from-Boundary n code bytes h at in
    let byte : b < 256 = All-get_elem? (λ b. b < 256) code pc {x = b} bytes fetched in
    scan_from-positive m code (pc + width (decode b))
      (rw (next_pc-width pc b byte) at (scan_from-clean m code pc {op = b} clean fetched).1)

beyond : (xs : List ℕ) (i : ℕ) {x : ℕ} → get_elem? xs i ≡ some x → i < length xs
beyond [] i h = absurd (ground arith)
beyond (x ∷ xs) zero h = omega arith
beyond (x ∷ xs) (suc i) {x = y} h = omega (arith, beyond xs i {x = y} h)

scan_from-total :
    (n : ℕ) (code : List ℕ) (pc : ℕ)
    → length code < pc + n
    → 0 < n
    → (is : List Issue) × (scan_from n code pc ≡ some is)
unfolding scan_from next_pc
scan_from-total zero code pc h p = absurd (omega arith)
scan_from-total (suc n) code pc h p = elim (Option-cases (get_elem? code pc)) [
  | inl out ↦ ([], ground arith)
  | inr (op, at_pc) ↦
      let inside = beyond code pc {x = op} at_pc in
      let (rest, k) = scan_from-total n code (next_pc pc op) (ground arith) (omega arith) in
      (issue_at pc op rest, ground arith)
]

List-cases : (is : List Issue) → (is ≡ []) ⊎ ((i : Issue) × (rest : List Issue) × (is ≡ i ∷ rest))
List-cases [] = inl refl
List-cases (i ∷ rest) = inr (i, rest, refl)

-- The scan ends on every code: one round more than the code is long suffices.
pub scan_bytecode-total : (code : List ℕ) → (r : Bool × List Issue) × (scan_bytecode code ≡ some r)
unfolding scan_bytecode
scan_bytecode-total code =
    let (is, k) = scan_from-total (length code + 1) code 0 (omega arith) (omega arith) in
    elim (List-cases is) [
      | inl clean ↦ ((true, []), ground arith)
      | inr (i, rest, e) ↦ ((false, i ∷ rest), ground arith)
    ]

-- Where the scan finds a code of bytes valid, the interpreter that runs it, from any state and with
-- any callbacks, only fetches opcodes for which it has a branch, as long as its jumps land where an
-- opcode of the code starts.
pub scan_bytecode-decode :
    {W : Type 0} (ctx : Context W) (code : List ℕ) (s u : Evm W) {op : ℕ} {is : List Issue}
    → All (λ b. b < 256) code
    → scan_bytecode code ≡ some (true, is)
    → Runs ctx (start code s) u
    → get_elem? u.bytecode u.pc ≡ some op
    → has_branch (decode op) ≡ true
unfolding scan_bytecode start
scan_bytecode-decode ctx code s u {op = op} bytes valid run fetched =
    let (same, at) = Runs-Boundary ctx code {s = start code s} {u = u} refl Boundary.first run in
    let fetched' : get_elem? code u.pc ≡ some op = rw same at fetched in
    let (is, k) = scan_from-total (length code + 1) code 0 (omega arith) (omega arith) in
    elim (List-cases is) [
      | inr (i, rest, e) ↦ absurd (ground arith)
      | inl clean ↦
          let (m, from_here) = scan_from-Boundary (length code + 1) code bytes (ground arith) at in
          let supported = (scan_from-clean m code u.pc {op = op} from_here fetched').0 in
          let byte : op < 256 = All-get_elem? (λ b. b < 256) code u.pc {x = op} bytes fetched' in
          ground (arith, supported, is_supported_opcode-decode op byte)
    ]
