-- ===== src/Evm/Roundtrip.antt =====
-- What is written to memory or storage in evm_interpreter.py can be read back.
use Prim.Native.Nat.{min, max}
use native.Mathlib.Nat.{pow-suc}
use absolute_blockchain_ulti.Base.{
  ℕ, zero, suc, ok, ◌+◌, ◌-◌, ◌*◌, ◌/◌, ◌%◌, ◌^◌, ◌≤◌, ◌<◌, ◌≡◌, refl, List, [], ◌∷◌, ◌++◌, arith,
  length, take, drop, length-append, length-take, length-drop, length-replicate, replicate,
  drop-append, take-append, nat_eq, ◌==◌, if◌then◌else◌,
}
use absolute_blockchain_ulti.Base.Dict.{Dict, lookup, or_else, IsDict, lookup-insert, lookup-erase}
use absolute_blockchain_ulti.Evm.Word.{word_size, to_word, read_bytes, from_bytes, to_bytes}
use absolute_blockchain_ulti.Evm.Memory.{slice, splice, mem_extend, write_word, copy_in}
use mathlib.Core.List.{append-nil}
use absolute_blockchain_ulti.Evm.Opcode.{Opcode}
use absolute_blockchain_ulti.Evm.State.{
  Evm, ◌>>=◌, ◌>>◌, pure, gets, set_memory, push_word, pop_word, pop_from,
}
use absolute_blockchain_ulti.Evm.Call.{Context}
use absolute_blockchain_ulti.Evm.Exec.{Flow, exec, do_mstore, do_mload, read_memory, store_word}

read_bytes-append :
    (acc b : ℕ) (xs : List ℕ) → read_bytes acc (xs ++ b ∷ []) ≡ read_bytes acc xs * 256 + b
unfolding read_bytes
read_bytes-append acc b [] = refl
read_bytes-append acc b (x ∷ xs) = read_bytes-append (acc * 256 + x) b xs

div-bound : (n v : ℕ) → v < 256 ^ suc n → v / 256 < 256 ^ n
div-bound n v h = omega (arith, pow-suc 256 n)

-- Big-endian bytes: a number that fits is what its bytes read.
pub from_bytes-to_bytes : (n v : ℕ) → v < 256 ^ n → from_bytes (to_bytes n v) ≡ v
unfolding to_bytes
from_bytes-to_bytes zero v h = unfold read_bytes in omega arith
from_bytes-to_bytes (suc n) v h =
    rw (read_bytes-append 0 (v % 256) (to_bytes n (v / 256)))
      (omega (arith, from_bytes-to_bytes n (v / 256) (div-bound n v h)))

length-to_bytes : (n v : ℕ) → length (to_bytes n v) ≡ n
unfolding to_bytes
length-to_bytes zero v = refl
length-to_bytes (suc n) v =
    omega (arith, length-append (to_bytes n (v / 256)) (v % 256 ∷ []), length-to_bytes n (v / 256))

slice-splice :
    (offset size : ℕ) (chunk memory : List ℕ)
    → offset ≤ length memory
    → length chunk ≡ size
    → slice offset size (splice offset size chunk memory) ≡ chunk
unfolding slice splice
slice-splice offset size chunk memory fits e =
    let before : length (take offset memory) ≡ offset = omega (arith, length-take offset memory) in
    let rest = chunk ++ drop (offset + size) memory in
    let dropped : drop offset (take offset memory ++ rest) ≡ rest =
      rw before at (drop-append (take offset memory) rest) in
    rw dropped (rw e at (take-append chunk (drop (offset + size) memory)))

length-mem_extend :
    (offset size : ℕ) (m : List ℕ)
    → length (mem_extend offset size m) ≡ max (length m) (offset + size)
unfolding mem_extend
length-mem_extend offset size m = omega (
  arith,
  length-append m (replicate (offset + size - length m) 0),
  length-replicate {A = ℕ} (offset + size - length m) 0,
)

to_word_of_lt : (v : ℕ) → v < word_size → to_word v ≡ v
unfolding to_word
to_word_of_lt v h = omega arith

read_written :
    (offset v : ℕ) (m : List ℕ)
    → v < word_size
    → from_bytes (slice offset 32 (write_word offset v m)) ≡ v
unfolding write_word
read_written offset v m h =
    let extended = mem_extend offset 32 m in
    let fits : offset ≤ length extended = omega (arith, length-mem_extend offset 32 m) in
    rw
      (slice-splice offset 32 (to_bytes 32 (to_word v)) extended fits
        (length-to_bytes 32 (to_word v)))
      (rw (to_word_of_lt v h) (from_bytes-to_bytes 32 v h))

length-write_word_ge : (offset v : ℕ) (m : List ℕ) → offset + 32 ≤ length (write_word offset v m)
unfolding write_word splice
length-write_word_ge offset v m =
    let extended = mem_extend offset 32 m in
    let chunk = to_bytes 32 (to_word v) in
    omega (
      arith,
      length-append (take offset extended) (chunk ++ drop (offset + 32) extended),
      length-append chunk (drop (offset + 32) extended),
      length-take offset extended,
      length-to_bytes 32 (to_word v),
      length-mem_extend offset 32 m,
    )

-- Memory that reaches far enough is not extended.
mem_extend_fits :
    (offset size : ℕ) (m : List ℕ) → offset + size ≤ length m → mem_extend offset size m ≡ m
unfolding mem_extend replicate
mem_extend_fits offset size m h =
    let none : offset + size - length m ≡ 0 = omega (arith, h) in rw none (append-nil m)

-- MSTORE, then a push of the same offset and MLOAD: whatever the context and the state, the two
-- branches return, with the 256-bit word that was stored on the stack in place of the operands, and
-- with nothing changed beside the stack and the memory; reading changes the memory no further.
pub mload-mstore :
    {W : Type 0} (ctx : Context W) (offset v : ℕ) (rest : List ℕ) (s : Evm W)
    → offset < word_size
    → v < word_size
    → (exec ctx Opcode.mstore >>= λ _. push_word offset >> exec ctx Opcode.mload)
        (record s { stack = offset ∷ v ∷ rest })
      ≡ ok (Flow.next, record s { stack = v ∷ rest; memory = write_word offset v s.memory })
unfolding exec do_mstore do_mload read_memory push_word pop_word pop_from gets set_memory pure ◌>>=◌
    ◌>>◌
mload-mstore ctx offset v rest s small h =
    let written = write_word offset v s.memory in
    rw
      (
        to_word_of_lt offset small,
        mem_extend_fits offset 32 written (length-write_word_ge offset v s.memory),
        read_written offset v s.memory h,
        to_word_of_lt v h,
      )
      refl

-- CALLDATACOPY, CODECOPY and RETURNDATACOPY do not pad: where the source ends before `size` bytes,
-- the memory becomes shorter by just the bytes that are missing, and what stood behind moves down.
length-copy_in :
    (dest offset size : ℕ) (source m : List ℕ)
    → length (copy_in dest offset size source m) + (size - min size (length source - offset))
      ≡ max (length m) (dest + size)
unfolding copy_in slice splice
length-copy_in dest offset size source m =
    let extended = mem_extend dest size m in
    let chunk = take size (drop offset source) in
    omega (
      arith,
      length-append (take dest extended) (chunk ++ drop (dest + size) extended),
      length-append chunk (drop (dest + size) extended),
      length-take dest extended,
      length-take size (drop offset source),
      length-drop offset source,
      length-drop (dest + size) extended,
      length-mem_extend dest size m,
    )

-- SLOAD after SSTORE, in a storage that repeats no key: the stored value at its key, also a zero, which deletes the entry; every
-- other key as before.
pub lookup-store_word :
    (j k v : ℕ) (storage : Dict ℕ ℕ)
    → IsDict storage
    → or_else (lookup j (store_word k v storage)) 0
      ≡ (if j == k then v else or_else (lookup j storage) 0)
unfolding store_word
lookup-store_word j k v storage h =
    ground (arith, lookup-insert j k v storage, lookup-erase j k storage h)
