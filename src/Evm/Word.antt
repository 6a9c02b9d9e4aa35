-- ===== src/Evm/Word.antt =====
-- The arithmetic of evm_interpreter.py: numbers that `_push` reduces to 256 bits. Python's `-`, `~`
-- and `<<` leave the range, and `& ((1 << 256) - 1)` is the remainder by 2 ^ 256.
use absolute_blockchain_ulti.Base.{
  ℕ, zero, suc, ◌+◌, ◌-◌, ◌*◌, ◌/◌, ◌%◌, ◌^◌, ◌<◌, Bool, List, [], ◌∷◌, ◌++◌, leb, nat_beq,
  if◌then◌else◌, arith,
}

abbrev pub word_size : ℕ
word_size = 2 ^ 256

abbrev pub address_size : ℕ
address_size = 2 ^ 160

-- `value & ((1 << 256) - 1)`
unfoldable pub to_word : ℕ → ℕ
to_word n = n % word_size

pub to_word-lt : (n : ℕ) → to_word n < word_size
unfolding to_word
to_word-lt n = omega arith

-- `(a - b) & ((1 << 256) - 1)`
unfoldable pub sub_word : ℕ → ℕ → ℕ
sub_word a b = (a + (word_size - b % word_size)) % word_size

-- `(~a) & ((1 << 256) - 1)`
unfoldable pub not_word : ℕ → ℕ
not_word a = word_size - 1 - a % word_size

-- `0 if b == 0 else a // b`, `0 if b == 0 else a % b`
unfoldable pub div_word : ℕ → ℕ → ℕ
div_word a b = if nat_beq b 0 then 0 else a / b

unfoldable pub mod_word : ℕ → ℕ → ℕ
mod_word a b = if nat_beq b 0 then 0 else a % b

-- Byte `i` of `x`, from the left.
unfoldable pub byte_of : ℕ → ℕ → ℕ
byte_of i x = if leb 32 i then 0 else x / 2 ^ (8 * (31 - i)) % 256

unfoldable pub shl_word : ℕ → ℕ → ℕ
shl_word shift v = v * 2 ^ shift % word_size

unfoldable pub shr_word : ℕ → ℕ → ℕ
shr_word shift v = v / 2 ^ shift

-- `1 if c else 0`
abbrev pub bit : Bool → ℕ
bit c = if c then 1 else 0

-- `int.from_bytes(data, "big")`, on top of what was read before
unfoldable pub read_bytes : ℕ → List ℕ → ℕ
read_bytes acc [] = acc
read_bytes acc (b ∷ bs) = read_bytes (acc * 256 + b) bs

abbrev pub from_bytes : List ℕ → ℕ
from_bytes = read_bytes 0

-- The `n` low bytes of `v`, most significant first, as in `v.to_bytes(n, "big")`.
unfoldable pub to_bytes : ℕ → ℕ → List ℕ
to_bytes zero v = []
to_bytes (suc n) v = to_bytes n (v / 256) ++ v % 256 ∷ []
