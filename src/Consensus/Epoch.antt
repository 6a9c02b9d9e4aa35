-- ===== src/Consensus/Epoch.antt =====
-- `class EpochManager` of consensus/epoch.py. Block numbers and epochs are never below 0; the
-- block dictionaries are reduced to their number, `none` where the key is missing.
use absolute_blockchain_ulti.Base.{
  ℕ, ◌+◌, ◌-◌, ◌*◌, ◌/◌, ◌%◌, ◌≤◌, ◌<◌, ◌≡◌, ◌↔◌, refl, Bool, true, ◌&&◌, Option, List, [], ◌∷◌,
  nat_beq, leb, if◌then◌else◌, arith, nat_eq, ◌==◌,
}
use absolute_blockchain_ulti.Base.Dict.{or_else}

pub record EpochManager : Type 0 where
  pub epoch_size : ℕ

unfoldable pub get_epoch : EpochManager → ℕ → ℕ
get_epoch m block_number = block_number / m.epoch_size

unfoldable pub is_epoch_boundary : EpochManager → ℕ → Bool
is_epoch_boundary m block_number = nat_beq (block_number % m.epoch_size) 0

unfoldable pub get_epoch_start : EpochManager → ℕ → ℕ
get_epoch_start m epoch = epoch * m.epoch_size

unfoldable pub get_epoch_end : EpochManager → ℕ → ℕ
get_epoch_end m epoch = (epoch + 1) * m.epoch_size - 1

-- The comprehension of `get_blocks_in_epoch`, over `blocks.values()`.
unfoldable pub select_between : ℕ → ℕ → List (Option ℕ) → List (Option ℕ)
select_between first last [] = []
select_between first last (b ∷ bs) =
    if leb first (or_else b 0) && leb (or_else b 0) last
    then b ∷ select_between first last bs
    else select_between first last bs

unfoldable pub get_blocks_in_epoch : EpochManager → List (Option ℕ) → ℕ → List (Option ℕ)
unfolding get_epoch_start get_epoch_end
get_blocks_in_epoch m blocks epoch =
    select_between (get_epoch_start m epoch) (get_epoch_end m epoch) blocks

-- The blocks whose own epoch is `epoch`.
abbrev pub of_epoch : EpochManager → ℕ → List (Option ℕ) → List (Option ℕ)
of_epoch m epoch [] = []
of_epoch m epoch (b ∷ bs) =
    if get_epoch m (or_else b 0) == epoch then b ∷ of_epoch m epoch bs else of_epoch m epoch bs

module _ (m : EpochManager) (positive : 0 < m.epoch_size) where
  -- Where the epoch size is positive: an epoch is the interval from its start to its end, both
  -- included.
  pub get_epoch_interval :
      (n e : ℕ) → (get_epoch m n ≡ e) ↔ ((get_epoch_start m e ≤ n) × (n ≤ get_epoch_end m e))
  unfolding get_epoch get_epoch_start get_epoch_end
  get_epoch_interval n e = (λ h. (grind arith, grind arith), λ h. grind arith)

  -- The boundaries are exactly the first blocks of the epochs.
  pub is_epoch_boundary_iff :
      (n : ℕ) → (is_epoch_boundary m n ≡ true) ↔ (get_epoch_start m (get_epoch m n) ≡ n)
  unfolding is_epoch_boundary get_epoch_start get_epoch
  is_epoch_boundary_iff n = (λ h. grind arith, λ h. grind arith)

  -- Where the epoch size is positive: `get_blocks_in_epoch` keeps, in order,
  -- exactly the blocks whose own epoch is asked for.
  pub get_blocks_in_epoch-of_epoch :
      (blocks : List (Option ℕ)) (e : ℕ) → get_blocks_in_epoch m blocks e ≡ of_epoch m e blocks
  unfolding get_blocks_in_epoch select_between
  get_blocks_in_epoch-of_epoch [] e = refl
  get_blocks_in_epoch-of_epoch (b ∷ bs) e =
      ground (arith, get_epoch_interval (or_else b 0) e, get_blocks_in_epoch-of_epoch bs e)
