-- ===== src/Disk/Clock/Lookup.antt =====
-- The search for a slot in grass/block/clockdisk.c.
use operating_system_practic.Base.{ℕ, zero, suc, ◌+◌, ◌≤◌, ◌<◌, ◌≡◌, true, none, some, arith}
use operating_system_practic.Disk.Clock.{BlockInfo, is_live, find_slot}

-- Slot `i` holds the block at `offset`.
abbrev pub Holds : (ℕ → BlockInfo) → ℕ → ℕ → Type 0
Holds binfo offset i = ((binfo i).offset ≡ offset) × (is_live (binfo i).status ≡ true)

module _ (binfo : ℕ → BlockInfo) (offset : ℕ) where
  pub find_slot-some :
      (k i j : ℕ) → find_slot binfo offset k i ≡ some j → (j < i + k) × Holds binfo offset j
  unfolding find_slot
  find_slot-some zero i j h = ground arith
  find_slot-some (suc k) i j h = ground (arith, find_slot-some k (i + 1) j)

  pub find_slot-none :
      (k i j : ℕ) → find_slot binfo offset k i ≡ none → i ≤ j → j < i + k → ¬ Holds binfo offset j
  unfolding find_slot
  find_slot-none zero i j h lo hi = absurd (omega arith)
  find_slot-none (suc k) i j h lo hi = ground (arith, find_slot-none k (i + 1) j)
