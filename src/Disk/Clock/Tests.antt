-- ===== src/Disk/Clock/Tests.antt =====
-- Runs of the cache of grass/block/clockdisk.c over a memory disk.
use operating_system_practic.Base.{ℕ, [], ◌∷◌, arith}
use operating_system_practic.Run.{Returns}
use operating_system_practic.Store.{Block, IsStore}
use operating_system_practic.Disk.Ram.{RamState, ramdisk, ramdisk_init, ram_view}
use operating_system_practic.Disk.Ram.Refines.{AnyState, ramdisk-IsStore}
use operating_system_practic.Disk.Clock.{ClockState, used, clockdisk, clockdisk_init, cache_update}
use operating_system_practic.Disk.Clock.Replace.{Placed, cache_update-Placed}
use operating_system_practic.Disk.Clock.Invariant.{ClockValid}
use operating_system_practic.Disk.Clock.Refines.{clock_view, clockdisk-IsStore}

abbrev zeros : ℕ → Block
zeros i = 0 ∷ []

-- Two slots, both in use and marked, and the hand on the second.
abbrev full : ClockState RamState
full = record (clockdisk_init (ramdisk_init zeros 4) zeros 2) {
  binfo = λ i. record { status = used; offset = i };
  clock_hand = 1;
}

cache_update-Placed_example : Returns (λ _. Placed full 3 (5 ∷ [])) (cache_update 3 (5 ∷ []) full)
cache_update-Placed_example = cache_update-Placed 3 (5 ∷ []) full (omega arith) (omega arith)

clockdisk-IsStore_example :
    IsStore (clockdisk ramdisk) (ClockValid AnyState ram_view) (clock_view ram_view)
clockdisk-IsStore_example = clockdisk-IsStore ramdisk-IsStore
