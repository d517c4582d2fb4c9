-- ===== src/Disk/Cache/Tests.antt =====
-- Runs of grass/block/cachedisk.c over a memory disk.
use operating_system_practic.Base.{ℕ, ◌≡◌, refl, List, [], ◌∷◌, arith}
use operating_system_practic.Run.{map_state}
use operating_system_practic.Store.{Block}
use operating_system_practic.Store.Client.{Request, get, put, measure, play}
use operating_system_practic.Disk.Ram.{RamState, ramdisk, ramdisk_init}
use operating_system_practic.Disk.Cache.{CacheState, cachedisk, cachedisk_init}
use operating_system_practic.Disk.Cache.Unused.{play-cachedisk}

abbrev zeros : ℕ → Block
zeros i = 0 ∷ []

abbrev fresh : CacheState RamState
fresh = cachedisk_init (ramdisk_init zeros 4) zeros 2 (0, 0, 0, 0)

abbrev script : List Request
script = put 1 (7 ∷ []) ∷ get 1 [] ∷ measure ∷ get 1 [] ∷ []

play-cachedisk_example :
    map_state (λ (cs : CacheState RamState). cs.below) (play (cachedisk ramdisk) script fresh)
    ≡ play ramdisk script (ramdisk_init zeros 4)
play-cachedisk_example = play-cachedisk ramdisk script fresh (λ i. refl) (omega arith)
