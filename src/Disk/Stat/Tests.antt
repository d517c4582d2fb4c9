-- ===== src/Disk/Stat/Tests.antt =====
-- The counters of grass/block/statdisk.c over a memory disk.
use operating_system_practic.Base.{ℕ, ◌≡◌, refl, List, [], ◌∷◌, failure}
use operating_system_practic.Run.{ok, map_state}
use operating_system_practic.Store.{Block}
use operating_system_practic.Store.Client.{Request, get, put, resize, measure, play}
use operating_system_practic.Disk.Ram.{ramdisk, ramdisk_init}
use operating_system_practic.Disk.Stat.{statdisk, statdisk_init, statdisk_read}
use operating_system_practic.Disk.Stat.Counts.{is_read, count, counted, play-statdisk}

abbrev zeros : ℕ → Block
zeros i = 0 ∷ []

-- A read that fails is counted.
counts_failures :
    statdisk_read ramdisk 9 [] (statdisk_init (ramdisk_init zeros 4))
    ≡ ok (failure, []) (record (statdisk_init (ramdisk_init zeros 4)) { nread = 1 })
unfolding statdisk_read ramdisk
counts_failures = refl

abbrev script : List Request
script = get 1 [] ∷ put 9 (1 ∷ []) ∷ resize 2 ∷ measure ∷ get 3 [] ∷ []

play-statdisk_example :
    play (statdisk ramdisk) script (statdisk_init (ramdisk_init zeros 4))
    ≡ map_state (counted script) (play ramdisk script (ramdisk_init zeros 4))
play-statdisk_example = play-statdisk ramdisk script (ramdisk_init zeros 4)

-- Two of the five requests read.
counts_reads : count is_read script ≡ 2
counts_reads = refl
