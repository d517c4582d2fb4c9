-- ===== src/Disk/Check/Tests.antt =====
-- Runs of the check of grass/block/checkdisk.c over a memory disk.
use operating_system_practic.Base.{ℕ, ◌≡◌, refl, [], ◌∷◌}
use operating_system_practic.Store.{Block, IsStore}
use operating_system_practic.Disk.Ram.{RamState, ramdisk, ramdisk_init, ram_view}
use operating_system_practic.Disk.Ram.Refines.{AnyState, ramdisk-IsStore}
use operating_system_practic.Disk.Check.{CheckState, checkdisk, checkdisk_read}
use operating_system_practic.Disk.Check.Entries.{find, block_eq}
use operating_system_practic.Disk.Check.Detects.{checkdisk_read-recorded}
use operating_system_practic.Disk.Check.Refines.{CheckValid, check_view, checkdisk-IsStore}

abbrev fives : ℕ → Block
fives i = 5 ∷ []

abbrev recorded : CheckState RamState
recorded = record { below = ramdisk_init fives 4; bl = (2, 5 ∷ []) ∷ [] }

checkdisk-IsStore_example :
    IsStore (checkdisk ramdisk) (CheckValid AnyState ram_view) (check_view ram_view)
checkdisk-IsStore_example = checkdisk-IsStore ramdisk-IsStore

checkdisk_read-recorded_example : ◌≡◌ {A = Block} (5 ∷ []) (5 ∷ []) × (recorded.bl ≡ recorded.bl)
unfolding checkdisk_read find block_eq ramdisk
checkdisk_read-recorded_example =
    checkdisk_read-recorded ramdisk recorded recorded 2 [] (5 ∷ []) (5 ∷ []) refl refl
