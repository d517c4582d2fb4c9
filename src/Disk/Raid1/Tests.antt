-- ===== src/Disk/Raid1/Tests.antt =====
-- Three memory disks, one of them broken, as the mirrors of grass/block/raid1disk.c.
use operating_system_practic.Base.{
  ℕ, ◌≡◌, ◌==◌, Option, some, update, refl, [], ◌∷◌, arith, failure,
}
use operating_system_practic.Run.{Returns, ok}
use operating_system_practic.Store.{Block}
use operating_system_practic.Disk.Ram.{RamState, ramdisk, ramdisk_init, ram_view}
use operating_system_practic.Disk.Ram.Refines.{AnyState, ramdisk-IsStore}
use operating_system_practic.Disk.Raid1.{Raid1State, raid1disk_read, raid1disk_write}
use operating_system_practic.Disk.Raid1.Mirror.{
  Mirrors, IsWorking, ReadMirror, WriteMirror, raid1disk_read-Mirrors, raid1disk_write-Mirrors,
}
use operating_system_practic.Disk.Raid1.OutOfRange.{raid1disk_write-beyond}

abbrev fives : ℕ → Block
fives i = 5 ∷ []

abbrev array : ℕ → Option Block
array = ram_view (ramdisk_init fives 4)

abbrev mirrors : Raid1State RamState
mirrors = record { below = λ i. ramdisk_init fives 4; nbelow = 3; broken = λ i. i == 0 }

mirrors-Mirrors : Mirrors (λ i. AnyState) (λ i. ram_view) array mirrors
mirrors-Mirrors j lt e = record { valid = tt; same = λ q. refl }

one-IsWorking : IsWorking mirrors 1
one-IsWorking = record { in_range = omega arith; working = refl }

raid1disk_read-Mirrors_example :
    Returns
      (ReadMirror (λ i. AnyState) (λ i. ram_view) array 2 mirrors)
      (raid1disk_read (λ i. ramdisk) 2 [] mirrors)
raid1disk_read-Mirrors_example =
    raid1disk_read-Mirrors (λ i. ramdisk-IsStore) array 2 (omega arith) 1 [] (5 ∷ []) mirrors
      mirrors-Mirrors one-IsWorking refl

raid1disk_write-Mirrors_example :
    Returns
      (WriteMirror (λ i. AnyState) (λ i. ram_view) (update array 2 (some (9 ∷ []))) mirrors)
      (raid1disk_write (λ i. ramdisk) 2 (9 ∷ []) mirrors)
raid1disk_write-Mirrors_example =
    raid1disk_write-Mirrors (λ i. ramdisk-IsStore) array 2 (omega arith) (9 ∷ []) (5 ∷ []) refl 1
      mirrors mirrors-Mirrors one-IsWorking

raid1disk_write-beyond_example :
    Returns
      (λ r t.
        (r ≡ failure)
        × ((q : ℕ) (c : Block) → raid1disk_read (λ i. ramdisk) q c t ≡ ok (failure, c) t))
      (raid1disk_write (λ i. ramdisk) 4 (9 ∷ []) mirrors)
raid1disk_write-beyond_example =
    raid1disk_write-beyond (λ i. ramdisk-IsStore) array 4 (omega arith) (9 ∷ []) refl mirrors
      mirrors-Mirrors
