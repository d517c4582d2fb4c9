-- ===== src/Disk/Raid0/Tests.antt =====
-- Two memory disks as the stripes of grass/block/raid0disk.c.
use operating_system_practic.Base.{[], ◌∷◌, arith}
use operating_system_practic.Run.{Returns}
use operating_system_practic.Store.{Reads, Writes}
use operating_system_practic.Disk.Ram.{RamState, ramdisk, ramdisk_init, ram_view}
use operating_system_practic.Disk.Ram.Refines.{AnyState, ramdisk-IsStore}
use operating_system_practic.Disk.Raid0.{Raid0State, raid0disk_read, raid0disk_write}
use operating_system_practic.Disk.Raid0.Stripes.{
  Raid0Valid, raid0_view, raid0disk_read-Reads, raid0disk_write-Writes,
}

abbrev stripes : Raid0State RamState
stripes = record { below = λ i. ramdisk_init (λ j. i ∷ j ∷ []) 4; nbelow = 2 }

stripes-Raid0Valid : Raid0Valid (λ i. AnyState) stripes
stripes-Raid0Valid = record { stores_valid = λ i. tt; some_stores = omega arith }

raid0disk_read-Reads_example :
    Returns
      (Reads (Raid0Valid (λ i. AnyState)) (raid0_view (λ i. ram_view)) stripes 5)
      (raid0disk_read (λ i. ramdisk) 5 [] stripes)
raid0disk_read-Reads_example =
    raid0disk_read-Reads (λ i. ramdisk-IsStore) stripes stripes-Raid0Valid 5 [] (omega arith)

raid0disk_write-Writes_example :
    Returns
      (Writes (Raid0Valid (λ i. AnyState)) (raid0_view (λ i. ram_view)) stripes 5 (9 ∷ []))
      (raid0disk_write (λ i. ramdisk) 5 (9 ∷ []) stripes)
raid0disk_write-Writes_example =
    raid0disk_write-Writes (λ i. ramdisk-IsStore) stripes stripes-Raid0Valid 5 (9 ∷ [])
      (omega arith)
