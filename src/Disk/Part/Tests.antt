-- ===== src/Disk/Part/Tests.antt =====
-- A partition of grass/block/partdisk.c over a memory disk.
use operating_system_practic.Store.{IsStore}
use operating_system_practic.Disk.Ram.{ramdisk, ram_view}
use operating_system_practic.Disk.Ram.Refines.{AnyState, ramdisk-IsStore}
use operating_system_practic.Disk.Part.{partdisk, part_view}
use operating_system_practic.Disk.Part.Refines.{PartValid, partdisk-IsStore}

partdisk-IsStore_example :
    IsStore
      (partdisk (partdisk ramdisk))
      (PartValid (PartValid AnyState))
      (part_view (part_view ram_view))
partdisk-IsStore_example = partdisk-IsStore (partdisk-IsStore ramdisk-IsStore)
