-- ===== src/Disk/Tree/Tests.antt =====
-- grass/block/treedisk.c on a small memory disk.
use operating_system_practic.Base.{
  ℕ, ◌^◌, ◌<◌, ◌≤◌, ◌≡◌, ◌≢◌, refl, sym, ap, ◌∙◌, Bool-cases, true, ltb, inl, inr, ◌⊎◌, arith,
  success, failure, none, set, ◌∷◌, [], update,
}
use operating_system_practic.Run.{Returns, mono, and_then, ok, spin}
use operating_system_practic.Store.{Block, Fetched}
use operating_system_practic.Disk.Ram.{RamState, ramdisk, ramdisk_init, ram_view}
use operating_system_practic.Disk.Ram.Refines.{AnyState, ramdisk-IsStore, ramdisk_nblocks_lem}
use operating_system_practic.Disk.Tree.{null_block, refs_per_block, levels_for, nlevels}
use operating_system_practic.Disk.Tree.Blocks.{treedisk_alloc_block, treedisk_free_block}
use operating_system_practic.Disk.Tree.Create.{
  fill_refs, as_unsigned, treedisk_create, treedisk_init,
}
use operating_system_practic.Disk.Tree.Read.{treedisk_read, treedisk_nblocks}
use operating_system_practic.Disk.Tree.Write.{treedisk_write}
use operating_system_practic.Disk.Tree.Shows.{Disk, Shows}
use operating_system_practic.Disk.Tree.Labels.{outside, node, Labels, Chain, Chain-same, room, Free}
use operating_system_practic.Disk.Tree.Takes.{Takes, treedisk_alloc_block-Takes, update_label_ne}
use operating_system_practic.Disk.Tree.Lists.{used_slots}
use operating_system_practic.Disk.Tree.Files.{file_view, snapshot, treedisk_read-Fetched}
use operating_system_practic.Disk.Tree.Writes.{Written}
use operating_system_practic.Disk.Tree.Updates.{
  treedisk_write-Written, treedisk_read-treedisk_write,
}
use operating_system_practic.Disk.Tree.Fresh.{fresh, Chain-cons}
use operating_system_practic.Disk.Tree.Formats.{
  Formatted, formatted, Created, treedisk_create-Created,
}
use operating_system_practic.Disk.Tree.Size.{free_level}
use operating_system_practic.Disk.Tree.Capacity.{levels_for-least, free_level-cases}
use operating_system_practic.Disk.Tree.Missing.{missing-fails}
use operating_system_practic.Disk.Tree.Frees.{Gives}
use operating_system_practic.Disk.Tree.Gives.{treedisk_free_block-Gives}

-- A disk of 100 blocks of null bytes.
abbrev blank : Disk
blank o = null_block

abbrev blank_ram : RamState
blank_ram = ramdisk_init blank 100

blank-Shows : Shows AnyState ram_view 100 blank_ram blank
blank-Shows = (tt, λ o lt. ground (arith, lt))

treedisk_create-Created_example :
    Returns
      (Created ramdisk-IsStore 100 (omega arith) blank 1)
      (treedisk_create ramdisk 12 blank_ram)
treedisk_create-Created_example =
    treedisk_create-Created ramdisk-IsStore 100 (omega arith) 12 blank blank_ram
      (mono (ramdisk_nblocks_lem (λ t. Shows AnyState ram_view 100 t blank) blank_ram blank-Shows)
        (λ r t (e, sh). (ap as_unsigned e, sh)))
      (inl refl)

-- The disk that it makes of that one.
abbrev pub made : Disk
made = update (update blank 2 (0 ∷ fill_refs 255 3 100)) 0 (set (set null_block 0 1) 1 2)

abbrev made_ram : RamState
made_ram = ramdisk_init made 100

made-Shows : Shows AnyState ram_view 100 made_ram made
made-Shows = (tt, λ o lt. ground (arith, lt))

slots_used : used_slots (0 ∷ fill_refs 255 3 100) 255 ≡ 97
unfolding used_slots fill_refs
slots_used = refl

pub made-Formatted : Formatted 100 1 made 1
unfolding Chain room
made-Formatted =
    let (list, count) = Chain-cons 100 1 blank 0 0 2 (omega arith) (omega arith) refl refl in
    formatted ramdisk-IsStore 100 (omega arith) 1 1 2 (update blank 2 (0 ∷ fill_refs 255 3 100))
      made (omega arith) list (omega (arith, count, slots_used)) refl cleared
      (λ b gt. ground (arith, gt))
  where
    cleared : (b : ℕ) → 1 ≤ b → b ≤ 1 → made b ≡ null_block
    cleared b low high = let one : 1 ≡ b = omega (arith, low, high) in ap made (sym one)

-- Block 300 of file 5, which is empty.
abbrev bytes : Block
bytes = 1 ∷ 2 ∷ 3 ∷ []

treedisk_write-Written_example :
    Returns
      (λ r ts.
        (r ≡ success)
        × (ts.inode_no ≡ 5)
        × (d1 : Disk) × (label1 : Labels) × (k1 : ℕ) × Shows AnyState ram_view 100 ts.below d1
        × Written 100 made 1 1 5 300 bytes d1 label1 k1)
      (treedisk_write ramdisk 300 bytes (record { below = made_ram; inode_no = 5 }))
treedisk_write-Written_example =
    treedisk_write-Written ramdisk-IsStore 100 (omega arith) made (fresh 100 1) 1 1
      made-Formatted.system 5 300 bytes (omega arith) (omega arith)
      (omega (arith, made-Formatted.all_free)) made_ram made-Shows

treedisk_read-treedisk_write_example :
    Returns
      (λ rc ts. (rc.0 ≡ success) × (rc.1 ≡ bytes))
      (and_then
        (treedisk_write ramdisk 300 bytes (record { below = made_ram; inode_no = 5 }))
        (λ r ts. treedisk_read ramdisk 300 [] ts))
treedisk_read-treedisk_write_example =
    treedisk_read-treedisk_write ramdisk-IsStore 100 (omega arith) made (fresh 100 1) 1 1
      made-Formatted.system 5 300 bytes (omega arith) (omega arith)
      (omega (arith, made-Formatted.all_free)) [] made_ram made-Shows

treedisk_read-Fetched_example :
    Returns
      (λ rc ts.
        Fetched (file_view made 5 0) rc
        × Shows AnyState ram_view 100 ts.below made
        × (ts.inode_no ≡ 5))
      (treedisk_read ramdisk 0 [] (record { below = made_ram; inode_no = 5 }))
treedisk_read-Fetched_example =
    treedisk_read-Fetched ramdisk-IsStore 100 (omega arith) made (fresh 100 1) 1 1
      made-Formatted.system 5 0 [] made_ram (omega arith) made-Shows

missing-fails_example :
    Returns
      (λ rc ts. (rc ≡ (failure, bytes)) × Shows AnyState ram_view 100 ts.below made)
      (treedisk_read ramdisk 0 bytes (record { below = made_ram; inode_no = 128 }))
    × Returns
        (λ r ts. (r ≡ failure) × Shows AnyState ram_view 100 ts.below made)
        (treedisk_write ramdisk 0 bytes (record { below = made_ram; inode_no = 128 }))
    × Returns
        (λ r ts. (r ≡ failure) × Shows AnyState ram_view 100 ts.below made)
        (treedisk_nblocks ramdisk (record { below = made_ram; inode_no = 128 }))
    × Returns
        (λ x t. (x ≡ none) × Shows AnyState ram_view 100 t made)
        (treedisk_init ramdisk 128 made_ram)
missing-fails_example =
    missing-fails ramdisk-IsStore 100 (omega arith) made (fresh 100 1) 1 1 made-Formatted.system 128
      (omega arith) (omega arith) made_ram made-Shows 0 bytes

treedisk_alloc_block-Takes_example :
    Returns
      (Takes ramdisk-IsStore 100 (omega arith) made (fresh 100 1) 1 (snapshot made 5) (node 5 0 0))
      (treedisk_alloc_block ramdisk (snapshot made 5) made_ram)
treedisk_alloc_block-Takes_example =
    treedisk_alloc_block-Takes ramdisk-IsStore 100 (omega arith) made (fresh 100 1) 1
      (snapshot made 5) (node 5 0 0) made_ram made-Formatted.system.free
      (omega (arith, made-Formatted.all_free)) refl made-Shows

-- A store of 101 blocks, the last of which is in use.
abbrev pub lent : Labels
lent = update (fresh 100 1) 100 (node 5 0 0)

pub outside_100 : fresh 100 1 100 ≡ outside
unfolding fresh
outside_100 = refl

pub lent-Free : Free 101 made lent 1 (made 0)
lent-Free =
    let f = made-Formatted.system.free in
    let kept = λ (c : ℕ) (ne : fresh 100 1 100 ≢ fresh 100 1 c).
      update_label_ne (fresh 100 1) 100 (node 5 0 0) c ne in
    let (list, same_room) =
      Chain-same 1 2 made made (fresh 100 1) lent
        (record {
          blocks = λ c j lt e. (refl, kept c (λ h. ground (arith, outside_100, e, h)));
          slots = λ c j i lt e. kept c (λ h. ground (arith, outside_100, e, h));
        })
        f.list in
    record { on_disk = refl; long = refl; super_lem = f.super_lem; list = list; inside = inside }
  where
    inside : (b : ℕ) → (lent b ≡ outside) ⊎ (b < 101)
    inside b = elim (Bool-cases (ltb b 101)) [
      | inl e ↦ inr (ground arith)
      | inr e ↦
          let ne : 100 ≢ b = ground arith in
          elim (made-Formatted.system.free.inside b) [
            | inl o ↦ inl (update_disk_ne_label ne ∙ o)
            | inr lt ↦ inr (omega (arith, lt))
          ]
    ]
      where
        update_disk_ne_label : 100 ≢ b → lent b ≡ fresh 100 1 b
        update_disk_ne_label ne = ground arith

lent_ram : RamState
lent_ram = ramdisk_init made 101

lent-Shows : Shows AnyState ram_view 101 lent_ram made
unfolding lent_ram fill_refs
lent-Shows = (tt, λ o lt. let there : ltb o 101 ≡ true = ground (arith, lt) in rw (there) refl)

treedisk_free_block-Gives_example :
    Returns
      (Gives ramdisk-IsStore 101 (omega arith) made lent 1 (snapshot made 5) 100)
      (treedisk_free_block ramdisk 100 (snapshot made 5) lent_ram)
treedisk_free_block-Gives_example =
    treedisk_free_block-Gives ramdisk-IsStore 101 (omega arith) made lent 1 (snapshot made 5) 100
      lent_ram lent-Free refl (omega arith) lent-Shows

levels_for-least_example :
    (300 < 256 ^ levels_for 300) × ((m : ℕ) → m < levels_for 300 → 256 ^ m ≤ 300)
levels_for-least_example = levels_for-least 300 (omega arith)

free_level-cases_example :
    ((16777217 ≤ 2 ^ 24)
      × (free_level 9 1 refs_per_block 16777217 made_ram ≡ ok (nlevels 16777217) made_ram))
    ⊎ ((2 ^ 24 < 16777217) × (free_level 9 1 refs_per_block 16777217 made_ram ≡ spin))
free_level-cases_example = free_level-cases 9 16777217 made_ram (omega arith) (omega arith)
