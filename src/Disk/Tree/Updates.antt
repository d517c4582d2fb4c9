-- ===== src/Disk/Tree/Updates.antt =====
-- grass/block/treedisk.c: `treedisk_write` from the call on, within the file and beyond its end.
use operating_system_practic.Base.{
  ℕ, suc, ◌+◌, ◌*◌, ◌<◌, ◌≤◌, ◌≡◌, refl, sym, ap, ◌∙◌, true, false, ◌==◌, ltb, inl, inr, arith,
  Bool-cases, if◌then◌else◌, u32_mod, add_u32, Option, some, ℤ, success, length, length-set,
  get_or-set_self, get_or-set_ne,
}
use mathlib.Core.Path.{subst}
use operating_system_practic.Run.{Returns, returns, mono, bind, and_then}
use operating_system_practic.Store.{Block, BlockStore, IsStore, Fetched}
use operating_system_practic.Disk.Tree.{
  inodes_per_block, Snapshot, free_list, root, set_nblocks, nlevels, levels_for,
}
use operating_system_practic.Disk.Tree.Write.{write_file, treedisk_write}
use operating_system_practic.Disk.Tree.Read.{treedisk_read}
use operating_system_practic.Disk.Tree.Shows.{Disk, Shows}
use operating_system_practic.Disk.Tree.Labels.{inodes, Labels, room}
use operating_system_practic.Disk.Tree.Puts.{set-get_or}
use operating_system_practic.Disk.Tree.Nodes.{Tree}
use operating_system_practic.Disk.Tree.Levels.{
  levels_for-le_four, levels_for-enough, nlevels-enough, nlevels-le_four, nlevels-levels_for,
}
use operating_system_practic.Disk.Tree.Files.{
  inode_block, inode_slot, file_root, file_size, file_block, file_view, FileSystem, snapshot,
  get_snapshot-snapshot, treedisk_read-Fetched,
}
use operating_system_practic.Disk.Tree.Places.{write_levels-within, write_levels-beyond}
use operating_system_practic.Disk.Tree.Write.{write_levels}
use operating_system_practic.Disk.Tree.Writes.{size_after, Written, Placed-Written}

module _ {S : Type 0} {below : BlockStore S} {Valid : S → Type 0} {view : S → ℕ → Option Block}
    (store : IsStore below Valid view) (size : ℕ) (small : size < u32_mod) (d : Disk)
    (label : Labels) (k n : ℕ) (fs : FileSystem size d label k n) (i o : ℕ) (blk : Block)
    (lt : i < n * inodes_per_block) (fits : o + 1 < u32_mod)
    (roomy : 9 ≤ room d k (free_list (d 0))) where
  -- The outcome of the write.
  abbrev Writes : ℤ → S → Type 0
  Writes r t =
      (r ≡ success)
      × (d1 : Disk) × (label1 : Labels) × (k1 : ℕ) × Shows Valid view size t d1
      × Written size d k n i o blk d1 label1 k1

  slot_inside : 2 * inode_slot i < length (d (inode_block i))
  slot_inside = omega (arith, fs.long (inode_block i) (omega arith) (omega (arith, lt)))

  inodes_label : label (inode_block i) ≡ inodes (inode_block i)
  inodes_label = fs.inodes_lem (inode_block i) (omega arith) (omega (arith, lt))

  write_within :
      (s : S)
      → ltb o (file_size d i) ≡ true
      → Shows Valid view size s d
      → Returns Writes (
          write_levels below
            (nlevels (file_size d i))
            (nlevels (file_size d i))
            o
            blk
            false
            (snapshot d i)
            s)
  write_within s e sh =
      let nb = file_size d i in
      let f = fs.files i lt in
      let inside : o < nb = ground arith in
      let four = nlevels-le_four nb f.sized in
      mono
        (write_levels-within store size small d label k (snapshot d i) i o blk s fs.free
          inodes_label slot_inside (ground arith) sh (nlevels nb) four
          (nlevels-enough nb o f.sized inside) (omega (arith, four, roomy)) f.tree refl)
        (λ r t (done, d1, label1, k1, sb1, b1, sh1, placed). (
          done,
          d1,
          label1,
          k1,
          sh1,
          Placed-Written size d label k n fs i o lt blk (snapshot d i) (nlevels nb) (nlevels nb) nb
              refl refl (sym (set-get_or (d (inode_block i)) (2 * inode_slot i + 1))) refl refl refl
              (omega (arith, four)) (omega arith) inside f.sized (rw (e) refl) refl d1 label1 k1 sb1
              b1 placed,
        ))

  -- The snapshot with the new number of blocks.
  abbrev longer : Snapshot
  longer = set_nblocks (add_u32 o 1) (snapshot d i)

  root-longer : root longer ≡ file_root d i
  root-longer =
      get_or-set_ne (d (inode_block i)) {i = 2 * inode_slot i + 1} {j = 2 * inode_slot i}
        (add_u32 o 1) 0 (omega arith)

  one_longer : add_u32 o 1 ≡ o + 1
  one_longer = omega (arith, fits)

  nlevels-longer : levels_for o ≡ nlevels (add_u32 o 1)
  nlevels-longer = let next : suc o ≡ add_u32 o 1 = omega (arith, fits) in ap nlevels next

  write_beyond :
      (s : S)
      → ltb o (file_size d i) ≡ false
      → Shows Valid view size s d
      → Returns Writes
          (write_levels below (nlevels (file_size d i)) (levels_for o) o blk true longer s)
  write_beyond s e sh =
      let nb = file_size d i in
      let f = fs.files i lt in
      let four = levels_for-le_four o (omega (arith, fits)) in
      let beyond : nb ≤ o = ground arith in
      let more = nlevels-levels_for nb o beyond (omega (arith, fits)) in
      let length_longer = length-set (d (inode_block i)) (2 * inode_slot i + 1) (add_u32 o 1) in
      let size_longer =
        get_or-set_self (d (inode_block i)) (2 * inode_slot i + 1) (add_u32 o 1) 0
          (omega (arith, fs.long (inode_block i) (omega arith) (omega (arith, lt)))) in
      mono
        (write_levels-beyond store size small d label k longer i o blk s fs.free inodes_label
          (omega (arith, slot_inside, length_longer)) (ground (arith, size_longer, one_longer)) sh
          (nlevels nb) (levels_for o) more four
          (levels_for-enough o o (omega (arith, fits)) (omega arith)) (omega (arith, four, roomy))
          (subst (Tree d label i (nlevels nb) 0) (sym root-longer) f.tree))
        (λ r t (done, d1, label1, k1, sb1, b1, sh1, placed). (
          done,
          d1,
          label1,
          k1,
          sh1,
          Placed-Written size d label k n fs i o lt blk longer (nlevels nb) (levels_for o)
              (add_u32 o 1) refl refl refl refl nlevels-longer refl (omega (arith, four))
              (omega (arith, one_longer, beyond)) (omega (arith, one_longer))
              (omega (arith, one_longer, fits)) (rw (e) one_longer) root-longer d1 label1 k1 sb1 b1
              placed,
        ))

  -- On a file system over a block store with the contract, of fewer than 2^32 blocks, with at
  -- least nine free blocks, a write to block `o` of file `i`, where o + 1 < 2^32, returns and
  -- succeeds: the store shows a file system again, file `i` holds the block at `o` and everything
  -- else that it held, its size grows to o + 1 if it was less, every other file has the size and
  -- the blocks that it had, and nine blocks at most were taken.
  pub treedisk_write-Written :
      (s : S)
      → Shows Valid view size s d
      → Returns
          (λ r ts.
            (r ≡ success)
            × (ts.inode_no ≡ i)
            × (d1 : Disk) × (label1 : Labels) × (k1 : ℕ) × Shows Valid view size ts.below d1
            × Written size d k n i o blk d1 label1 k1)
          (treedisk_write below o blk (record { below = s; inode_no = i }))
  unfolding treedisk_write write_file
  treedisk_write-Written s sh =
      bind (get_snapshot-snapshot store size small d label k n fs i s lt sh) (λ sn t (e, sh1).
        bind
          (subst (λ x. Returns Writes (write_file below o blk x t)) (sym e)
            (elim (Bool-cases (ltb o (file_size d i))) [
              | inl h ↦ rw (h) (write_within t h sh1)
              | inr h ↦ rw (h) (write_beyond t h sh1)
            ]))
          (λ r u (done, d1, label1, k1, sh2, w). returns (done, refl, d1, label1, k1, sh2, w)))

  -- On a file system over a block store with the contract, of fewer than 2^32 blocks, with at
  -- least nine free blocks, a read of block `o` of a file after a write to it, where o + 1 <
  -- 2^32, succeeds and gives the block that was written.
  pub treedisk_read-treedisk_write :
      (block : Block) (s : S)
      → Shows Valid view size s d
      → Returns
          (λ rc ts. (rc.0 ≡ success) × (rc.1 ≡ blk))
          (and_then
            (treedisk_write below o blk (record { below = s; inode_no = i }))
            (λ r ts. treedisk_read below o block ts))
  treedisk_read-treedisk_write block s sh =
      bind (treedisk_write-Written s sh) (λ r ts (done, same, d1, label1, k1, sh1, w).
        let inside : ltb o (file_size d1 i) ≡ true = covered (w.sized) in
        let at : file_view d1 i o ≡ some blk = rw (inside) (ap some (w.content o ∙ here)) in
        subst
          (λ x.
            Returns (λ rc ts. (rc.0 ≡ success) × (rc.1 ≡ blk))
              (treedisk_read below o block (record { below = ts.below; inode_no = x })))
          (sym same)
          (mono
            (treedisk_read-Fetched store size small d1 label1 k1 n w.system i o block ts.below lt
              sh1)
            (λ rc u (f, sh2, e). subst (λ x. Fetched x rc) at f)))
    where
      here : (if o == o then blk else file_block d i o) ≡ blk
      here = ground arith

      covered : {x : ℕ} → x ≡ size_after (file_size d i) o → ltb o x ≡ true
      covered e = ground (arith, e)
