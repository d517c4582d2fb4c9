-- ===== src/Disk/Tree/Files.antt =====
-- A treedisk (grass/block/treedisk.h) as a set of files, and the calls that leave them as they are.
use operating_system_practic.Base.{
  ℕ, ◌+◌, ◌*◌, ◌/◌, ◌%◌, ◌<◌, ◌≤◌, ◌≡◌, ◌≢◌, refl, sym, ap, true, false, ◌==◌, ltb, leb, inl, inr,
  arith, Bool-cases, if◌then◌else◌, u32_mod, Option, none, some, length,
}
use mathlib.Core.Path.{subst}
use operating_system_practic.Run.{Returns, returns, mono, bind}
use operating_system_practic.Store.{Block, BlockStore, IsStore, Fetched}
use operating_system_practic.Disk.Tree.{
  word, null_block, refs_per_block, inodes_per_block, n_inodeblocks, Snapshot, nlevels, get_inode,
  treedisk_get_snapshot,
}
use operating_system_practic.Disk.Tree.Read.{read_file, treedisk_read}
use operating_system_practic.Disk.Tree.Shows.{Disk, Shows, read_then}
use operating_system_practic.Disk.Tree.Labels.{inodes, Labels, Free}
use operating_system_practic.Disk.Tree.Takes.{labelled_there}
use operating_system_practic.Disk.Tree.Nodes.{anc, Tree}
use operating_system_practic.Disk.Tree.Levels.{nlevels-enough}
use operating_system_practic.Disk.Tree.Walks.{read_down-walk}
use operating_system_practic.Disk.Tree.Grows.{holds}

-- The block with the inode of file `i`, and the place of the inode in it.
abbrev pub inode_block : ℕ → ℕ
inode_block i = 1 + i / inodes_per_block

abbrev pub inode_slot : ℕ → ℕ
inode_slot i = i % inodes_per_block

abbrev pub file_root : Disk → ℕ → ℕ
file_root d i = word (d (inode_block i)) (2 * inode_slot i)

-- The number of blocks of file `i`.
abbrev pub file_size : Disk → ℕ → ℕ
file_size d i = word (d (inode_block i)) (2 * inode_slot i + 1)

-- What file `i` holds at an offset; null bytes beyond its end.
abbrev pub file_block : Disk → (i o : ℕ) → Block
file_block d i o = holds d (nlevels (file_size d i)) (file_root d i) o

-- The file as an array.
abbrev pub file_view : Disk → ℕ → ℕ → Option Block
file_view d i o = if ltb o (file_size d i) then some (file_block d i o) else none

-- The inode leads to a tree, which holds nothing beyond the end of the file.
pub record File (d : Disk) (label : Labels) (i : ℕ) : Type 0 where
  pub tree : Tree d label i (nlevels (file_size d i)) 0 (file_root d i)
  pub empty : (o : ℕ) → file_size d i ≤ o → file_block d i o ≡ null_block
  pub rooted : 0 < file_size d i → file_root d i ≢ 0
  pub sized : file_size d i < u32_mod

-- `n` is the number of inode blocks.
pub record FileSystem (size : ℕ) (d : Disk) (label : Labels) (k n : ℕ) : Type 0 where
  pub free : Free size d label k (d 0)
  pub blocks : n_inodeblocks (d 0) ≡ n
  pub inodes_lem : (b : ℕ) → 1 ≤ b → b ≤ n → label b ≡ inodes b
  pub long : (b : ℕ) → 1 ≤ b → b ≤ n → length (d b) ≡ refs_per_block
  pub files : (i : ℕ) → i < n * inodes_per_block → File d label i

-- The snapshot of a file.
abbrev pub snapshot : Disk → ℕ → Snapshot
snapshot d i = record {
  superblock = d 0;
  inodeblock = d (inode_block i);
  inode_blockno = inode_block i;
  inode = inode_slot i;
}

module _ {S : Type 0} {below : BlockStore S} {Valid : S → Type 0} {view : S → ℕ → Option Block}
    (store : IsStore below Valid view) (size : ℕ) (small : size < u32_mod) (d : Disk)
    (label : Labels) (k n : ℕ) (fs : FileSystem size d label k n) where
  pub get_snapshot-snapshot :
      (i : ℕ) (s : S)
      → i < n * inodes_per_block
      → Shows Valid view size s d
      → Returns
          (λ sn t. (sn ≡ some (snapshot d i)) × Shows Valid view size t d)
          (treedisk_get_snapshot below i s)
  unfolding treedisk_get_snapshot get_inode
  get_snapshot-snapshot i s lt sh =
      let there =
        labelled_there size label (inode_block i) fs.free.inside (λ h.
          ground (arith, h, fs.inodes_lem (inode_block i) (omega arith) (omega (arith, lt)))) in
      let fits : leb (n_inodeblocks (d 0) * inodes_per_block) i ≡ false =
        ground (arith, fs.blocks, lt) in
      read_then store size small _ s d 0 null_block sh (omega (arith, there)) (λ t sh1. rw (fits) (
        read_then store size small _ t d (inode_block i) null_block sh1 there
          (λ u sh2. returns (refl, sh2))))

  pub no_snapshot :
      (i : ℕ) (s : S)
      → n * inodes_per_block ≤ i
      → 0 < size
      → Shows Valid view size s d
      → Returns (λ sn t. (sn ≡ none) × Shows Valid view size t d) (treedisk_get_snapshot below i s)
  unfolding treedisk_get_snapshot get_inode
  no_snapshot i s le pos sh =
      let beyond : leb (n_inodeblocks (d 0) * inodes_per_block) i ≡ true =
        ground (arith, fs.blocks, le) in
      read_then store size small _ s d 0 null_block sh pos
        (λ t sh1. rw (beyond) (returns (refl, sh1)))

  read_file-Fetched :
      (i o : ℕ) (block : Block) (s : S)
      → i < n * inodes_per_block
      → Shows Valid view size s d
      → Returns
          (λ rc t. Fetched (file_view d i o) rc × Shows Valid view size t d)
          (read_file below o block (some (snapshot d i)) s)
  unfolding read_file
  read_file-Fetched i o block s lt sh =
      let f = fs.files i lt in
      elim (Bool-cases (ltb o (file_size d i))) [
        | inl e ↦
            let reach : (anc (nlevels (file_size d i)) o == 0) ≡ true =
              ground (arith, nlevels-enough (file_size d i) o f.sized (ground arith)) in
            rw (e, reach)
              (mono
                (read_down-walk store size small d label fs.free.inside i (nlevels (file_size d i))
                  0 o (file_root d i) block s f.tree sh)
                (λ rc t (at, sh1). ((ap (λ x. x.0) at, ap (λ x. x.1) at), sh1)))
        | inr e ↦ rw (e) (returns (refl, sh))
      ]

  -- On a file system over a block store with the contract, of fewer than 2^32 blocks,
  -- `treedisk_read` of a block of file `i` returns, gives what the file as an array holds there
  -- or fails beyond its end, and leaves the blocks of the store as they are.
  pub treedisk_read-Fetched :
      (i o : ℕ) (block : Block) (s : S)
      → i < n * inodes_per_block
      → Shows Valid view size s d
      → Returns
          (λ rc ts.
            Fetched (file_view d i o) rc × Shows Valid view size ts.below d × (ts.inode_no ≡ i))
          (treedisk_read below o block (record { below = s; inode_no = i }))
  unfolding treedisk_read
  treedisk_read-Fetched i o block s lt sh = bind (get_snapshot-snapshot i s lt sh) (λ sn t (e, sh1).
      bind
        (subst
          (λ x.
            Returns (λ rc u. Fetched (file_view d i o) rc × Shows Valid view size u d)
              (read_file below o block x t))
          (sym e) (read_file-Fetched i o block t lt sh1))
        (λ rc u (f, sh2). returns (f, sh2, refl)))
