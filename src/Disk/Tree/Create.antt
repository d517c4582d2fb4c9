-- ===== src/Disk/Tree/Create.antt =====
-- grass/block/treedisk.c: making a file system, and opening a file of it.
use operating_system_practic.Base.{
  ℕ, zero, suc, ◌+◌, ◌-◌, ◌/◌, ◌==◌, ltb, Option, none, some, List, [], ◌∷◌, set, if◌then◌else◌,
  ◌^◌, ℤ, is_neg, success, failure,
}
use operating_system_practic.Run.{Cmd, ok, halt, spin, and_then}
use operating_system_practic.Store.{BlockStore}
use operating_system_practic.Disk.Tree.{
  inodes_per_block, null_block, n_inodeblocks, TreeState, treedisk_get_snapshot, or_panic,
}

-- The slots 1 to REFS_PER_BLOCK - 1 of a free list block: the next free numbers while there are any.
unfoldable pub fill_refs : (n next_free nblocks : ℕ) → List ℕ
fill_refs zero next_free nblocks = []
fill_refs (suc n) next_free nblocks =
    let more = ltb next_free nblocks in
    (if more then next_free else 0)
    ∷ fill_refs n (if more then next_free + 1 else next_free) nblocks

-- `next_free` after these slots
unfoldable pub next_after : (n next_free nblocks : ℕ) → ℕ
next_after zero next_free nblocks = next_free
next_after (suc n) next_free nblocks =
    next_after n (if ltb next_free nblocks then next_free + 1 else next_free) nblocks

-- The number of blocks is an `int` that C makes an `unsigned int`.
abbrev pub as_unsigned : ℤ → ℕ
as_unsigned (ℤ.pos n) = n
as_unsigned (ℤ.negsuc n) = 2 ^ 32 - n - 1

-- `n_inodeblocks` of `treedisk_create`
abbrev pub inodeblocks_for : (n_inodes : ℕ) → ℕ
inodeblocks_for n_inodes = (n_inodes + inodes_per_block - 1) / inodes_per_block

module _ {S : Type 0} (below : BlockStore S) where
  -- The loop over the blocks of the free list, on fuel; `head` is `freelist_block`.
  unfoldable pub freelist_loop : (fuel head next_free nblocks : ℕ) → Cmd S ℕ
  unfolding fill_refs next_after
  freelist_loop zero head next_free nblocks s = if ltb next_free nblocks then spin else ok head s
  freelist_loop (suc fuel) head next_free nblocks s =
      if ltb next_free nblocks
      then and_then (below.write next_free (head ∷ fill_refs 255 (next_free + 1) nblocks) s) (λ r t.
        or_panic r
          (freelist_loop fuel next_free (next_after 255 (next_free + 1) nblocks) nblocks t))
      else ok head s

  -- Every round takes one block at least.
  unfoldable pub setup_freelist : (next_free nblocks : ℕ) → Cmd S ℕ
  unfolding freelist_loop
  setup_freelist next_free nblocks s = freelist_loop (nblocks - next_free) 0 next_free nblocks s

  -- The loop that clears the inode blocks from `i` on, with `n` to go.
  unfoldable pub clear_inodes : (n i : ℕ) → Cmd S ℤ
  clear_inodes zero i s = ok success s
  clear_inodes (suc n) i s =
      and_then (below.write i null_block s)
        (λ r t. if is_neg r then ok failure t else clear_inodes n (i + 1) t)

  unfoldable pub format : (inodeblocks nblocks : ℕ) → Cmd S ℤ
  unfolding clear_inodes
  format inodeblocks nblocks s = and_then (setup_freelist (inodeblocks + 1) nblocks s) (λ head t.
      and_then (below.write 0 (set (set null_block 0 inodeblocks) 1 head) t)
        (λ r u. if is_neg r then ok failure u else clear_inodes inodeblocks 1 u))

  -- What follows when the number of blocks is known: a store that is made already is left alone.
  unfoldable pub create_on : (inodeblocks nblocks : ℕ) → Cmd S ℤ
  create_on inodeblocks nblocks s =
      if ltb nblocks (inodeblocks + 2)
      then ok failure s
      else and_then (below.read 0 null_block s) (λ (r, sb) t.
        if is_neg r
        then ok failure t
        else if n_inodeblocks sb == 0
        then format inodeblocks nblocks t
        else if n_inodeblocks sb == inodeblocks
        then ok success t
        else halt)

  unfoldable pub treedisk_create : (n_inodes : ℕ) → Cmd S ℤ
  treedisk_create n_inodes s =
      and_then (below.nblocks s) (λ n t. create_on (inodeblocks_for n_inodes) (as_unsigned n) t)

  -- `treedisk_init`: the state of the file, if it has an inode
  unfoldable pub treedisk_init : (inode_no : ℕ) → Cmd S (Option (TreeState S))
  treedisk_init inode_no s = and_then (treedisk_get_snapshot below inode_no s) (λ sn t. elim sn [
    | none ↦ ok none t
    | some x ↦ ok (some (record { below = t; inode_no = inode_no })) t
  ])
