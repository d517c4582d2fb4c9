-- ===== src/Disk/Tree/Blocks.antt =====
-- grass/block/treedisk.c: allocating a block and freeing one. A failing call of the store below is a
-- `panic`.
use operating_system_practic.Base.{ℕ, zero, suc, ◌+◌, ◌==◌, if◌then◌else◌, set}
use operating_system_practic.Run.{Cmd, ok, halt, and_then}
use operating_system_practic.Store.{Block, BlockStore}
use operating_system_practic.Disk.Tree.{
  refs_per_block, null_block, word, Snapshot, free_list, set_free_list, or_panic,
}

-- The last used slot of a free list block, from slot `i` down; 0 when there is none.
unfoldable pub last_ref : Block → ℕ → ℕ
last_ref fl zero = 0
last_ref fl (suc i) = let rest = last_ref fl i in if word fl (suc i) == 0 then rest else suc i

-- The first empty slot of a free list block, from slot `i` on with `n` to go; `i + n` when there is
-- none.
unfoldable pub first_empty : Block → (n i : ℕ) → ℕ
first_empty fl zero i = i
first_empty fl (suc n) i = let rest = first_empty fl n (i + 1) in if word fl i == 0 then i else rest

module _ {S : Type 0} (below : BlockStore S) where
  -- The block comes out of slot `i` of the block `b` of the free list, or is that block itself.
  unfoldable pub take_ref : (i b : ℕ) → Block → Snapshot → Cmd S (ℕ × Snapshot)
  take_ref zero b fl sn s =
      let sn' = set_free_list (word fl 0) sn in
      and_then (below.write 0 sn'.superblock s) (λ r t. or_panic r (ok (b, sn') t))
  take_ref (suc i) b fl sn s =
      and_then (below.write b (set fl (suc i) 0) s) (λ r t. or_panic r (ok (word fl (suc i), sn) t))

  unfoldable pub treedisk_alloc_block : Snapshot → Cmd S (ℕ × Snapshot)
  unfolding last_ref
  treedisk_alloc_block sn s =
      let b = free_list sn.superblock in
      if b == 0
      then halt
      else and_then (below.read b null_block s)
          (λ (r, fl) t. or_panic r (take_ref (last_ref fl 255) b fl sn t))

  -- The block goes to slot `i` of the block `b` of the free list, if there is such a slot; else it
  -- is the new first block of the list.
  unfoldable pub put_ref : (i b target : ℕ) → Block → Snapshot → Cmd S Snapshot
  put_ref i b target fl sn s =
      let sn' = set_free_list target sn in
      if i == refs_per_block
      then and_then (below.write 0 sn'.superblock s) (λ r t.
        or_panic r
          (and_then (below.write target (set null_block 0 b) t) (λ r2 u. or_panic r2 (ok sn' u))))
      else and_then (below.write b (set fl i target) s) (λ r t. or_panic r (ok sn t))

  -- What follows when the target is cleared.
  unfoldable pub add_free : (b target : ℕ) → Snapshot → Cmd S Snapshot
  unfolding first_empty
  add_free zero target sn s =
      let sn' = set_free_list target sn in
      and_then (below.write 0 sn'.superblock s) (λ r t. or_panic r (ok sn' t))
  add_free (suc c) target sn s =
      and_then (below.read (suc c) null_block s)
        (λ (r, fl) t. or_panic r (put_ref (first_empty fl 255 1) (suc c) target fl sn t))

  unfoldable pub treedisk_free_block : (target : ℕ) → Snapshot → Cmd S Snapshot
  treedisk_free_block target sn s =
      and_then (below.write target null_block s)
        (λ r t. or_panic r (add_free (free_list sn.superblock) target sn t))
