-- ===== src/Disk/Cache.antt =====
-- grass/block/cachedisk.c: meant as a write-through cache. No operation ever gives a slot a block
-- number, so the slots stay free (module Unused).
pub mod Unused
mod Tests
use operating_system_practic.Base.{
  ℕ, zero, suc, ◌+◌, ◌==◌, Option, none, some, ℤ, success, update, add_u32, if◌then◌else◌,
}
use operating_system_practic.Run.{Cmd, ok, and_then}
use operating_system_practic.Store.{Block, BlockStore}

-- `struct cachedisk_state`
pub record CacheState (S : Type 0) : Type 0 where
  pub below : S
  pub blocks : ℕ → Block
  pub nblocks : ℕ
  pub cacheno_to_blockno : ℕ → ℕ
  pub read_hit : ℕ
  pub read_miss : ℕ
  pub write_hit : ℕ
  pub write_miss : ℕ

-- `(block_no) -1`, the mark of a free slot
abbrev pub no_block : ℕ
no_block = 4_294_967_295

-- The first slot with the block number, from slot `i` on with `k` to go.
pub find_slot : (ℕ → ℕ) → ℕ → (k i : ℕ) → Option ℕ
find_slot tags offset zero i = none
find_slot tags offset (suc k) i =
    let rest = find_slot tags offset k (i + 1) in if tags i == offset then some i else rest

-- The `j` of `cachedisk_write`: the last free slot.
pub last_free : (ℕ → ℕ) → (k i : ℕ) → Option ℕ → Option ℕ
last_free tags zero i j = j
last_free tags (suc k) i j = last_free tags k (i + 1) (if tags i == no_block then some i else j)

-- A block is put into the free slot, if there is one; its number is not.
abbrev pub put_free : (ℕ → Block) → Option ℕ → Block → ℕ → Block
put_free blocks none block = blocks
put_free blocks (some j) block = update blocks j block

module _ {S : Type 0} (below : BlockStore S) where
  pub cachedisk_nblocks : Cmd (CacheState S) ℤ
  cachedisk_nblocks cs = and_then (below.nblocks cs.below) (λ r s. ok r (record cs { below = s }))

  pub cachedisk_setsize : ℕ → Cmd (CacheState S) ℤ
  cachedisk_setsize n cs =
      and_then (below.setsize n cs.below) (λ r s. ok r (record cs { below = s }))

  pub cachedisk_read : ℕ → Block → Cmd (CacheState S) (ℤ × Block)
  unfolding find_slot
  cachedisk_read offset block cs = elim (find_slot cs.cacheno_to_blockno offset cs.nblocks 0) [
    | some i ↦ ok (success, cs.blocks i) cs
    | none ↦
        and_then (below.read offset block cs.below)
          (λ r s. ok r (record cs { below = s; read_miss = add_u32 cs.read_miss 1 }))
  ]

  pub cachedisk_write : ℕ → Block → Cmd (CacheState S) ℤ
  unfolding find_slot last_free
  cachedisk_write offset block cs = elim (find_slot cs.cacheno_to_blockno offset cs.nblocks 0) [
    | some i ↦
        and_then (below.write offset block cs.below)
          (λ r s. ok r (record cs { below = s; blocks = update cs.blocks i block }))
    | none ↦ and_then (below.write offset block cs.below) (λ r s. ok r (record cs {
      below = s;
      blocks = put_free cs.blocks (last_free cs.cacheno_to_blockno cs.nblocks 0 none) block;
      write_miss = add_u32 cs.write_miss 1;
    }))
  ]

module _ {S : Type 0} (below : BlockStore S) where
  -- the interface that `cachedisk_init` fills
  unfoldable pub cachedisk : BlockStore (CacheState S)
  unfolding cachedisk_nblocks cachedisk_setsize cachedisk_read cachedisk_write
  cachedisk = record {
    nblocks = cachedisk_nblocks below;
    read = cachedisk_read below;
    write = cachedisk_write below;
    setsize = cachedisk_setsize below;
  }

-- `cachedisk_init` marks every slot as free. It sets no counter: they start as the allocator left
-- them.
abbrev pub cachedisk_init : {S : Type 0} → S → (ℕ → Block) → ℕ → (ℕ × ℕ × ℕ × ℕ) → CacheState S
cachedisk_init below blocks nblocks (rh, rm, wh, wm) = record {
  below = below;
  blocks = blocks;
  nblocks = nblocks;
  cacheno_to_blockno = λ i. no_block;
  read_hit = rh;
  read_miss = rm;
  write_hit = wh;
  write_miss = wm;
}
