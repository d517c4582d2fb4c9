-- ===== src/Disk/Part.antt =====
-- grass/block/partdisk.c: a partition of the block store below, as a block store of its own.
pub mod Refines
mod Tests
use operating_system_practic.Base.{ℕ, ltb, Option, none, ℤ, failure, to_int, add_u32, if◌then◌else◌}
use operating_system_practic.Run.{Cmd, ok, and_then}
use operating_system_practic.Store.{Block, BlockStore}

-- `struct partdisk_state`, with the state of the store below in place of the pointer to it
pub record PartState (S : Type 0) : Type 0 where
  pub below : S
  pub delta : ℕ
  pub nblocks : ℕ

module _ {S : Type 0} (below : BlockStore S) where
  pub partdisk_nblocks : Cmd (PartState S) ℤ
  partdisk_nblocks ps = ok (to_int ps.nblocks) ps

  pub partdisk_setsize : ℕ → Cmd (PartState S) ℤ
  partdisk_setsize n ps = ok (to_int ps.nblocks) (record ps { nblocks = n })

  pub partdisk_read : ℕ → Block → Cmd (PartState S) (ℤ × Block)
  partdisk_read offset block ps =
      if ltb offset ps.nblocks
      then and_then (below.read (add_u32 ps.delta offset) block ps.below)
          (λ r s. ok r (record ps { below = s }))
      else ok (failure, block) ps

  pub partdisk_write : ℕ → Block → Cmd (PartState S) ℤ
  partdisk_write offset block ps =
      if ltb offset ps.nblocks
      then and_then (below.write (add_u32 ps.delta offset) block ps.below)
          (λ r s. ok r (record ps { below = s }))
      else ok failure ps

  -- `partdisk_init`: the interface, and the state that it starts from
  unfoldable pub partdisk : BlockStore (PartState S)
  unfolding partdisk_nblocks partdisk_setsize partdisk_read partdisk_write
  partdisk = record {
    nblocks = partdisk_nblocks;
    read = partdisk_read;
    write = partdisk_write;
    setsize = partdisk_setsize;
  }

abbrev pub partdisk_init : {S : Type 0} → S → ℕ → ℕ → PartState S
partdisk_init below delta nblocks = record { below = below; delta = delta; nblocks = nblocks }

-- The array that a partition shows: the part of the array below from `delta` on.
abbrev pub part_view : {S : Type 0} → (S → ℕ → Option Block) → PartState S → ℕ → Option Block
part_view view ps o = if ltb o ps.nblocks then view ps.below (add_u32 ps.delta o) else none
