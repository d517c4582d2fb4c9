-- ===== src/Disk/Check.antt =====
-- grass/block/checkdisk.c: forwards its calls to the store below, and checks that what it reads is
-- what was written or read before.
pub mod Entries
pub mod Detects
pub mod Refines
mod Tests
use operating_system_practic.Base.{
  ℕ, List, [], ◌∷◌, Option, none, some, ℤ, is_neg, success, failure, ltb, if◌then◌else◌,
}
use operating_system_practic.Run.{Cmd, Run, ok, halt, and_then}
use operating_system_practic.Store.{Block, BlockStore}
use Entries.{Entry, find, overwrite, below_size, block_eq}

-- `struct checkdisk_state`; `descr` only labels the message
pub record CheckState (S : Type 0) : Type 0 where
  pub below : S
  pub bl : List Entry

-- The list after a write: the entry found is overwritten, or a new one goes in front.
unfoldable pub remember : List Entry → ℕ → Block → List Entry
remember bl offset block = elim (find bl offset) [
  | none ↦ (offset, block) ∷ bl
  | some _ ↦ overwrite bl offset block
]

-- `checkdisk_read` once the store below has answered
pub compare_read : {S : Type 0} → CheckState S → ℕ → ℤ × Block → S → Run (CheckState S) (ℤ × Block)
compare_read cs offset (r, got) s =
    if is_neg r then ok (failure, got) (record cs { below = s }) else elim (find cs.bl offset) [
      | some old ↦ if block_eq old got then ok (success, got) (record cs { below = s }) else halt
      | none ↦ ok (success, got) (record { below = s; bl = (offset, got) ∷ cs.bl })
    ]

-- `checkdisk_write` once the store below has answered
pub record_write : {S : Type 0} → CheckState S → ℕ → Block → ℤ → S → Run (CheckState S) ℤ
record_write cs offset block r s =
    if is_neg r
    then ok r (record cs { below = s })
    else ok r (record { below = s; bl = remember cs.bl offset block })

module _ {S : Type 0} (below : BlockStore S) where
  pub checkdisk_nblocks : Cmd (CheckState S) ℤ
  checkdisk_nblocks cs = and_then (below.nblocks cs.below) (λ r s. ok r (record cs { below = s }))

  pub checkdisk_setsize : ℕ → Cmd (CheckState S) ℤ
  checkdisk_setsize n cs =
      and_then (below.setsize n cs.below)
        (λ r s. ok r (record { below = s; bl = below_size n cs.bl }))

  pub checkdisk_read : ℕ → Block → Cmd (CheckState S) (ℤ × Block)
  unfolding compare_read
  checkdisk_read offset block cs =
      and_then (below.read offset block cs.below) (compare_read cs offset)

  pub checkdisk_write : ℕ → Block → Cmd (CheckState S) ℤ
  unfolding record_write
  checkdisk_write offset block cs =
      and_then (below.write offset block cs.below) (record_write cs offset block)

  -- `checkdisk_init`: the interface, and the state that it starts from
  unfoldable pub checkdisk : BlockStore (CheckState S)
  unfolding checkdisk_nblocks checkdisk_setsize checkdisk_read checkdisk_write
  checkdisk = record {
    nblocks = checkdisk_nblocks;
    read = checkdisk_read;
    write = checkdisk_write;
    setsize = checkdisk_setsize;
  }

-- `checkdisk_init` does not set the list: `bl` is what the allocated memory holds in its place, the
-- empty list where `new_alloc` clears the memory (earth/myalloc.c). Memory that holds no pointer to
-- a list has no behaviour here.
abbrev pub checkdisk_init : {S : Type 0} → List Entry → S → CheckState S
checkdisk_init bl below = record { below = below; bl = bl }
