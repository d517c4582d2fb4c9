-- ===== src/Disk/Check/Detects.antt =====
-- What the check of grass/block/checkdisk.c detects, over any store below.
use operating_system_practic.Base.{ℕ, ◌≡◌, some, ℤ, success, arith}
use operating_system_practic.Run.{Run, ok, halt, spin, and_then}
use operating_system_practic.Store.{Block, BlockStore}
use operating_system_practic.Disk.Check.Entries.{find, eq_of_block_eq}
use operating_system_practic.Disk.Check.{CheckState, checkdisk_read, compare_read}

module _ {S : Type 0} (cs t : CheckState S) (o : ℕ) (got old : Block)
    (h : find cs.bl o ≡ some old) where
  compare_read-recorded :
      (r : ℤ) (c : Block) (s : S)
      → compare_read cs o (r, c) s ≡ ok (success, got) t
      → (got ≡ old) × (t.bl ≡ cs.bl)
  unfolding compare_read
  compare_read-recorded r c s e = ground (arith, eq_of_block_eq old c)

  answer-recorded :
      (m : Run S (ℤ × Block))
      → and_then m (compare_read cs o) ≡ ok (success, got) t
      → (got ≡ old) × (t.bl ≡ cs.bl)
  answer-recorded (ok (r, c) s) e = compare_read-recorded r c s e
  answer-recorded halt e = cc
  answer-recorded spin e = cc

-- Whatever the store below does: when a read at a recorded offset returns 0, `*block` holds the
-- recorded block, and the record is as before.
pub checkdisk_read-recorded :
    {S : Type 0} (below : BlockStore S) (cs t : CheckState S) (o : ℕ) (b got old : Block)
    → find cs.bl o ≡ some old
    → checkdisk_read below o b cs ≡ ok (success, got) t
    → (got ≡ old) × (t.bl ≡ cs.bl)
unfolding checkdisk_read
checkdisk_read-recorded below cs t o b got old h e =
    answer-recorded cs t o got old h (below.read o b cs.below) e
