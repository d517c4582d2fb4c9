-- ===== src/Disk/Stack.antt =====
-- The stack of layers of test/cache_test/trace.c: a memory disk, counted, cached and checked.
use operating_system_practic.Base.{ℕ, ◌<◌, ◌^◌, refl, ◌≡◌, some, Option, List, arith}
use operating_system_practic.Run.{Returns}
use operating_system_practic.Store.{Block, BlockStore, IsStore, IsSized}
use operating_system_practic.Store.Client.{Request, play}
use operating_system_practic.Store.Array.{Answers, Shrinks, Present, play-Answers}
use operating_system_practic.Disk.Ram.{RamState, ramdisk, ramdisk_init, ram_view}
use operating_system_practic.Disk.Ram.Refines.{AnyState, ramdisk-IsStore, ramdisk-IsSized}
use operating_system_practic.Disk.Stat.{StatState, statdisk, statdisk_init}
use operating_system_practic.Disk.Stat.Refines.{statdisk-IsStore, statdisk-IsSized}
use operating_system_practic.Disk.Clock.{ClockState, clockdisk, clockdisk_init}
use operating_system_practic.Disk.Clock.Invariant.{ClockValid}
use operating_system_practic.Disk.Clock.Refines.{clock_view, clockdisk-IsStore, clockdisk-IsSized}
use operating_system_practic.Disk.Check.{CheckState, checkdisk, checkdisk_init}
use operating_system_practic.Disk.Check.Entries.{Entry, find}
use operating_system_practic.Disk.Check.Refines.{checkdisk-IsStore, checkdisk-IsSized}

abbrev pub CacheStack : Type 0
CacheStack = ClockState (StatState RamState)

-- `cdisk` of `main`
abbrev pub cached : BlockStore CacheStack
cached = clockdisk (statdisk ramdisk)

abbrev pub cached_init :
    (blocks : ℕ → Block) (disk_size : ℕ) (cache : ℕ → Block) (cache_size : ℕ) → CacheStack
cached_init blocks disk_size cache cache_size =
    clockdisk_init (statdisk_init (ramdisk_init blocks disk_size)) cache cache_size

-- `xdisk` of `main`
abbrev pub stack : BlockStore (CheckState CacheStack)
stack = checkdisk cached

-- `bl` is the list that the uninitialised memory of the check holds.
abbrev pub stack_init :
    (bl : List Entry) (blocks : ℕ → Block) (disk_size : ℕ) (cache : ℕ → Block) (cache_size : ℕ)
    → CheckState CacheStack
stack_init bl blocks disk_size cache cache_size =
    checkdisk_init bl (cached_init blocks disk_size cache cache_size)

-- An empty cache is coherent.
clockdisk_init-ClockValid :
    {S : Type 0} (Valid : S → Type 0) (view : S → ℕ → Option Block) (below : S) (cache : ℕ → Block)
    (n : ℕ)
    → Valid below
    → 0 < n
    → n < 2 ^ 30
    → ClockValid Valid view (clockdisk_init below cache n)
clockdisk_init-ClockValid Valid view below cache n v some_slots small = record {
  below_valid = v;
  coherent = λ i o lt h. ground arith;
  unique = λ i j o hi hj a b. ground arith;
  slots = some_slots;
  small = small;
}

abbrev CachedValid : CacheStack → Type 0
CachedValid = ClockValid (λ sds. AnyState sds.below) (λ sds. ram_view sds.below)

-- The cache shows the blocks of the memory disk.
abbrev cached_view : CacheStack → ℕ → Option Block
cached_view = clock_view (λ sds. ram_view sds.below)

cached-IsStore : IsStore cached CachedValid cached_view
cached-IsStore = clockdisk-IsStore (statdisk-IsStore ramdisk-IsStore)

cached-IsSized : IsSized cached CachedValid cached_view
cached-IsSized = clockdisk-IsSized (statdisk-IsSized ramdisk-IsSized)

-- Each block on the list is the block of the array.
abbrev pub Agrees : List Entry → (ℕ → Option Block) → Type 0
Agrees bl f = (o : ℕ) (c : Block) → find bl o ≡ some c → f o ≡ some c

module _ (blocks : ℕ → Block) (disk_size : ℕ) (cache : ℕ → Block) (cache_size : ℕ)
    (qs : List Request) (slots : 0 < cache_size) (small : cache_size < 2 ^ 30)
    (shrinks : Shrinks disk_size qs) where
  ram_view-Present : Present disk_size (ram_view (ramdisk_init blocks disk_size))
  ram_view-Present j h e = ground arith

  -- `cdisk` of trace.c, the cache over the counting layer over the memory disk, answers every
  -- sequence of reads, writes, size queries and resizes that do not raise the size, with 32-bit
  -- block numbers, as the array of the disk's blocks does, for a cache of at least one and fewer
  -- than 2^30 slots: each call returns, a read gives the block last written, a number that the
  -- array lacks is refused, a size query is answered with the number of blocks as an `int`, and a
  -- resize with that number before it, with no block left at or beyond the new size.
  pub cached-Answers :
      Returns
        (λ rs t. Answers (ram_view (ramdisk_init blocks disk_size)) qs rs)
        (play cached qs (cached_init blocks disk_size cache cache_size))
  cached-Answers =
      play-Answers cached-IsStore cached-IsSized qs disk_size _ _ shrinks ram_view-Present
        (clockdisk_init-ClockValid _ _ _ cache cache_size tt slots small) (λ j. refl)

  -- `xdisk` of trace.c, the check over `cdisk`, answers every sequence of reads, writes, size
  -- queries and resizes that do not raise the size, with 32-bit block numbers, as the array of
  -- the disk's blocks does, for a cache of at least one and fewer than 2^30 slots, where the list
  -- that the memory of the check holds at the start agrees with the disk, as the empty list does:
  -- each call returns, the check never stops the program, a read gives the block last written, a
  -- number that the array lacks is refused, a size query is answered with the number of blocks as
  -- an `int`, and a resize with that number before it, with no block left at or beyond the new
  -- size.
  pub stack-Answers :
      (bl : List Entry)
      → Agrees bl (ram_view (ramdisk_init blocks disk_size))
      → Returns
          (λ rs t. Answers (ram_view (ramdisk_init blocks disk_size)) qs rs)
          (play stack qs (stack_init bl blocks disk_size cache cache_size))
  stack-Answers bl agrees =
      play-Answers (checkdisk-IsStore cached-IsStore) (checkdisk-IsSized cached-IsSized) qs
        disk_size _ _ shrinks ram_view-Present
        (record {
          below_valid = clockdisk_init-ClockValid _ _ _ cache cache_size tt slots small;
          recorded = agrees;
        })
        (λ j. refl)
