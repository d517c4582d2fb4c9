-- ===== src/Disk/Tests.antt =====
-- Tests of the layers of grass/block on a small memory disk, and the stack of test/cache_test/trace.c.
use operating_system_practic.Base.{ℕ, List, [], ◌∷◌, arith}
use operating_system_practic.Run.{Returns}
use operating_system_practic.Store.{Block}
use operating_system_practic.Store.Client.{Request, get, put, resize, measure, play}
use operating_system_practic.Store.Array.{Answers}
use operating_system_practic.Disk.Ram.{ramdisk_init, ram_view}
use operating_system_practic.Disk.Stack.{
  cached, cached_init, cached-Answers, Agrees, stack, stack_init, stack-Answers,
}
use operating_system_practic.Disk.Check.Entries.{Entry, find}

abbrev zeros : ℕ → Block
zeros i = 0 ∷ 0 ∷ []

abbrev script : List Request
script =
    put 1 (7 ∷ 8 ∷ [])
    ∷ get 1 []
    ∷ get 2 []
    ∷ put 9 (1 ∷ [])
    ∷ measure
    ∷ resize 3
    ∷ get 3 []
    ∷ get 1 []
    ∷ []

cached-Answers_example :
    Returns
      (λ rs t. Answers (ram_view (ramdisk_init zeros 4)) script rs)
      (play cached script (cached_init zeros 4 zeros 2))
cached-Answers_example =
    cached-Answers zeros 4 zeros 2 script (omega arith) (omega arith) (omega arith)

-- A list that holds a block of the disk.
abbrev leftover : List Entry
leftover = (2, 0 ∷ 0 ∷ []) ∷ []

leftover-Agrees : Agrees leftover (ram_view (ramdisk_init zeros 4))
unfolding find
leftover-Agrees o c e = ground arith

stack-Answers_example :
    Returns
      (λ rs t. Answers (ram_view (ramdisk_init zeros 4)) script rs)
      (play stack script (stack_init leftover zeros 4 zeros 2))
stack-Answers_example =
    stack-Answers zeros 4 zeros 2 script (omega arith) (omega arith) (omega arith) leftover
      leftover-Agrees
