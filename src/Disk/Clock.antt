-- ===== src/Disk/Clock.antt =====
-- grass/block/clockdisk.c: a write-through cache over a block store, with the CLOCK strategy. The
-- arrays `blocks` and `binfo` are functions of the index; the code indexes them below `nblocks`.
pub mod Replace
pub mod Lookup
pub mod Invariant
pub mod Refines
mod Tests
use operating_system_practic.Base.{
  ℕ, zero, suc, ◌+◌, ◌%◌, Bool, true, false, ◌&&◌, not, ltb, ◌==◌, Option, none, some, ℤ, pos,
  negsuc, success, update, add_u32, if◌then◌else◌,
}
use operating_system_practic.Run.{Cmd, Run, ok, halt, spin, and_then}
use operating_system_practic.Store.{Block, BlockStore}

-- `enum status`
pub data Status : Type 0 where
  empty unused used : Status

-- `struct block_info`
pub record BlockInfo : Type 0 where
  pub status : Status
  pub offset : ℕ

abbrev pub is_used : Status → Bool
is_used used = true
is_used unused = false
is_used empty = false

abbrev pub is_live : Status → Bool
is_live empty = false
is_live unused = true
is_live used = true

-- `struct clockdisk_state`
pub record ClockState (S : Type 0) : Type 0 where
  pub below : S
  pub blocks : ℕ → Block
  pub nblocks : ℕ
  pub binfo : ℕ → BlockInfo
  pub clock_hand : ℕ
  pub read_hit : ℕ
  pub read_miss : ℕ
  pub write_hit : ℕ
  pub write_miss : ℕ

abbrev pub with_status : (ℕ → BlockInfo) → ℕ → Status → ℕ → BlockInfo
with_status binfo i s = update binfo i (record { status = s; offset = (binfo i).offset })

module _ {S : Type 0} where
  -- The block goes into slot `i`, and the hand moves on.
  abbrev pub fill : ClockState S → ℕ → ℕ → Block → ClockState S
  fill cs i offset block = record cs {
    blocks = update cs.blocks i block;
    binfo = update cs.binfo i (record { status = used; offset = offset });
    clock_hand = add_u32 cs.clock_hand 1;
  }

  -- A slot that was used loses that mark, and the hand moves on.
  abbrev pub pass : ClockState S → ℕ → ClockState S
  pass cs i = record cs {
    binfo = with_status cs.binfo i unused;
    clock_hand = add_u32 cs.clock_hand 1;
  }

  -- The `while(1)` loop of `cache_update`.
  pub clock_loop : ℕ → ℕ → Block → Cmd (ClockState S) (Unit {0})
  clock_loop zero offset block cs = spin
  clock_loop (suc fuel) offset block cs =
      let i = cs.clock_hand % cs.nblocks in
      elim (is_used (cs.binfo i).status) [
        | true ↦ clock_loop fuel offset block (pass cs i)
        | false ↦ ok tt (fill cs i offset block)
      ]

  -- The start of `cache_update`: a hand beyond the slots is taken back.
  abbrev pub rewind : ClockState S → ClockState S
  rewind cs = record cs {
    clock_hand = if ltb cs.nblocks cs.clock_hand then cs.clock_hand % cs.nblocks else cs.clock_hand;
  }

  -- `% nblocks` traps at a cache with no slots.
  pub cache_update : ℕ → Block → Cmd (ClockState S) (Unit {0})
  unfolding clock_loop
  cache_update offset block cs =
      if cs.nblocks == 0 then halt else clock_loop (cs.nblocks + 1) offset block (rewind cs)

-- The loop of `clockdisk_read` and `clockdisk_write`: the first live slot with the offset, from
-- slot `i` on with `k` slots to go.
pub find_slot : (ℕ → BlockInfo) → ℕ → (k i : ℕ) → Option ℕ
find_slot binfo offset zero i = none
find_slot binfo offset (suc k) i =
    let rest = find_slot binfo offset k (i + 1) in
    if ((binfo i).offset == offset) && is_live (binfo i).status then some i else rest

abbrev pub is_minus_one : ℤ → Bool
is_minus_one (pos n) = false
is_minus_one (negsuc zero) = true
is_minus_one (negsuc (suc n)) = false

module _ {S : Type 0} where
  -- `clockdisk_read` once the store below has answered a miss
  pub after_read_miss : ClockState S → ℕ → ℤ × Block → S → Run (ClockState S) (ℤ × Block)
  unfolding cache_update
  after_read_miss cs offset (r, got) s =
      let cs' = record cs { below = s; read_miss = add_u32 cs.read_miss 1 } in
      if is_minus_one r
      then ok (r, got) cs'
      else and_then (cache_update offset got cs') (λ _ t. ok (r, got) t)

  -- `clockdisk_write` once the store below has answered
  pub after_write_miss : ClockState S → ℕ → Block → ℤ → S → Run (ClockState S) ℤ
  unfolding cache_update
  after_write_miss cs offset block r s =
      let cs' = record cs { below = s } in
      if is_minus_one r
      then ok r cs'
      else and_then
          (cache_update offset block (record cs' { write_miss = add_u32 cs'.write_miss 1 }))
          (λ _ t. ok r t)

  pub after_write_hit : ClockState S → ℕ → Block → ℤ → S → Run (ClockState S) ℤ
  after_write_hit cs i block r s =
      let cs' = record cs { below = s } in
      if is_minus_one r
      then ok r cs'
      else ok r
          (record cs' { write_hit = add_u32 cs'.write_hit 1; blocks = update cs'.blocks i block })

  -- A hit marks the slot.
  abbrev pub touch : ClockState S → ℕ → ClockState S
  touch cs i = record cs { binfo = with_status cs.binfo i used }

module _ {S : Type 0} (below : BlockStore S) where
  pub clockdisk_nblocks : Cmd (ClockState S) ℤ
  clockdisk_nblocks cs = and_then (below.nblocks cs.below) (λ r s. ok r (record cs { below = s }))

  -- Each live slot at or beyond the new size is emptied.
  pub clockdisk_setsize : ℕ → Cmd (ClockState S) ℤ
  clockdisk_setsize n cs =
      let binfo' : ℕ → BlockInfo = λ i.
        if ltb i cs.nblocks && (is_live (cs.binfo i).status && not (ltb (cs.binfo i).offset n))
        then record { status = empty; offset = (cs.binfo i).offset }
        else cs.binfo i in
      and_then (below.setsize n cs.below) (λ r s. ok r (record cs { below = s; binfo = binfo' }))

  pub clockdisk_read : ℕ → Block → Cmd (ClockState S) (ℤ × Block)
  unfolding find_slot after_read_miss
  clockdisk_read offset block cs = elim (find_slot cs.binfo offset cs.nblocks 0) [
    | some i ↦ ok (success, cs.blocks i) (record (touch cs i) { read_hit = add_u32 cs.read_hit 1 })
    | none ↦ and_then (below.read offset block cs.below) (after_read_miss cs offset)
  ]

  pub clockdisk_write : ℕ → Block → Cmd (ClockState S) ℤ
  unfolding find_slot after_write_miss after_write_hit
  clockdisk_write offset block cs = elim (find_slot cs.binfo offset cs.nblocks 0) [
    | some i ↦ and_then (below.write offset block cs.below) (after_write_hit (touch cs i) i block)
    | none ↦ and_then (below.write offset block cs.below) (after_write_miss cs offset block)
  ]

  -- `clockdisk_init`: the interface, and the state that it starts from
  unfoldable pub clockdisk : BlockStore (ClockState S)
  unfolding clockdisk_nblocks clockdisk_setsize clockdisk_read clockdisk_write
  clockdisk = record {
    nblocks = clockdisk_nblocks;
    read = clockdisk_read;
    write = clockdisk_write;
    setsize = clockdisk_setsize;
  }

-- `calloc` leaves every slot empty.
abbrev pub clockdisk_init : {S : Type 0} → S → (ℕ → Block) → ℕ → ClockState S
clockdisk_init below blocks nblocks = record {
  below = below;
  blocks = blocks;
  nblocks = nblocks;
  binfo = λ i. record { status = empty; offset = 0 };
  clock_hand = 0;
  read_hit = 0;
  read_miss = 0;
  write_hit = 0;
  write_miss = 0;
}
