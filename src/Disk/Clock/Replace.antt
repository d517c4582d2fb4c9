-- ===== src/Disk/Clock/Replace.antt =====
-- `cache_update` of grass/block/clockdisk.c: the hand finds a slot within one round and a step, and
-- the block replaces what that one slot held.
use operating_system_practic.Base.{
  ℕ, zero, suc, ◌+◌, ◌-◌, ◌%◌, ◌^◌, ◌≤◌, ◌<◌, ◌≡◌, ◌≢◌, refl, Bool-cases, true, false, ◌==◌, inl,
  inr, u32_mod, add_u32, arith,
}
use native.Mathlib.Nat.{mod-lt, add-mod_right}
use native.Mathlib.Numerals.{add-one}
use operating_system_practic.Run
use operating_system_practic.Run.{Returns, returns}
use operating_system_practic.Store.{Block}
use operating_system_practic.Disk.Clock.{
  used, is_used, is_live, ClockState, fill, pass, clock_loop, rewind, cache_update,
}

module _ {S : Type 0} where
  -- Slot `slot` of `t` holds the block as used, and every other slot is as in `cs`, but for the
  -- mark of a recent use.
  pub record Placed (cs : ClockState S) (o : ℕ) (b : Block) (t : ClockState S) : Type 0 where
    pub slot : ℕ
    pub in_range : slot < cs.nblocks
    pub block : t.blocks slot ≡ b
    pub offset : (t.binfo slot).offset ≡ o
    pub status : (t.binfo slot).status ≡ used
    pub blocks_kept : (j : ℕ) → j ≢ slot → t.blocks j ≡ cs.blocks j
    pub offsets_kept : (j : ℕ) → j ≢ slot → (t.binfo j).offset ≡ (cs.binfo j).offset
    pub live_kept : (j : ℕ) → j ≢ slot → is_live (t.binfo j).status ≡ is_live (cs.binfo j).status
    pub below : t.below ≡ cs.below
    pub nblocks : t.nblocks ≡ cs.nblocks

  fill-Placed :
      (cs : ClockState S) (i o : ℕ) (b : Block) → i < cs.nblocks → Placed cs o b (fill cs i o b)
  fill-Placed cs i o b h = record {
    slot = i;
    in_range = h;
    block = ground arith;
    offset = ground arith;
    status = ground arith;
    blocks_kept = λ j e. ground arith;
    offsets_kept = λ j e. ground arith;
    live_kept = λ j e. ground arith;
    below = refl;
    nblocks = refl;
  }

  pass-Placed :
      (cs t : ClockState S) (i o : ℕ) (b : Block)
      → is_used (cs.binfo i).status ≡ true
      → Placed (pass cs i) o b t
      → Placed cs o b t
  pass-Placed cs t i o b u p = record {
    slot = p.slot;
    in_range = p.in_range;
    block = p.block;
    offset = p.offset;
    status = p.status;
    blocks_kept = p.blocks_kept;
    offsets_kept = λ j e. ground (arith, p.offsets_kept j e);
    live_kept = λ j e. ground (arith, p.live_kept j e);
    below = p.below;
    nblocks = p.nblocks;
  }

  -- Passing a slot marks no other.
  unmarked-pass :
      (cs : ClockState S) (i k : ℕ)
      → is_used (cs.binfo k).status ≡ false
      → is_used ((pass cs i).binfo k).status ≡ false
  unmarked-pass cs i k h = ground arith

  unmarked-pass_self :
      (cs : ClockState S) (i k : ℕ) → k ≡ i → is_used ((pass cs i).binfo k).status ≡ false
  unmarked-pass_self cs i k h = ground arith

  -- The loop ends once the hand comes to a slot that is not marked, `d` steps ahead.
  clock_loop-Placed :
      (f d o : ℕ) (b : Block) (cs : ClockState S)
      → 0 < cs.nblocks
      → d < f
      → cs.clock_hand + f < u32_mod
      → is_used (cs.binfo ((cs.clock_hand + d) % cs.nblocks)).status ≡ false
      → Returns (λ _. Placed cs o b) (clock_loop f o b cs)
  unfolding clock_loop
  clock_loop-Placed zero d o b cs n lt small h = absurd (omega arith)
  clock_loop-Placed (suc f) zero o b cs n lt small h =
      let e : is_used (cs.binfo (cs.clock_hand % cs.nblocks)).status ≡ false =
        let z : cs.clock_hand + 0 ≡ cs.clock_hand = omega arith in rw z at h in
      rw (e, clock_loop) (returns (fill-Placed cs _ o b (mod-lt _ n)))
  clock_loop-Placed (suc f) (suc d) o b cs n lt small h =
      let i = cs.clock_hand % cs.nblocks in
      elim (Bool-cases (is_used (cs.binfo i).status)) [
        | inl e ↦
            let ahead : add_u32 cs.clock_hand 1 + d ≡ cs.clock_hand + suc d = omega arith in
            rw (e, clock_loop)
              (Run.mono
                (clock_loop-Placed f d o b (pass cs i) n (omega arith) (omega arith)
                  (unmarked-pass cs i _ (rw ahead h)))
                (λ _ t. pass-Placed cs t i o b e))
        | inr e ↦ rw (e, clock_loop) (returns (fill-Placed cs _ o b (mod-lt _ n)))
      ]

  -- One round and a step are enough: a slot that the hand has passed is not marked.
  clock_loop-round :
      (o : ℕ) (b : Block) (cs : ClockState S)
      → 0 < cs.nblocks
      → cs.clock_hand + (cs.nblocks + 1) < u32_mod
      → Returns (λ _. Placed cs o b) (clock_loop (suc cs.nblocks) o b cs)
  unfolding clock_loop
  clock_loop-round o b cs n small =
      let i = cs.clock_hand % cs.nblocks in
      elim (Bool-cases (is_used (cs.binfo i).status)) [
        | inl e ↦
            let back : (add_u32 cs.clock_hand 1 + (cs.nblocks - 1)) % cs.nblocks ≡ i =
              let whole : add_u32 cs.clock_hand 1 + (cs.nblocks - 1) ≡ cs.clock_hand + cs.nblocks =
                omega arith in
              rw whole (add-mod_right cs.clock_hand cs.nblocks) in
            rw (e, clock_loop)
              (Run.mono
                (clock_loop-Placed cs.nblocks (cs.nblocks - 1) o b (pass cs i) n (omega arith)
                  (omega arith) (unmarked-pass_self cs i _ back))
                (λ _ t. pass-Placed cs t i o b e))
        | inr e ↦ rw (e, clock_loop) (returns (fill-Placed cs _ o b (mod-lt _ n)))
      ]

  rewind_le : (cs : ClockState S) → 0 < cs.nblocks → (rewind cs).clock_hand ≤ cs.nblocks
  rewind_le cs n = ground (arith, mod-lt cs.clock_hand n)

  -- On a cache with at least one and fewer than 2^30 slots `cache_update` ends, puts the block
  -- into one slot, marked as used, and leaves the blocks and offsets of all other slots, and
  -- which of them are live.
  pub cache_update-Placed :
      (o : ℕ) (b : Block) (cs : ClockState S)
      → 0 < cs.nblocks
      → cs.nblocks < 2 ^ 30
      → Returns (λ _. Placed cs o b) (cache_update o b cs)
  unfolding cache_update
  cache_update-Placed o b cs n small =
      let some_slots : (cs.nblocks == 0) ≡ false = ground arith in
      let near : (rewind cs).clock_hand ≤ cs.nblocks = rewind_le cs n in
      rw (some_slots, add-one)
        (Run.mono (clock_loop-round o b (rewind cs) n (omega arith)) λ _ t p. record {
          slot = p.slot;
          in_range = p.in_range;
          block = p.block;
          offset = p.offset;
          status = p.status;
          blocks_kept = p.blocks_kept;
          offsets_kept = p.offsets_kept;
          live_kept = p.live_kept;
          below = p.below;
          nblocks = p.nblocks;
        })
