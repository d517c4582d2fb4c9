-- ===== src/Disk/Clock/Refines.antt =====
-- The cache of grass/block/clockdisk.c meets the contract of a block store, with the blocks of the
-- store below: no read is ever stale.
use operating_system_practic.Base.{
  ℕ, ◌<◌, ◌≡◌, ◌∙◌, refl, Option-cases, inl, inr, ℤ, Option, none, some, update, u32_mod, arith,
}
use operating_system_practic.Run
use operating_system_practic.Run.{Returns, returns}
use operating_system_practic.Store.{
  Block, BlockStore, IsStore, IsSized, Reads, Writes, Keeps, Stored, Fetched,
}
use operating_system_practic.Disk.Clock.{
  ClockState, touch, find_slot, after_read_miss, after_write_miss, after_write_hit, clockdisk,
  clockdisk_nblocks, clockdisk_setsize, clockdisk_read, clockdisk_write,
}
use operating_system_practic.Disk.Clock.Lookup.{Holds, find_slot-some, find_slot-none}
use operating_system_practic.Disk.Clock.Replace.{cache_update-Placed}
use operating_system_practic.Disk.Clock.Invariant.{
  Coherent, ClockValid, Placed-Coherent, Placed-Unique, touch-Coherent, touch-Unique,
  update-Coherent,
}

abbrev pub clock_view : {S : Type 0} → (S → ℕ → Option Block) → ClockState S → ℕ → Option Block
clock_view view cs = view cs.below

module _ {S : Type 0} {Valid : S → Type 0} {view : S → ℕ → Option Block} (cs : ClockState S)
    (v : ClockValid Valid view cs) (s : S) where
  -- The slots still agree when the store below shows what it showed.
  still-Coherent : Keeps Valid view cs.below s → Coherent (view s) cs
  still-Coherent k i o lt h = k.same o ∙ v.coherent i o lt h

  new_offset :
      (o : ℕ)
      → find_slot cs.binfo o cs.nblocks 0 ≡ none
      → (j : ℕ) → j < cs.nblocks
      → ¬ Holds cs.binfo o j
  new_offset o e j lt = find_slot-none cs.binfo o cs.nblocks 0 j e (omega arith) (omega arith)

  read_miss-Reads :
      (o : ℕ) (rc : ℤ × Block) (x : Option Block)
      → find_slot cs.binfo o cs.nblocks 0 ≡ none
      → Keeps Valid view cs.below s
      → view cs.below o ≡ x
      → Fetched x rc
      → Returns (Reads (ClockValid Valid view) (clock_view view) cs o) (after_read_miss cs o rc s)
  unfolding after_read_miss
  read_miss-Reads o (r, got) none new k e f = rw f (
      returns (record {
        keeps = record {
          valid = record {
            below_valid = k.valid;
            coherent = still-Coherent k;
            unique = v.unique;
            slots = v.slots;
            small = v.small;
          };
          same = k.same;
        };
        fetched = rw e refl;
      }))
  read_miss-Reads o (r, got) (some c) new k e (done, block) = rw done (
      Run.bind (cache_update-Placed o got _ v.slots v.small) λ _ t p. returns (record {
        keeps = record {
          valid = record {
            below_valid = rw p.below k.valid;
            coherent =
                rw p.below (Placed-Coherent p (view s) (still-Coherent k) (k.same o ∙ rw block e));
            unique = Placed-Unique p v.unique (new_offset o new);
            slots = rw p.nblocks v.slots;
            small = rw p.nblocks v.small;
          };
          same = λ j. rw p.below (k.same j);
        };
        fetched = rw e (refl, block);
      }))

  write_elsewhere :
      (o : ℕ) (b : Block)
      → ((j : ℕ) → view s j ≡ update (view cs.below) o (some b) j)
      → (i q : ℕ) → i < cs.nblocks
      → Holds cs.binfo q i
      → ¬ Holds cs.binfo o i
      → view s q ≡ some (cs.blocks i)
  write_elsewhere o b f i q lt h absent = ground (arith, f q, v.coherent i q)

  write_miss-Writes :
      (o : ℕ) (b : Block) (r : ℤ) (x : Option Block)
      → find_slot cs.binfo o cs.nblocks 0 ≡ none
      → view cs.below o ≡ x
      → Valid s
      → Stored x (view cs.below) (view s) o b r
      → Returns
          (Writes (ClockValid Valid view) (clock_view view) cs o b)
          (after_write_miss cs o b r s)
  unfolding after_write_miss
  write_miss-Writes o b r none new e w (failed, f) = rw failed (
      returns (record {
        valid = record {
          below_valid = w;
          coherent = still-Coherent (record { valid = w; same = f });
          unique = v.unique;
          slots = v.slots;
          small = v.small;
        };
        stored = rw e (refl, f);
      }))
  write_miss-Writes o b r (some c) new e w (done, f) =
      let absent = new_offset o new in
      let coherent_after : Coherent (view s) cs =
        λ i q lt h. write_elsewhere o b f i q lt h (absent i lt) in
      rw done (
        Run.bind (cache_update-Placed o b _ v.slots v.small) λ _ t p. returns (record {
          valid = record {
            below_valid = rw p.below w;
            coherent = rw p.below (Placed-Coherent p (view s) coherent_after (ground (arith, f o)));
            unique = Placed-Unique p v.unique absent;
            slots = rw p.nblocks v.slots;
            small = rw p.nblocks v.small;
          };
          stored = rw e (refl, λ j. rw p.below (f j));
        }))

  write_hit-Writes :
      (o i : ℕ) (b : Block) (r : ℤ) (x : Option Block)
      → i < cs.nblocks
      → Holds cs.binfo o i
      → view cs.below o ≡ x
      → Valid s
      → Stored x (view cs.below) (view s) o b r
      → Returns
          (Writes (ClockValid Valid view) (clock_view view) cs o b)
          (after_write_hit (touch cs i) i b r s)
  unfolding after_write_hit
  write_hit-Writes o i b r none lt here e w (failed, f) =
      absurd (ground (arith, v.coherent i o lt here))
  write_hit-Writes o i b r (some c) lt here e w (done, f) = rw done (
      returns (record {
        valid = record {
          below_valid = w;
          coherent =
              touch-Coherent (record cs { blocks = update cs.blocks i b }) i here.1 (view s)
                (update-Coherent cs i o b (view cs.below) (view s) lt here v.unique v.coherent f);
          unique = touch-Unique cs i here.1 v.unique;
          slots = v.slots;
          small = v.small;
        };
        stored = rw e (refl, f);
      }))

module _ {S : Type 0} {below : BlockStore S} {Valid : S → Type 0} {view : S → ℕ → Option Block}
    (store : IsStore below Valid view) (cs : ClockState S) (v : ClockValid Valid view cs) where
  read-Reads :
      (o : ℕ) (b : Block)
      → o < u32_mod
      → Returns (Reads (ClockValid Valid view) (clock_view view) cs o) (clockdisk_read below o b cs)
  unfolding clockdisk_read
  read-Reads o b h = elim (Option-cases (find_slot cs.binfo o cs.nblocks 0)) [
    | inl new ↦
        rw (new, clockdisk_read)
          (Run.bind (store.read_lem cs.below o b h v.below_valid)
            λ rc s p. read_miss-Reads cs v s o rc _ new p.keeps refl p.fetched)
    | inr (i, hit) ↦
        let (lt, here) = find_slot-some cs.binfo o cs.nblocks 0 i hit in
        rw (hit, clockdisk_read)
          (returns (record {
            keeps = record {
              valid = record {
                below_valid = v.below_valid;
                coherent = touch-Coherent cs i here.1 (view cs.below) v.coherent;
                unique = touch-Unique cs i here.1 v.unique;
                slots = v.slots;
                small = v.small;
              };
              same = λ j. refl;
            };
            fetched = rw (v.coherent i o (omega arith) here) (refl, refl);
          }))
  ]

  write-Writes :
      (o : ℕ) (b : Block)
      → o < u32_mod
      → Returns
          (Writes (ClockValid Valid view) (clock_view view) cs o b)
          (clockdisk_write below o b cs)
  unfolding clockdisk_write
  write-Writes o b h = elim (Option-cases (find_slot cs.binfo o cs.nblocks 0)) [
    | inl new ↦
        rw (new, clockdisk_write)
          (Run.bind (store.write_lem cs.below o b h v.below_valid)
            λ r s p. write_miss-Writes cs v s o b r _ new refl p.valid p.stored)
    | inr (i, hit) ↦
        let (lt, here) = find_slot-some cs.binfo o cs.nblocks 0 i hit in
        rw (hit, clockdisk_write)
          (Run.bind (store.write_lem cs.below o b h v.below_valid)
            λ r s p. write_hit-Writes cs v s o i b r _ (omega arith) here refl p.valid p.stored)
  ]

-- Over any block store with the contract the cache is a block store with the contract that shows
-- the same blocks, on the states whose live slots agree with the store below, have distinct
-- offsets, and number at least one and fewer than 2^30.
pub clockdisk-IsStore :
    {S : Type 0} {below : BlockStore S} {Valid : S → Type 0} {view : S → ℕ → Option Block}
    → IsStore below Valid view
    → IsStore (clockdisk below) (ClockValid Valid view) (clock_view view)
unfolding clockdisk clockdisk_nblocks clockdisk_setsize
clockdisk-IsStore store = record {
  nblocks_lem = λ cs v. Run.bind (store.nblocks_lem cs.below v.below_valid) λ r s p.
      returns (record {
        keeps = record {
          valid = record {
            below_valid = p.keeps.valid;
            coherent = still-Coherent cs v s p.keeps;
            unique = v.unique;
            slots = v.slots;
            small = v.small;
          };
          same = p.keeps.same;
        };
        beyond = p.beyond;
      });
  read_lem = λ cs o b h v. read-Reads store cs v o b h;
  write_lem = λ cs o b h v. write-Writes store cs v o b h;
  setsize_lem = λ cs n h v. Run.bind (store.setsize_lem cs.below n h v.below_valid) λ r s p.
      returns (record {
        valid = record {
          below_valid = p.valid;
          coherent = λ i o lt live. ground (arith, p.kept o (cs.blocks i), v.coherent i o);
          unique = λ i j o hi hj li lj. ground (arith, v.unique i j o);
          slots = v.slots;
          small = v.small;
        };
        kept = p.kept;
      });
}

-- A size query and a new size are answered by the store below.
pub clockdisk-IsSized :
    {S : Type 0} {below : BlockStore S} {Valid : S → Type 0} {view : S → ℕ → Option Block}
    → IsSized below Valid view
    → IsSized (clockdisk below) (ClockValid Valid view) (clock_view view)
unfolding clockdisk clockdisk_nblocks clockdisk_setsize
clockdisk-IsSized sized = record {
  counts_lem = λ s v. Run.bind (sized.counts_lem s.below v.below_valid) λ r t p. returns p;
  resize_lem = λ s n h v. Run.bind (sized.resize_lem s.below n h v.below_valid) λ r t p. returns p;
}
