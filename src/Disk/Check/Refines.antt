-- ===== src/Disk/Check/Refines.antt =====
-- Over a store that keeps its contract the check of grass/block/checkdisk.c never fails.
use operating_system_practic.Base.{
  ℕ, ◌≡◌, refl, Option, Option-cases, none, some, inl, inr, List, ◌==◌, ℤ, if◌then◌else◌, arith,
  true, ◌∷◌, ◌∙◌,
}
use operating_system_practic.Run
use operating_system_practic.Run.{Returns, returns, ok}
use operating_system_practic.Store.{
  Block, BlockStore, IsStore, IsSized, Reads, Writes, Keeps, Stored, Fetched,
}
use operating_system_practic.Disk.Check.{
  CheckState, remember, checkdisk, checkdisk_nblocks, checkdisk_setsize, checkdisk_read,
  checkdisk_write, record_write, compare_read,
}
use operating_system_practic.Disk.Check.Entries.{
  Entry, find, block_eq, block_eq_refl, find-overwrite, find-below_size,
}

-- Each block on the list is the block that the store below shows.
pub record CheckValid {S : Type 0} (Valid : S → Type 0) (view : S → ℕ → Option Block)
    (cs : CheckState S) : Type 0 where
  pub below_valid : Valid cs.below
  pub recorded : (o : ℕ) (c : Block) → find cs.bl o ≡ some c → view cs.below o ≡ some c

find-remember :
    (bl : List Entry) (o j : ℕ) (c : Block)
    → find (remember bl o c) j ≡ (if o == j then some c else find bl j)
unfolding remember find
find-remember bl o j c = elim (Option-cases (find bl o)) [
  | inl e ↦ rw (e, remember) refl
  | inr (d, e) ↦ rw (e, remember) (find-overwrite bl o j c d e)
]

abbrev pub check_view : {S : Type 0} → (S → ℕ → Option Block) → CheckState S → ℕ → Option Block
check_view view cs = view cs.below

module _ {S : Type 0} {Valid : S → Type 0} {view : S → ℕ → Option Block} (cs : CheckState S) (s : S)
    (v : CheckValid Valid view cs) (k : Keeps Valid view cs.below s) where
  -- The list still fits when the store below shows what it showed.
  still_valid : CheckValid Valid view (record cs { below = s })
  still_valid = record { below_valid = k.valid; recorded = λ o c e. k.same o ∙ v.recorded o c e }

  added_valid :
      (o : ℕ) (c : Block)
      → view cs.below o ≡ some c
      → CheckValid Valid view (record { below = s; bl = (o, c) ∷ cs.bl })
  unfolding find
  added_valid o c e = record {
    below_valid = k.valid;
    recorded = λ j d h. ground (arith, k.same j, v.recorded j d);
  }

  compare_read-Reads :
      (o : ℕ) (rc : ℤ × Block) (x : Option Block)
      → view cs.below o ≡ x
      → Fetched x rc
      → Returns (Reads (CheckValid Valid view) (check_view view) cs o) (compare_read cs o rc s)
  unfolding compare_read
  compare_read-Reads o (r, got) none e f = rw f (
      returns
        (record { keeps = record { valid = still_valid; same = k.same }; fetched = rw e refl }))
  compare_read-Reads o (r, got) (some c) e (done, block) =
      rw done (elim (Option-cases (find cs.bl o)) [
        | inl new ↦ rw new (
            returns (record {
              keeps = record { valid = added_valid o got (rw block e); same = k.same };
              fetched = rw e (refl, block);
            }))
        | inr (d, old) ↦
            let same_block : d ≡ c = ground (arith, v.recorded o d old) in
            let equal : block_eq d got ≡ true = rw (same_block, block) (block_eq_refl c) in
            rw (old, equal)
              (returns (record {
                keeps = record { valid = still_valid; same = k.same };
                fetched = rw e (refl, block);
              }))
      ])

module _ {S : Type 0} {Valid : S → Type 0} {view : S → ℕ → Option Block} (cs : CheckState S) (s : S)
    (v : CheckValid Valid view cs) where
  record_write-Writes :
      (o : ℕ) (b : Block) (r : ℤ) (x : Option Block)
      → view cs.below o ≡ x
      → Valid s
      → Stored x (view cs.below) (view s) o b r
      → Returns (Writes (CheckValid Valid view) (check_view view) cs o b) (record_write cs o b r s)
  unfolding record_write
  record_write-Writes o b r (some c) e w (done, f) = rw done (
      returns (record {
        valid = record {
          below_valid = w;
          recorded = λ j d h. ground (arith, find-remember cs.bl o j b, f j, v.recorded j d);
        };
        stored = rw e (refl, f);
      }))
  record_write-Writes o b r none e w (failed, f) = rw failed (
      returns (record {
        valid = still_valid cs s v (record { valid = w; same = f });
        stored = rw e (refl, f);
      }))

-- Over any block store with the contract a checked store is a block store with the contract and
-- the same blocks, on the states whose list agrees with the store below: the check never stops
-- the program.
pub checkdisk-IsStore :
    {S : Type 0} {below : BlockStore S} {Valid : S → Type 0} {view : S → ℕ → Option Block}
    → IsStore below Valid view
    → IsStore (checkdisk below) (CheckValid Valid view) (check_view view)
unfolding checkdisk checkdisk_nblocks checkdisk_setsize checkdisk_read checkdisk_write
checkdisk-IsStore store = record {
  nblocks_lem = λ cs v. Run.bind (store.nblocks_lem cs.below v.below_valid) λ r s p.
      returns (record {
        keeps = record { valid = still_valid cs s v p.keeps; same = p.keeps.same };
        beyond = p.beyond;
      });
  read_lem = λ cs o b h v.
      Run.bind (store.read_lem cs.below o b h v.below_valid)
        λ rc s p. compare_read-Reads cs s v p.keeps o rc _ refl p.fetched;
  write_lem = λ cs o b h v.
      Run.bind (store.write_lem cs.below o b h v.below_valid)
        λ r s p. record_write-Writes cs s v o b r _ refl p.valid p.stored;
  setsize_lem = λ cs n h v. Run.bind (store.setsize_lem cs.below n h v.below_valid) λ r s p.
      returns (record {
        valid = record {
          below_valid = p.valid;
          recorded = λ o c e. ground (arith, find-below_size n cs.bl o, p.kept o c, v.recorded o c);
        };
        kept = p.kept;
      });
}

-- A size query and a new size are answered by the store below.
pub checkdisk-IsSized :
    {S : Type 0} {below : BlockStore S} {Valid : S → Type 0} {view : S → ℕ → Option Block}
    → IsSized below Valid view
    → IsSized (checkdisk below) (CheckValid Valid view) (check_view view)
unfolding checkdisk checkdisk_nblocks checkdisk_setsize
checkdisk-IsSized sized = record {
  counts_lem = λ s v. Run.bind (sized.counts_lem s.below v.below_valid) λ r t p. returns p;
  resize_lem = λ s n h v. Run.bind (sized.resize_lem s.below n h v.below_valid) λ r t p. returns p;
}
