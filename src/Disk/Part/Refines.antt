-- ===== src/Disk/Part/Refines.antt =====
-- A partition of grass/block/partdisk.c meets the contract of a block store.
use operating_system_practic.Base.{
  ℕ, ◌<◌, ◌≡◌, refl, Bool-cases, Option, none, some, inl, inr, ltb, ap, u32_mod, add_u32,
  if◌then◌else◌, arith, ◌==◌, true, ℤ,
}
use operating_system_practic.Run
use operating_system_practic.Run.{Returns, returns}
use operating_system_practic.Store.{Block, BlockStore, IsStore, Reads, Writes, Stored}
use operating_system_practic.Disk.Part.{
  PartState, partdisk, partdisk_nblocks, partdisk_setsize, partdisk_read, partdisk_write, part_view,
}

-- Two offsets of one partition are two blocks below, also where `delta + offset` wraps.
add_u32-injective :
    (d i j : ℕ) → i < u32_mod → j < u32_mod → (add_u32 d i == add_u32 d j) ≡ (i == j)
add_u32-injective d i j h k = ground arith

pub record PartValid {S : Type 0} (Valid : S → Type 0) (ps : PartState S) : Type 0 where
  pub below_valid : Valid ps.below
  pub small : ps.nblocks < u32_mod

module _ {S : Type 0} {below : BlockStore S} {Valid : S → Type 0} {view : S → ℕ → Option Block}
    (store : IsStore below Valid view) where
  Stored-part :
      (ps : PartState S) (o : ℕ) (b : Block) (r : ℤ) (s : S) (x : Option Block)
      → o < u32_mod
      → ps.nblocks < u32_mod
      → ltb o ps.nblocks ≡ true
      → Stored x (view ps.below) (view s) (add_u32 ps.delta o) b r
      → Stored x (part_view view ps) (part_view view (record ps { below = s })) o b r
  Stored-part ps o b r s (some c) ho hn e (done, f) =
      (done, λ j. ground (arith, f (add_u32 ps.delta j), add_u32-injective ps.delta o j))
  Stored-part ps o b r s none ho hn e (done, f) =
      (done, λ j. ap (λ x. if ltb j ps.nblocks then x else none) (f (add_u32 ps.delta j)))

  module _ (ps : PartState S) (o : ℕ) (b : Block) (lt : o < u32_mod) (v : PartValid Valid ps) where
    read-Reads :
        Returns (Reads (PartValid Valid) (part_view view) ps o) (partdisk_read below o b ps)
    unfolding partdisk_read
    read-Reads = elim (Bool-cases (ltb o ps.nblocks)) [
      | inl e ↦ rw e (
          Run.bind (store.read_lem ps.below (add_u32 ps.delta o) b (omega arith) v.below_valid)
            λ rc s p. returns (record {
              keeps = record {
                valid = record { below_valid = p.keeps.valid; small = v.small };
                same = λ j. ap (λ x. if ltb j ps.nblocks then x else none) (p.keeps.same _);
              };
              fetched = rw e p.fetched;
            }))
      | inr e ↦
          rw e (
            returns
              (record { keeps = record { valid = v; same = λ j. refl }; fetched = rw e refl }))
    ]

    write-Writes :
        Returns (Writes (PartValid Valid) (part_view view) ps o b) (partdisk_write below o b ps)
    unfolding partdisk_write
    write-Writes = elim (Bool-cases (ltb o ps.nblocks)) [
      | inl e ↦ rw e (
          Run.bind (store.write_lem ps.below (add_u32 ps.delta o) b (omega arith) v.below_valid)
            λ r s p. returns (record {
              valid = record { below_valid = p.valid; small = v.small };
              stored = rw e (Stored-part ps o b r s _ lt v.small e p.stored);
            }))
      | inr e ↦ rw e (returns (record { valid = v; stored = rw e (refl, λ j. refl) }))
    ]

-- A partition of a block store with the contract, of fewer than 2^32 blocks, is a block store
-- with the contract: it shows the blocks from `delta` on, with the sum taken modulo 2^32.
pub partdisk-IsStore :
    {S : Type 0} {below : BlockStore S} {Valid : S → Type 0} {view : S → ℕ → Option Block}
    (store : IsStore below Valid view)
    → IsStore (partdisk below) (PartValid Valid) (part_view view)
unfolding partdisk partdisk_nblocks partdisk_setsize
partdisk-IsStore {view} store = record {
  nblocks_lem = λ ps v.
      returns (record {
        keeps = record { valid = v; same = λ j. refl };
        beyond = λ n o e h. ground arith;
      });
  read_lem = read-Reads store;
  write_lem = write-Writes store;
  setsize_lem = λ ps n h v. returns (record {
    valid = record { below_valid = v.below_valid; small = h };
    kept = λ j c l e. ground arith;
  });
}
