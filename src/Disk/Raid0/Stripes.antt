-- ===== src/Disk/Raid0/Stripes.antt =====
-- The stripes of grass/block/raid0disk.c make up one array.
use operating_system_practic.Base.{
  ℕ, ◌+◌, ◌*◌, ◌/◌, ◌%◌, ◌<◌, ◌≡◌, refl, sym, ◌∙◌, Bool-cases, false, ◌==◌, inl, inr, ℤ, Option,
  none, some, update, u32_mod, arith,
}
use native.Mathlib.Nat.{div-add-mod}
use operating_system_practic.Run
use operating_system_practic.Run.{Returns, returns}
use operating_system_practic.Store.{Block, BlockStore, IsStore, Reads, Writes, Stored}
use operating_system_practic.Disk.Raid0.{Raid0State, raid0disk_read, raid0disk_write}

-- The array that the stripes make up.
abbrev pub raid0_view : {S : Type 0} → (ℕ → S → ℕ → Option Block) → Raid0State S → ℕ → Option Block
raid0_view view rds o = view (o % rds.nbelow) (rds.below (o % rds.nbelow)) (o / rds.nbelow)

pub record Raid0Valid {S : Type 0} (Valid : ℕ → S → Type 0) (rds : Raid0State S) : Type 0 where
  pub stores_valid : (i : ℕ) → Valid i (rds.below i)
  pub some_stores : 0 < rds.nbelow

-- An offset is determined by its store and its place there.
stripe-injective : (n o j : ℕ) → (o % n) ≡ (j % n) → (o / n) ≡ (j / n) → o ≡ j
stripe-injective n o j e d =
    let split : n * (o / n) + o % n ≡ j = rw (e, d) (div-add-mod j n) in
    sym (div-add-mod o n) ∙ split

stripe_test : (n o j : ℕ) → (o % n) ≡ (j % n) → (o / n == j / n) ≡ (o == j)
stripe_test n o j e = elim (Bool-cases (o == j)) [
  | inl t ↦ let same : o ≡ j = ground arith in rw same (ground arith)
  | inr t ↦ rw t (ground (arith, stripe-injective n o j e))
]

store_test : (n o j : ℕ) → (o % n == j % n) ≡ false → (o == j) ≡ false
store_test n o j e = elim (Bool-cases (o == j)) [
  | inl t ↦ let same : o ≡ j = ground arith in absurd (differ (o % n) (rw (← same) at e))
  | inr t ↦ t
]
  where
    differ : (k : ℕ) → (k == k) ≡ false → ⊥
    differ k h = ground arith

module _ {S : Type 0} {below : ℕ → BlockStore S} {Valid : ℕ → S → Type 0}
    {view : ℕ → S → ℕ → Option Block} (store : (i : ℕ) → IsStore (below i) (Valid i) (view i))
    (rds : Raid0State S) (v : Raid0Valid Valid rds) where
  valid_after :
      (i : ℕ) (s : S) → Valid i s → Raid0Valid Valid (record rds { below = update rds.below i s })
  valid_after i s w = record {
    stores_valid = λ j. elim (Bool-cases (i == j)) [
      | inl e ↦ let same : i ≡ j = ground arith in rw (e, ← same) w
      | inr e ↦ rw e (v.stores_valid j)
    ];
    some_stores = v.some_stores;
  }

  same_after :
      (i : ℕ) (s : S)
      → ((q : ℕ) → view i s q ≡ view i (rds.below i) q)
      → (j : ℕ)
      → raid0_view view (record rds { below = update rds.below i s }) j ≡ raid0_view view rds j
  same_after i s f j = elim (Bool-cases (i == j % rds.nbelow)) [
    | inl e ↦ let same : i ≡ j % rds.nbelow = ground arith in rw (e, ← same) (f _)
    | inr e ↦ rw e refl
  ]

  -- A read on the stripes of one or more stores with the contract is a read of the one array that
  -- they make up.
  pub raid0disk_read-Reads :
      (o : ℕ) (b : Block)
      → o < u32_mod
      → Returns (Reads (Raid0Valid Valid) (raid0_view view) rds o) (raid0disk_read below o b rds)
  unfolding raid0disk_read
  raid0disk_read-Reads o b h =
      let i = o % rds.nbelow in
      let stores : (rds.nbelow == 0) ≡ false = ground (arith, v.some_stores) in
      rw stores (
        Run.bind
          ((store i).read_lem (rds.below i) (o / rds.nbelow) b (omega arith) (v.stores_valid i))
          λ rc s p. returns (record {
            keeps = record {
              valid = valid_after i s p.keeps.valid;
              same = same_after i s p.keeps.same;
            };
            fetched = p.fetched;
          }))

  Stored-stripe :
      (o : ℕ) (b : Block) (s : S) (r : ℤ) (x : Option Block)
      → Stored x
          (view (o % rds.nbelow) (rds.below (o % rds.nbelow)))
          (view (o % rds.nbelow) s)
          (o / rds.nbelow)
          b
          r
      → Stored x
          (raid0_view view rds)
          (raid0_view view (record rds { below = update rds.below (o % rds.nbelow) s }))
          o
          b
          r
  Stored-stripe o b s r none (failed, f) = (failed, same_after (o % rds.nbelow) s f)
  Stored-stripe o b s r (some c) (done, f) = (
    done,
    λ j. elim (Bool-cases (o % rds.nbelow == j % rds.nbelow)) [
      | inl e ↦
          let same : o % rds.nbelow ≡ j % rds.nbelow = ground arith in
          rw (e, ← stripe_test rds.nbelow o j same, ← same) (f (j / rds.nbelow))
      | inr e ↦ rw (e, store_test rds.nbelow o j e) refl
    ],
  )

  -- A write on the stripes of one or more stores with the contract is a write to the one array
  -- that they make up: it succeeds where the block is there, and no other block changes.
  pub raid0disk_write-Writes :
      (o : ℕ) (b : Block)
      → o < u32_mod
      → Returns
          (Writes (Raid0Valid Valid) (raid0_view view) rds o b)
          (raid0disk_write below o b rds)
  unfolding raid0disk_write
  raid0disk_write-Writes o b h =
      let i = o % rds.nbelow in
      let stores : (rds.nbelow == 0) ≡ false = ground (arith, v.some_stores) in
      rw stores (
        Run.bind
          ((store i).write_lem (rds.below i) (o / rds.nbelow) b (omega arith) (v.stores_valid i))
          λ r s p.
            returns (record {
              valid = valid_after i s p.valid;
              stored = Stored-stripe o b s r _ p.stored;
            }))
