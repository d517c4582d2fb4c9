-- ===== src/Disk/Tree/Capacity.antt =====
-- grass/block/treedisk.c: the search for the level in `treedisk_free_file` against the loops that count
-- levels in `treedisk_read` and `treedisk_write`.
use operating_system_practic.Base.{
  ℕ, zero, suc, ◌+◌, ◌-◌, ◌^◌, ◌<◌, ◌≤◌, ◌≡◌, refl, Bool-cases, true, false, ◌==◌, ltb, inl, inr,
  ◌⊎◌, u32_mod, arith,
}
use mathlib.Core.Path.{subst}
use operating_system_practic.Run.{ok, spin}
use operating_system_practic.Disk.Tree.{levels_for, nlevels, refs_per_block}
use operating_system_practic.Disk.Tree.Levels.{levels_for-cases, nlevels-pred}
use operating_system_practic.Disk.Tree.Size.{free_level}

less_power : (n m x : ℕ) → m ≤ n → 256 ^ n ≤ x → 256 ^ m ≤ x
less_power zero m x le h = let none : 0 ≡ m = omega (arith, le) in subst (λ y. 256 ^ y ≤ x) none h
less_power (suc n) m x le h = elim (Bool-cases (m == suc n)) [
  | inl e ↦ let same : suc n ≡ m = ground arith in subst (λ y. 256 ^ y ≤ x) same h
  | inr e ↦ less_power n m x (ground (arith, le)) (omega (arith, h))
]

-- For a 32-bit number of a last block, a tree of as many levels as the loop of `treedisk_write`
-- counts reaches that block, and no tree of fewer levels does.
pub levels_for-least :
    (x : ℕ) → x < u32_mod → (x < 256 ^ levels_for x) × ((m : ℕ) → m < levels_for x → 256 ^ m ≤ x)
levels_for-least x lt = elim (levels_for-cases x lt) [
  | inl (e, a) ↦ rw (e) (omega arith, λ m h. absurd (omega arith))
  | inr (inl (e, a, b)) ↦ rw (e) (b, λ m h. less_power 0 m x (omega arith) a)
  | inr (inr (inl (e, a, b))) ↦ rw (e) (b, λ m h. less_power 1 m x (omega arith) a)
  | inr (inr (inr (inl (e, a, b)))) ↦ rw (e) (b, λ m h. less_power 2 m x (omega arith) a)
  | inr (inr (inr (inr (e, a)))) ↦ rw (e) (lt, λ m h. less_power 3 m x (omega arith) a)
]

module _ {S : Type 0} where
  -- A capacity that has wrapped to 0 stays 0.
  level_lost :
      (fuel level nblocks : ℕ) (s : S) → 0 < nblocks → free_level fuel level 0 nblocks s ≡ spin
  unfolding free_level
  level_lost zero level nblocks s pos =
      let more : ltb 0 nblocks ≡ true = ground (arith, pos) in rw (more) refl
  level_lost (suc fuel) level nblocks s pos =
      let more : ltb 0 nblocks ≡ true = ground (arith, pos) in
      rw (more) (level_lost fuel (level + 1) nblocks s pos)

  -- The level that a file of as many blocks as three levels hold has.
  pub free_level-nlevels :
      (fuel nblocks : ℕ) (s : S)
      → 2 ≤ fuel
      → 2 ≤ nblocks
      → nblocks ≤ 2 ^ 24
      → free_level fuel 1 refs_per_block nblocks s ≡ ok (nlevels nblocks) s
  unfolding free_level
  free_level-nlevels zero nblocks s enough two le = absurd (omega arith)
  free_level-nlevels (suc zero) nblocks s enough two le = absurd (omega arith)
  free_level-nlevels (suc (suc fuel)) nblocks s enough two le =
      let pred = nlevels-pred nblocks (omega arith) in
      let cases = levels_for-cases (nblocks - 1) (omega arith) in
      elim (Bool-cases (ltb 256 nblocks)) [
        | inr e0 ↦
            let one : nlevels nblocks ≡ 1 = ground (arith, pred, cases, e0, two) in
            rw (e0, one) refl
        | inl e0 ↦ elim (Bool-cases (ltb 65536 nblocks)) [
          | inr e1 ↦
              let one : nlevels nblocks ≡ 2 = ground (arith, pred, cases, e0, e1) in
              rw (e0, e1, one) refl
          | inl e1 ↦
              let one : nlevels nblocks ≡ 3 = ground (arith, pred, cases, e1, le) in
              rw (e0, e1, one) (last fuel)
        ]
      ]
    where
      last : (fuel : ℕ) → free_level fuel 3 16777216 nblocks s ≡ ok 3 s
      last zero = let done : ltb 16777216 nblocks ≡ false = ground (arith, le) in rw (done) refl
      last (suc fuel) =
          let done : ltb 16777216 nblocks ≡ false = ground (arith, le) in rw (done) refl

  -- For a larger file the loop never ends.
  pub free_level-spins :
      (fuel nblocks : ℕ) (s : S)
      → 2 ^ 24 < nblocks
      → free_level fuel 1 refs_per_block nblocks s ≡ spin
  unfolding free_level
  free_level-spins fuel nblocks s gt =
      let m0 : ltb 256 nblocks ≡ true = ground (arith, gt) in
      let m1 : ltb 65536 nblocks ≡ true = ground (arith, gt) in
      let m2 : ltb 16777216 nblocks ≡ true = ground (arith, gt) in on fuel m0 m1 m2
    where
      on :
          (fuel : ℕ)
          → ltb 256 nblocks ≡ true
          → ltb 65536 nblocks ≡ true
          → ltb 16777216 nblocks ≡ true
          → free_level fuel 1 refs_per_block nblocks s ≡ spin
      on zero m0 m1 m2 = rw (m0) refl
      on (suc zero) m0 m1 m2 = rw (m0, m1) refl
      on (suc (suc zero)) m0 m1 m2 = rw (m0, m1, m2) refl
      on (suc (suc (suc fuel))) m0 m1 m2 =
          rw (m0, m1, m2) (level_lost fuel 4 nblocks s (omega arith))

  -- For a file of two blocks or more, with fuel for two rounds or more, the search for the level
  -- in `treedisk_free_file` finds the level that reads and writes use, where the file has 2^24
  -- blocks at most; for a larger file it is cut short however much fuel there is.
  pub free_level-cases :
      (fuel nblocks : ℕ) (s : S)
      → 2 ≤ fuel
      → 2 ≤ nblocks
      → ((nblocks ≤ 2 ^ 24) × (free_level fuel 1 refs_per_block nblocks s ≡ ok (nlevels nblocks) s))
        ⊎ ((2 ^ 24 < nblocks) × (free_level fuel 1 refs_per_block nblocks s ≡ spin))
  free_level-cases fuel nblocks s enough two = elim (Bool-cases (ltb (2 ^ 24) nblocks)) [
    | inl e ↦
        let gt : 2 ^ 24 < nblocks = ground arith in inr (gt, free_level-spins fuel nblocks s gt)
    | inr e ↦
        let le : nblocks ≤ 2 ^ 24 = ground arith in
        inl (le, free_level-nlevels fuel nblocks s enough two le)
  ]
