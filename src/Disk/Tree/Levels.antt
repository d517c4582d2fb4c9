-- ===== src/Disk/Tree/Levels.antt =====
-- grass/block/treedisk.c: the loops that count levels find enough of them, and no more than four.
use operating_system_practic.Base.{
  ℕ, zero, suc, ◌-◌, ◌/◌, ◌^◌, ◌<◌, ◌≤◌, ◌≡◌, refl, ap, ◌==◌, inl, inr, ◌⊎◌, u32_mod, arith,
  Bool-cases,
}
use operating_system_practic.Disk.Tree.{log_shift_r, levels_from, levels_for, nlevels}
use operating_system_practic.Disk.Tree.Nodes.{anc}

-- The number of levels for a last block, by the size that so many levels have.
pub levels_for-cases :
    (x : ℕ)
    → x < u32_mod
    → ((levels_for x ≡ 0) × (x ≡ 0))
      ⊎ ((levels_for x ≡ 1) × (0 < x) × (x < 256))
      ⊎ ((levels_for x ≡ 2) × (256 ≤ x) × (x < 65536))
      ⊎ ((levels_for x ≡ 3) × (65536 ≤ x) × (x < 16777216))
      ⊎ ((levels_for x ≡ 4) × (16777216 ≤ x))
unfolding levels_for levels_from log_shift_r
levels_for-cases x lt = elim (Bool-cases (x / 2 ^ 0 == 0)) [
  | inl e0 ↦ rw (e0) (inl (refl, ground arith))
  | inr e0 ↦ elim (Bool-cases (x / 2 ^ 8 == 0)) [
    | inl e1 ↦ rw (e0, e1) (inr (inl (refl, ground arith, ground arith)))
    | inr e1 ↦ elim (Bool-cases (x / 2 ^ 16 == 0)) [
      | inl e2 ↦ rw (e0, e1, e2) (inr (inr (inl (refl, ground arith, ground arith))))
      | inr e2 ↦ elim (Bool-cases (x / 2 ^ 24 == 0)) [
        | inl e3 ↦ rw (e0, e1, e2, e3) (inr (inr (inr (inl (refl, ground arith, ground arith)))))
        | inr e3 ↦ rw (e0, e1, e2, e3) (inr (inr (inr (inr (refl, ground arith)))))
      ]
    ]
  ]
]

pub levels_for-le_four : (x : ℕ) → x < u32_mod → levels_for x ≤ 4
levels_for-le_four x lt = ground (arith, levels_for-cases x lt)

pub levels_for_mono : (x y : ℕ) → x ≤ y → y < u32_mod → levels_for x ≤ levels_for y
levels_for_mono x y le lt =
    ground (arith, levels_for-cases x (omega (arith, le, lt)), levels_for-cases y lt)

-- The levels for the last block reach every block before it.
pub levels_for-enough : (x y : ℕ) → x < u32_mod → y ≤ x → anc (levels_for x) y ≡ 0
unfolding anc
levels_for-enough x y lt le = elim (levels_for-cases x lt) [
  | inl (e, a) ↦ rw (e) (omega arith)
  | inr (inl (e, a, b)) ↦ rw (e) (omega arith)
  | inr (inr (inl (e, a, b))) ↦ rw (e) (omega arith)
  | inr (inr (inr (inl (e, a, b)))) ↦ rw (e) (omega arith)
  | inr (inr (inr (inr (e, a)))) ↦ rw (e) (omega arith)
]

pub nlevels-pred : (n : ℕ) → 0 < n → nlevels n ≡ levels_for (n - 1)
nlevels-pred zero lt = absurd (omega arith)
nlevels-pred (suc n) lt = ap levels_for (omega arith)

-- The levels of a file reach its blocks.
pub nlevels-enough : (n o : ℕ) → n < u32_mod → o < n → anc (nlevels n) o ≡ 0
nlevels-enough n o lt le =
    rw (nlevels-pred n (omega arith)) (levels_for-enough (n - 1) o (omega arith) (omega arith))

pub nlevels-le_four : (n : ℕ) → n < u32_mod → nlevels n ≤ 4
nlevels-le_four zero lt = omega arith
nlevels-le_four (suc n) lt = levels_for-le_four n (omega arith)

pub nlevels-levels_for : (n o : ℕ) → n ≤ o → o < u32_mod → nlevels n ≤ levels_for o
nlevels-levels_for zero o le lt = omega arith
nlevels-levels_for (suc n) o le lt = levels_for_mono n o (omega arith) lt
