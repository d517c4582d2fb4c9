-- ===== src/Disk/Tree/Lists.antt =====
-- The free list blocks of grass/block/treedisk.c: how many slots are used, and what the searches of
-- a slot find.
use operating_system_practic.Base.{
  ℕ, zero, suc, ◌+◌, ◌<◌, ◌≤◌, ◌≡◌, ◌≢◌, refl, false, ◌==◌, inl, inr, ◌⊎◌, set, length,
  get_or-set_self, get_or-set_ne, arith, Bool-cases, if◌then◌else◌,
}
use operating_system_practic.Store.{Block}
use operating_system_practic.Disk.Tree.{word}
use operating_system_practic.Disk.Tree.Blocks.{last_ref}

-- how many of the slots 1 to n are used
unfoldable pub used_slots : Block → (n : ℕ) → ℕ
used_slots fl zero = 0
used_slots fl (suc n) = used_slots fl n + (if word fl (suc n) == 0 then 0 else 1)

-- The last used slot, or none is.
pub last_ref-used :
    (fl : Block) (n : ℕ)
    → ((last_ref fl n ≡ 0) × (used_slots fl n ≡ 0))
      ⊎ ((i : ℕ) × (last_ref fl n ≡ suc i) × (suc i ≤ n) × (word fl (suc i) ≢ 0))
unfolding last_ref used_slots
last_ref-used fl zero = inl (refl, refl)
last_ref-used fl (suc n) = elim (Bool-cases (word fl (suc n) == 0)) [
  | inl e ↦ elim (last_ref-used fl n) [
    | inl (z, u) ↦ rw (e, z, u) (inl (refl, refl))
    | inr (i, l, le, nz) ↦ rw (e, l) (inr (i, refl, omega arith, nz))
  ]
  | inr e ↦ rw (e) (inr (n, refl, omega arith, ground arith))
]

-- Clearing a used slot makes it one less.
used_slots-beyond : (fl : Block) (i v n : ℕ) → n < i → used_slots (set fl i v) n ≡ used_slots fl n
unfolding used_slots
used_slots-beyond fl i v zero lt = refl
used_slots-beyond fl i v (suc n) lt =
    rw
      (
        get_or-set_ne fl {i = i} {j = suc n} v 0 (omega arith),
        used_slots-beyond fl i v n (omega arith),
      )
      refl

pub used_slots-clear :
    (fl : Block) (i n : ℕ)
    → 0 < i
    → i ≤ n
    → n < length fl
    → word fl i ≢ 0
    → used_slots (set fl i 0) n + 1 ≡ used_slots fl n
unfolding used_slots
used_slots-clear fl i zero pos le lt nz = absurd (omega arith)
used_slots-clear fl i (suc n) pos le lt nz = elim (Bool-cases (i == suc n)) [
  | inl e ↦
      let same : i ≡ suc n = ground arith in
      let there : (word fl (suc n) == 0) ≡ false = ground arith in
      rw (same, get_or-set_self fl (suc n) 0 0 lt, used_slots-beyond fl i 0 n (omega arith), there)
        (omega arith)
  | inr e ↦
      let other : i ≢ suc n = ground arith in
      rw (get_or-set_ne fl {i = i} {j = suc n} 0 0 other)
        (omega (arith, used_slots-clear fl i n pos (omega arith) (omega arith) nz))
]
