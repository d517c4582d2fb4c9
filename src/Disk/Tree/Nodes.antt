-- ===== src/Disk/Tree/Nodes.antt =====
-- The tree of a file (grass/block/treedisk.h), and what it holds.
use operating_system_practic.Base.{
  ℕ, zero, suc, ◌+◌, ◌*◌, ◌/◌, ◌%◌, ◌<◌, ◌≡◌, refl, sym, ap, ◌∙◌, ◌==◌, inl, inr, ◌⊎◌, length,
  arith, if◌then◌else◌,
}
use operating_system_practic.Store.{Block}
use operating_system_practic.Disk.Tree.{word, null_block, refs_per_block, index, log_shift_r}
use operating_system_practic.Disk.Tree.Shows.{Disk}
use operating_system_practic.Disk.Tree.Labels.{Label, node, Labels}

-- The place of block `q` among those `k` levels up: a node has 256 nodes below it.
unfoldable pub anc : (k q : ℕ) → ℕ
anc zero q = q
anc (suc k) q = anc k q / refs_per_block

-- A label in the part of file `i` below and at place `p` of level `n`.
abbrev pub Under : (i n p : ℕ) → Label → Type 0
Under i n p t = (m : ℕ) × (q : ℕ) × (g : ℕ) × (t ≡ node i m q) × (m + g ≡ n) × (anc g q ≡ p)

-- `b` is a hole, or a block of its place, with trees below it.
unfoldable pub Tree : Disk → Labels → (i n p b : ℕ) → Type 0
Tree d label i zero p b = (b ≡ 0) ⊎ (label b ≡ node i 0 p)
Tree d label i (suc n) p b =
    (b ≡ 0)
    ⊎ ((label b ≡ node i (suc n) p)
        × (length (d b) ≡ refs_per_block)
        × ((j : ℕ) → j < refs_per_block → Tree d label i n (p * refs_per_block + j) (word (d b) j)))

-- What the file holds at an offset: the data block at the end of the walk, or null bytes.
unfoldable pub walk : Disk → (n b offset : ℕ) → Block
walk d zero b offset = if b == 0 then null_block else d b
walk d (suc n) b offset =
    let rest = walk d n (word (d b) (index offset n)) offset in if b == 0 then null_block else rest

pub index-lt : (o n : ℕ) → index o n < refs_per_block
unfolding index
index-lt o n = omega arith

pub index-anc : (o n : ℕ) → n < 4 → index o n ≡ anc n o % refs_per_block
unfolding index log_shift_r anc
index-anc o zero lt = omega arith
index-anc o (suc zero) lt = omega arith
index-anc o (suc (suc zero)) lt = omega arith
index-anc o (suc (suc (suc zero))) lt = omega arith
index-anc o (suc (suc (suc (suc n)))) lt = absurd (omega arith)

-- The place of the next block on the walk.
pub anc-step : (o n p : ℕ) → n < 4 → anc (suc n) o ≡ p → p * refs_per_block + index o n ≡ anc n o
unfolding anc
anc-step o n p lt e = omega (arith, e, index-anc o n lt)

pub Under-lift :
    (i n p j : ℕ) (t : Label)
    → j < refs_per_block
    → Under i n (p * refs_per_block + j) t
    → Under i (suc n) p t
unfolding anc
Under-lift i n p j t lt (m, q, g, e, s, a) = (m, q, suc g, e, omega (arith, s), omega (arith, a))

pub Under-self : (i n p : ℕ) (t : Label) → t ≡ node i n p → Under i n p t
unfolding anc
Under-self i n p t e = (n, p, 0, e, omega arith, refl)

-- Places of one level have nothing in common.
pub Under-apart : (i n p p1 : ℕ) (t : Label) → Under i n p t → Under i n p1 t → p ≡ p1
Under-apart i n p p1 t (m, q, g, e, s, a) (m1, q1, g1, e1, s1, a1) =
    let em : m ≡ m1 = ground (arith, e, e1) in
    let eq : q ≡ q1 = ground (arith, e, e1) in
    let eg : g ≡ g1 = omega (arith, em, s, s1) in sym a ∙ ap (λ x. anc x q) eg ∙ ap (anc g1) eq ∙ a1

-- A level is not below another.
pub Under-level : (i n p q : ℕ) (t : Label) → t ≡ node i (suc n) q → Under i n p t → ⊥
Under-level i n p q t e (m, q1, g, e1, s, a) =
    let em : suc n ≡ m = ground (arith, e, e1) in omega (arith, em, s)

pub Tree-same :
    (d d1 : Disk) (label label1 : Labels) (i n p b : ℕ)
    → ((c : ℕ) → Under i n p (label c) → (d1 c ≡ d c) × (label1 c ≡ label c))
    → Tree d label i n p b
    → Tree d1 label1 i n p b × ((o : ℕ) → walk d1 n b o ≡ walk d n b o)
unfolding Tree walk
Tree-same d d1 label label1 i zero p b same (inl z) = (inl z, λ o. rw (z) refl)
Tree-same d d1 label label1 i zero p b same (inr l) =
    let (e, el) = same b (Under-self i 0 p (label b) l) in (inr (el ∙ l), λ o. rw (e) refl)
Tree-same d d1 label label1 i (suc n) p b same (inl z) = (inl z, λ o. rw (z) refl)
Tree-same d d1 label label1 i (suc n) p b same (inr (l, len, kids)) =
    let (e, el) = same b (Under-self i (suc n) p (label b) l) in
    let below = λ (j : ℕ) (lt : j < refs_per_block).
      Tree-same d d1 label label1 i n (p * refs_per_block + j) (word (d b) j)
        (λ c u. same c (Under-lift i n p j (label c) lt u)) (kids j lt) in
    (
      inr (el ∙ l, rw (e) len, λ j lt. rw (e) (below j lt).0),
      λ o. rw (e, (below (index o n) (index-lt o n)).1 o) refl,
    )
