-- ===== src/Store/Array.antt =====
-- The specification of a block store (grass/block/block_store.h): what a client of an array of
-- blocks is told, and that every store with the contract that tells its size answers so.
use operating_system_practic.Base.{
  ℕ, ◌<◌, ◌≡◌, ◌∙◌, refl, sym, ◌≤◌, ◌≢◌, List, [], ◌∷◌, if◌then◌else◌, ltb, Bool-cases,
  Option-cases, inl, inr, ℤ, Option, none, some, success, failure, update, u32_mod, arith,
}
use operating_system_practic.Run
use operating_system_practic.Run.{Returns, returns}
use operating_system_practic.Store.{
  Block, BlockStore, IsStore, IsSized, Counts, Resizes, Fetched, Stored,
}
use operating_system_practic.Store.Client.{
  Request, Reply, get, put, resize, measure, got, done, call, play,
}

-- What a write to the array answers, and what it leaves.
abbrev pub put_code : Option Block → ℤ
put_code none = failure
put_code (some c) = success

abbrev pub put_array : Option Block → (ℕ → Option Block) → ℕ → Block → ℕ → Option Block
put_array none f o b = f
put_array (some c) f o b = update f o (some b)

-- The array with no block at or beyond a number.
abbrev pub cut : ℕ → (ℕ → Option Block) → ℕ → Option Block
cut n f j = if ltb j n then f j else none

-- The answers are those of the array `f`, which the writes and the resizes change. A resize answers
-- the old size.
abbrev pub Answers : (ℕ → Option Block) → List Request → List Reply → Type 0
Answers f [] [] = Unit {0}
Answers f (get o b ∷ qs) (got r c ∷ rs) = Fetched (f o) (r, c) × Answers f qs rs
Answers f (put o b ∷ qs) (done r ∷ rs) =
    (r ≡ put_code (f o)) × Answers (put_array (f o) f o b) qs rs
Answers f (resize n ∷ qs) (done r ∷ rs) = Counts f r × Answers (cut n f) qs rs
Answers f (measure ∷ qs) (done r ∷ rs) = Counts f r × Answers f qs rs
Answers f qs rs = ⊥

-- Calls with 32-bit block numbers that do not raise the size.
abbrev pub Shrinks : (size : ℕ) → List Request → Type 0
Shrinks m [] = Unit {0}
Shrinks m (get o b ∷ qs) = (o < u32_mod) × Shrinks m qs
Shrinks m (put o b ∷ qs) = (o < u32_mod) × Shrinks m qs
Shrinks m (resize n ∷ qs) = (n ≤ m) × (n < u32_mod) × Shrinks n qs
Shrinks m (measure ∷ qs) = Shrinks m qs

-- The array has the blocks below a number.
abbrev pub Present : ℕ → (ℕ → Option Block) → Type 0
Present m f = (j : ℕ) → j < m → f j ≢ none

module _ {S : Type 0} {bs : BlockStore S} {Valid : S → Type 0} {view : S → ℕ → Option Block}
    (store : IsStore bs Valid view) (sized : IsSized bs Valid view) where
  Fetched-same : (x y : Option Block) (rc : ℤ × Block) → x ≡ y → Fetched x rc → Fetched y rc
  Fetched-same x y rc e h = rw (← e) h

  Counts-same : (f g : ℕ → Option Block) (r : ℤ) → ((j : ℕ) → f j ≡ g j) → Counts f r → Counts g r
  Counts-same f g r same (n, e, present, absent) =
      (n, e, (λ o h z. present o h (same o ∙ z)), λ o h. sym (same o) ∙ absent o h)

  cut-Present : (n : ℕ) (f : ℕ → Option Block) (m : ℕ) → n ≤ m → Present m f → Present n (cut n f)
  cut-Present n f m le present j h e = present j (omega arith) (ground arith)

  put_array-Present :
      (m : ℕ) (f : ℕ → Option Block) (o : ℕ) (b : Block) (x : Option Block)
      → Present m f
      → Present m (put_array x f o b)
  put_array-Present m f o b none present j h e = present j h e
  put_array-Present m f o b (some c) present j h e = ground (arith, present j h)

  -- A smaller size cuts the array.
  Resizes-cut :
      (s t : S) (n m : ℕ) (f : ℕ → Option Block)
      → n ≤ m
      → Present m f
      → ((j : ℕ) → view s j ≡ f j)
      → Resizes Valid view s n t
      → ((j : ℕ) → n ≤ j → view t j ≡ none)
      → (j : ℕ) → view t j ≡ cut n f j
  Resizes-cut s t n m f le present same p gone j = elim (Bool-cases (ltb j n)) [
    | inl e ↦ elim (Option-cases (f j)) [
      | inl missing ↦ absurd (present j (ground arith) missing)
      | inr (c, e2) ↦ rw (e) (p.kept j c (ground arith) (same j ∙ e2) ∙ sym e2)
    ]
    | inr e ↦ rw (e) (gone j (ground arith))
  ]

  -- A write shows in the view rs it does in the array.
  Stored-array :
      (before after f : ℕ → Option Block) (o : ℕ) (b : Block) (r : ℤ) (x : Option Block)
      → f o ≡ x
      → ((j : ℕ) → before j ≡ f j)
      → Stored x before after o b r
      → (r ≡ put_code x) × ((j : ℕ) → after j ≡ put_array x f o b j)
  Stored-array before after f o b r none e same (failed, g) = (failed, λ j. g j ∙ same j)
  Stored-array before after f o b r (some c) e same (stored, g) =
      (stored, λ j. ground (arith, g j, same j))

  -- A block store with the contract that tells its size answers any reads, writes, size queries
  -- and resizes that do not raise the size, with 32-bit block numbers, from a valid state, as the
  -- array of blocks that it shows: each call returns, a read gives the block last written, and
  -- only numbers that the array lacks are refused.
  pub play-Answers :
      (qs : List Request) (m : ℕ) (s : S) (f : ℕ → Option Block)
      → Shrinks m qs
      → Present m f
      → Valid s
      → ((j : ℕ) → view s j ≡ f j)
      → Returns (λ rs t. Answers f qs rs) (play bs qs s)
  unfolding play call
  play-Answers [] m s f small present v same = returns tt
  play-Answers (get o b ∷ qs) m s f small present v same =
      Run.bind_map (λ (r, c). got r c) _ (store.read_lem s o b small.0 v)
        λ rc t p.
          Run.bind
            (play-Answers qs m t f small.1 present p.keeps.valid (λ j. p.keeps.same j ∙ same j))
            λ rest u q. returns (Fetched-same (view s o) (f o) rc (same o) p.fetched, q)
  play-Answers (put o b ∷ qs) m s f small present v same =
      Run.bind_map done _ (store.write_lem s o b small.0 v) λ r t p.
        let (code, after) =
          Stored-array (view s) (view t) f o b r (f o) refl same (rw (same o) at p.stored) in
        Run.bind
          (play-Answers qs m t (put_array (f o) f o b) small.1
            (put_array-Present m f o b (f o) present) p.valid after)
          λ rest u q. returns (code, q)
  play-Answers (resize n ∷ qs) m s f (le, h, small) present v same =
      Run.bind_map done _ (Run.both (store.setsize_lem s n h v) (sized.resize_lem s n h v))
        λ r t (p, (count, gone)).
          Run.bind
            (play-Answers qs n t (cut n f) small (cut-Present n f m le present) p.valid
              (Resizes-cut s t n m f le present same p gone))
            λ rest u q. returns (Counts-same (view s) f r same count, q)
  play-Answers (measure ∷ qs) m s f small present v same =
      Run.bind_map done _ (Run.both (store.nblocks_lem s v) (sized.counts_lem s v))
        λ r t (p, count).
          Run.bind
            (play-Answers qs m t f small present p.keeps.valid (λ j. p.keeps.same j ∙ same j))
            λ rest u q. returns (Counts-same (view s) f r same count, q)
