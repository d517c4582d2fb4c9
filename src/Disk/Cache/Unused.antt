-- ===== src/Disk/Cache/Unused.antt =====
-- What the cache of grass/block/cachedisk.c does: nothing, since no slot is ever given a number.
use operating_system_practic.Base.{
  ℕ, zero, suc, ◌+◌, ◌≡◌, ◌≢◌, refl, ◌∙◌, ap, List, [], ◌∷◌, none, add_u32, arith,
}
use operating_system_practic.Run.{
  Run, ok, halt, spin, and_then, map_state, map_state-and_then, and_then_comm,
}
use operating_system_practic.Store.{BlockStore}
use operating_system_practic.Store.Client.{
  Request, Reply, get, put, resize, measure, got, done, call, play,
}
use operating_system_practic.Disk.Cache.{
  CacheState, no_block, find_slot, last_free, put_free, cachedisk, cachedisk_read, cachedisk_write,
}

-- Every slot is free.
abbrev pub NothingCached : {S : Type 0} → CacheState S → Type 0
NothingCached cs = (i : ℕ) → cs.cacheno_to_blockno i ≡ no_block

find_slot-free :
    (tags : ℕ → ℕ) (o k i : ℕ)
    → o ≢ no_block
    → ((j : ℕ) → tags j ≡ no_block)
    → find_slot tags o k i ≡ none
unfolding find_slot
find_slot-free tags o zero i ne h = refl
find_slot-free tags o (suc k) i ne h = ground (arith, h i, find_slot-free tags o k (i + 1) ne h)

-- The state after a call that the store below has answered.
unfoldable after_call : {S : Type 0} → CacheState S → Request → S → CacheState S
after_call cs (get o b) s = record cs { below = s; read_miss = add_u32 cs.read_miss 1 }
after_call cs (put o b) s = record cs {
  below = s;
  blocks = put_free cs.blocks (last_free cs.cacheno_to_blockno cs.nblocks 0 none) b;
  write_miss = add_u32 cs.write_miss 1;
}
after_call cs (resize n) s = record cs { below = s }
after_call cs measure s = record cs { below = s }

-- The request names a block other than 2^32 - 1.
abbrev pub IsOrdinary : Request → Type 0
IsOrdinary (get o b) = o ≢ no_block
IsOrdinary (put o b) = o ≢ no_block
IsOrdinary (resize n) = Unit {0}
IsOrdinary measure = Unit {0}

abbrev pub AllOrdinary : List Request → Type 0
AllOrdinary [] = Unit {0}
AllOrdinary (q ∷ qs) = IsOrdinary q × AllOrdinary qs

module _ {S : Type 0} (below : BlockStore S) where
  call-cachedisk :
      (q : Request) (cs : CacheState S)
      → NothingCached cs
      → IsOrdinary q
      → (call (cachedisk below) q cs
          ≡ and_then (call below q cs.below) (λ a s. ok a (after_call cs q s)))
  unfolding cachedisk call after_call
  call-cachedisk (get o b) cs free ne =
      rw (find_slot-free cs.cacheno_to_blockno o cs.nblocks 0 ne free, cachedisk_read)
        (and_then_comm (after_call cs (get o b)) (λ (r, c). got r c) (below.read o b cs.below))
  call-cachedisk (put o b) cs free ne =
      rw (find_slot-free cs.cacheno_to_blockno o cs.nblocks 0 ne free, cachedisk_write)
        (and_then_comm (after_call cs (put o b)) done (below.write o b cs.below))
  call-cachedisk (resize n) cs free ne =
      and_then_comm (after_call cs (resize n)) done (below.setsize n cs.below)
  call-cachedisk measure cs free ne =
      and_then_comm (after_call cs measure) done (below.nblocks cs.below)

  after_call-below : (q : Request) (cs : CacheState S) (s : S) → (after_call cs q s).below ≡ s
  unfolding after_call
  after_call-below (get o b) cs s = refl
  after_call-below (put o b) cs s = refl
  after_call-below (resize n) cs s = refl
  after_call-below measure cs s = refl

  after_call-free :
      (q : Request) (cs : CacheState S) (s : S)
      → NothingCached cs
      → NothingCached (after_call cs q s)
  unfolding after_call
  after_call-free (get o b) cs s h = h
  after_call-free (put o b) cs s h = h
  after_call-free (resize n) cs s h = h
  after_call-free measure cs s h = h

  abbrev pub bottom : CacheState S → S
  bottom cs = cs.below

  play_step :
      (qs : List Request) (after : S → CacheState S) (m : Run S Reply)
      → ((s : S) → map_state bottom (play (cachedisk below) qs (after s)) ≡ play below qs s)
      → map_state bottom (
          and_then
            (and_then m (λ a s. ok a (after s)))
            (λ a t. and_then (play (cachedisk below) qs t) (λ rest u. ok (a ∷ rest) u)))
        ≡ and_then m (λ a t. and_then (play below qs t) (λ rest u. ok (a ∷ rest) u))
  play_step qs after (ok a s) ih =
      map_state-and_then bottom (◌∷◌ a) (play (cachedisk below) qs (after s))
      ∙ ap (λ m. and_then m (λ rest u. ok (a ∷ rest) u)) (ih s)
  play_step qs after halt ih = refl
  play_step qs after spin ih = refl

  -- From a state where every slot is free, any sequence of calls on block numbers other than 2^32
  -- - 1 is answered as the store below alone answers it, and leaves that store in the same state:
  -- the slots never serve a call.
  pub play-cachedisk :
      (qs : List Request) (cs : CacheState S)
      → NothingCached cs
      → AllOrdinary qs
      → map_state bottom (play (cachedisk below) qs cs) ≡ play below qs cs.below
  unfolding play
  play-cachedisk [] cs free all = refl
  play-cachedisk (q ∷ qs) cs free all = rw (call-cachedisk q cs free all.0) (
      play_step qs (after_call cs q) (call below q cs.below) λ s.
        play-cachedisk qs (after_call cs q s) (after_call-free q cs s free) all.1
        ∙ ap (play below qs) (after_call-below q cs s))
