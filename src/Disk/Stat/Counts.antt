-- ===== src/Disk/Stat/Counts.antt =====
-- grass/block/statdisk.c: over any store, the layer answers as the store does and counts the calls.
use operating_system_practic.Base.{
  ℕ, ◌+◌, ◌%◌, ◌≡◌, refl, sym, ◌∙◌, ap, List, [], ◌∷◌, add_u32, u32_mod, arith,
}
use operating_system_practic.Run.{
  Run, ok, halt, spin, and_then, map_state, map_state-and_then, and_then_comm,
}
use operating_system_practic.Store.{BlockStore}
use operating_system_practic.Store.Client.{
  Request, Reply, get, put, resize, measure, got, done, call, play,
}
use operating_system_practic.Disk.Stat.{
  StatState, statdisk, statdisk_init, statdisk_nblocks, statdisk_setsize, statdisk_read,
  statdisk_write,
}

-- Whether the request is of a kind, as a number.
abbrev pub is_read : Request → ℕ
is_read (get o b) = 1
is_read (put o b) = 0
is_read (resize n) = 0
is_read measure = 0

abbrev pub is_write : Request → ℕ
is_write (get o b) = 0
is_write (put o b) = 1
is_write (resize n) = 0
is_write measure = 0

abbrev pub is_resize : Request → ℕ
is_resize (get o b) = 0
is_resize (put o b) = 0
is_resize (resize n) = 1
is_resize measure = 0

abbrev pub is_measure : Request → ℕ
is_measure (get o b) = 0
is_measure (put o b) = 0
is_measure (resize n) = 0
is_measure measure = 1

-- How many requests are of the kind.
abbrev pub count : (Request → ℕ) → List Request → ℕ
count kind [] = 0
count kind (q ∷ qs) = kind q + count kind qs

-- The state whose counters, of 32 bits, have counted the requests.
abbrev pub counted : {S : Type 0} → List Request → S → StatState S
counted qs s = record {
  below = s;
  nnblocks = count is_measure qs % u32_mod;
  nsetsize = count is_resize qs % u32_mod;
  nread = count is_read qs % u32_mod;
  nwrite = count is_write qs % u32_mod;
}

-- The counters started at these numbers.
abbrev tally : {S : Type 0} → (m z r w : ℕ) → S → StatState S
tally m z r w s = record {
  below = s;
  nnblocks = m % u32_mod;
  nsetsize = z % u32_mod;
  nread = r % u32_mod;
  nwrite = w % u32_mod;
}

add_u32_mod : (n : ℕ) → add_u32 (n % u32_mod) 1 ≡ (n + 1) % u32_mod
add_u32_mod n = omega arith

add_zero : (n : ℕ) → n + 0 ≡ n
add_zero n = omega arith

zero_add : (n : ℕ) → 0 + n ≡ n
zero_add n = omega arith

add_assoc : (a b c : ℕ) → (a + b) + c ≡ a + (b + c)
add_assoc a b c = omega arith

tally-zero :
    {S : Type 0} (qs : List Request)
    → tally {S = S}
        (0 + count is_measure qs)
        (0 + count is_resize qs)
        (0 + count is_read qs)
        (0 + count is_write qs)
      ≡ counted qs
tally-zero qs =
    rw
      (
        zero_add (count is_measure qs),
        zero_add (count is_resize qs),
        zero_add (count is_read qs),
        zero_add (count is_write qs),
      )
      refl

module _ {S : Type 0} (below : BlockStore S) where
  play_step :
      {T : Type 0} (g : S → T) (bs : BlockStore T) (qs : List Request) (after : S → T)
      (m : Run S Reply)
      → ((s : S) → play bs qs (after s) ≡ map_state g (play below qs s))
      → and_then
          (and_then m (λ a s. ok a (after s)))
          (λ a t. and_then (play bs qs t) (λ rest u. ok (a ∷ rest) u))
        ≡ map_state g (and_then m (λ a t. and_then (play below qs t) (λ rest u. ok (a ∷ rest) u)))
  play_step g bs qs after (ok a s) ih =
      ap (λ m. and_then m (λ rest u. ok (a ∷ rest) u)) (ih s)
      ∙ sym (map_state-and_then g (◌∷◌ a) (play below qs s))
  play_step g bs qs after halt ih = refl
  play_step g bs qs after spin ih = refl

  call-tally :
      (q : Request) (m z r w : ℕ) (s : S)
      → call (statdisk below) q (tally m z r w s)
        ≡ and_then (call below q s) (λ a t.
          ok a (tally (m + is_measure q) (z + is_resize q) (r + is_read q) (w + is_write q) t))
  unfolding call statdisk statdisk_nblocks statdisk_setsize statdisk_read statdisk_write
  call-tally (get o b) m z r w s =
      rw (add_zero m, add_zero z, add_zero w, ← add_u32_mod r)
        (and_then_comm (λ t. record (tally m z r w t) { nread = add_u32 (r % u32_mod) 1 })
          (λ (r, c). got r c) (below.read o b s))
  call-tally (put o b) m z r w s =
      rw (add_zero m, add_zero z, add_zero r, ← add_u32_mod w)
        (and_then_comm (λ t. record (tally m z r w t) { nwrite = add_u32 (w % u32_mod) 1 }) done
          (below.write o b s))
  call-tally (resize n) m z r w s =
      rw (add_zero m, add_zero r, add_zero w, ← add_u32_mod z)
        (and_then_comm (λ t. record (tally m z r w t) { nsetsize = add_u32 (z % u32_mod) 1 }) done
          (below.setsize n s))
  call-tally measure m z r w s =
      rw (add_zero z, add_zero r, add_zero w, ← add_u32_mod m)
        (and_then_comm (λ t. record (tally m z r w t) { nnblocks = add_u32 (m % u32_mod) 1 }) done
          (below.nblocks s))

  play-tally :
      (qs : List Request) (m z r w : ℕ) (s : S)
      → play (statdisk below) qs (tally m z r w s)
        ≡ map_state
            (tally
              (m + count is_measure qs)
              (z + count is_resize qs)
              (r + count is_read qs)
              (w + count is_write qs))
            (play below qs s)
  unfolding play
  play-tally [] m z r w s = rw (add_zero m, add_zero z, add_zero r, add_zero w) refl
  play-tally (q ∷ qs) m z r w s =
      let m' = m + is_measure q in
      let z' = z + is_resize q in
      let r' = r + is_read q in
      let w' = w + is_write q in
      rw
        (
          call-tally q m z r w s,
          ← add_assoc m (is_measure q) (count is_measure qs),
          ← add_assoc z (is_resize q) (count is_resize qs),
          ← add_assoc r (is_read q) (count is_read qs),
          ← add_assoc w (is_write q) (count is_write qs),
        )
        (play_step _ (statdisk below) qs (tally m' z' r' w') (call below q s)
          (λ t. play-tally qs m' z' r' w' t))

  -- Over any store below, any sequence of calls from `statdisk_init` on is answered as the store
  -- below alone answers it, ends as it ends there, and leaves that store in the same state, with
  -- the four counters at the numbers of size queries, resizes, reads and writes in the sequence,
  -- each modulo 2^32.
  pub play-statdisk :
      (qs : List Request) (s : S)
      → play (statdisk below) qs (statdisk_init s) ≡ map_state (counted qs) (play below qs s)
  play-statdisk qs s =
      play-tally qs 0 0 0 0 s ∙ ap (λ g. map_state g (play below qs s)) (tally-zero qs)
