-- ===== src/Deque/Ends.antt =====
-- The two ends of the queue of src/p0/queue.c.
use operating_system_practic.Base.{
  ℕ, suc, ◌≡◌, ◌≢◌, refl, ap, true, false, ◌==◌, Option, none, some, [], ◌∷◌, length, pos, ◌<◌, ◌^◌,
  ◌+◌, ltb, update, arith, success,
}
use operating_system_practic.Run.{Returns, returns}
use operating_system_practic.Queue.Chain.{Cells, head_ptr}
use operating_system_practic.Deque.{
  Ptr, null, Node, Deque, place_node, prepend_node, queue_prepend, take_head, queue_dequeue,
}
use operating_system_practic.Deque.Cells.{
  last_ptr, Linked, IsDeque, Linked-frame, not-has_of_none, set_next_at, set_prev_at, update_there,
}

-- A queue of the cells.
abbrev pub Holds : Cells → Option Deque → Type 0
Holds xs none = ⊥
Holds xs (some q) = IsDeque q xs

-- The queue of the cells in a heap.
abbrev pub queue_of : (Ptr → Option Node) → Cells → Deque
queue_of h xs = record {
  heap = h;
  head = head_ptr xs;
  tail = last_ptr null xs;
  length = pos (length xs);
}

module _ (h : Ptr → Option Node) where
  pub prepend-Holds :
      (fresh : Ptr) (memory : Node) (item : ℕ) (xs : Cells)
      → Linked h null xs
      → item ≢ 0
      → fresh ≢ null
      → h fresh ≡ none
      → length xs + 1 < 2 ^ 31
      → Returns
          (λ r t. (r ≡ success) × Holds ((fresh, item) ∷ xs) t)
          (queue_prepend fresh memory item (some (queue_of h xs)))
  unfolding queue_prepend prepend_node
  prepend-Holds fresh memory item [] c real_item ne unused small =
      let real : (fresh == null) ≡ false = ground arith in
      let some_item : (item == 0) ≡ false = ground arith in
      let node = record memory { item = item } in
      let q0 = record (place_node fresh memory item (queue_of h [])) { tail = fresh } in
      let q1 = record q0 {
        heap = update q0.heap fresh (some (record node { next = null }));
        head = fresh;
      } in
      rw
        (
          real,
          some_item,
          set_next_at q0 fresh null node (update_there h fresh (some node)),
          set_prev_at q1 fresh null (record node { next = null }) (update_there q0.heap fresh _),
        )
        (returns (
          refl,
          record { head = refl; tail = refl; length = refl; linked = (ne, ground arith, refl, tt) },
        ))
  prepend-Holds fresh memory item ((p, x) ∷ xs) (np, at, out, c) real_item ne unused small =
      let real : (fresh == null) ≡ false = ground arith in
      let some_item : (item == 0) ≡ false = ground arith in
      let apart : fresh ≢ p = ground arith in
      let more : (suc (length xs) == 0) ≡ false = ground arith in
      let room : ltb (suc (length xs) + 1) (2 ^ 31) ≡ true = ground arith in
      let absent = not-has_of_none h p fresh xs c unused in
      let node = record memory { item = item } in
      let old : Node = record { prev = null; next = head_ptr xs; item = x } in
      let q0 = place_node fresh memory item (queue_of h ((p, x) ∷ xs)) in
      let q1 = record q0 { heap = update q0.heap p (some (record old { prev = fresh })) } in
      let q2 = record q1 {
        heap = update q1.heap fresh (some (record node { next = p }));
        head = fresh;
      } in
      rw
        (
          real,
          some_item,
          more,
          set_prev_at q0 p fresh old (ground (arith, apart, at)),
          set_next_at q1 fresh p node (ground (arith, apart)),
          set_prev_at q2 fresh null (record node { next = p }) (update_there q1.heap fresh _),
          room,
        )
        (returns (
          refl,
          record {
            head = refl;
            tail = refl;
            length = ap pos (omega arith);
            linked = (
              ne,
              ground arith,
              ground (arith, absent),
              (
                np,
                ground (arith, apart),
                out,
                Linked-frame p xs c (λ b i. ground (arith, i, out, absent)),
              ),
            );
          },
        ))

  pub dequeue-Holds :
      (p x : ℕ) (xs : Cells)
      → Linked h null ((p, x) ∷ xs)
      → Returns
          (λ r t. (r ≡ (success, x)) × Holds xs t)
          (queue_dequeue true (some (queue_of h ((p, x) ∷ xs))))
  unfolding queue_dequeue take_head
  dequeue-Holds p x [] (np, at, out, c) =
      rw (at) (returns (refl, record { head = refl; tail = refl; length = refl; linked = tt }))
  dequeue-Holds p x ((r, y) ∷ xs) (np, at, out, (nr, at1, out1, c)) =
      let more : (suc (suc (length xs)) == 0) ≡ false = ground arith in
      let not_one : (suc (suc (length xs)) == 1) ≡ false = ground arith in
      rw (more, at, not_one, at1)
        (returns (
          refl,
          record {
            head = refl;
            tail = refl;
            length = ap pos (omega arith);
            linked = (nr, ground arith, out1, Linked-frame r xs c (λ b i. ground (arith, i, out1)));
          },
        ))
