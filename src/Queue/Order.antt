-- ===== src/Queue/Order.antt =====
-- The queue of shared/queue.c is first in, first out; `queue_insert` puts an item at the front.
use operating_system_practic.Base.{
  ℕ, ◌≡◌, ◌≢◌, refl, false, ◌==◌, Option, none, some, [], ◌∷◌, ◌++◌, arith, ◌∙◌, sym,
}
use operating_system_practic.Run.{Returns, returns, ok}
use operating_system_practic.Queue.{
  Ptr, null, Element, Link, next_link, Queue, write, load, store_last, queue_insert, queue_add,
  queue_tget,
}
use operating_system_practic.Queue.Chain.{
  Cells, has, head_ptr, last_link, Chain, IsQueue, Chain-write, not-has_of_none, has-append,
}

module _ (h : Ptr → Option Element) (fresh : Ptr) (item : ℕ) where
  -- The heap with the new element linked behind the last cell.
  linked : Cells → Ptr → Option Element
  linked [] = write h fresh (some (record { next = null; item = item }))
  linked ((p, x) ∷ []) =
      write (write h fresh (some (record { next = null; item = item }))) p
        (some (record { next = fresh; item = x }))
  linked ((p, x) ∷ c ∷ xs) = linked (c ∷ xs)

  module _ (ne : fresh ≢ null) (unused : h fresh ≡ none) where
    ne_of_unused : (p : Ptr) {n : Element} → h p ≡ some n → p ≢ fresh
    ne_of_unused p at e = ground arith

    linked-frame : (xs : Cells) (a : Ptr) → a ≢ fresh → has a xs ≡ false → linked xs a ≡ h a
    unfolding linked
    linked-frame [] a d out = ground arith
    linked-frame ((p, x) ∷ []) a d out = ground arith
    linked-frame ((p, x) ∷ c ∷ xs) a d out = linked-frame (c ∷ xs) a d (ground arith)

    linked-Chain : (xs : Cells) → Chain h xs → Chain (linked xs) (xs ++ (fresh, item) ∷ [])
    unfolding linked
    linked-Chain [] c = (ne, ground arith, refl, tt)
    linked-Chain ((p, x) ∷ []) (np, at, out, c) =
        (np, ground arith, ground arith, (ne, ground arith, refl, tt))
    linked-Chain ((p, x) ∷ (r, y) ∷ xs) (np, at, out, c) =
        let apart : p ≢ fresh = ne_of_unused p at in
        (
          np,
          linked-frame ((r, y) ∷ xs) p apart out ∙ at,
          rw (has-append p ((r, y) ∷ xs) ((fresh, item) ∷ []), out) (ground arith),
          linked-Chain ((r, y) ∷ xs) c,
        )

    store_last-linked :
        (xs : Cells) (f : Ptr)
        → Chain h xs
        → xs ≢ []
        → store_last fresh (record {
          heap = write h fresh (some (record { next = null; item = item }));
          first = f;
          last = last_link xs;
        })
          ≡ ok tt (record { heap = linked xs; first = f; last = last_link xs })
    unfolding store_last load linked
    store_last-linked [] f c some_cells = absurd (some_cells refl)
    store_last-linked ((p, x) ∷ []) f (np, at, out, c) some_cells = ground arith
    store_last-linked ((p, x) ∷ d ∷ xs) f (np, at, out, c) some_cells =
        store_last-linked (d ∷ xs) f c (λ e. cc)

last_link-append : (xs : Cells) (p x : ℕ) → last_link (xs ++ (p, x) ∷ []) ≡ next_link p
last_link-append [] p x = refl
last_link-append ((q, y) ∷ []) p x = refl
last_link-append ((q, y) ∷ c ∷ xs) p x = last_link-append (c ∷ xs) p x

first-append :
    (xs : Cells) (d : Ptr × ℕ) (p x : ℕ) → head_ptr ((d ∷ xs) ++ (p, x) ∷ []) ≡ head_ptr (d ∷ xs)
first-append xs (q, y) p x = refl

add-IsQueue :
    (fresh : Ptr) (item : ℕ) (h : Ptr → Option Element) (xs : Cells)
    → Chain h xs
    → fresh ≢ null
    → h fresh ≡ none
    → Returns
        (λ _ t. IsQueue t (xs ++ (fresh, item) ∷ []))
        (queue_add fresh item (record { heap = h; first = head_ptr xs; last = last_link xs }))
unfolding queue_add
add-IsQueue fresh item h [] c ne unused =
    let real : (fresh == null) ≡ false = ground arith in
    rw real (returns (record { first = refl; last = refl; chain = (ne, ground arith, refl, tt) }))
add-IsQueue fresh item h (d ∷ xs) c ne unused =
    let real : (fresh == null) ≡ false = ground arith in
    rw (real, store_last-linked h fresh item ne unused (d ∷ xs) (head_ptr (d ∷ xs)) c (λ e. cc))
      (returns (record {
        first = sym (first-append xs d fresh item);
        last = sym (last_link-append (d ∷ xs) fresh item);
        chain = linked-Chain h fresh item ne unused (d ∷ xs) c;
      }))

module _ (h : Ptr → Option Element) (f : Ptr) (l : Link) where
  -- A queue, by its three fields.
  abbrev queue_at : Queue
  queue_at = record { heap = h; first = f; last = l }

  add_at :
      (fresh : Ptr) (item : ℕ) (xs : Cells)
      → f ≡ head_ptr xs
      → l ≡ last_link xs
      → Chain h xs
      → fresh ≢ null
      → h fresh ≡ none
      → Returns (λ _ t. IsQueue t (xs ++ (fresh, item) ∷ [])) (queue_add fresh item queue_at)
  add_at fresh item xs ef el c ne unused = rw (ef, el) (add-IsQueue fresh item h xs c ne unused)

  insert_at :
      (fresh : Ptr) (item : ℕ) (xs : Cells)
      → f ≡ head_ptr xs
      → l ≡ last_link xs
      → Chain h xs
      → fresh ≢ null
      → h fresh ≡ none
      → Returns (λ _ t. IsQueue t ((fresh, item) ∷ xs)) (queue_insert fresh item queue_at)
  unfolding queue_insert
  insert_at fresh item [] ef el c ne unused =
      let real : (fresh == null) ≡ false = ground arith in
      rw (real, ef)
        (returns (record { first = refl; last = refl; chain = (ne, ground arith, refl, tt) }))
  insert_at fresh item ((p, x) ∷ xs) ef el c ne unused =
      let real : (fresh == null) ≡ false = ground arith in
      let some_first : (p == null) ≡ false = ground arith in
      let out = not-has_of_none h fresh ((p, x) ∷ xs) c unused in
      rw (real, ef, some_first)
        (returns (record {
          first = refl;
          last = el;
          chain = (ne, ground arith, out, Chain-write h fresh _ ((p, x) ∷ xs) c out);
        }))

  tget_at :
      (p x : ℕ) (xs : Cells)
      → f ≡ p
      → l ≡ last_link ((p, x) ∷ xs)
      → Chain h ((p, x) ∷ xs)
      → Returns (λ r t. (r ≡ some x) × IsQueue t xs × (t.heap p ≡ none)) (queue_tget queue_at)
  unfolding queue_tget load
  tget_at p x [] ef el (np, at, out, c) =
      let real : (p == null) ≡ false = ground arith in
      rw (ef, real, at)
        (returns (refl, record { first = refl; last = refl; chain = tt }, ground arith))
  tget_at p x ((r, y) ∷ xs) ef el (np, at, out, c) =
      let real : (p == null) ≡ false = ground arith in
      let more : (r == null) ≡ false = ground arith in
      rw (ef, real, at, more)
        (returns (
          refl,
          record { first = refl; last = el; chain = Chain-write h p none ((r, y) ∷ xs) c out },
          ground arith,
        ))

-- On a queue of given cells, with an unused address from `calloc`, `queue_add` returns and puts
-- the new item to the back.
pub queue_add-append :
    (fresh : Ptr) (item : ℕ) (q : Queue) (xs : Cells)
    → IsQueue q xs
    → fresh ≢ null
    → q.heap fresh ≡ none
    → Returns (λ _ t. IsQueue t (xs ++ (fresh, item) ∷ [])) (queue_add fresh item q)
queue_add-append fresh item q xs is =
    add_at q.heap q.first q.last fresh item xs is.first is.last is.chain

-- On a queue of given cells, with an unused address from `calloc`, `queue_insert` returns and
-- puts the new item to the front.
pub queue_insert-cons :
    (fresh : Ptr) (item : ℕ) (q : Queue) (xs : Cells)
    → IsQueue q xs
    → fresh ≢ null
    → q.heap fresh ≡ none
    → Returns (λ _ t. IsQueue t ((fresh, item) ∷ xs)) (queue_insert fresh item q)
queue_insert-cons fresh item q xs is =
    insert_at q.heap q.first q.last fresh item xs is.first is.last is.chain

-- On a queue with a first cell, `queue_tget` returns its item, frees its element, and leaves a
-- queue of the rest.
pub queue_tget-cons :
    (q : Queue) (p x : ℕ) (xs : Cells)
    → IsQueue q ((p, x) ∷ xs)
    → Returns (λ r t. (r ≡ some x) × IsQueue t xs × (t.heap p ≡ none)) (queue_tget q)
queue_tget-cons q p x xs is = tget_at q.heap q.first q.last p x xs is.first is.last is.chain
