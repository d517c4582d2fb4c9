-- ===== src/Deque/Append.antt =====
-- `queue_append` of src/p0/queue.c puts an item to the back.
use operating_system_practic.Base.{
  ℕ, suc, ◌≡◌, ◌≢◌, refl, sym, ap, ◌∙◌, true, false, ◌==◌, Option, none, some, [], ◌∷◌, ◌++◌,
  length, pos, ◌<◌, ◌^◌, ◌+◌, ltb, update, arith, success,
}
use operating_system_practic.Run.{Returns, returns}
use operating_system_practic.Queue.Chain.{Cells, has, has-append}
use operating_system_practic.Deque.{Ptr, null, Node, place_node, append_node, queue_append}
use operating_system_practic.Deque.Cells.{
  last_ptr, Linked, not-has_of_none, set_next_at, set_prev_at, update_there, update_elsewhere,
}
use operating_system_practic.Deque.Ends.{Holds, queue_of}

has-last_ptr : (a : Ptr) (x : ℕ) (xs : Cells) → has (last_ptr a xs) ((a, x) ∷ xs) ≡ true
has-last_ptr a x [] = ground arith
has-last_ptr a x ((b, y) ∷ xs) = ground (arith, has-last_ptr b y xs)

-- The last node is there.
last-cell :
    (h : Ptr → Option Node) (p a : Ptr) (x : ℕ) (xs : Cells)
    → Linked h p ((a, x) ∷ xs)
    → (n : Node) × (h (last_ptr a xs) ≡ some n)
last-cell h p a x [] (ne, at, out, c) = (_, at)
last-cell h p a x ((b, y) ∷ xs) (ne, at, out, c) = last-cell h a b y xs c

last_ptr-append :
    (p : Ptr) (xs : Cells) (fresh item : ℕ) → last_ptr p (xs ++ (fresh, item) ∷ []) ≡ fresh
last_ptr-append p [] fresh item = refl
last_ptr-append p ((a, x) ∷ xs) fresh item = last_ptr-append a xs fresh item

length-append : (xs : Cells) (c : Ptr × ℕ) → length (xs ++ c ∷ []) ≡ length xs + 1
length-append [] c = refl
length-append (d ∷ xs) c = omega (arith, length-append xs c)

-- The cells with one more behind the last.
Linked-append :
    (h g : Ptr → Option Node) (fresh item : ℕ) (p a : Ptr) (x : ℕ) (xs : Cells)
    → Linked h p ((a, x) ∷ xs)
    → fresh ≢ null
    → has fresh ((a, x) ∷ xs) ≡ false
    → ((b : Ptr) → b ≢ last_ptr a xs → b ≢ fresh → g b ≡ h b)
    → ((n : Node)
        → h (last_ptr a xs) ≡ some n
        → g (last_ptr a xs) ≡ some (record n { next = fresh }))
    → g fresh ≡ some (record { prev = last_ptr a xs; next = null; item = item })
    → Linked g p ((a, x) ∷ (xs ++ (fresh, item) ∷ []))
Linked-append h g fresh item p a x [] (ne, at, out, c) real absent same last new =
    (ne, last _ at, ground (arith, absent), (real, new, refl, tt))
Linked-append h g fresh item p a x ((b, y) ∷ xs) (ne, at, out, c) real absent same last new =
    let inner = has-last_ptr b y xs in
    let apart : a ≢ last_ptr b xs =
      λ e. ground (arith, out, inner, ap (λ z. has z ((b, y) ∷ xs)) e) in
    let other : a ≢ fresh = ground (arith, absent) in
    (
      ne,
      same a apart other ∙ at,
      has-append a ((b, y) ∷ xs) ((fresh, item) ∷ []) ∙ ground (arith, out, other),
      Linked-append h g fresh item a b y xs c real (ground (arith, absent)) same last new,
    )

abbrev map_next : Ptr → Option Node → Option Node
map_next fresh none = none
map_next fresh (some n) = some (record n { next = fresh })

there :
    (fresh : Ptr) (old n : Node) (v : Option Node)
    → v ≡ some (record old { next = fresh })
    → some old ≡ some n
    → v ≡ some (record n { next = fresh })
there fresh old n v e same = e ∙ ap (λ m. map_next fresh m) same

module _ (h : Ptr → Option Node) where
  pub append-Holds :
      (fresh : Ptr) (memory : Node) (item : ℕ) (xs : Cells)
      → Linked h null xs
      → item ≢ 0
      → fresh ≢ null
      → h fresh ≡ none
      → length xs + 1 < 2 ^ 31
      → Returns
          (λ r t. (r ≡ success) × Holds (xs ++ (fresh, item) ∷ []) t)
          (queue_append fresh memory item (some (queue_of h xs)))
  unfolding queue_append append_node
  append-Holds fresh memory item [] c real_item ne unused small =
      let real : (fresh == null) ≡ false = ground arith in
      let some_item : (item == 0) ≡ false = ground arith in
      let node = record memory { item = item } in
      let q0 = record (place_node fresh memory item (queue_of h [])) { head = fresh } in
      let q1 = record q0 {
        heap = update q0.heap fresh (some (record node { prev = null }));
        tail = fresh;
      } in
      rw
        (
          real,
          some_item,
          set_prev_at q0 fresh null node (update_there h fresh (some node)),
          set_next_at q1 fresh null (record node { prev = null }) (update_there q0.heap fresh _),
        )
        (returns (
          refl,
          record { head = refl; tail = refl; length = refl; linked = (ne, ground arith, refl, tt) },
        ))
  append-Holds fresh memory item ((p, x) ∷ xs) c real_item ne unused small =
      let real : (fresh == null) ≡ false = ground arith in
      let some_item : (item == 0) ≡ false = ground arith in
      let more : (suc (length xs) == 0) ≡ false = ground arith in
      let room : ltb (suc (length xs) + 1) (2 ^ 31) ≡ true = ground arith in
      let absent = not-has_of_none h null fresh ((p, x) ∷ xs) c unused in
      let (old, at) = last-cell h null p x xs c in
      let l = last_ptr p xs in
      let apart : fresh ≢ l =
        λ e. ground (arith, absent, has-last_ptr p x xs, ap (λ z. has z ((p, x) ∷ xs)) e) in
      let node = record memory { item = item } in
      let q0 = place_node fresh memory item (queue_of h ((p, x) ∷ xs)) in
      let q1 = record q0 { heap = update q0.heap l (some (record old { next = fresh })) } in
      let q2 = record q1 {
        heap = update q1.heap fresh (some (record node { prev = l }));
        tail = fresh;
      } in
      let g = update q2.heap fresh (some (record { prev = l; next = null; item = item })) in
      rw
        (
          real,
          some_item,
          more,
          set_next_at q0 l fresh old (update_elsewhere h fresh (some node) l apart ∙ at),
          set_prev_at q1 fresh l node (
              update_elsewhere q0.heap l _ fresh (λ e. apart (sym e))
              ∙ update_there h fresh (some node)),
          set_next_at q2 fresh null (record node { prev = l }) (update_there q1.heap fresh _),
          room,
        )
        (returns (
          refl,
          record {
            head = refl;
            tail = sym (last_ptr-append p xs fresh item);
            length = ap pos (omega (arith, length-append xs (fresh, item)));
            linked =
                Linked-append h g fresh item null p x xs c ne absent
                  (λ b nl nf.
                    update_elsewhere q2.heap fresh _ b (λ e. nf (sym e))
                    ∙ update_elsewhere q1.heap fresh _ b (λ e. nf (sym e))
                    ∙ update_elsewhere q0.heap l _ b (λ e. nl (sym e))
                    ∙ update_elsewhere h fresh _ b (λ e. nf (sym e)))
                  (λ n e.
                    there fresh old n (g l)
                      (update_elsewhere q2.heap fresh _ l apart
                        ∙ update_elsewhere q1.heap fresh _ l apart
                        ∙ update_there q0.heap l _)
                      (sym at ∙ e))
                  (update_there q2.heap fresh _);
          },
        ))
