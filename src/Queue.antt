-- ===== src/Queue.antt =====
-- shared/queue.c: a singly linked queue with a pointer to its last link, over an explicit heap.
pub mod Chain
pub mod Order
mod Tests
use operating_system_practic.Base.{
  ℕ, ◌==◌, Bool, true, false, Option, none, some, update, if◌then◌else◌,
}
use operating_system_practic.Run.{Cmd, Run, ok, halt, and_then}

abbrev pub Ptr : Type 0
Ptr = ℕ

abbrev pub null : Ptr
null = 0

-- `struct element`; an item is the word that the queue is handed
pub record Element : Type 0 where
  pub next : Ptr
  pub item : ℕ

-- What `struct element **last` points to: `&q->first`, or `&e->next`.
pub data Link : Type 0 where
  first_link : Link
  next_link : Ptr → Link

-- A `struct queue` and the heap of its elements.
pub record Queue : Type 0 where
  pub heap : Ptr → Option Element
  pub first : Ptr
  pub last : Link

abbrev pub write : (Ptr → Option Element) → Ptr → Option Element → Ptr → Option Element
write = update

-- `*e`: a fault at an address that holds no element
unfoldable pub load : Ptr → Cmd Queue Element
load e q = elim (q.heap e) [ none ↦ halt | some n ↦ ok n q ]

-- `*q->last = e`
unfoldable pub store_last : Ptr → Cmd Queue (Unit {0})
unfolding load
store_last e q = elim q.last [
  | first_link ↦ ok tt (record q { first = e })
  | next_link p ↦
      and_then (load p q)
        λ n q'. ok tt (record q' { heap = write q'.heap p (some (record n { next = e })) })
]

pub queue_init : (Ptr → Option Element) → Queue
queue_init heap = record { heap = heap; first = null; last = first_link }

-- `fresh` is what `calloc` returns; the code writes through it unchecked.
pub queue_insert : (fresh : Ptr) → ℕ → Cmd Queue (Unit {0})
queue_insert fresh item q =
    if fresh == null
    then halt
    else ok tt (record {
      heap = write q.heap fresh (some (record { next = q.first; item = item }));
      first = fresh;
      last = if q.first == null then next_link fresh else q.last;
    })

pub queue_add : (fresh : Ptr) → ℕ → Cmd Queue (Unit {0})
unfolding store_last
queue_add fresh item q =
    if fresh == null
    then halt
    else and_then
        (store_last fresh
          (record q { heap = write q.heap fresh (some (record { next = null; item = item })) }))
        (λ _ q'. ok tt (record q' { last = next_link fresh }))

-- `queue_tget`; the option is what goes through `item`.
pub queue_tget : Cmd Queue (Option ℕ)
unfolding load
queue_tget q =
    if q.first == null
    then ok none q
    else and_then (load q.first q) λ e q'. ok (some e.item) (record {
      heap = write q'.heap q.first none;
      first = e.next;
      last = if e.next == null then first_link else q'.last;
    })

-- `queue_get` returns 0 on an empty queue.
pub queue_get : Cmd Queue ℕ
unfolding queue_tget
queue_get q = and_then (queue_tget q) λ r q'. ok (elim r [ none ↦ 0 | some item ↦ item ]) q'

pub queue_empty : Queue → Bool
queue_empty q = q.first == null

-- `assert(q->first == 0)`
pub queue_release : Cmd Queue (Unit {0})
queue_release q = if q.first == null then ok tt q else halt
