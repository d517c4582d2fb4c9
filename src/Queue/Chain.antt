-- ===== src/Queue/Chain.antt =====
-- The elements of a queue of shared/queue.c, as a list of addresses and items.
use operating_system_practic.Base.{
  ℕ, ◌≡◌, ◌≢◌, refl, Bool, true, false, ◌||◌, ◌==◌, Option, none, some, List, [], ◌∷◌, ◌++◌, arith,
}
use operating_system_practic.Queue.{Ptr, null, Element, Link, first_link, next_link, Queue, write}

abbrev pub Cells : Type 0
Cells = List (Ptr × ℕ)

abbrev pub has : Ptr → Cells → Bool
has a [] = false
has a ((p, x) ∷ xs) = (a == p) || has a xs

abbrev pub head_ptr : Cells → Ptr
head_ptr [] = null
head_ptr ((p, x) ∷ xs) = p

abbrev pub last_link : Cells → Link
last_link [] = first_link
last_link ((p, x) ∷ []) = next_link p
last_link ((p, x) ∷ c ∷ xs) = last_link (c ∷ xs)

-- The cells are distinct elements of the heap, each linked to the one after it.
abbrev pub Chain : (Ptr → Option Element) → Cells → Type 0
Chain h [] = Unit {0}
Chain h ((p, x) ∷ xs) =
    (p ≢ null)
    × (h p ≡ some (record { next = head_ptr xs; item = x }))
    × (has p xs ≡ false)
    × Chain h xs

-- The queue consists of the cells.
pub record IsQueue (q : Queue) (xs : Cells) : Type 0 where
  pub first : q.first ≡ head_ptr xs
  pub last : q.last ≡ last_link xs
  pub chain : Chain q.heap xs

-- A chain survives what happens elsewhere.
pub Chain-frame :
    {h g : Ptr → Option Element} (xs : Cells)
    → Chain h xs
    → ((a : Ptr) → has a xs ≡ true → g a ≡ h a)
    → Chain g xs
Chain-frame [] c same = tt
Chain-frame ((p, x) ∷ xs) (ne, at, out, c) same =
    (ne, ground (arith, same p), out, Chain-frame xs c (λ a i. same a (ground arith)))

pub not-has_of_none :
    (h : Ptr → Option Element) (a : Ptr) (xs : Cells) → Chain h xs → h a ≡ none → has a xs ≡ false
not-has_of_none h a [] c e = refl
not-has_of_none h a ((p, x) ∷ xs) (ne, at, out, c) e = ground (arith, not-has_of_none h a xs c e)

pub Chain-write :
    (h : Ptr → Option Element) (a : Ptr) (v : Option Element) (xs : Cells)
    → Chain h xs
    → has a xs ≡ false
    → Chain (write h a v) xs
Chain-write h a v xs c out = Chain-frame xs c (λ b i. ground arith)

pub has-append : (a : Ptr) (xs ys : Cells) → has a (xs ++ ys) ≡ (has a xs || has a ys)
has-append a [] ys = refl
has-append a ((p, x) ∷ xs) ys = ground (arith, has-append a xs ys)
