-- ===== src/Run.antt =====
-- Commands over an explicit state, and their total correctness: what a call of a C function that
-- may change memory, stop the program or loop amounts to.
use operating_system_practic.Base.{◌≡◌, refl}

-- `halt` is `exit(1)`, `panic` or a trap; `spin` is a loop that used up the fuel it was given.
pub data Run (S A : Type 0) : Type 0 where
  ok : A → S → Run S A
  halt : Run S A
  spin : Run S A

abbrev pub Cmd : Type 0 → Type 0 → Type 0
Cmd S A = S → Run S A

-- What follows a call may run on another state, of which the callee's is a part.
abbrev pub and_then : {S T A B : Type 0} → Run S A → (A → S → Run T B) → Run T B
and_then (ok a s) k = k a s
and_then halt k = halt
and_then spin k = spin

-- The run with its state seen through `g`.
abbrev pub map_state : {S T A : Type 0} → (S → T) → Run S A → Run T A
map_state g (ok a s) = ok a (g s)
map_state g halt = halt
map_state g spin = spin

pub map_state-and_then :
    {S T A B : Type 0} (g : S → T) (f : A → B) (m : Run S A)
    → map_state g (and_then m (λ a s. ok (f a) s)) ≡ and_then (map_state g m) (λ a s. ok (f a) s)
map_state-and_then g f (ok a s) = refl
map_state-and_then g f halt = refl
map_state-and_then g f spin = refl

-- What wraps the state and what wraps the result may change places.
pub and_then_comm :
    {S T A B : Type 0} (h : S → T) (f : A → B) (m : Run S A)
    → and_then (and_then m (λ a s. ok a (h s))) (λ a t. ok (f a) t)
      ≡ and_then (and_then m (λ a s. ok (f a) s)) (λ b s. ok b (h s))
and_then_comm h f (ok a s) = refl
and_then_comm h f halt = refl
and_then_comm h f spin = refl

module _ {S A : Type 0} where
  -- The run ends by itself, in a result and a state with the property.
  pub data Returns (P : A → S → Type 0) : Run S A → Type 0 where
    returns : {a : A} {s : S} → P a s → Returns P (ok a s)

module _ {S A : Type 0} {P : A → S → Type 0} where
  pub bind :
      {T B : Type 0} {Q : B → T → Type 0} {r : Run S A} {k : A → S → Run T B}
      → Returns P r
      → ((a : A) (s : S) → P a s → Returns Q (k a s))
      → Returns Q (and_then r k)
  bind (returns p) next = next _ _ p

  -- The same after a call whose result is only renamed.
  pub bind_map :
      {T B C : Type 0} {Q : B → T → Type 0} {r : Run S A} (f : A → C) (k : C → S → Run T B)
      → Returns P r
      → ((a : A) (s : S) → P a s → Returns Q (k (f a) s))
      → Returns Q (and_then (and_then r (λ a s. ok (f a) s)) k)
  bind_map f k (returns p) next = next _ _ p

  pub mono :
      {Q : A → S → Type 0} {r : Run S A}
      → Returns P r
      → ((a : A) (s : S) → P a s → Q a s)
      → Returns Q r
  mono (returns p) weaken = returns (weaken _ _ p)

  -- Two properties of one run.
  pub both :
      {Q : A → S → Type 0} {r : Run S A}
      → Returns P r
      → Returns Q r
      → Returns (λ a s. P a s × Q a s) r
  both (returns p) (returns q) = returns (p, q)
