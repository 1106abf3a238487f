-- ===== src/Message/Fifo.antt =====
-- The queue of MessageQueue.cpp seen as a first-in first-out sequence, and its byte count.
use mathlib.Core.List.{reverse-cons, reverse-append}
use ian.Prelude.{
  ℕ, ◌+◌, ◌-◌, ◌%◌, ◌≡◌, refl, ap, none, some, List, [], ◌∷◌, ◌++◌, map, reverse, Bytes, length,
  size_mod, ok, arith,
}
use ian.Message.{Message, from_vector, size, MessageQueue, empty_queue, push, pop_back, try_pop}

-- The payloads in the queue, oldest first. Only messages with a payload are ever queued.
abbrev pub Holds : MessageQueue → List Bytes → Type 0
Holds q waiting = q.queue ≡ reverse (map from_vector waiting)

abbrev pub sizes : List Bytes → ℕ
sizes [] = 0
sizes (b ∷ bs) = length b + sizes bs

-- `total_size` is the sum of the sizes, as far as a size_t can tell.
pub record Queues (q : MessageQueue) (waiting : List Bytes) : Type 0 where
  pub holds : Holds q waiting
  pub total : q.total_size ≡ sizes waiting % size_mod

pub sizes-append : (xs ys : List Bytes) → sizes (xs ++ ys) ≡ sizes xs + sizes ys
sizes-append [] ys = omega arith
sizes-append (x ∷ xs) ys = omega (arith, sizes-append xs ys)

pub map-concat {ℓ κ} :
    {A : Type ℓ} {B : Type κ} (f : A → B) (xs : List A) (x : A)
    → map f (xs ++ x ∷ []) ≡ map f xs ++ f x ∷ []
map-concat f [] x = refl
map-concat f (y ∷ ys) x = ap (◌∷◌ (f y)) (map-concat f ys x)

pop_back-concat {ℓ} : {A : Type ℓ} (x y : A) (ys : List A) → pop_back x (ys ++ y ∷ []) ≡ (x ∷ ys, y)
unfolding pop_back
pop_back-concat x y [] = refl
pop_back-concat x y (z ∷ zs) = rw (pop_back-concat z y zs)

reverse-concat {ℓ} : {A : Type ℓ} (xs : List A) (x : A) → reverse (xs ++ x ∷ []) ≡ x ∷ reverse xs
reverse-concat xs x = reverse-append xs (x ∷ [])

-- An empty queue holds nothing.
pub Queues-empty : Queues empty_queue []
Queues-empty = record { holds = refl; total = refl }

pub Queues-push :
    (b : Bytes) (q : MessageQueue) (waiting : List Bytes)
    → Queues q waiting
    → (r : MessageQueue) × (push (from_vector b) q ≡ ok r) × Queues r (waiting ++ b ∷ [])
unfolding push size
Queues-push b q waiting v = (
  record { queue = from_vector b ∷ q.queue; total_size = (q.total_size + length b) % size_mod },
  refl,
  record {
    holds =
        rw
          (
            map-concat from_vector waiting b,
            reverse-concat (map from_vector waiting) (from_vector b),
          )
          (ap (◌∷◌ (from_vector b)) v.holds);
    total = omega (arith, v.total, sizes-append waiting (b ∷ []));
  },
)

try_pop-concat :
    (xs : List Message) (b : Bytes) (total : ℕ)
    → try_pop (record { queue = xs ++ from_vector b ∷ []; total_size = total })
      ≡ ok (
          some (
            from_vector b,
            record { queue = xs; total_size = (total + size_mod - length b % size_mod) % size_mod },
          ))
unfolding try_pop size
try_pop-concat [] b total = unfold pop_back in refl
try_pop-concat (x ∷ xs) b total = rw (pop_back-concat x (from_vector b) xs)

-- An empty queue answers `false`; any other gives its oldest message.
abbrev pub Pops : List Bytes → MessageQueue → Type 0
Pops [] q = try_pop q ≡ ok none
Pops (b ∷ waiting) q =
    (r : MessageQueue) × (try_pop q ≡ ok (some (from_vector b, r))) × Queues r waiting

pub Queues-try_pop : (waiting : List Bytes) (q : MessageQueue) → Queues q waiting → Pops waiting q
unfolding try_pop
Queues-try_pop [] q v = rw v.holds
Queues-try_pop (b ∷ waiting) q v = (
  record {
    queue = reverse (map from_vector waiting);
    total_size = (q.total_size + size_mod - length b % size_mod) % size_mod;
  },
  rw (v.holds, reverse-cons (from_vector b) (map from_vector waiting))
      (try_pop-concat (reverse (map from_vector waiting)) b q.total_size),
  record { holds = refl; total = omega (arith, v.total) },
)
