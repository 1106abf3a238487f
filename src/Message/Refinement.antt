-- ===== src/Message/Refinement.antt =====
-- Whole histories of calls on the queue of MessageQueue.cpp, against a first-in first-out list.
use mathlib.Core.List.{reverse-cons}
use ian.Prelude.{
  ◌%◌, ◌≡◌, refl, ap, Option, none, some, List, [], ◌∷◌, ◌++◌, map, reverse, Bytes, length,
  length-append, size_mod, Run, ok, ◌>>=◌, arith,
}
use ian.Message.{
  Message, from_vector, MessageQueue, empty_queue, push, try_pop, clear, get_message_count,
  get_total_size,
}
use ian.Message.Fifo.{sizes, Queues, Queues-empty, Queues-push, Queues-try_pop}

pub data Request : Type 0 where
  pushes : Bytes → Request
  pops clears : Request

abbrev pub Answers : Type 0
Answers = List (Option Message)

abbrev answered : Option Message → Run (Answers × MessageQueue) → Run (Answers × MessageQueue)
answered a r = r >>= λ (later, q). ok (a ∷ later, q)

-- The answers of the `try_pop` calls of a history, and the queue behind it.
pub serve : List Request → MessageQueue → Run (Answers × MessageQueue)
serve [] q = ok ([], q)
serve (pushes b ∷ rs) q = push (from_vector b) q >>= λ q'. serve rs q'
serve (pops ∷ rs) q =
    try_pop q
    >>= elim [ none ↦ answered none (serve rs q) | some (m, q') ↦ answered (some m) (serve rs q') ]
serve (clears ∷ rs) q = serve rs (clear q)

-- The same on a list of the waiting payloads, oldest first.
abbrev pub fifo : List Request → List Bytes → Answers × List Bytes
fifo [] waiting = ([], waiting)
fifo (pushes b ∷ rs) waiting = fifo rs (waiting ++ b ∷ [])
fifo (pops ∷ rs) [] = (none ∷ (fifo rs []).0, (fifo rs []).1)
fifo (pops ∷ rs) (b ∷ waiting) = (some (from_vector b) ∷ (fifo rs waiting).0, (fifo rs waiting).1)
fifo (clears ∷ rs) waiting = fifo rs []

-- What a queue reports of the payloads that wait in it.
abbrev pub Reports : MessageQueue → List Bytes → Type 0
Reports q waiting =
    (get_message_count q ≡ length waiting) × (get_total_size q ≡ sizes waiting % size_mod)

length-holds : (waiting : List Bytes) → length (reverse (map from_vector waiting)) ≡ length waiting
length-holds [] = refl
length-holds (b ∷ waiting) = omega (
  arith,
  ap length (reverse-cons (from_vector b) (map from_vector waiting)),
  length-append (reverse (map from_vector waiting)) (from_vector b ∷ []),
  length-holds waiting,
)

Queues-Reports : (q : MessageQueue) (waiting : List Bytes) → Queues q waiting → Reports q waiting
unfolding get_message_count get_total_size
Queues-Reports q waiting v = (rw v.holds (length-holds waiting), v.total)

abbrev Serves : List Request → List Bytes → MessageQueue → Type 0
Serves rs waiting q =
    (r : MessageQueue) × (serve rs q ≡ ok ((fifo rs waiting).0, r)) × Queues r (fifo rs waiting).1

serve-Serves :
    (rs : List Request) (waiting : List Bytes) (q : MessageQueue)
    → Queues q waiting
    → Serves rs waiting q
unfolding serve clear
serve-Serves [] waiting q v = (q, refl, v)
serve-Serves (pushes b ∷ rs) waiting q v =
    let (q', pushed, v') = Queues-push b q waiting v in
    let (r, served, w) = serve-Serves rs (waiting ++ b ∷ []) q' v' in (r, rw pushed served, w)
serve-Serves (pops ∷ rs) [] q v =
    let (r, served, w) = serve-Serves rs [] q v in (r, rw (Queues-try_pop [] q v, served), w)
serve-Serves (pops ∷ rs) (b ∷ waiting) q v =
    let (q', popped, v') = Queues-try_pop (b ∷ waiting) q v in
    let (r, served, w) = serve-Serves rs waiting q' v' in (r, rw (popped, served), w)
serve-Serves (clears ∷ rs) waiting q v = serve-Serves rs [] empty_queue Queues-empty

-- A queue that holds some payloads in their order never fails over any history of `push` calls with
-- a payload, `try_pop` and `clear` calls: each `try_pop` answers as a first-in first-out list does,
-- and the queue behind the history holds what that list holds, so that it reports the number of its
-- messages and the sum of their sizes modulo 2^64.
pub serve-fifo :
    (rs : List Request) (waiting : List Bytes) (q : MessageQueue)
    → Queues q waiting
    → (r : MessageQueue) × (serve rs q ≡ ok ((fifo rs waiting).0, r))
      × Queues r (fifo rs waiting).1
      × Reports r (fifo rs waiting).1
serve-fifo rs waiting q v =
    let (r, served, w) = serve-Serves rs waiting q v in
    (r, served, w, Queues-Reports r (fifo rs waiting).1 w)
