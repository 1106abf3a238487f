-- ===== src/Message.antt =====
-- Messages and the queue of outbound messages: server/common/include/common/Message.hpp,
-- server/common/src/Message.cpp, server/common/include/common/MessageQueue.hpp and
-- server/common/src/MessageQueue.cpp.
-- `std::list` is a list whose head is the front; its moved-from messages are not looked at again.
pub mod Fifo
pub mod Refinement
mod Tests
use ian.Prelude.{
  ℕ, zero, suc, ◌+◌, ◌-◌, ◌%◌, Bool, true, false, Option, none, some, List, [], ◌∷◌, Bytes, length,
  size_mod, Run, ok, null_deref, ◌>>=◌,
}

-- `impl_`, a shared pointer that may be null; the bytes are those of the `MessageImplVector`.
pub record Message : Type 0 where
  pub impl : Option Bytes

abbrev pub empty_message : Message
empty_message = record { impl = none }

abbrev pub from_vector : Bytes → Message
from_vector bytes = record { impl = some bytes }

abbrev is_none {ℓ} : {A : Type ℓ} → Option A → Bool
is_none none = true
is_none (some a) = false

abbrev deref : Option Bytes → Run Bytes
deref none = null_deref
deref (some bytes) = ok bytes

unfoldable pub is_empty : Message → Bool
is_empty m = is_none m.impl

-- `data()` and `size()` call through the pointer, whatever it holds.
unfoldable pub payload : Message → Run Bytes
payload m = deref m.impl

unfoldable pub size : Message → Run ℕ
unfolding payload
size m = do bytes ← payload m; ok (length bytes)

pub record MessageQueue : Type 0 where
  pub queue : List Message
  pub total_size : ℕ

abbrev pub empty_queue : MessageQueue
empty_queue = record { queue = []; total_size = 0 }

unfoldable pub push : Message → MessageQueue → Run MessageQueue
push m q = do
  n ← size m
  ok (record { queue = m ∷ q.queue; total_size = (q.total_size + n) % size_mod })

-- The list without its last element, and that element.
unfoldable pub pop_back {ℓ} : {A : Type ℓ} → A → List A → List A × A
pop_back x [] = ([], x)
pop_back x (y ∷ ys) = let (rest, last) = pop_back y ys in (x ∷ rest, last)

-- `none` is the answer `false`. Subtraction on a size_t wraps around.
abbrev pop_from : List Message → ℕ → Run (Option (Message × MessageQueue))
pop_from [] total = ok none
pop_from (m ∷ ms) total =
    let (rest, last) = pop_back m ms in
    do
      n ← size last
      ok (
          some (
            last,
            record { queue = rest; total_size = (total + size_mod - n % size_mod) % size_mod },
          ))

unfoldable pub try_pop : MessageQueue → Run (Option (Message × MessageQueue))
try_pop q = pop_from q.queue q.total_size

unfoldable pub clear : MessageQueue → MessageQueue
clear q = empty_queue

unfoldable pub get_message_count : MessageQueue → ℕ
get_message_count q = length q.queue

unfoldable pub get_total_size : MessageQueue → ℕ
get_total_size q = q.total_size
