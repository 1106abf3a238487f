-- ===== src/Cluster/Tests.antt =====
-- Runs of a ClusterConnection.
use ian.Prelude.{
  ◌≡◌, refl, List, [], ◌∷◌, ◌⊎◌, ◌++◌, map, true, false, none, Bytes, ok, null_deref, arith,
}
use ian.Message.{from_vector, is_empty, pop_back, push, size, try_pop}
use ian.Message.Fifo.{Queues-empty}
use ian.Cluster.State.{
  SslRole, ssl_handshake, posted, message_write, link, ClusterConnection, new_connection, run,
  send_message, shutdown, on_posted, read_next,
}
use ian.Cluster.Connection.{
  Completion, write_next, on_write_message, on_read, on_ian_handshake, complete,
}
use ian.Cluster.Chunks.{on_read-append}
use ian.Cluster.Frames.{frame, joined, wire, Receives, received, Receives-wire, on_read_zero_length}
use ian.Cluster.Invariant.{Inv, Kept}
use ian.Cluster.Steps.{
  without, complete-Inv, sends, completes, Steps, here, next, Exclusive, Steps-Exclusive, run-Inv,
}
use ian.Cluster.Handshake.{on_ssl_handshake-null_deref}
use ian.Cluster.HandshakeFrames.{HandshakeOutcome, on_ian_handshake-Outcome}
use ian.Cluster.Channel.{Channel, writes, Trace, posts, completes, reads}
use ian.Cluster.Delivery.{Quiet, delivers}
use ian.Cluster.Outbound.{InOrder}
use ian.Cluster.Executor.{ran, Steps-InOrder}
use ian.Cluster.Order.{Traffic, task, written, acts, tasks, Live, acts-order}

abbrev ready : ClusterConnection
ready = record (new_connection true) { in_message_len = 0 }

abbrev payloads : List Bytes
payloads = (7 ∷ 8 ∷ []) ∷ (9 ∷ []) ∷ []

-- Two frames, cut within the first length and within the first payload.
abbrev chunks : List Bytes
chunks = (2 ∷ 0 ∷ []) ∷ (0 ∷ 0 ∷ 7 ∷ []) ∷ (8 ∷ 1 ∷ 0 ∷ 0 ∷ 0 ∷ 9 ∷ []) ∷ []

Receives-wire_example : Receives chunks ready (received payloads ready)
Receives-wire_example =
    Receives-wire payloads chunks ready
      ((omega arith, omega arith), ((omega arith, omega arith), tt)) refl refl refl

on_read_zero_length_example :
    (is_empty (from_vector []) ≡ false)
    × (on_read none (wire payloads ++ (frame [] ++ 5 ∷ [])) ready
        ≡ ok (shutdown (record (received payloads ready) { read_buffer = 5 ∷ [] })))
on_read_zero_length_example =
    on_read_zero_length payloads (5 ∷ []) ready
      ((omega arith, omega arith), ((omega arith, omega arith), tt)) refl refl

-- `ready` behind the first length and half of the payload.
abbrev half_read : ClusterConnection
half_read = record ready { in_message_len = 2; read_buffer = 7 ∷ [] }

on_read-append_example :
    (on_read none (2 ∷ 0 ∷ 0 ∷ 0 ∷ 7 ∷ []) ready ≡ ok (read_next half_read))
    × (on_read none (8 ∷ []) half_read ≡ on_read none (2 ∷ 0 ∷ 0 ∷ 0 ∷ 7 ∷ 8 ∷ []) ready)
unfolding on_read
on_read-append_example = on_read-append (2 ∷ 0 ∷ 0 ∷ 0 ∷ 7 ∷ []) (8 ∷ []) ready half_read refl

on_ian_handshake-Outcome_example :
    HandshakeOutcome
      (1 ∷ 2 ∷ [])
      (3 ∷ [])
      ready
      (on_ian_handshake none (frame (1 ∷ 2 ∷ []) ++ 3 ∷ []) ready)
on_ian_handshake-Outcome_example =
    on_ian_handshake-Outcome (1 ∷ 2 ∷ []) (3 ∷ []) ready (omega arith, omega arith) refl refl

abbrev started : ClusterConnection
started = run SslRole.client true none (new_connection false)

abbrev done : Completion
done = record { status = none; bytes = [] }

abbrev asked : ClusterConnection
asked = send_message (from_vector (1 ∷ [])) started

-- A message that was posted, and queued while the handshake is under way.
abbrev queued : ClusterConnection
queued = record started {
  message_queue = record { queue = from_vector (1 ∷ []) ∷ []; total_size = 1 };
}

queueing : Steps started queued
unfolding run send_message is_empty complete on_posted push size
queueing = next (next here (sends (from_vector (1 ∷ [])))) (
    completes [] (posted (from_vector (1 ∷ []))) (ssl_handshake SslRole.client ∷ []) done refl refl)

Steps-Exclusive_example : Exclusive queued
Steps-Exclusive_example = Steps-Exclusive [] (run-Inv SslRole.client true false none) queueing

Steps-InOrder_example : InOrder ((started.sent ++ map from_vector []) ++ ran queueing) queued
Steps-InOrder_example = Steps-InOrder [] (run-Inv SslRole.client true false none) queueing

on_ssl_handshake-null_deref_example :
    complete
      (ssl_handshake SslRole.client)
      (record { status = none; bytes = [] })
      (without [] [] queued)
    ≡ null_deref
unfolding run
on_ssl_handshake-null_deref_example =
    on_ssl_handshake-null_deref SslRole.client true false none queued [] [] SslRole.client []
      queueing refl

-- A connection whose handshake message is there.
abbrev greeting : ClusterConnection
greeting = record started { message_outbound = from_vector (5 ∷ []) }

greeting-Inv : Inv 0 0 [] greeting
greeting-Inv =
    let v = run-Inv SslRole.client true false none in
    record {
      queued = v.queued;
      writers = v.writers;
      readers = v.readers;
      shutdowns = v.shutdowns;
      posts = v.posts;
      idle = v.idle;
      ended = v.ended;
      socket = v.socket;
    }

complete-Inv_example : Kept (complete (ssl_handshake SslRole.client) done (without [] [] greeting))
unfolding run
complete-Inv_example =
    complete-Inv [] (ssl_handshake SslRole.client) [] done [] greeting refl (λ e. (5 ∷ [], refl))
      greeting-Inv

abbrev traffic : List Traffic
traffic = task (1 ∷ []) ∷ task (2 ∷ []) ∷ written ∷ task (3 ∷ []) ∷ []

acts-order_example :
    (c' : ClusterConnection) × (waiting' : List Bytes) × (acts traffic ready ≡ ok c')
    × Live waiting' c'
    × (c'.sent ++ map from_vector waiting' ≡ ([] ++ []) ++ map from_vector (tasks traffic))
acts-order_example =
    acts-order traffic [] ready
      (record { queued = Queues-empty; here = refl; open_ = refl; idle = λ e. refl })

-- Two messages are posted; the first is written, and a part of its frame read.
abbrev quiet : Channel
quiet = record { sender = ready; transit = []; receiver = ready }

quiet-Quiet : Quiet quiet
quiet-Quiet = record {
  sends = record {
    queued = Queues-empty;
    alive = refl;
    open_ = refl;
    idle = λ e. refl;
    one = (refl, refl);
  };
  clear = refl;
  whole = refl;
  empty = refl;
}

abbrev passed : Channel
passed = record {
  sender = record ready {
    is_writing = true;
    message_outbound = from_vector (9 ∷ []);
    out_message_len_le = 1 ∷ 0 ∷ 0 ∷ 0 ∷ [];
    pending = message_write (link true) (frame (9 ∷ [])) ∷ [];
    sent = map from_vector payloads;
  };
  transit = 8 ∷ [];
  receiver = half_read;
}

passing : Trace quiet payloads passed
unfolding on_posted push pop_back size on_write_message write_next try_pop on_read
passing =
    Trace.next
      (Trace.next
        (Trace.next (Trace.next Trace.here (posts (7 ∷ 8 ∷ []) _ refl)) (posts (9 ∷ []) _ refl))
        (completes [] _ _ [] _ refl refl))
      (reads (2 ∷ 0 ∷ 0 ∷ 0 ∷ 7 ∷ []) _ half_read refl refl)

delivers_example :
    (done : List Bytes) × (rest : List Bytes) × (payloads ≡ done ++ rest)
    × ((chunks : List Bytes)
        → joined chunks ≡ 8 ∷ []
        → Receives chunks half_read (received done ready))
    × ((rest ≡ [])
        ⊎ ((b : Bytes) × (more : List Bytes) × (rest ≡ b ∷ more)
            × (writes passed.sender.pending ≡ frame b ∷ [])))
delivers_example =
    delivers ((omega arith, omega arith), ((omega arith, omega arith), tt)) quiet-Quiet passing
