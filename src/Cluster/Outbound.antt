-- ===== src/Cluster/Outbound.antt =====
-- The outbound messages behind each handler of ClusterConnection.cpp.
use mathlib.Core.List.{reverse-reverse}
use ian.Prelude.{
  ◌≡◌, refl, ap, ◌∙◌, inl, inr, true, false, not, none, some, List, [], ◌∷◌, ◌++◌, map, reverse,
  append-nil, append_assoc, Bytes, length, drop, ltb, ◌==◌, Bool-cases, Option-cases, Run, ok,
}
use ian.Error.{Status}
use ian.Message.{Message, MessageQueue, empty_message, from_vector}
use ian.Message.Fifo.{Queues, Queues-push, Queues-try_pop, map-concat}
use ian.Cluster.State.{
  handshake_write, handshake_read, message_write, ClusterConnection, start, link, length_le,
  on_posted, read_next, abort, shutdown, handle_read_error,
}
use ian.Cluster.Connection.{
  write_next, commit, take_length, handshake_payload, handshake_received, on_ssl_handshake,
  on_ian_handshake, on_write_message,
}
use ian.Cluster.Invariant.{Inv}
use ian.Cluster.Flow.{
  has_ended, Flow, shutdown-Flow, read_error-Flow, write_error-Flow, same-Flow, abort-Flow,
}

-- Of the messages, some were given to the socket, the next ones are in the queue, and the others were
-- thrown away, which happens at the end of the connection only.
pub record InOrder (messages : List Message) (c : ClusterConnection) : Type 0 where
  pub lost : List Message
  pub split : messages ≡ c.sent ++ (reverse c.message_queue.queue ++ lost)
  pub kept : has_ended c ≡ false → lost ≡ []

pub Queues-reverse :
    (q : MessageQueue) (waiting : List Bytes)
    → Queues q waiting
    → reverse q.queue ≡ map from_vector waiting
Queues-reverse q waiting v = ap reverse v.holds ∙ reverse-reverse (map from_vector waiting)

pub Flow-InOrder :
    (messages : List Message) (c c' : ClusterConnection)
    → Flow c c'
    → InOrder messages c
    → InOrder messages c'
Flow-InOrder messages c c' f o =
    let sent = f.same_sent in
    elim f.same_queue [
      | inl e ↦ record {
        lost = o.lost;
        split = rw (sent, e) o.split;
        kept =
            λ live. o.kept (elim (Bool-cases (has_ended c)) [ inl x ↦ cc (f.still x) | inr x ↦ x ]);
      }
      | inr (e, ended) ↦ record {
        lost = reverse c.message_queue.queue ++ o.lost;
        split = rw (sent, e) o.split;
        kept = λ live. cc;
      }
    ]

-- A handler that returned leaves the messages in their order.
abbrev pub Orders : List Message → Run ClusterConnection → Type 0
Orders messages result = (c : ClusterConnection) → result ≡ ok c → InOrder messages c

pub flows :
    (messages : List Message) (c d : ClusterConnection)
    → InOrder messages c
    → Flow c d
    → Orders messages (ok d)
flows messages c d o f =
    λ c' run. let same : d ≡ c' = cc in rw (← same) (Flow-InOrder messages c d f o)

-- A message given to the socket.
abbrev written : Bytes → ClusterConnection → ClusterConnection
written b c = record (start (message_write (link c.safe_link) (length_le b ++ b)) c) {
  message_outbound = from_vector b;
  out_message_len_le = length_le b;
  sent = c.sent ++ from_vector b ∷ [];
}

write_next-InOrder :
    (messages : List Message) (waiting : List Bytes) (c : ClusterConnection)
    → Queues c.message_queue waiting
    → InOrder messages c
    → Orders messages (write_next c)
unfolding write_next
write_next-InOrder messages [] c v o = λ c' run.
    let d = record c { is_writing = false } in
    let e : write_next c ≡ ok d = rw (Queues-try_pop [] c.message_queue v) in
    let same : d ≡ c' = cc in rw (← same) (record { lost = o.lost; split = o.split; kept = o.kept })
write_next-InOrder messages (b ∷ waiting) c v o = λ c' run.
    let (q, popped, rest) = Queues-try_pop (b ∷ waiting) c.message_queue v in
    let d = written b (record c { message_queue = q }) in
    let e : write_next c ≡ ok d = rw popped in
    let same : d ≡ c' = cc in
    let before = Queues-reverse c.message_queue (b ∷ waiting) v in
    let after = Queues-reverse q waiting rest in
    rw (← same) (record {
      lost = o.lost;
      split = rw (o.split, before, after) (simp (append_assoc, append-nil));
      kept = o.kept;
    })

-- The handler of a task.
pub on_posted-InOrder :
    (messages : List Message) (b : Bytes) (waiting : List Bytes) (c : ClusterConnection)
    → Inv 0 0 waiting c
    → InOrder messages c
    → Orders (messages ++ from_vector b ∷ []) (on_posted (from_vector b) c)
unfolding on_posted
on_posted-InOrder messages b waiting c v o = λ c' run. elim (Bool-cases (has_ended c)) [
  | inl ended ↦
      let same : c ≡ c' = cc (rw ended at run) in
      rw (← same) (record {
        lost = o.lost ++ from_vector b ∷ [];
        split = rw o.split (simp append_assoc);
        kept = λ live. cc;
      })
  | inr live ↦
      let none_lost = o.kept live in
      let before = Queues-reverse c.message_queue waiting v.queued in
      elim (Bool-cases c.is_writing) [
        | inl busy ↦
            let (q, pushed, rest) = Queues-push b c.message_queue waiting v.queued in
            let d = record c { message_queue = q } in
            let e : on_posted (from_vector b) c ≡ ok d = rw (live, busy, pushed) in
            let same : d ≡ c' = cc in
            let after =
              Queues-reverse q (waiting ++ b ∷ []) rest ∙ map-concat from_vector waiting b in
            rw (← same) (record {
              lost = [];
              split = rw (o.split, none_lost, before, after) (simp (append_assoc, append-nil));
              kept = λ x. refl;
            })
        | inr quiet ↦
            let d = written b (record c { is_writing = true }) in
            let e : on_posted (from_vector b) c ≡ ok d = rw (live, quiet) in
            let same : d ≡ c' = cc in
            let empty : reverse c.message_queue.queue ≡ [] =
              before ∙ ap (map from_vector) (v.idle quiet) in
            rw (← same) (record {
              lost = [];
              split = rw (o.split, none_lost, empty) (simp (append_assoc, append-nil));
              kept = λ x. refl;
            })
      ]
]

pub on_ssl_handshake-InOrder :
    (messages : List Message) (status : Status) (c : ClusterConnection)
    → InOrder messages c
    → Orders messages (on_ssl_handshake status c)
unfolding on_ssl_handshake
on_ssl_handshake-InOrder messages (some e) c o = flows messages c (abort c) o (abort-Flow c)
on_ssl_handshake-InOrder messages none c o = λ c' run. elim (Option-cases c.message_outbound.impl) [
  | inl x ↦ absurd (let wrong = rw x at run in cc)
  | inr (b, x) ↦
      flows messages c
        (start (handshake_write (length_le b ++ b))
          (record c { message_outbound = from_vector b; out_message_len_le = length_le b }))
        o (same-Flow c _ refl refl refl) c' (rw x at run)
]

handshake_payload-InOrder :
    (messages : List Message) (waiting : List Bytes) (c : ClusterConnection)
    → Queues c.message_queue waiting
    → c.socket_open ≡ not c.dropped
    → InOrder messages c
    → Orders messages (handshake_payload c)
unfolding handshake_payload
handshake_payload-InOrder messages waiting c v s o = λ c' run.
    elim (Bool-cases (ltb (length c.read_buffer) c.in_message_len)) [
      | inl short ↦
          flows messages c (start handshake_read c) o (same-Flow c _ refl refl refl) c'
            (rw short at run)
      | inr enough ↦ elim (Bool-cases (ltb c.in_message_len (length c.read_buffer))) [
        | inl long ↦
            flows messages c (shutdown c) o (shutdown-Flow c s) c' (rw (enough, long) at run)
        | inr exact ↦
            write_next-InOrder messages waiting (ready c) v
              (Flow-InOrder messages c (ready c)
                (unfold read_next in same-Flow c (ready c) refl refl refl) o)
              c' (rw (enough, exact) at run)
      ]
    ]
  where
    ready : ClusterConnection → ClusterConnection
    ready c =
        read_next
          (record c { read_buffer = drop c.in_message_len c.read_buffer; in_message_len = 0 })

handshake_received-InOrder :
    (messages : List Message) (waiting : List Bytes) (c : ClusterConnection)
    → Queues c.message_queue waiting
    → c.socket_open ≡ not c.dropped
    → InOrder messages c
    → Orders messages (handshake_received c)
unfolding handshake_received
handshake_received-InOrder messages waiting c v s o = λ c' run.
    let o' =
      Flow-InOrder messages c (take_length c) (same-Flow c (take_length c) refl refl refl) o in
    elim (Bool-cases (c.in_message_len == 0)) [
      | inr known ↦ handshake_payload-InOrder messages waiting c v s o c' (rw known at run)
      | inl unknown ↦ elim (Bool-cases (ltb (length c.read_buffer) 4)) [
        | inl short ↦
            flows messages c (shutdown c) o (shutdown-Flow c s) c' (rw (unknown, short) at run)
        | inr long ↦ elim (Bool-cases ((take_length c).in_message_len == 0)) [
          | inl wrong ↦
              flows messages (take_length c) (shutdown (take_length c)) o'
                (shutdown-Flow (take_length c) s) c' (rw (unknown, long, wrong) at run)
          | inr sized ↦
              handshake_payload-InOrder messages waiting (take_length c) v s o' c'
                (rw (unknown, long, sized) at run)
        ]
      ]
    ]

pub on_ian_handshake-InOrder :
    (messages : List Message) (status : Status) (bytes : Bytes) (waiting : List Bytes)
    (c : ClusterConnection)
    → Queues c.message_queue waiting
    → c.socket_open ≡ not c.dropped
    → InOrder messages c
    → Orders messages (on_ian_handshake status bytes c)
unfolding on_ian_handshake
on_ian_handshake-InOrder messages (some e) bytes waiting c v s o =
    flows messages c (handle_read_error e c) o (read_error-Flow e c s)
on_ian_handshake-InOrder messages none bytes waiting c v s o =
    handshake_received-InOrder messages waiting (commit bytes c) v s
      (Flow-InOrder messages c (commit bytes c) (same-Flow c (commit bytes c) refl refl refl) o)

pub on_write_message-InOrder :
    (messages : List Message) (status : Status) (waiting : List Bytes) (c : ClusterConnection)
    → Queues c.message_queue waiting
    → c.socket_open ≡ not c.dropped
    → InOrder messages c
    → Orders messages (on_write_message status c)
unfolding on_write_message
on_write_message-InOrder messages (some e) waiting c v s o =
    flows messages c _ o (write_error-Flow e c s)
on_write_message-InOrder messages none waiting c v s o =
    let d = record c { message_outbound = empty_message } in
    write_next-InOrder messages waiting d v
      (Flow-InOrder messages c d (same-Flow c d refl refl refl) o)
