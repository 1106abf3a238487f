-- ===== src/Ws/Order.antt =====
-- The order of the outbound messages of WsConnection.cpp, over all that its executor may do.
use mathlib.Core.List.{reverse-reverse}
use ian.Prelude.{
  ℕ, ◌≡◌, refl, ap, ◌∙◌, inl, inr, true, false, none, List, [], ◌∷◌, ◌++◌, map, reverse, append-nil,
  append_assoc, Bytes, Bool-cases, Option-cases, ok,
}
use ian.Front.{World}
use ian.Message.{Message, MessageQueue, empty_message, from_vector}
use ian.Message.Fifo.{Queues, Queues-push, Queues-try_pop, map-concat}
use ian.Ws.State.{
  Op, ssl_handshake, request_read, ws_accept, message_read, message_write, ssl_shutdown, timer_wait,
  posted, WsConnection, new_connection, start, run, send_message, on_posted,
}
use ian.Ws.Connection.{write_next, on_write_message, Completion, complete}
use ian.Ws.Invariant.{Posts, Inv, is_writer, is_reader, one_if}
use ian.Ws.Steps.{
  without, without-Inv, sends, completes, Steps, here, next, Steps-Inv, run-Inv, AllPost-middle,
}
use ian.Ws.Flow.{
  has_ended, Flow, on_timeout-Flow, on_shutdown-Flow, on_ssl_handshake-Flow, on_read_request-Flow,
  on_ws_handshake-Flow, on_read-Flow, write_error-Flow,
}

-- The messages whose tasks ran, by the operations that completed.
abbrev pub tasks_of : Op → List Message
tasks_of (posted m) = m ∷ []
tasks_of _ = []

pub ran : {s c : WsConnection} → Steps s c → List Message
ran here = []
ran (next r (sends m)) = ran r
ran (next r (completes w before op after e p q)) = ran r ++ tasks_of op

-- Of the messages whose tasks ran, some were given to the stream, the next ones are in the queue, and
-- the others were thrown away, which happens at the end of the connection only.
pub record InOrder (messages : List Message) (c : WsConnection) : Type 0 where
  pub lost : List Message
  pub split : messages ≡ c.sent ++ (reverse c.message_queue.queue ++ lost)
  pub kept : has_ended c ≡ false → lost ≡ []

Queues-reverse :
    (q : MessageQueue) (waiting : List Bytes)
    → Queues q waiting
    → reverse q.queue ≡ map from_vector waiting
Queues-reverse q waiting v = ap reverse v.holds ∙ reverse-reverse (map from_vector waiting)

Flow-InOrder :
    (messages : List Message) (c c' : WsConnection)
    → Flow c c'
    → InOrder messages c
    → InOrder (messages ++ []) c'
Flow-InOrder messages c c' f o =
    let sent = f.same_sent in
    elim f.same_queue [
      | inl e ↦ record {
        lost = o.lost;
        split = append-nil messages ∙ rw (sent, e) o.split;
        kept =
            λ live. o.kept (elim (Bool-cases (has_ended c)) [ inl x ↦ cc (f.still x) | inr x ↦ x ]);
      }
      | inr (e, ended) ↦ record {
        lost = reverse c.message_queue.queue ++ o.lost;
        split = append-nil messages ∙ rw (sent, e) o.split;
        kept = λ live. cc;
      }
    ]

-- A message given to the stream.
abbrev written : Bytes → WsConnection → WsConnection
written b c = record (start (message_write b) c) {
  message_outbound = from_vector b;
  sent = c.sent ++ from_vector b ∷ [];
}

-- The handler of a task, and that of a write without an error.
on_posted-InOrder :
    (messages : List Message) (b : Bytes) (waiting : List Bytes) (c c' : WsConnection)
    → Inv 0 0 waiting c
    → InOrder messages c
    → on_posted (from_vector b) c ≡ ok c'
    → InOrder (messages ++ from_vector b ∷ []) c'
unfolding on_posted
on_posted-InOrder messages b waiting c c' v o run = elim (Bool-cases (has_ended c)) [
  | inl ended ↦
      let same : c ≡ c' = cc (rw ended at run) in
      rw (← same) (record {
        lost = o.lost ++ from_vector b ∷ [];
        split = rw o.split (simp append_assoc);
        kept = λ live. cc;
      })
  | inr live ↦
      let none_lost = o.kept live in
      let before = Queues-reverse c.message_queue waiting v.queued in
      elim (Bool-cases c.is_writing) [
        | inl busy ↦
            let (q, pushed, rest) = Queues-push b c.message_queue waiting v.queued in
            let d = record c { message_queue = q } in
            let e : on_posted (from_vector b) c ≡ ok d = rw (live, busy, pushed) in
            let same : d ≡ c' = cc in
            let after =
              Queues-reverse q (waiting ++ b ∷ []) rest ∙ map-concat from_vector waiting b in
            rw (← same) (record {
              lost = [];
              split = rw (o.split, none_lost, before, after) (simp (append_assoc, append-nil));
              kept = λ x. refl;
            })
        | inr quiet ↦
            let d = written b (record c { is_writing = true }) in
            let e : on_posted (from_vector b) c ≡ ok d = rw (live, quiet) in
            let same : d ≡ c' = cc in
            let empty : reverse c.message_queue.queue ≡ [] =
              before ∙ ap (map from_vector) (v.idle quiet) in
            rw (← same) (record {
              lost = [];
              split = rw (o.split, none_lost, empty) (simp (append_assoc, append-nil));
              kept = λ x. refl;
            })
      ]
]

written-InOrder :
    (messages : List Message) (waiting : List Bytes) (c c' : WsConnection)
    → Inv 1 0 waiting c
    → InOrder messages c
    → on_write_message none c ≡ ok c'
    → InOrder (messages ++ []) c'
unfolding on_write_message write_next
written-InOrder messages [] c c' v o run =
    let d = record c { message_outbound = empty_message; is_writing = false } in
    let e : on_write_message none c ≡ ok d = rw (Queues-try_pop [] c.message_queue v.queued) in
    let same : d ≡ c' = cc in
    rw (← same) (record { lost = o.lost; split = append-nil messages ∙ o.split; kept = o.kept })
written-InOrder messages (b ∷ waiting) c c' v o run =
    let (q, popped, rest) = Queues-try_pop (b ∷ waiting) c.message_queue v.queued in
    let d = written b (record c { message_outbound = empty_message; message_queue = q }) in
    let e : on_write_message none c ≡ ok d = rw popped in
    let same : d ≡ c' = cc in
    let before = Queues-reverse c.message_queue (b ∷ waiting) v.queued in
    let after = Queues-reverse q waiting rest in
    rw (← same) (record {
      lost = o.lost;
      split = rw (o.split, before, after) (simp (append_assoc, append-nil));
      kept = o.kept;
    })

ended-InOrder :
    (messages : List Message) (c d c' : WsConnection)
    → Flow c d
    → InOrder messages c
    → ok d ≡ ok c'
    → InOrder (messages ++ []) c'
ended-InOrder messages c d c' f o run =
    let same : d ≡ c' = cc in rw (← same) (Flow-InOrder messages c d f o)

complete-InOrder :
    (messages : List Message) (w : World) (op : Op) (e : Completion) (waiting : List Bytes)
    (c c' : WsConnection)
    → Posts op
    → Inv (one_if (is_writer op)) (one_if (is_reader op)) waiting c
    → InOrder messages c
    → complete w op e c ≡ ok c'
    → InOrder (messages ++ tasks_of op) c'
unfolding complete
complete-InOrder messages w ssl_handshake e waiting c c' p v o run =
    ended-InOrder messages c _ c' (on_ssl_handshake-Flow e.status c v.socket) o run
complete-InOrder messages w request_read e waiting c c' p v o run =
    ended-InOrder messages c _ c' (on_read_request-Flow w e.status e.flag e.bytes c v.socket) o run
complete-InOrder messages w ws_accept e waiting c c' p v o run =
    ended-InOrder messages c _ c' (on_ws_handshake-Flow w e.status c v.socket) o run
complete-InOrder messages w message_read e waiting c c' p v o run =
    ended-InOrder messages c _ c' (on_read-Flow w e.status e.flag e.bytes c v.socket) o run
complete-InOrder messages w (message_write bytes) e waiting c c' p v o run =
    elim (Option-cases e.status) [
      | inl s ↦ written-InOrder messages waiting c c' v o (rw s at run)
      | inr (x, s) ↦
          ended-InOrder messages c _ c' (write_error-Flow x c v.socket) o
            (unfold on_write_message in (rw s at run))
    ]
complete-InOrder messages w ssl_shutdown e waiting c c' p v o run =
    ended-InOrder messages c _ c' (on_shutdown-Flow e.status c v.socket) o run
complete-InOrder messages w timer_wait e waiting c c' p v o run =
    ended-InOrder messages c _ c' (on_timeout-Flow e.status c v.socket) o run
complete-InOrder messages w (posted m) e waiting c c' (b, p) v o run =
    rw p (on_posted-InOrder messages b waiting c c' v o (rw p at run))

sends-InOrder :
    (messages : List Message) (m : Message) (c : WsConnection)
    → InOrder messages c
    → InOrder messages (send_message m c)
unfolding send_message
sends-InOrder messages m c o = elim (Option-cases m.impl) [
  | inl e ↦ rw e o
  | inr (b, e) ↦ rw e (record { lost = o.lost; split = o.split; kept = o.kept })
]

Steps-InOrder :
    {s c : WsConnection} → Inv 0 0 [] s → s.sent ≡ [] → (r : Steps s c) → InOrder (ran r) c
unfolding ran
Steps-InOrder {s} v e here =
    let empty = Queues-reverse s.message_queue [] v.queued in
    record { lost = []; split = rw (e, empty) refl; kept = λ live. refl }
Steps-InOrder v e (next {c = b} r (sends m)) = sends-InOrder (ran r) m b (Steps-InOrder v e r)
Steps-InOrder v e (next {c = b} {c' = d} r (completes w before op after x p q)) =
    let o = Steps-InOrder v e r in
    let (waiting, i) = Steps-Inv [] v r in
    complete-InOrder (ran r) w op x waiting (without before after b) d
      (AllPost-middle before op after (rw (← p) i.posts)).0
      (without-Inv before op after waiting b p i)
      (record { lost = o.lost; split = o.split; kept = o.kept }) q

-- However the executor orders the completions, at whatever times, with whatever statuses and bytes and
-- whatever messages are sent in between: on a new connection that was run, the messages that were given to the
-- stream, those in the queue and those that were thrown away are, in this order, the messages whose tasks
-- ran, in theirs, and none is thrown away as long as the connection is neither dropped nor shutting down.
pub run-InOrder :
    (w : World) (now : ℕ) (c : WsConnection) (r : Steps (run w (new_connection now)) c)
    → InOrder (ran r) c
run-InOrder w now c r = Steps-InOrder (run-Inv w now) (unfold run in refl) r
