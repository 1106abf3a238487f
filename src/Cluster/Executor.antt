-- ===== src/Cluster/Executor.antt =====
-- The order of the outbound messages of ClusterConnection.cpp, over all that its executor may do.

use ian.Prelude.{
  refl, inl, inr, List, [], ◌∷◌, ◌++◌, map, append-nil, append_assoc, Bytes, Option-cases,
}
use ian.Message.{Message, from_vector}
use ian.Cluster.State.{
  Op, ssl_handshake, handshake_write, handshake_read, chunk_read, message_write, ssl_shutdown,
  posted, ClusterConnection, send_message,
}
use ian.Cluster.Connection.{Completion, complete}
use ian.Cluster.Invariant.{Posts, Inv, is_writer, is_reader, one_if}
use ian.Cluster.Steps.{
  without, without-Inv, sends, completes, Steps, here, next, Steps-Inv, AllPost-middle,
}
use ian.Cluster.Flow.{on_shutdown-Flow, on_ian_handshake_sent-Flow, on_read-Flow}
use ian.Cluster.Outbound.{
  InOrder, Queues-reverse, Flow-InOrder, Orders, flows, on_posted-InOrder, on_ssl_handshake-InOrder,
  on_ian_handshake-InOrder, on_write_message-InOrder,
}

-- The messages whose tasks ran, by the operations that completed.
abbrev pub tasks_of : Op → List Message
tasks_of (posted m) = m ∷ []
tasks_of _ = []

pub ran : {s c : ClusterConnection} → Steps s c → List Message
ran here = []
ran (next r (sends m)) = ran r
ran (next r (completes before op after e p q)) = ran r ++ tasks_of op

complete-InOrder :
    (messages : List Message) (op : Op) (e : Completion) (waiting : List Bytes)
    (c : ClusterConnection)
    → Posts op
    → Inv (one_if (is_writer op)) (one_if (is_reader op)) waiting c
    → InOrder messages c
    → Orders (messages ++ tasks_of op) (complete op e c)
unfolding complete
complete-InOrder messages (posted m) e waiting c (b, p) v o =
    rw p (on_posted-InOrder messages b waiting c v o)
complete-InOrder messages (ssl_handshake role) e waiting c p v o =
    rw (append-nil messages) (on_ssl_handshake-InOrder messages e.status c o)
complete-InOrder messages (handshake_write bytes) e waiting c p v o =
    rw (append-nil messages) (flows messages c _ o (on_ian_handshake_sent-Flow e.status c v.socket))
complete-InOrder messages handshake_read e waiting c p v o =
    rw (append-nil messages)
      (on_ian_handshake-InOrder messages e.status e.bytes waiting c v.queued v.socket o)
complete-InOrder messages (chunk_read l) e waiting c p v o =
    rw (append-nil messages)
      (λ c' run. Flow-InOrder messages c c' (on_read-Flow e.status e.bytes c c' v.socket run) o)
complete-InOrder messages (message_write l bytes) e waiting c p v o =
    rw (append-nil messages)
      (on_write_message-InOrder messages e.status waiting c v.queued v.socket o)
complete-InOrder messages ssl_shutdown e waiting c p v o =
    rw (append-nil messages) (flows messages c _ o (on_shutdown-Flow e.status c))

sends-InOrder :
    (messages : List Message) (m : Message) (c : ClusterConnection)
    → InOrder messages c
    → InOrder messages (send_message m c)
unfolding send_message
sends-InOrder messages m c o = elim (Option-cases m.impl) [
  | inl e ↦ rw e o
  | inr (b, e) ↦ rw e (record { lost = o.lost; split = o.split; kept = o.kept })
]

-- However the executor orders the completions, whatever statuses and bytes they bring and whatever
-- messages are sent in between, on a connection that starts in the invariant: the messages that were
-- given to the socket before and since, those in the queue and those that were thrown away are, in this
-- order, those given to it or queued at the start and those whose tasks ran since, in theirs, and none
-- is thrown away as long as the connection is neither dropped nor shutting down.
pub Steps-InOrder :
    {s c : ClusterConnection} (waiting : List Bytes)
    → Inv 0 0 waiting s
    → (r : Steps s c) → InOrder ((s.sent ++ map from_vector waiting) ++ ran r) c
unfolding ran
Steps-InOrder {s = s} waiting v here =
    let queue = Queues-reverse s.message_queue waiting v.queued in
    record { lost = []; split = rw queue (simp (append_assoc, append-nil)); kept = λ live. refl }
Steps-InOrder waiting v (next {c = b} r (sends m)) = sends-InOrder _ m b (Steps-InOrder waiting v r)
Steps-InOrder {s = s} waiting v (next {c = b} {c' = d} r (completes before op after x p q)) =
    let o = Steps-InOrder waiting v r in
    let (waiting', i) = Steps-Inv waiting v r in
    let more =
      complete-InOrder _ op x waiting' (without before after b)
        (AllPost-middle before op after (rw (← p) i.posts)).0
        (without-Inv before op after waiting' b p i)
        (record { lost = o.lost; split = o.split; kept = o.kept }) d q in
    rw (← append_assoc (s.sent ++ map from_vector waiting) (ran r) (tasks_of op)) more
