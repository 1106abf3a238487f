-- ===== src/Cluster/Flow.antt =====
-- What the handlers of ClusterConnection.cpp that do not go on with the queue do to the outbound
-- messages.
use ian.Prelude.{◌≡◌, ◌∙◌, ◌⊎◌, inl, Bool, true, not, ◌||◌, none, some, Bytes, ok, arith}
use ian.Error.{ErrorCode, Status}
use ian.Message.{empty_queue, empty_message}
use ian.Cluster.State.{
  ClusterConnection, read_next, abort, shutdown, on_shutdown, handle_read_error, handle_write_error,
}
use ian.Cluster.Connection.{on_ian_handshake_sent, commit, Drained, drained, refused, on_read}
use ian.Cluster.Chunks.{drain, finish_read, on_read_total}
use ian.Cluster.Safety.{Reads, read_loop-Reads}

abbrev pub has_ended : ClusterConnection → Bool
has_ended c = c.dropped || c.shutting_down

-- Nothing is written, and the queue is left alone or thrown away at the end of the connection.
pub record Flow (c c' : ClusterConnection) : Type 0 where
  pub same_sent : c'.sent ≡ c.sent
  pub same_queue :
      (c'.message_queue ≡ c.message_queue)
      ⊎ ((c'.message_queue ≡ empty_queue) × (has_ended c' ≡ true))
  pub still : has_ended c ≡ true → has_ended c' ≡ true

-- Only what does not count for the outbound messages is changed.
pub same-Flow :
    (c c' : ClusterConnection)
    → c'.sent ≡ c.sent
    → c'.message_queue ≡ c.message_queue
    → has_ended c' ≡ has_ended c
    → Flow c c'
same-Flow c c' a b e = record { same_sent = a; same_queue = inl b; still = λ o. e ∙ o }

pub abort-Flow : (c : ClusterConnection) → Flow c (abort c)
unfolding abort
abort-Flow c = ground arith

pub shutdown-Flow : (c : ClusterConnection) → c.socket_open ≡ not c.dropped → Flow c (shutdown c)
unfolding shutdown
shutdown-Flow c s = ground arith

pub on_shutdown-Flow : (status : Status) (c : ClusterConnection) → Flow c (on_shutdown status c)
unfolding on_shutdown
on_shutdown-Flow status c = ground arith

pub read_error-Flow :
    (e : ErrorCode) (c : ClusterConnection)
    → c.socket_open ≡ not c.dropped
    → Flow c (handle_read_error e c)
unfolding handle_read_error
read_error-Flow e c s = ground arith

pub write_error-Flow :
    (e : ErrorCode) (c : ClusterConnection)
    → c.socket_open ≡ not c.dropped
    → Flow c (handle_write_error e (record c { message_outbound = empty_message }))
unfolding handle_write_error
write_error-Flow e c s = ground arith

pub on_ian_handshake_sent-Flow :
    (status : Status) (c : ClusterConnection)
    → c.socket_open ≡ not c.dropped
    → Flow c (on_ian_handshake_sent status c)
unfolding on_ian_handshake_sent
on_ian_handshake_sent-Flow (some e) c s = write_error-Flow e c s
on_ian_handshake_sent-Flow none c s = ground arith

read_next-Flow :
    (bytes : Bytes) (c c' : ClusterConnection) → Reads (commit bytes c) c' → Flow c (read_next c')
unfolding read_next
read_next-Flow bytes c c' e = rw e (ground arith)

refused-Flow :
    (bytes : Bytes) (c c' : ClusterConnection)
    → c.socket_open ≡ not c.dropped
    → Reads (commit bytes c) c'
    → Flow c (shutdown c')
unfolding shutdown
refused-Flow bytes c c' s e = rw e (ground arith)

pub on_read-Flow :
    (status : Status) (bytes : Bytes) (c c' : ClusterConnection)
    → c.socket_open ≡ not c.dropped
    → on_read status bytes c ≡ ok c'
    → Flow c c'
on_read-Flow (some e) bytes c c' s run =
    let same : handle_read_error e c ≡ c' = unfold on_read in cc in
    rw (← same) (read_error-Flow e c s)
on_read-Flow none bytes c c' s run = go (on_read_total bytes c)
  where
    go :
        (d : Drained) × (drain (commit bytes c) ≡ ok d) × (on_read none bytes c ≡ finish_read d)
        → Flow c c'
    go (drained c₁, p, q) =
        let same : read_next c₁ ≡ c' = cc in
        rw (← same) (read_next-Flow bytes c c₁ (read_loop-Reads _ _ (drained c₁) p))
    go (refused c₁, p, q) =
        let same : shutdown c₁ ≡ c' = cc in
        rw (← same) (refused-Flow bytes c c₁ s (read_loop-Reads _ _ (refused c₁) p))
