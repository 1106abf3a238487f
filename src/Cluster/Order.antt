-- ===== src/Cluster/Order.antt =====
-- The order of the outbound messages of ClusterConnection.cpp, from `send_message` to the peer.
use ian.Prelude.{
  ◌≡◌, refl, sym, ◌∙◌, inl, inr, true, false, none, List, [], ◌∷◌, ◌++◌, map, append-nil,
  append_assoc, Bytes, Bool-cases, Run, ok, ◌>>=◌,
}
use ian.Message.{Message, empty_message, from_vector}
use ian.Message.Fifo.{Queues, Queues-push, Queues-try_pop, map-concat}
use ian.Cluster.State.{ClusterConnection, start, message_write, length_le, link, on_posted}
use ian.Cluster.Connection.{write_next, on_write_message}

-- A posted task that runs, or the completion of a write without an error.
pub data Traffic : Type 0 where
  task : Bytes → Traffic
  written : Traffic

pub act : Traffic → ClusterConnection → Run ClusterConnection
act (task b) c = on_posted (from_vector b) c
act written c = on_write_message none c

unfoldable pub acts : List Traffic → ClusterConnection → Run ClusterConnection
acts [] c = ok c
acts (t ∷ ts) c = act t c >>= acts ts

abbrev pub tasks : List Traffic → List Bytes
tasks [] = []
tasks (task b ∷ ts) = b ∷ tasks ts
tasks (written ∷ ts) = tasks ts

-- A connection that is neither dropped nor shutting down, and what waits in its queue.
pub record Live (waiting : List Bytes) (c : ClusterConnection) : Type 0 where
  pub queued : Queues c.message_queue waiting
  pub here : c.dropped ≡ false
  pub open_ : c.shutting_down ≡ false
  pub idle : c.is_writing ≡ false → waiting ≡ []

-- The messages that the connection has taken over: written first, then those that wait.
abbrev pub taken : List Bytes → ClusterConnection → List Message
taken waiting c = c.sent ++ map from_vector waiting

abbrev Acts : Run ClusterConnection → List Message → Type 0
Acts result messages =
    (c : ClusterConnection) × (waiting : List Bytes) × (result ≡ ok c)
    × Live waiting c
    × (taken waiting c ≡ messages)

abbrev sending : Bytes → ClusterConnection → ClusterConnection
sending b c = record (start (message_write (link c.safe_link) (length_le b ++ b)) c) {
  message_outbound = from_vector b;
  out_message_len_le = length_le b;
  sent = c.sent ++ from_vector b ∷ [];
}

on_posted-Acts :
    (b : Bytes) (waiting : List Bytes) (c : ClusterConnection)
    → Live waiting c
    → Acts (on_posted (from_vector b) c) (taken waiting c ++ from_vector b ∷ [])
unfolding on_posted
on_posted-Acts b waiting c v = elim (Bool-cases c.is_writing) [
  | inl busy ↦
      let (q, pushed, rest) = Queues-push b c.message_queue waiting v.queued in
      (
        record c { message_queue = q },
        waiting ++ b ∷ [],
        rw (v.here, v.open_, busy, pushed),
        record { queued = rest; here = v.here; open_ = v.open_; idle = λ e. cc },
        rw (map-concat from_vector waiting b)
            (sym (append_assoc c.sent (map from_vector waiting) _)),
      )
  | inr quiet ↦ (
    sending b (record c { is_writing = true }),
    [],
    rw (v.here, v.open_, quiet),
    record {
      queued = rw (v.idle quiet) at v.queued;
      here = v.here;
      open_ = v.open_;
      idle = λ e. refl;
    },
    rw (v.idle quiet) (simp append-nil),
  )
]

written-Acts :
    (waiting : List Bytes) (c : ClusterConnection)
    → Live waiting c
    → Acts (on_write_message none c) (taken waiting c)
unfolding on_write_message write_next
written-Acts [] c v = (
  record c { message_outbound = empty_message; is_writing = false },
  [],
  rw (Queues-try_pop [] c.message_queue v.queued),
  record { queued = v.queued; here = v.here; open_ = v.open_; idle = λ e. refl },
  refl,
)
written-Acts (b ∷ waiting) c v =
    let (q, popped, rest) = Queues-try_pop (b ∷ waiting) c.message_queue v.queued in
    (
      sending b (record c { message_queue = q }),
      waiting,
      rw popped,
      record {
        queued = rest;
        here = v.here;
        open_ = v.open_;
        idle = λ e. absurd (let no_rest = v.idle e in cc);
      },
      append_assoc c.sent (from_vector b ∷ []) (map from_vector waiting),
    )

acts-Acts :
    (ts : List Traffic) (waiting : List Bytes) (c : ClusterConnection)
    → Live waiting c
    → Acts (acts ts c) (taken waiting c ++ map from_vector (tasks ts))
unfolding acts act
acts-Acts [] waiting c v = (c, waiting, refl, v, sym (append-nil (taken waiting c)))
acts-Acts (task b ∷ ts) waiting c v =
    let (c', waiting', e, v', t) = on_posted-Acts b waiting c v in
    let (d, waiting'', e', w, t') = acts-Acts ts waiting' c' v' in
    (
      d,
      waiting'',
      rw (e, e'),
      w,
      t' ∙ rw t (append_assoc (taken waiting c) (from_vector b ∷ []) (map from_vector (tasks ts))),
    )
acts-Acts (written ∷ ts) waiting c v =
    let (c', waiting', e, v', t) = written-Acts waiting c v in
    let (d, waiting'', e', w, t') = acts-Acts ts waiting' c' v' in
    (d, waiting'', rw (e, e'), w, t' ∙ rw t)

-- On a connection that is neither dropped nor shutting down, over any interleaving of posted tasks and
-- of writes that complete without an error, no handler fails, the connection stays so, and no message
-- is lost, repeated or overtaken: those given to the socket, followed by those in the queue, are those
-- taken over before, followed by the posted ones in their order.
pub acts-order :
    (ts : List Traffic) (waiting : List Bytes) (c : ClusterConnection)
    → Live waiting c
    → (c' : ClusterConnection) × (waiting' : List Bytes) × (acts ts c ≡ ok c')
      × Live waiting' c'
      × (c'.sent ++ map from_vector waiting'
          ≡ (c.sent ++ map from_vector waiting) ++ map from_vector (tasks ts))
acts-order = acts-Acts
