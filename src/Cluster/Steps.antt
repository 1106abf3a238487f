-- ===== src/Cluster/Steps.antt =====
-- A ClusterConnection under its executor: any pending operation may complete next, with any status and
-- any bytes, and messages may be given to `send_message` at any time.
use ian.Prelude.{
  ◌+◌, ◌≤◌, ◌≡◌, refl, ap, ◌∙◌, inl, inr, Bool, true, false, not, ◌||◌, some, none, List, [], ◌∷◌,
  ◌++◌, map, reverse, Bytes, Option-cases, ok, arith,
}
use ian.Error.{Status}
use ian.Message.{Message, from_vector}
use ian.Message.Fifo.{Queues-empty}
use ian.Cluster.State.{
  Op, ssl_handshake, handshake_write, handshake_read, chunk_read, message_write, ssl_shutdown,
  posted, ClusterConnection, SslRole, new_connection, run, send_message, start, length_le, abort,
}
use ian.Cluster.Connection.{on_ssl_handshake, Completion, complete}
use ian.Cluster.Invariant.{
  tally, is_writer, is_reader, is_shut, Posts, AllPost, one_if, Inv, abort-Inv, Kept, on_posted-Inv,
  weaken,
}
use ian.Cluster.Safety.{
  on_write_message-Kept, on_ian_handshake_sent-Kept, on_ian_handshake-Kept, on_read-Kept,
  on_shutdown-Kept,
}

-- `on_ssl_handshake` sends the message in `message_outbound_` on success, which must be there.
abbrev pub HasHandshake : Op → Completion → ClusterConnection → Type 0
HasHandshake (ssl_handshake role) e c =
    e.status ≡ none → (b : Bytes) × (c.message_outbound ≡ from_vector b)
HasHandshake _ e c = Unit

on_ssl_handshake-Kept :
    (status : Status) (waiting : List Bytes) (c : ClusterConnection)
    → (status ≡ none → (b : Bytes) × (c.message_outbound ≡ from_vector b))
    → Inv 1 1 waiting c
    → Kept (on_ssl_handshake status c)
unfolding on_ssl_handshake
on_ssl_handshake-Kept (some e) waiting c h v = (
  abort c,
  [],
  refl,
  weaken 1 1 0 0 [] (abort c) (omega arith) (omega arith) (abort-Inv 1 1 waiting c v),
)
on_ssl_handshake-Kept none waiting c h v =
    let (b, e) = h refl in
    (
      start (handshake_write (length_le b ++ b)) (record c { out_message_len_le = length_le b }),
      waiting,
      rw e,
      ground arith,
    )

complete-Kept :
    (op : Op) (e : Completion) (waiting : List Bytes) (c : ClusterConnection)
    → Posts op
    → (is_shut op ≡ true → c.shutting_down ≡ true)
    → HasHandshake op e c
    → Inv (one_if (is_writer op)) (one_if (is_reader op)) waiting c
    → Kept (complete op e c)
unfolding complete
complete-Kept (ssl_handshake role) e waiting c p s h v =
    on_ssl_handshake-Kept e.status waiting c h v
complete-Kept (handshake_write bytes) e waiting c p s h v =
    on_ian_handshake_sent-Kept e.status waiting c v
complete-Kept handshake_read e waiting c p s h v =
    on_ian_handshake-Kept e.status e.bytes waiting c v
complete-Kept (chunk_read l) e waiting c p s h v = on_read-Kept e.status e.bytes waiting c v
complete-Kept (message_write l bytes) e waiting c p s h v =
    on_write_message-Kept e.status waiting c v
complete-Kept ssl_shutdown e waiting c p s h v = on_shutdown-Kept e.status waiting c (s refl) v
complete-Kept (posted m) e waiting c (b, p) s h v = rw p (on_posted-Inv b waiting c v)

tally-middle :
    (p : Op → Bool) (before : List Op) (op : Op) (after : List Op)
    → tally p (before ++ op ∷ after) ≡ one_if (p op) + tally p (before ++ after)
tally-middle p [] op after = refl
tally-middle p (o ∷ before) op after = omega (arith, tally-middle p before op after)

pub AllPost-middle :
    (before : List Op) (op : Op) (after : List Op)
    → AllPost (before ++ op ∷ after)
    → Posts op × AllPost (before ++ after)
AllPost-middle [] op after h = h
AllPost-middle (o ∷ before) op after h =
    let rest = AllPost-middle before op after h.1 in (rest.0, (h.0, rest.1))

-- The state in which the handler of an operation runs.
abbrev pub without : List Op → List Op → ClusterConnection → ClusterConnection
without before after c = record c { pending = before ++ after }

pub without-Inv :
    (before : List Op) (op : Op) (after : List Op) (waiting : List Bytes) (c : ClusterConnection)
    → c.pending ≡ before ++ op ∷ after
    → Inv 0 0 waiting c
    → Inv (one_if (is_writer op)) (one_if (is_reader op)) waiting (without before after c)
without-Inv before op after waiting c e v =
    let at = λ (p : Op → Bool). ap (tally p) e ∙ tally-middle p before op after in
    record {
      queued = v.queued;
      writers = omega (arith, v.writers, at is_writer);
      readers = omega (arith, v.readers, at is_reader);
      shutdowns = omega (arith, v.shutdowns, at is_shut);
      posts = (AllPost-middle before op after (rw (← e) v.posts)).1;
      idle = v.idle;
      ended = v.ended;
      socket = v.socket;
    }

shutdown_pending :
    (before : List Op) (op : Op) (after : List Op) (waiting : List Bytes) (c : ClusterConnection)
    → c.pending ≡ before ++ op ∷ after
    → Inv 0 0 waiting c
    → is_shut op ≡ true
    → c.shutting_down ≡ true
shutdown_pending before op after waiting c e v s =
    ground (arith, ap (tally is_shut) e, tally-middle is_shut before op after)

-- Whichever pending operation completes, with whatever status and bytes, its handler returns and keeps
-- the invariant, provided that a handshake message is there when the TLS handshake succeeds.
pub complete-Inv :
    (before : List Op) (op : Op) (after : List Op) (e : Completion) (waiting : List Bytes)
    (c : ClusterConnection)
    → c.pending ≡ before ++ op ∷ after
    → HasHandshake op e (without before after c)
    → Inv 0 0 waiting c
    → Kept (complete op e (without before after c))
complete-Inv before op after e waiting c p h v =
    complete-Kept op e waiting (without before after c)
      (AllPost-middle before op after (rw (← p) v.posts)).0
      (shutdown_pending before op after waiting c p v) h (without-Inv before op after waiting c p v)

-- One step: a message given to `send_message`, or the completion of a pending operation.
pub data Step : ClusterConnection → ClusterConnection → Type 0 where
  sends : {c : ClusterConnection} (m : Message) → Step c (send_message m c)
  completes :
      {c c' : ClusterConnection} (before : List Op) (op : Op) (after : List Op) (e : Completion)
      → c.pending ≡ before ++ op ∷ after
      → complete op e (without before after c) ≡ ok c'
      → Step c c'

pub data Steps (s : ClusterConnection) : ClusterConnection → Type 0 where
  here : Steps s s
  next : {c c' : ClusterConnection} → Steps s c → Step c c' → Steps s c'

sends-Inv :
    (m : Message) (waiting : List Bytes) (c : ClusterConnection)
    → Inv 0 0 waiting c
    → Inv 0 0 waiting (send_message m c)
unfolding send_message
sends-Inv m waiting c v = elim (Option-cases m.impl) [
  | inl e ↦ rw e v
  | inr (b, e) ↦ rw e (record {
    queued = v.queued;
    writers = omega (arith, v.writers);
    readers = omega (arith, v.readers);
    shutdowns = omega (arith, v.shutdowns);
    posts = ((b, refl), v.posts);
    idle = v.idle;
    ended = v.ended;
    socket = v.socket;
  })
]

-- A handshake whose handler returned had its message.
ok-HasHandshake :
    (op : Op) (e : Completion) (c c' : ClusterConnection)
    → complete op e c ≡ ok c'
    → HasHandshake op e c
unfolding complete
ok-HasHandshake (ssl_handshake role) e c c' p = λ s. elim (Option-cases c.message_outbound.impl) [
  | inl x ↦ absurd (unfold on_ssl_handshake in ground arith)
  | inr (b, x) ↦ (b, λ i. record { impl = x i })
]
ok-HasHandshake (handshake_write bytes) e c c' p = tt
ok-HasHandshake _ e c c' p = tt

Step-Inv :
    {c c' : ClusterConnection} (waiting : List Bytes)
    → Inv 0 0 waiting c
    → Step c c'
    → (waiting' : List Bytes) × Inv 0 0 waiting' c'
Step-Inv {c} waiting v (sends m) = (waiting, sends-Inv m waiting c v)
Step-Inv {c} {c'} waiting v (completes before op after e p q) =
    let h = ok-HasHandshake op e (without before after c) c' q in
    let (d, waiting', r, w) = complete-Inv before op after e waiting c p h v in
    let same : c' ≡ d = cc in (waiting', rw same w)

pub Steps-Inv :
    {s c : ClusterConnection} (waiting : List Bytes)
    → Inv 0 0 waiting s
    → Steps s c
    → (waiting' : List Bytes) × Inv 0 0 waiting' c
Steps-Inv waiting v here = (waiting, v)
Steps-Inv waiting v (next r st) =
    let (waiting', w) = Steps-Inv waiting v r in Step-Inv waiting' w st

-- What the invariant says of the operations under way and of the queue.
pub record Exclusive (c : ClusterConnection) : Type 0 where
  pub one_writer : tally is_writer c.pending ≤ 1
  pub one_reader : tally is_reader c.pending ≤ 1
  pub idle_writer : c.is_writing ≡ false → tally is_writer c.pending ≡ 0
  pub idle_queue : c.is_writing ≡ false → c.message_queue.queue ≡ []
  pub ended_queue : (c.dropped || c.shutting_down) ≡ true → c.message_queue.queue ≡ []
  pub closed_socket : c.socket_open ≡ not c.dropped

Inv-Exclusive : (waiting : List Bytes) (c : ClusterConnection) → Inv 0 0 waiting c → Exclusive c
Inv-Exclusive waiting c v = record {
  one_writer = ground arith;
  one_reader = ground arith;
  idle_writer = λ e. ground arith;
  idle_queue = λ e. v.queued.holds ∙ ap (λ x. reverse (map from_vector x)) (v.idle e);
  ended_queue = λ e. v.queued.holds ∙ ap (λ x. reverse (map from_vector x)) (v.ended e);
  closed_socket = v.socket;
}

-- However the executor orders the completions, whatever statuses and bytes they bring and whatever
-- messages are sent in between, a connection that starts in the invariant has at most one operation
-- under way that may write and one that may read, none that may write while `is_writing_` is off, no
-- message in the queue while it is off or behind a shutdown or an abort, and its socket open as long
-- as it is not dropped.
pub Steps-Exclusive :
    {s c : ClusterConnection} (waiting : List Bytes) → Inv 0 0 waiting s → Steps s c → Exclusive c
Steps-Exclusive {c = c} waiting v r =
    let (waiting', w) = Steps-Inv waiting v r in Inv-Exclusive waiting' c w

-- `run` on a new connection starts in the invariant.
pub run-Inv :
    (role : SslRole) (safe_link uninitialised : Bool) (verified : Status)
    → Inv 0 0 [] (run role safe_link verified (new_connection uninitialised))
unfolding run
run-Inv role safe_link uninitialised verified = record {
  queued = Queues-empty;
  writers = omega arith;
  readers = omega arith;
  shutdowns = omega arith;
  posts = (tt, tt);
  idle = λ e. cc;
  ended = λ e. cc;
  socket = refl;
}
