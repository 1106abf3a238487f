-- ===== src/Ws/Steps.antt =====
-- A WsConnection under its executor: any pending operation may complete next, at any time, with any
-- status and any bytes, and messages may be given to `send_message` at any time.
use ian.Prelude.{
  ℕ, ◌+◌, ◌≤◌, ◌≡◌, refl, ap, ◌∙◌, inl, inr, Bool, true, false, not, ◌||◌, List, [], ◌∷◌, ◌++◌, map,
  reverse, Bytes, Option-cases, ok, arith,
}
use ian.Front.{World}
use ian.Message.{Message, from_vector}
use ian.Message.Fifo.{Queues-empty}
use ian.Ws.State.{
  Op, ssl_handshake, request_read, ws_accept, message_read, message_write, ssl_shutdown, timer_wait,
  posted, WsConnection, new_connection, run, send_message,
}
use ian.Ws.Connection.{Completion, complete}
use ian.Ws.Invariant.{
  tally, is_writer, is_reader, is_shut, Posts, AllPost, one_if, Inv, Kept, on_posted-Kept,
  on_write_message-Kept,
}
use ian.Ws.Safety.{
  on_timeout-Kept, on_shutdown-Kept, on_ssl_handshake-Kept, on_read_request-Kept,
  on_ws_handshake-Kept, on_read-Kept,
}

complete-Kept :
    (w : World) (op : Op) (e : Completion) (waiting : List Bytes) (c : WsConnection)
    → Posts op
    → (is_shut op ≡ true → c.shutting_down ≡ true)
    → Inv (one_if (is_writer op)) (one_if (is_reader op)) waiting c
    → Kept (complete w op e c)
unfolding complete
complete-Kept w ssl_handshake e waiting c p s v = on_ssl_handshake-Kept e.status waiting c v
complete-Kept w request_read e waiting c p s v =
    on_read_request-Kept w e.status e.flag e.bytes waiting c v
complete-Kept w ws_accept e waiting c p s v = on_ws_handshake-Kept w e.status waiting c v
complete-Kept w message_read e waiting c p s v = on_read-Kept w e.status e.flag e.bytes waiting c v
complete-Kept w (message_write bytes) e waiting c p s v = on_write_message-Kept e.status waiting c v
complete-Kept w ssl_shutdown e waiting c p s v = on_shutdown-Kept e.status waiting c (s refl) v
complete-Kept w timer_wait e waiting c p s v = on_timeout-Kept e.status waiting c v
complete-Kept w (posted m) e waiting c (b, p) s v = rw p (on_posted-Kept b waiting c v)

tally-middle :
    (p : Op → Bool) (before : List Op) (op : Op) (after : List Op)
    → tally p (before ++ op ∷ after) ≡ one_if (p op) + tally p (before ++ after)
tally-middle p [] op after = refl
tally-middle p (o ∷ before) op after = omega (arith, tally-middle p before op after)

pub AllPost-middle :
    (before : List Op) (op : Op) (after : List Op)
    → AllPost (before ++ op ∷ after)
    → Posts op × AllPost (before ++ after)
AllPost-middle [] op after h = h
AllPost-middle (o ∷ before) op after h =
    let rest = AllPost-middle before op after h.1 in (rest.0, (h.0, rest.1))

-- The state in which the handler of an operation runs.
abbrev pub without : List Op → List Op → WsConnection → WsConnection
without before after c = record c { pending = before ++ after }

pub without-Inv :
    (before : List Op) (op : Op) (after : List Op) (waiting : List Bytes) (c : WsConnection)
    → c.pending ≡ before ++ op ∷ after
    → Inv 0 0 waiting c
    → Inv (one_if (is_writer op)) (one_if (is_reader op)) waiting (without before after c)
without-Inv before op after waiting c e v =
    let at = λ (p : Op → Bool). ap (tally p) e ∙ tally-middle p before op after in
    record {
      queued = v.queued;
      writers = omega (arith, v.writers, at is_writer);
      readers = omega (arith, v.readers, at is_reader);
      shutdowns = omega (arith, v.shutdowns, at is_shut);
      posts = (AllPost-middle before op after (rw (← e) v.posts)).1;
      idle = v.idle;
      ended = v.ended;
      socket = v.socket;
      guarded = v.guarded;
    }

pub shutdown_pending :
    (before : List Op) (op : Op) (after : List Op) (waiting : List Bytes) (c : WsConnection)
    → c.pending ≡ before ++ op ∷ after
    → Inv 0 0 waiting c
    → is_shut op ≡ true
    → c.shutting_down ≡ true
shutdown_pending before op after waiting c e v s =
    ground (arith, ap (tally is_shut) e, tally-middle is_shut before op after)

-- Whichever pending operation completes, at whatever time and with whatever status and bytes, its
-- handler returns and keeps the invariant.
pub complete_returns :
    (w : World) (before : List Op) (op : Op) (after : List Op) (e : Completion)
    (waiting : List Bytes) (c : WsConnection)
    → c.pending ≡ before ++ op ∷ after
    → Inv 0 0 waiting c
    → Kept (complete w op e (without before after c))
complete_returns w before op after e waiting c p v =
    complete-Kept w op e waiting (without before after c)
      (AllPost-middle before op after (rw (← p) v.posts)).0
      (shutdown_pending before op after waiting c p v) (without-Inv before op after waiting c p v)

-- One step: a message given to `send_message`, or the completion of a pending operation.
pub data Step : WsConnection → WsConnection → Type 0 where
  sends : {c : WsConnection} (m : Message) → Step c (send_message m c)
  completes :
      {c c' : WsConnection} (w : World) (before : List Op) (op : Op) (after : List Op)
      (e : Completion)
      → c.pending ≡ before ++ op ∷ after
      → complete w op e (without before after c) ≡ ok c'
      → Step c c'

pub data Steps (s : WsConnection) : WsConnection → Type 0 where
  here : Steps s s
  next : {c c' : WsConnection} → Steps s c → Step c c' → Steps s c'

sends-Inv :
    (m : Message) (waiting : List Bytes) (c : WsConnection)
    → Inv 0 0 waiting c
    → Inv 0 0 waiting (send_message m c)
unfolding send_message
sends-Inv m waiting c v = elim (Option-cases m.impl) [
  | inl e ↦ rw e v
  | inr (b, e) ↦ rw e (record {
    queued = v.queued;
    writers = omega (arith, v.writers);
    readers = omega (arith, v.readers);
    shutdowns = omega (arith, v.shutdowns);
    posts = ((b, refl), v.posts);
    idle = v.idle;
    ended = v.ended;
    socket = v.socket;
    guarded = v.guarded;
  })
]

Step-Inv :
    {c c' : WsConnection} (waiting : List Bytes)
    → Inv 0 0 waiting c
    → Step c c'
    → (waiting' : List Bytes) × Inv 0 0 waiting' c'
Step-Inv {c} waiting v (sends m) = (waiting, sends-Inv m waiting c v)
Step-Inv {c} {c'} waiting v (completes w before op after e p q) =
    let (d, waiting', r, i) = complete_returns w before op after e waiting c p v in
    let same : c' ≡ d = cc in (waiting', rw same i)

pub Steps-Inv :
    {s c : WsConnection} (waiting : List Bytes)
    → Inv 0 0 waiting s
    → Steps s c
    → (waiting' : List Bytes) × Inv 0 0 waiting' c
Steps-Inv waiting v here = (waiting, v)
Steps-Inv waiting v (next r st) =
    let (waiting', w) = Steps-Inv waiting v r in Step-Inv waiting' w st

-- What the invariant says of the operations under way, the queue and the timeout.
pub record Exclusive (c : WsConnection) : Type 0 where
  pub one_writer : tally is_writer c.pending ≤ 1
  pub one_reader : tally is_reader c.pending ≤ 1
  pub idle_writer : c.is_writing ≡ false → tally is_writer c.pending ≡ 0
  pub idle_queue : c.is_writing ≡ false → c.message_queue.queue ≡ []
  pub ended_queue : (c.dropped || c.shutting_down) ≡ true → c.message_queue.queue ≡ []
  pub closed_socket : c.socket_open ≡ not c.dropped
  pub timeout_armed : (c.dropped || c.shutting_down) ≡ false → c.timer.armed ≡ true

Inv-Exclusive : (waiting : List Bytes) (c : WsConnection) → Inv 0 0 waiting c → Exclusive c
Inv-Exclusive waiting c v = record {
  one_writer = ground arith;
  one_reader = ground arith;
  idle_writer = λ e. ground arith;
  idle_queue = λ e. v.queued.holds ∙ ap (λ x. reverse (map from_vector x)) (v.idle e);
  ended_queue = λ e. v.queued.holds ∙ ap (λ x. reverse (map from_vector x)) (v.ended e);
  closed_socket = v.socket;
  timeout_armed = v.guarded;
}

pub run-Inv : (w : World) (now : ℕ) → Inv 0 0 [] (run w (new_connection now))
unfolding run
run-Inv w now = record {
  queued = Queues-empty;
  writers = omega arith;
  readers = omega arith;
  shutdowns = omega arith;
  posts = (tt, (tt, tt));
  idle = λ e. refl;
  ended = λ e. refl;
  socket = refl;
  guarded = λ e. refl;
}

-- However the executor orders the completions, at whatever times, with whatever statuses and bytes and
-- whatever messages are sent in between, a new connection that was run has at most one write and one
-- read under way, no write while `is_writing_` is off, no message in the queue while it is off or behind
-- a shutdown or an abort, its socket open as long as it is not dropped, and its timeout armed as long
-- as it is neither dropped nor shutting down.
pub run-Exclusive :
    (w : World) (now : ℕ) (c : WsConnection) → Steps (run w (new_connection now)) c → Exclusive c
run-Exclusive w now c r =
    let (waiting, v) = Steps-Inv [] (run-Inv w now) r in Inv-Exclusive waiting c v
