-- ===== src/Cluster/Channel.antt =====
-- Two ClusterConnection.cpp at the ends of one connection, and the bytes between them: the transport
-- takes the bytes of completed writes in their order and hands them on in pieces of any size.
use ian.Prelude.{
  ◌≡◌, refl, sym, ap, ◌∙◌, true, false, none, List, [], ◌∷◌, ◌++◌, append_assoc, Bytes, ok,
}
use ian.Message.{empty_message, from_vector}
use ian.Message.Fifo.{Queues, Queues-push, Queues-try_pop}
use ian.Cluster.State.{
  Op, ssl_handshake, handshake_write, handshake_read, chunk_read, Link, message_write, ssl_shutdown,
  posted, ClusterConnection, start, link, length_le, on_posted, read_next,
}
use ian.Cluster.Connection.{write_next, on_write_message, on_read}
use ian.Cluster.Frames.{frame}
use ian.Cluster.Steps.{without}

pub record Channel : Type 0 where
  pub sender : ClusterConnection
  pub transit : Bytes
  pub receiver : ClusterConnection

-- The bytes of the writes under way.
abbrev pub writes : List Op → List Bytes
writes [] = []
writes (message_write l bytes ∷ os) = bytes ∷ writes os
writes (_ ∷ os) = writes os

-- A step of the channel, with what it posts: a posted task runs, a write completes, or a read does, behind
-- which the receiver reads on.
pub data Step (s : Channel) : List Bytes → Channel → Type 0 where
  posts :
      (b : Bytes) (c : ClusterConnection)
      → on_posted (from_vector b) s.sender ≡ ok c
      → Step s (b ∷ []) (record s { sender = c })
  completes :
      (before : List Op) (l : Link) (bytes : Bytes) (after : List Op) (c : ClusterConnection)
      → s.sender.pending ≡ before ++ message_write l bytes ∷ after
      → on_write_message none (without before after s.sender) ≡ ok c
      → Step s [] (record s { sender = c; transit = s.transit ++ bytes })
  reads :
      (chunk rest : Bytes) (d : ClusterConnection)
      → s.transit ≡ chunk ++ rest
      → on_read none chunk s.receiver ≡ ok (read_next d)
      → Step s [] (record s { transit = rest; receiver = d })

pub data Trace (s : Channel) : List Bytes → Channel → Type 0 where
  here : Trace s [] s
  next :
      {bs more : List Bytes} {t u : Channel} → Trace s bs t → Step t more u → Trace s (bs ++ more) u

-- What is under way at the sender: a message at most, while it is writing.
abbrev pub Sending : List Bytes → ClusterConnection → Type 0
Sending [] c = (c.is_writing ≡ false) × (writes c.pending ≡ [])
Sending (b ∷ bs) c = (c.is_writing ≡ true) × (bs ≡ []) × (writes c.pending ≡ frame b ∷ [])

pub record Sender (sending waiting : List Bytes) (c : ClusterConnection) : Type 0 where
  pub queued : Queues c.message_queue waiting
  pub alive : c.dropped ≡ false
  pub open_ : c.shutting_down ≡ false
  pub idle : c.is_writing ≡ false → waiting ≡ []
  pub one : Sending sending c

writes-append : (xs ys : List Op) → writes (xs ++ ys) ≡ writes xs ++ writes ys
writes-append [] ys = refl
writes-append (message_write l bytes ∷ xs) ys = ap (◌∷◌ bytes) (writes-append xs ys)
writes-append (ssl_handshake _ ∷ xs) ys = writes-append xs ys
writes-append (handshake_write _ ∷ xs) ys = writes-append xs ys
writes-append (handshake_read ∷ xs) ys = writes-append xs ys
writes-append (chunk_read _ ∷ xs) ys = writes-append xs ys
writes-append (ssl_shutdown ∷ xs) ys = writes-append xs ys
writes-append (posted _ ∷ xs) ys = writes-append xs ys

only_one : (xs ys : List Bytes) (a b : Bytes) → xs ++ a ∷ ys ≡ b ∷ [] → (a ≡ b) × (xs ++ ys ≡ [])
only_one [] ys a b e = (cc, cc)
only_one (x ∷ []) ys a b e = absurd (cc)
only_one (x ∷ y ∷ xs) ys a b e = absurd (cc)

no_middle : (xs ys : List Bytes) (a : Bytes) → ¬ (xs ++ a ∷ ys ≡ [])
no_middle [] ys a = λ e. cc
no_middle (x ∷ xs) ys a = λ e. cc

-- The write that completes is the only one, and no write is left without it.
pub only_write :
    (before : List Op) (l : Link) (bytes : Bytes) (after : List Op) (flight : List Bytes)
    (c : ClusterConnection)
    → c.pending ≡ before ++ message_write l bytes ∷ after
    → Sending flight c
    → (b : Bytes) × (flight ≡ b ∷ []) × (bytes ≡ frame b) × (writes (before ++ after) ≡ [])
only_write before l bytes after [] c p (w, none_) =
    let e =
      sym (writes-append before (message_write l bytes ∷ after)) ∙ sym (ap writes p) ∙ none_ in
    absurd (no_middle (writes before) (writes after) bytes e)
only_write before l bytes after (b ∷ bs) c p (w, none_more, one) =
    let e = sym (writes-append before (message_write l bytes ∷ after)) ∙ sym (ap writes p) ∙ one in
    let (same, rest) = only_one (writes before) (writes after) bytes (frame b) e in
    (b, ap (◌∷◌ b) none_more, same, writes-append before after ∙ rest)

-- A message that is given to the socket.
abbrev sending : Bytes → ClusterConnection → ClusterConnection
sending b c = record (start (message_write (link c.safe_link) (frame b)) c) {
  message_outbound = from_vector b;
  out_message_len_le = length_le b;
  sent = c.sent ++ from_vector b ∷ [];
}

pub posts-Sender :
    (b : Bytes) (flight waiting : List Bytes) (c c' : ClusterConnection)
    → on_posted (from_vector b) c ≡ ok c'
    → Sender flight waiting c
    → (flight' waiting' : List Bytes) × (flight' ++ waiting' ≡ (flight ++ waiting) ++ b ∷ [])
      × Sender flight' waiting' c'
unfolding on_posted
posts-Sender b [] waiting c c' e v =
    let out : ok (sending b (record c { is_writing = true })) ≡ ok c' =
      sym (rw (v.alive, v.open_, v.one.0)) ∙ e in
    let same : sending b (record c { is_writing = true }) ≡ c' = cc in
    let none_waits = v.idle v.one.0 in
    (
      b ∷ [],
      [],
      rw none_waits,
      rw (← same) (record {
        queued = rw none_waits at v.queued;
        alive = v.alive;
        open_ = v.open_;
        idle = λ e. refl;
        one = (refl, refl, ap (◌∷◌ (frame b)) v.one.1);
      }),
    )
posts-Sender b (b₀ ∷ more) waiting c c' e v =
    let (q, pushed, rest) = Queues-push b c.message_queue waiting v.queued in
    let out : ok (record c { message_queue = q }) ≡ ok c' =
      sym (rw (v.alive, v.open_, v.one.0, pushed)) ∙ e in
    let same : record c { message_queue = q } ≡ c' = cc in
    (
      b₀ ∷ more,
      waiting ++ b ∷ [],
      sym (append_assoc (b₀ ∷ more) waiting (b ∷ [])),
      rw (← same) (record {
        queued = rest;
        alive = v.alive;
        open_ = v.open_;
        idle = λ e. absurd (let busy = v.one.0 in cc);
        one = v.one;
      }),
    )

pub completes-Sender :
    (before after : List Op) (b : Bytes) (waiting : List Bytes) (c c' : ClusterConnection)
    → writes (before ++ after) ≡ []
    → on_write_message none (without before after c) ≡ ok c'
    → Sender (b ∷ []) waiting c
    → (flight' waiting' : List Bytes) × (flight' ++ waiting' ≡ waiting) × Sender flight' waiting' c'
unfolding on_write_message write_next
completes-Sender before after b [] c c' none_ e v =
    let quiet : ClusterConnection = record (without before after c) {
      message_outbound = empty_message;
      is_writing = false;
    } in
    let out : ok quiet ≡ ok c' = sym (rw (Queues-try_pop [] c.message_queue v.queued)) ∙ e in
    let same : quiet ≡ c' = cc in
    (
      [],
      [],
      refl,
      rw (← same) (record {
        queued = v.queued;
        alive = v.alive;
        open_ = v.open_;
        idle = λ e. refl;
        one = (refl, none_);
      }),
    )
completes-Sender before after b (b' ∷ waiting) c c' none_ e v =
    let (q, popped, rest) = Queues-try_pop (b' ∷ waiting) c.message_queue v.queued in
    let next_one : ClusterConnection =
      sending b' (record (without before after c) { message_queue = q }) in
    let out : ok next_one ≡ ok c' = sym (rw popped) ∙ e in
    let same : next_one ≡ c' = cc in
    (
      b' ∷ [],
      waiting,
      refl,
      rw (← same) (record {
        queued = rest;
        alive = v.alive;
        open_ = v.open_;
        idle = λ e. absurd (let busy = v.one.0 in cc);
        one = (v.one.0, refl, ap (◌∷◌ (frame b')) none_);
      }),
    )
