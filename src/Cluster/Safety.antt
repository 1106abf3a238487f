-- ===== src/Cluster/Safety.antt =====
-- The handlers of ClusterConnection.cpp one by one, and all of them together.
use ian.Prelude.{
  ℕ, zero, suc, ◌≡◌, refl, inl, inr, true, some, none, List, [], Bytes, length, ltb, ◌==◌,
  Bool-cases, ok, arith,
}
use ian.Error.{ErrorCode, Status}
use ian.Message.{empty_message}
use ian.Cluster.State.{
  handshake_read, ClusterConnection, start, shutdown, read_next, on_shutdown, handle_read_error,
  handle_write_error,
}
use ian.Cluster.Connection.{
  on_ian_handshake_sent, commit, take_length, handshake_payload, handshake_received,
  on_ian_handshake, on_write_message, on_read, Round, break, invalid, message, after_round,
  payload_round, round, read_loop, Drained, drained, refused,
}
use ian.Cluster.Chunks.{on_read_total, finish_read, drain}
use ian.Cluster.Invariant.{
  Inv, shutdown-Inv, left_waiting, handle_write_error-Inv, handle_read_error-Inv, Kept,
  write_next-Inv, weaken,
}

read_error-Kept :
    (e : ErrorCode) (w r : ℕ) (waiting : List Bytes) (c : ClusterConnection)
    → Inv w r waiting c
    → Kept (ok (handle_read_error e c))
read_error-Kept e w r waiting c v = (
  handle_read_error e c,
  left_waiting e waiting,
  refl,
  weaken w r 0 0 (left_waiting e waiting) (handle_read_error e c) (omega arith) (omega arith)
      (handle_read_error-Inv e w r waiting c v),
)

write_error-Kept :
    (e : ErrorCode) (w r : ℕ) (waiting : List Bytes) (c : ClusterConnection)
    → Inv w r waiting c
    → Kept (ok (handle_write_error e c))
write_error-Kept e w r waiting c v = (
  handle_write_error e c,
  left_waiting e waiting,
  refl,
  weaken w r 0 0 (left_waiting e waiting) (handle_write_error e c) (omega arith) (omega arith)
      (handle_write_error-Inv e w r waiting c v),
)

shutdown-Kept :
    (w r : ℕ) (waiting : List Bytes) (c : ClusterConnection)
    → Inv w r waiting c
    → Kept (ok (shutdown c))
shutdown-Kept w r waiting c v = (
  shutdown c,
  [],
  refl,
  weaken w r 0 0 [] (shutdown c) (omega arith) (omega arith) (shutdown-Inv w r waiting c v),
)

pub on_write_message-Kept :
    (status : Status) (waiting : List Bytes) (c : ClusterConnection)
    → Inv 1 0 waiting c
    → Kept (on_write_message status c)
unfolding on_write_message
on_write_message-Kept (some e) waiting c v =
    write_error-Kept e 1 0 waiting (record c { message_outbound = empty_message }) (ground arith)
on_write_message-Kept none waiting c v =
    write_next-Inv waiting (record c { message_outbound = empty_message }) (ground arith)

pub on_ian_handshake_sent-Kept :
    (status : Status) (waiting : List Bytes) (c : ClusterConnection)
    → Inv 1 1 waiting c
    → Kept (ok (on_ian_handshake_sent status c))
unfolding on_ian_handshake_sent
on_ian_handshake_sent-Kept (some e) waiting c v =
    write_error-Kept e 1 1 waiting (record c { message_outbound = empty_message }) (ground arith)
on_ian_handshake_sent-Kept none waiting c v = (
  start handshake_read (record c { message_outbound = empty_message }),
  waiting,
  refl,
  ground arith,
)

handshake_payload-Kept :
    (waiting : List Bytes) (c : ClusterConnection) → Inv 1 1 waiting c → Kept (handshake_payload c)
unfolding handshake_payload
handshake_payload-Kept waiting c v =
    elim (Bool-cases (ltb (length c.read_buffer) c.in_message_len)) [
      | inl short ↦ rw short (start handshake_read c, waiting, refl, ground arith)
      | inr enough ↦ elim (Bool-cases (ltb c.in_message_len (length c.read_buffer))) [
        | inl long ↦ rw (enough, long) (shutdown-Kept 1 1 waiting c v)
        | inr exact ↦ rw (enough, exact) (write_next-Inv waiting _ (ground arith))
      ]
    ]

handshake_received-Kept :
    (waiting : List Bytes) (c : ClusterConnection) → Inv 1 1 waiting c → Kept (handshake_received c)
unfolding handshake_received
handshake_received-Kept waiting c v = elim (Bool-cases (c.in_message_len == 0)) [
  | inr known ↦ rw known (handshake_payload-Kept waiting c v)
  | inl unknown ↦ elim (Bool-cases (ltb (length c.read_buffer) 4)) [
    | inl short ↦ rw (unknown, short) (shutdown-Kept 1 1 waiting c v)
    | inr long ↦ elim (Bool-cases ((take_length c).in_message_len == 0)) [
      | inl wrong ↦
          rw (unknown, long, wrong) (shutdown-Kept 1 1 waiting (take_length c) (ground arith))
      | inr sized ↦
          rw (unknown, long, sized) (handshake_payload-Kept waiting (take_length c) (ground arith))
    ]
  ]
]

pub on_ian_handshake-Kept :
    (status : Status) (bytes : Bytes) (waiting : List Bytes) (c : ClusterConnection)
    → Inv 1 1 waiting c
    → Kept (on_ian_handshake status bytes c)
unfolding on_ian_handshake
on_ian_handshake-Kept (some e) bytes waiting c v = read_error-Kept e 1 1 waiting c v
on_ian_handshake-Kept none bytes waiting c v =
    handshake_received-Kept waiting (commit bytes c) (ground arith)

-- The loop of `on_read` changes what is read, and nothing else.
abbrev pub Reads : ClusterConnection → ClusterConnection → Type 0
Reads c c' = c' ≡ record c {
  in_message_len = c'.in_message_len;
  read_buffer = c'.read_buffer;
  processed = c'.processed;
}

abbrev ReadsRound : ClusterConnection → Round → Type 0
ReadsRound c (break c') = Reads c c'
ReadsRound c (invalid c') = Reads c c'
ReadsRound c (message c') = Reads c c'

abbrev pub ReadsDrained : ClusterConnection → Drained → Type 0
ReadsDrained c (drained c') = Reads c c'
ReadsDrained c (refused c') = Reads c c'

round-Reads : (c : ClusterConnection) → ReadsRound c (round c)
unfolding round payload_round
round-Reads c = ground arith

pub read_loop-Reads :
    (f : ℕ) (c : ClusterConnection) (d : Drained) → read_loop f c ≡ ok d → ReadsDrained c d
unfolding read_loop
read_loop-Reads zero c d e = cc
read_loop-Reads (suc f) c d e = go (round c) d (round-Reads c) e (read_loop-Reads f)
  where
    go :
        (q : Round) (d : Drained)
        → ReadsRound c q
        → after_round (read_loop f) q ≡ ok d
        → ((c' : ClusterConnection) (d : Drained) → read_loop f c' ≡ ok d → ReadsDrained c' d)
        → ReadsDrained c d
    go (break c') (drained c'') s e ih = ground arith
    go (break c') (refused c'') s e ih = cc
    go (invalid c') (refused c'') s e ih = ground arith
    go (invalid c') (drained c'') s e ih = cc
    go (message c') (drained c'') s e ih = ground (arith, ih c' (drained c'') e)
    go (message c') (refused c'') s e ih = ground (arith, ih c' (refused c'') e)

Reads-Inv :
    (w r : ℕ) (waiting : List Bytes) (c c' : ClusterConnection)
    → Reads c c'
    → Inv w r waiting c
    → Inv w r waiting c'
Reads-Inv w r waiting c c' e v = rw e (ground arith)

pub on_read-Kept :
    (status : Status) (bytes : Bytes) (waiting : List Bytes) (c : ClusterConnection)
    → Inv 0 1 waiting c
    → Kept (on_read status bytes c)
on_read-Kept (some e) bytes waiting c v = unfold on_read in read_error-Kept e 0 1 waiting c v
on_read-Kept none bytes waiting c v = go (on_read_total bytes c)
  where
    go :
        (d : Drained) × (drain (commit bytes c) ≡ ok d) × (on_read none bytes c ≡ finish_read d)
        → Kept (on_read none bytes c)
    go (drained c', p, q) = rw q (
      read_next c',
      waiting,
      refl,
      unfold read_next in
          ground
            (arith, Reads-Inv 0 1 waiting (commit bytes c) c' (read_loop-Reads _ _ (drained c') p)),
    )
    go (refused c', p, q) = rw q (
        shutdown-Kept 0 1 waiting c' (
          Reads-Inv 0 1 waiting (commit bytes c) c' (read_loop-Reads _ _ (refused c') p)
            (ground arith)))

pub on_shutdown-Kept :
    (status : Status) (waiting : List Bytes) (c : ClusterConnection)
    → c.shutting_down ≡ true
    → Inv 0 0 waiting c
    → Kept (ok (on_shutdown status c))
unfolding on_shutdown
on_shutdown-Kept status waiting c s v = (on_shutdown status c, waiting, refl, ground arith)
