-- ===== src/Cluster/Connection.antt =====
-- The completion handlers of server/common/src/cluster/ClusterConnection.cpp: the two handshakes, the
-- loop that cuts the inbound bytes into messages, and the writer. The state is that of Cluster/State.
use ian.Prelude.{
  ℕ, zero, suc, false, none, some, [], ◌∷◌, ◌++◌, Bytes, length, take, drop, ltb, ◌==◌,
  if◌then◌else◌, le_value, Run, ok, out_of_fuel, ◌>>=◌,
}
use ian.Error.{Status}
use ian.Cluster.State.{
  Op, ssl_handshake, handshake_write, handshake_read, chunk_read, message_write, ssl_shutdown,
  posted, ClusterConnection, start, length_le, abort, shutdown, read_next, do_write_message,
  on_posted, on_shutdown, handle_read_error, handle_write_error,
}
use ian.Message
use ian.Message.{Message, MessageQueue, empty_message, empty_queue, from_vector, is_empty}

unfoldable pub on_ssl_handshake : Status → ClusterConnection → Run ClusterConnection
unfolding abort Message.payload
on_ssl_handshake (some e) c = ok (abort c)
on_ssl_handshake none c = do
  bytes ← Message.payload c.message_outbound
  let c' = record c { out_message_len_le = length_le bytes }
  ok (start (handshake_write (length_le bytes ++ bytes)) c')

unfoldable pub on_ian_handshake_sent : Status → ClusterConnection → ClusterConnection
unfolding handle_write_error
on_ian_handshake_sent (some e) c =
    handle_write_error e (record c { message_outbound = empty_message })
on_ian_handshake_sent none c = start handshake_read (record c { message_outbound = empty_message })

-- `read_buffer_.commit` of what was read.
abbrev pub commit : Bytes → ClusterConnection → ClusterConnection
commit bytes c = record c { read_buffer = c.read_buffer ++ bytes }

-- The extraction of the length: `buffer_copy` into four bytes, and `consume` of these.
abbrev pub take_length : ClusterConnection → ClusterConnection
take_length c = record c {
  in_message_len = le_value (take 4 c.read_buffer);
  read_buffer = drop 4 c.read_buffer;
}

-- Writing goes on with the next message of the queue, or stops.
unfoldable pub write_next : ClusterConnection → Run ClusterConnection
unfolding Message.try_pop do_write_message
write_next c = Message.try_pop c.message_queue >>= elim [
  | none ↦ ok (record c { is_writing = false })
  | some (m, q) ↦ do_write_message m (record c { message_queue = q })
]

-- `on_ian_handshake` once the length is known.
unfoldable pub handshake_payload : ClusterConnection → Run ClusterConnection
unfolding shutdown read_next write_next
handshake_payload c =
    if ltb (length c.read_buffer) c.in_message_len
    then ok (start handshake_read c)
    else if ltb c.in_message_len (length c.read_buffer)
    then ok (shutdown c)
    else write_next (
        read_next
          (record c { read_buffer = drop c.in_message_len c.read_buffer; in_message_len = 0 }))

unfoldable pub handshake_received : ClusterConnection → Run ClusterConnection
unfolding shutdown
handshake_received c =
    if c.in_message_len == 0
    then (if ltb (length c.read_buffer) 4
        then ok (shutdown c)
        else let c' = take_length c in
          if c'.in_message_len == 0 then ok (shutdown c') else handshake_payload c')
    else handshake_payload c

unfoldable pub on_ian_handshake : Status → Bytes → ClusterConnection → Run ClusterConnection
unfolding handle_read_error
on_ian_handshake (some e) bytes c = ok (handle_read_error e c)
on_ian_handshake none bytes c = handshake_received (commit bytes c)

-- One round of the loop of `on_read`: a `break`, the early return on a length of 0, or a message.
pub data Round : Type 0 where
  break invalid message : ClusterConnection → Round

abbrev pub take_message : ClusterConnection → ClusterConnection
take_message c = record c {
  read_buffer = drop c.in_message_len c.read_buffer;
  processed = c.processed ++ from_vector (take c.in_message_len c.read_buffer) ∷ [];
  in_message_len = 0;
}

unfoldable pub payload_round : ClusterConnection → Round
payload_round c =
    if ltb (length c.read_buffer) c.in_message_len then break c else message (take_message c)

unfoldable pub round : ClusterConnection → Round
unfolding payload_round
round c =
    if c.in_message_len == 0
    then (if ltb (length c.read_buffer) 4
        then break c
        else let c' = take_length c in
          if c'.in_message_len == 0 then invalid c' else payload_round c')
    else payload_round c

-- How the loop ends: behind a `break`, or by the return on an invalid length.
pub data Drained : Type 0 where
  drained refused : ClusterConnection → Drained

-- What the loop does behind a round, given the rest of the loop.
abbrev pub after_round : (ClusterConnection → Run Drained) → Round → Run Drained
after_round again (break c) = ok (drained c)
after_round again (invalid c) = ok (refused c)
after_round again (message c) = again c

unfoldable pub read_loop : ℕ → ClusterConnection → Run Drained
read_loop zero c = out_of_fuel
read_loop (suc f) c = after_round (read_loop f) (round c)

-- Each round that goes on consumes a byte at least, so a round more than there are bytes is enough.
unfoldable pub on_read : Status → Bytes → ClusterConnection → Run ClusterConnection
unfolding handle_read_error shutdown read_next read_loop round
on_read (some e) bytes c = ok (handle_read_error e c)
on_read none bytes c =
    let c' = commit bytes c in
    read_loop (suc (length c'.read_buffer)) c'
    >>= elim [ drained c'' ↦ ok (read_next c'') | refused c'' ↦ ok (shutdown c'') ]

unfoldable pub on_write_message : Status → ClusterConnection → Run ClusterConnection
unfolding handle_write_error write_next
on_write_message (some e) c =
    ok (handle_write_error e (record c { message_outbound = empty_message }))
on_write_message none c = write_next (record c { message_outbound = empty_message })

-- What an operation hands to its completion handler: a status, and the bytes that were read.
pub record Completion : Type 0 where
  pub status : Status
  pub bytes : Bytes

-- The handler that each operation was started with, or the posted task itself.
unfoldable pub complete : Op → Completion → ClusterConnection → Run ClusterConnection
unfolding handshake_received handshake_payload on_ssl_handshake on_ian_handshake_sent
    on_ian_handshake on_read on_write_message on_posted on_shutdown
complete (ssl_handshake role) e c = on_ssl_handshake e.status c
complete (handshake_write bytes) e c = ok (on_ian_handshake_sent e.status c)
complete handshake_read e c = on_ian_handshake e.status e.bytes c
complete (chunk_read l) e c = on_read e.status e.bytes c
complete (message_write l bytes) e c = on_write_message e.status c
complete ssl_shutdown e c = ok (on_shutdown e.status c)
complete (posted m) e c = on_posted m c
