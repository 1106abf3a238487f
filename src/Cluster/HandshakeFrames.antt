-- ===== src/Cluster/HandshakeFrames.antt =====
-- The frame of the cluster handshake, as ClusterConnection::on_ian_handshake takes it apart.
use ian.Prelude.{
  ℕ, ◌%◌, ◌/◌, u32_mod, ◌≡◌, ap, ◌∙◌, true, false, [], ◌∷◌, ◌++◌, Bytes, length, length-append,
  drop-length, ltb, ◌==◌, le_value, Run, ok, none, arith,
}
use ian.Cluster.State.{ClusterConnection, shutdown, read_next}
use ian.Cluster.Connection.{handshake_payload, handshake_received, write_next, on_ian_handshake}
use ian.Cluster.Frames.{frame, Fits, length_le-value}

-- `handshake_received` with a length in front of what is left.
received_sized :
    (h₀ h₁ h₂ h₃ : ℕ) (rest : Bytes) (c : ClusterConnection)
    → c.in_message_len ≡ 0
    → c.read_buffer ≡ h₀ ∷ h₁ ∷ h₂ ∷ h₃ ∷ rest
    → (le_value (h₀ ∷ h₁ ∷ h₂ ∷ h₃ ∷ []) == 0) ≡ false
    → handshake_received c
      ≡ handshake_payload
          (record c { in_message_len = le_value (h₀ ∷ h₁ ∷ h₂ ∷ h₃ ∷ []); read_buffer = rest })
unfolding handshake_received
received_sized h₀ h₁ h₂ h₃ rest c n e sized =
    let long : ltb (length (h₀ ∷ h₁ ∷ h₂ ∷ h₃ ∷ rest)) 4 ≡ false = ground arith in
    rw (n, e, long, sized)

-- The state in which the payload `h` of a handshake is looked at, with `extra` behind it.
abbrev pub handshake_read_from : Bytes → Bytes → ClusterConnection → ClusterConnection
handshake_read_from h extra c = record c { in_message_len = length h; read_buffer = h ++ extra }

on_ian_handshake-frame :
    (h extra : Bytes) (c : ClusterConnection)
    → Fits h
    → c.in_message_len ≡ 0
    → c.read_buffer ≡ []
    → on_ian_handshake none (frame h ++ extra) c ≡ handshake_payload (handshake_read_from h extra c)
unfolding on_ian_handshake
on_ian_handshake-frame h extra c fits n e =
    let value = length_le-value h fits.1 in
    received_sized (length h % u32_mod % 256) (length h % u32_mod / 256 % 256)
      (length h % u32_mod / 256 / 256 % 256) (length h % u32_mod / 256 / 256 / 256 % 256)
      (h ++ extra) (record c { read_buffer = c.read_buffer ++ (frame h ++ extra) }) n (rw e)
      (ground (arith, value))
    ∙ rw value

-- The outcome for a handshake in one chunk with `extra` bytes behind it: with none the connection is
-- ready, reads on and starts to write its queue; with any it shuts down.
abbrev pub HandshakeOutcome : Bytes → Bytes → ClusterConnection → Run ClusterConnection → Type 0
HandshakeOutcome h [] c result =
    result ≡ write_next (read_next (record c { in_message_len = 0; read_buffer = [] }))
HandshakeOutcome h (x ∷ extra) c result =
    result ≡ ok (shutdown (handshake_read_from h (x ∷ extra) c))

payload-Outcome :
    (h extra : Bytes) (c : ClusterConnection)
    → HandshakeOutcome h extra c (handshake_payload (handshake_read_from h extra c))
unfolding handshake_payload
payload-Outcome h [] c =
    let same : ltb (length (h ++ [])) (length h) ≡ false = ground (arith, length-append h []) in
    let same' : ltb (length h) (length (h ++ [])) ≡ false = ground (arith, length-append h []) in
    rw (same, same')
      (ap (λ b. write_next (read_next (record c { in_message_len = 0; read_buffer = b })))
        (drop-length h []))
payload-Outcome h (x ∷ extra) c =
    let more : ltb (length (h ++ x ∷ extra)) (length h) ≡ false =
      ground (arith, length-append h (x ∷ extra)) in
    let more' : ltb (length h) (length (h ++ x ∷ extra)) ≡ true =
      ground (arith, length-append h (x ∷ extra)) in
    rw (more, more')

-- A connection with no bytes left over that receives, in one chunk, the frame of a handshake of 1 to
-- 2^32 - 1 bytes is ready if nothing stands behind the frame, and shuts down if as much as one byte of
-- the peer's first message does.
pub on_ian_handshake-Outcome :
    (h extra : Bytes) (c : ClusterConnection)
    → Fits h
    → c.in_message_len ≡ 0
    → c.read_buffer ≡ []
    → HandshakeOutcome h extra c (on_ian_handshake none (frame h ++ extra) c)
on_ian_handshake-Outcome h extra c fits n e =
    rw (on_ian_handshake-frame h extra c fits n e) (payload-Outcome h extra c)
