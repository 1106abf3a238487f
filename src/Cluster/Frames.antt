-- ===== src/Cluster/Frames.antt =====
-- The framing of cluster messages: what `do_write_message` sends and the loop of `on_read` takes apart.
use ian.Prelude.{
  ℕ, suc, ◌%◌, ◌<◌, ◌≡◌, refl, sym, ap, ◌∙◌, List, [], ◌∷◌, ◌++◌, map, append-nil, append_assoc,
  Bytes, length, length-append, take-length, drop-length, u32_mod, le_value, le_value-le_bytes, ok,
  none, arith, ltb, ◌==◌, false,
}
use ian.Message.{from_vector, is_empty}
use ian.Cluster.State.{ClusterConnection, length_le, read_next, shutdown}
use ian.Cluster.Connection.{
  commit, break, message, invalid, payload_round, round, Drained, drained, refused, after_round,
  read_loop, on_read,
}
use ian.Cluster.Chunks.{
  drain, read_loop_total, read_loop-Resumes, read_loop-fuel, on_read-append, on_read-drain,
  drain-step,
}

-- The length as four little-endian bytes, and the payload.
abbrev pub frame : Bytes → Bytes
frame b = length_le b ++ b

-- The bytes of some chunks in a row.
abbrev pub joined : List Bytes → Bytes
joined [] = []
joined (a ∷ chunks) = a ++ joined chunks

abbrev pub wire : List Bytes → Bytes
wire [] = []
wire (b ∷ bs) = frame b ++ wire bs

-- The payloads that a frame can carry.
abbrev pub Fits : Bytes → Type 0
Fits b = (0 < length b) × (length b < u32_mod)

abbrev pub AllFit : List Bytes → Type 0
AllFit [] = Unit {0}
AllFit (b ∷ bs) = Fits b × AllFit bs

-- The state behind some messages that were read to the last byte.
abbrev pub received : List Bytes → ClusterConnection → ClusterConnection
received bs c = record c {
  in_message_len = 0;
  read_buffer = [];
  processed = c.processed ++ map from_vector bs;
}

-- The state with one message taken off the front of the buffer.
abbrev after_frame : Bytes → Bytes → ClusterConnection → ClusterConnection
after_frame b rest c = record c {
  in_message_len = 0;
  read_buffer = rest;
  processed = c.processed ++ from_vector b ∷ [];
}

pub length_le-value : (b : Bytes) → length b < u32_mod → le_value (length_le b) ≡ length b
length_le-value b h = le_value-le_bytes (length b % u32_mod) (omega arith) ∙ omega arith

payload_round-frame :
    (b rest : Bytes) (c : ClusterConnection)
    → c.in_message_len ≡ length b
    → c.read_buffer ≡ b ++ rest
    → payload_round c ≡ message (after_frame b rest c)
unfolding payload_round
payload_round-frame b rest c n e =
    let enough : ltb (length (b ++ rest)) (length b) ≡ false =
      ground (arith, length-append b rest) in
    rw (n, e, enough, take-length b rest, drop-length b rest)

-- The round that finds a length in front of what is left.
round_sized :
    (h₀ h₁ h₂ h₃ : ℕ) (rest : Bytes) (c : ClusterConnection)
    → c.in_message_len ≡ 0
    → c.read_buffer ≡ h₀ ∷ h₁ ∷ h₂ ∷ h₃ ∷ rest
    → (le_value (h₀ ∷ h₁ ∷ h₂ ∷ h₃ ∷ []) == 0) ≡ false
    → round c
      ≡ payload_round
          (record c { in_message_len = le_value (h₀ ∷ h₁ ∷ h₂ ∷ h₃ ∷ []); read_buffer = rest })
unfolding round
round_sized h₀ h₁ h₂ h₃ rest c n e sized =
    let long : ltb (length (h₀ ∷ h₁ ∷ h₂ ∷ h₃ ∷ rest)) 4 ≡ false = ground arith in
    rw (n, e, long, sized)

round-frame :
    (b rest : Bytes) (c : ClusterConnection)
    → Fits b
    → c.in_message_len ≡ 0
    → c.read_buffer ≡ frame b ++ rest
    → round c ≡ message (after_frame b rest c)
round-frame b rest c fits n e =
    let value = length_le-value b fits.1 in
    round_sized _ _ _ _ (b ++ rest) c n e (ground (arith, value))
    ∙ payload_round-frame b rest
        (record c { in_message_len = le_value (length_le b); read_buffer = b ++ rest }) value refl

round-nothing :
    (c : ClusterConnection)
    → c.in_message_len ≡ 0
    → c.read_buffer ≡ []
    → round c ≡ break (received [] c)
unfolding round
round-nothing c n e = ground (arith, append-nil c.processed)

pub drain-wire :
    (bs : List Bytes) (c : ClusterConnection)
    → AllFit bs
    → c.in_message_len ≡ 0
    → c.read_buffer ≡ wire bs
    → drain c ≡ ok (drained (received bs c))
drain-wire [] c fits n e =
    drain-step c (length c.read_buffer) (omega arith)
    ∙ ap (after_round (read_loop (length c.read_buffer))) (round-nothing c n e)
drain-wire (b ∷ bs) c fits n e =
    drain-step c (length c.read_buffer) (omega arith)
    ∙ ap (after_round (read_loop (length c.read_buffer))) (round-frame b (wire bs) c fits.0 n e)
    ∙ read_loop-fuel _ _ (after_frame b (wire bs) c)
        (ground (arith, ap length e, length-append b (wire bs))) (omega arith)
    ∙ drain-wire bs (after_frame b (wire bs) c) fits.1 refl refl
    ∙ rw (append_assoc c.processed (from_vector b ∷ []) (map from_vector bs))

-- Completions of successive reads, each taken up on the state that the one before it left.
pub data Receives : List Bytes → ClusterConnection → ClusterConnection → Type 0 where
  none_left : {c c' : ClusterConnection} → c ≡ c' → Receives [] c c'
  chunk :
      {a : Bytes} {chunks : List Bytes} {c c' c'' : ClusterConnection}
      → on_read none a c ≡ ok (read_next c')
      → Receives chunks c' c''
      → Receives (a ∷ chunks) c c''

pub received-nil :
    (c : ClusterConnection) → c.in_message_len ≡ 0 → c.read_buffer ≡ [] → received [] c ≡ c
received-nil c n e = ground (arith, append-nil c.processed)

pub commit-nil : (c : ClusterConnection) → commit [] c ≡ c
commit-nil c = λ i. record c { read_buffer = append-nil c.read_buffer i }

pub commit-append :
    (a b : Bytes) (c : ClusterConnection) → commit (a ++ b) c ≡ commit b (commit a c)
commit-append a b c = λ i. record c { read_buffer = sym (append_assoc c.read_buffer a b) i }

-- A loop that stopped for want of bytes stops again at once.
pub drained-drained :
    (c c' : ClusterConnection) → drain c ≡ ok (drained c') → drain c' ≡ ok (drained c')
drained-drained c c' e =
    let again = read_loop-Resumes (suc (length c.read_buffer)) c [] (drained c') e in
    sym (ap drain (commit-nil c')) ∙ sym again ∙ ap drain (commit-nil c) ∙ e

pub drain-Receives :
    (chunks : List Bytes) (c c' : ClusterConnection)
    → drain c ≡ ok (drained c)
    → drain (commit (joined chunks) c) ≡ ok (drained c')
    → Receives chunks c c'
drain-Receives [] c c' idle e =
    let same : ok (drained c) ≡ ok (drained c') = sym idle ∙ sym (ap drain (commit-nil c)) ∙ e in
    none_left cc
drain-Receives (a ∷ chunks) c c' idle e =
    go (read_loop_total (suc (length (c.read_buffer ++ a))) (commit a c) (omega arith))
      (drain-Receives chunks)
  where
    all : drain (commit (joined chunks) (commit a c)) ≡ ok (drained c')
    all = ap drain (sym (commit-append a (joined chunks) c)) ∙ e

    go :
        (d : Drained) × (drain (commit a c) ≡ ok d)
        → ((c₁ c' : ClusterConnection)
            → drain c₁ ≡ ok (drained c₁)
            → drain (commit (joined chunks) c₁) ≡ ok (drained c')
            → Receives chunks c₁ c')
        → Receives (a ∷ chunks) c c'
    go (drained c₁, p) ih = chunk (on_read-drain a c ∙ rw p) (
        ih c₁ c' (drained-drained (commit a c) c₁ p)
          (sym (read_loop-Resumes _ (commit a c) (joined chunks) (drained c₁) p) ∙ all))
    go (refused c₁, p) ih =
        let still = read_loop-Resumes _ (commit a c) (joined chunks) (refused c₁) p in
        let wrong : ok (refused (commit (joined chunks) c₁)) ≡ ok (drained c') = sym still ∙ all in
        absurd (cc)

-- Whatever messages of 1 to 2^32 - 1 bytes their frames carry, a connection with no bytes left over
-- that reads the frames in a row, cut into any chunks, processes exactly these messages in their
-- order, leaves no bytes over, and goes on reading.
pub Receives-wire :
    (bs : List Bytes) (chunks : List Bytes) (c : ClusterConnection)
    → AllFit bs
    → c.in_message_len ≡ 0
    → c.read_buffer ≡ []
    → joined chunks ≡ wire bs
    → Receives chunks c (received bs c)
Receives-wire bs chunks c fits n e cut =
    drain-Receives chunks c (received bs c)
      (drain-wire [] c tt n e ∙ ap (λ x. ok (drained x)) (received-nil c n e))
      (drain-wire bs (commit (joined chunks) c) fits n (rw (e, cut)))

round_zero :
    (rest : Bytes) (c : ClusterConnection)
    → c.in_message_len ≡ 0
    → c.read_buffer ≡ frame [] ++ rest
    → round c ≡ invalid (record c { in_message_len = 0; read_buffer = rest })
unfolding round
round_zero rest c n e =
    let long : ltb (length (frame [] ++ rest)) 4 ≡ false = ground arith in rw (n, e, long)

-- A message of no bytes passes the test of `send_message`, and its frame makes a peer with no bytes
-- left over, which reads it in one chunk behind frames that fit and in front of anything, process the
-- messages of these frames and shut the connection down.
pub on_read_zero_length :
    (bs : List Bytes) (rest : Bytes) (c : ClusterConnection)
    → AllFit bs
    → c.in_message_len ≡ 0
    → c.read_buffer ≡ []
    → (is_empty (from_vector []) ≡ false)
      × (on_read none (wire bs ++ (frame [] ++ rest)) c
          ≡ ok (shutdown (record (received bs c) { read_buffer = rest })))
unfolding is_empty
on_read_zero_length bs rest c fits n e = (
  refl,
  sym (on_read-append (wire bs) tail c (received bs c) whole).1
      ∙ on_read-drain tail (received bs c)
      ∙ rw (
        drain-step (commit tail (received bs c)) (length tail) (omega arith),
        round_zero rest (commit tail (received bs c)) refl refl,
      ),
)
  where
    tail : Bytes
    tail = frame [] ++ rest

    whole : drain (commit (wire bs) c) ≡ ok (drained (received bs c))
    whole = drain-wire bs (commit (wire bs) c) fits n (rw e)
