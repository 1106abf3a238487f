-- ===== src/Cluster/Delivery.antt =====
-- What is posted to a ClusterConnection.cpp and what the one at the other end processes.
use ian.Prelude.{
  ◌≡◌, refl, sym, ap, ◌∙◌, inl, inr, none, List, [], ◌∷◌, ◌⊎◌, ◌++◌, map, append-nil, append_assoc,
  Bytes, ok,
}
use ian.Message.{from_vector}
use ian.Message.Fifo.{map-concat}
use ian.Cluster.State.{ClusterConnection, read_next}
use ian.Cluster.Connection.{commit, Drained, drained, refused, on_read}
use ian.Cluster.Chunks.{drain, finish_read, read_loop-Resumes, on_read_total}
use ian.Cluster.Frames.{
  frame, joined, AllFit, Fits, received, Receives, drain-wire, received-nil, commit-nil,
  commit-append, drained-drained, drain-Receives,
}
use ian.Cluster.Channel.{
  Channel, writes, Step, posts, completes, reads, Trace, here, next, Sender, only_write,
  posts-Sender, completes-Sender,
}

-- What the receiver comes to with all that is under way to it.
record Receiver (done : List Bytes) (transit : Bytes) (d c : ClusterConnection) : Type 0 where
  pub comes : drain (commit transit c) ≡ ok (drained (received done d))
  pub rests : drain c ≡ ok (drained c)

AllFit-left : (xs ys : List Bytes) → AllFit (xs ++ ys) → AllFit xs
AllFit-left [] ys h = tt
AllFit-left (x ∷ xs) ys (f, h) = (f, AllFit-left xs ys h)

AllFit-right : (xs ys : List Bytes) → AllFit (xs ++ ys) → AllFit ys
AllFit-right [] ys h = h
AllFit-right (x ∷ xs) ys (f, h) = AllFit-right xs ys h

-- A frame more is written to the wire.
writes-Receiver :
    (done : List Bytes) (b transit : Bytes) (d c : ClusterConnection)
    → Fits b
    → Receiver done transit d c
    → Receiver (done ++ b ∷ []) (transit ++ frame b) d c
writes-Receiver done b transit d c fits v = record {
  comes =
      ap drain (commit-append transit (frame b) c)
      ∙ read_loop-Resumes _ (commit transit c) (frame b) (drained (received done d)) v.comes
      ∙ drain-wire (b ∷ []) (commit (frame b) (received done d)) (fits, tt) refl
          (sym (append-nil (frame b)))
      ∙ ap (λ ms. ok (drained (record d { in_message_len = 0; read_buffer = []; processed = ms })))
          (append_assoc d.processed (map from_vector done) (from_vector b ∷ [])
            ∙ ap (◌++◌ d.processed) (sym (map-concat from_vector done b)));
  rests = v.rests;
}

-- The state that `read_next` went on from.
abbrev unread : ClusterConnection → ClusterConnection
unread c = record c { pending = elim c.pending [ [] ↦ [] | _ ∷ os ↦ os ] }

read_next-injective : (c c' : ClusterConnection) → read_next c ≡ read_next c' → c ≡ c'
unfolding read_next
read_next-injective c c' e = ap unread e

reads-Receiver :
    (done : List Bytes) (chunk rest : Bytes) (d c c' : ClusterConnection)
    → Receiver done (chunk ++ rest) d c
    → on_read none chunk c ≡ ok (read_next c')
    → Receiver done rest d c'
reads-Receiver done chunk rest d c c' v run = go (on_read_total chunk c)
  where
    all : drain (commit rest (commit chunk c)) ≡ ok (drained (received done d))
    all = ap drain (sym (commit-append chunk rest c)) ∙ v.comes

    go :
        (q : Drained) × (drain (commit chunk c) ≡ ok q) × (on_read none chunk c ≡ finish_read q)
        → Receiver done rest d c'
    go (drained c₁, p, e) =
        let out : ok (read_next c₁) ≡ ok (read_next c') = sym e ∙ run in
        let same : c₁ ≡ c' = read_next-injective c₁ c' cc in
        rw (← same) (record {
          comes = sym (read_loop-Resumes _ (commit chunk c) rest (drained c₁) p) ∙ all;
          rests = drained-drained (commit chunk c) c₁ p;
        })
    go (refused c₁, p, e) =
        let still = read_loop-Resumes _ (commit chunk c) rest (refused c₁) p in
        let wrong : ok (refused (commit rest c₁)) ≡ ok (drained (received done d)) =
          sym still ∙ all in
        absurd (cc)

-- What is posted so far is delivered, under way, or waits.
record Delivered (bs : List Bytes) (d : ClusterConnection) (s : Channel) : Type 0 where
  pub done : List Bytes
  pub flight : List Bytes
  pub waiting : List Bytes
  pub all : bs ≡ done ++ (flight ++ waiting)
  pub sends : Sender flight waiting s.sender
  pub reads : Receiver done s.transit d s.receiver

Step-Delivered :
    {bs more : List Bytes} {d : ClusterConnection} {s t : Channel}
    → AllFit (bs ++ more)
    → Step s more t
    → Delivered bs d s
    → Delivered (bs ++ more) d t
Step-Delivered {bs = bs} fits (posts b c e) v =
    let (flight', waiting', same, w) = posts-Sender b v.flight v.waiting _ c e v.sends in
    record {
      done = v.done;
      flight = flight';
      waiting = waiting';
      all =
          ap (λ xs. xs ++ b ∷ []) v.all
          ∙ append_assoc v.done (v.flight ++ v.waiting) (b ∷ [])
          ∙ ap (◌++◌ v.done) (sym same);
      sends = w;
      reads = v.reads;
    }
Step-Delivered {bs = bs} {d = d} {s = s} fits (completes before l bytes after c p e) v =
    let (b, one, framed, none_) = only_write before l bytes after v.flight s.sender p v.sends.one in
    let split : bs ++ [] ≡ v.done ++ b ∷ v.waiting =
      append-nil bs ∙ v.all ∙ ap (λ f. v.done ++ (f ++ v.waiting)) one in
    let (flight', waiting', same, w) =
      completes-Sender before after b v.waiting s.sender c none_ e (rw one at v.sends) in
    record {
      done = v.done ++ b ∷ [];
      flight = flight';
      waiting = waiting';
      all =
          split
          ∙ sym (append_assoc v.done (b ∷ []) v.waiting)
          ∙ ap (◌++◌ (v.done ++ b ∷ [])) (sym same);
      sends = w;
      reads = rw framed (
          writes-Receiver v.done b s.transit d s.receiver
            (AllFit-right v.done (b ∷ v.waiting) (rw split at fits)).0 v.reads);
    }
Step-Delivered {bs = bs} {d = d} {s = s} fits (reads chunk rest c p e) v = record {
  done = v.done;
  flight = v.flight;
  waiting = v.waiting;
  all = append-nil bs ∙ v.all;
  sends = v.sends;
  reads = reads-Receiver v.done chunk rest d s.receiver c (rw p at v.reads) e;
}

Trace-Delivered :
    {d : ClusterConnection} {s : Channel} {bs : List Bytes} {t : Channel}
    → AllFit bs
    → Trace s bs t
    → Delivered [] d s
    → Delivered bs d t
Trace-Delivered fits here v = v
Trace-Delivered fits (next {bs = bs} {more = more} steps step) v =
    Step-Delivered fits step (Trace-Delivered (AllFit-left bs more fits) steps v)

-- A channel with nothing on its way: its sender is alive and writes nothing, its receiver has no bytes
-- left over.
pub record Quiet (s : Channel) : Type 0 where
  pub sends : Sender [] [] s.sender
  pub clear : s.transit ≡ []
  pub whole : s.receiver.in_message_len ≡ 0
  pub empty : s.receiver.read_buffer ≡ []

Quiet-Delivered : (s : Channel) → Quiet s → Delivered [] s.receiver s
Quiet-Delivered s v =
    let same = received-nil s.receiver v.whole v.empty in
    let idle : drain s.receiver ≡ ok (drained s.receiver) =
      drain-wire [] s.receiver tt v.whole v.empty ∙ ap (λ c. ok (drained c)) same in
    record {
      done = [];
      flight = [];
      waiting = [];
      all = refl;
      sends = v.sends;
      reads = record {
        comes =
            rw v.clear
              (ap drain (commit-nil s.receiver) ∙ idle ∙ ap (λ c. ok (drained c)) (sym same));
        rests = idle;
      };
    }

Sender-writes :
    (flight waiting : List Bytes) (c : ClusterConnection)
    → Sender flight waiting c
    → (flight ++ waiting ≡ [])
      ⊎ ((b : Bytes) × (more : List Bytes) × (flight ++ waiting ≡ b ∷ more)
          × (writes c.pending ≡ frame b ∷ []))
Sender-writes [] waiting c v = inl (v.idle v.one.0)
Sender-writes (b ∷ more) waiting c v = inr (b, more ++ waiting, refl, v.one.2)

-- On a connection with nothing on its way at first, whatever messages of 1 to 2^32 - 1 bytes are posted
-- at one end, in any interleaving with writes that complete without an error, whose bytes are on their
-- way from then on, and with reads of these bytes in pieces of any size: the posted messages are those
-- sent so far, followed by the others, in their order; the peer, as the rest of the sent bytes comes
-- in, cut into any pieces, refuses none and has in the end processed exactly the sent messages, in the
-- order of posting; and either all that was posted is sent, or the one write under way is the frame of
-- the first of the others.
pub delivers :
    {bs : List Bytes} {s t : Channel}
    → AllFit bs
    → Quiet s
    → Trace s bs t
    → (done rest : List Bytes) × (bs ≡ done ++ rest)
      × ((chunks : List Bytes)
          → joined chunks ≡ t.transit
          → Receives chunks t.receiver (received done s.receiver))
      × ((rest ≡ [])
          ⊎ ((b : Bytes) × (more : List Bytes) × (rest ≡ b ∷ more)
              × (writes t.sender.pending ≡ frame b ∷ [])))
delivers {s = s} {t = t} fits quiet steps =
    let v = Trace-Delivered fits steps (Quiet-Delivered s quiet) in
    (
      v.done,
      v.flight ++ v.waiting,
      v.all,
      λ chunks cut.
          drain-Receives chunks t.receiver (received v.done s.receiver) v.reads.rests
            (rw cut v.reads.comes),
      Sender-writes v.flight v.waiting t.sender v.sends,
    )
