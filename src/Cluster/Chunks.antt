-- ===== src/Cluster/Chunks.antt =====
-- The loop of ClusterConnection::on_read over the chunks that the network delivers.
use ian.Prelude.{
  ℕ, zero, suc, ◌<◌, ◌≤◌, ◌≡◌, refl, sym, ap, ◌∙◌, inl, inr, false, ◌++◌, append_assoc, Bytes,
  length, drop, length-append, length-drop, take-append, drop-append, ltb, ◌==◌, Bool-cases, Run,
  ok, ◌>>=◌, none, arith,
}
use ian.Cluster.State.{ClusterConnection, read_next, shutdown}
use ian.Cluster.Connection.{
  commit, take_length, Round, break, invalid, message, payload_round, round, Drained, drained,
  refused, after_round, read_loop, on_read,
}

-- What a round does to the bytes in the buffer: a message takes one at least, and the other rounds
-- add none.
abbrev pub Shrinks : ClusterConnection → Round → Type 0
Shrinks c (break c') = length c'.read_buffer ≤ length c.read_buffer
Shrinks c (invalid c') = length c'.read_buffer ≤ length c.read_buffer
Shrinks c (message c') = length c'.read_buffer < length c.read_buffer

pub round-Shrinks : (c : ClusterConnection) → Shrinks c (round c)
unfolding round payload_round
round-Shrinks c = ground (
  arith,
  length-drop c.in_message_len c.read_buffer,
  length-drop 4 c.read_buffer,
  length-drop (take_length c).in_message_len (drop 4 c.read_buffer),
)

-- What a round does with bytes behind those it looked at.
abbrev Extends : Bytes → Round → Round → Type 0
Extends d (break c') r = r ≡ round (commit d c')
Extends d (invalid c') r = r ≡ invalid (commit d c')
Extends d (message c') r = r ≡ message (commit d c')

payload_round-Extends :
    (d : Bytes) (c : ClusterConnection)
    → (c.in_message_len == 0) ≡ false
    → Extends d (payload_round c) (payload_round (commit d c))
unfolding round payload_round
payload_round-Extends d c known = elim (Bool-cases (ltb (length c.read_buffer) c.in_message_len)) [
  | inl short ↦ rw (short, known) refl
  | inr enough ↦
      let room : c.in_message_len ≤ length c.read_buffer = ground arith in
      let more : ltb (length (c.read_buffer ++ d)) c.in_message_len ≡ false =
        ground (arith, length-append c.read_buffer d) in
      rw
        (
          enough,
          more,
          take-append c.in_message_len c.read_buffer d room,
          drop-append c.in_message_len c.read_buffer d room,
        )
        refl
]

round-Extends : (d : Bytes) (c : ClusterConnection) → Extends d (round c) (round (commit d c))
unfolding round
round-Extends d c = elim (Bool-cases (c.in_message_len == 0)) [
  | inr known ↦ rw (known) (payload_round-Extends d c known)
  | inl unknown ↦ elim (Bool-cases (ltb (length c.read_buffer) 4)) [
    | inl short ↦ rw (unknown, short) (rw unknown)
    | inr enough ↦
        let room : 4 ≤ length c.read_buffer = ground arith in
        let more : ltb (length (c.read_buffer ++ d)) 4 ≡ false =
          ground (arith, length-append c.read_buffer d) in
        elim (Bool-cases ((take_length c).in_message_len == 0)) [
          | inl zero_length ↦
              rw
                (
                  unknown,
                  enough,
                  more,
                  take-append 4 c.read_buffer d room,
                  drop-append 4 c.read_buffer d room,
                  zero_length,
                )
                refl
          | inr sized ↦
              rw
                (
                  unknown,
                  enough,
                  more,
                  take-append 4 c.read_buffer d room,
                  drop-append 4 c.read_buffer d room,
                  sized,
                )
                (payload_round-Extends d (take_length c) sized)
        ]
  ]
]

-- Rounds more than there are bytes give the same result as any other such number of rounds.
pub read_loop-fuel :
    (f g : ℕ) (c : ClusterConnection)
    → length c.read_buffer < f
    → length c.read_buffer < g
    → read_loop f c ≡ read_loop g c
unfolding read_loop
read_loop-fuel zero g c h k = absurd (omega arith)
read_loop-fuel (suc f) zero c h k = absurd (omega arith)
read_loop-fuel (suc f) (suc g) c h k = go (round c) (round-Shrinks c) (read_loop-fuel f g)
  where
    go :
        (r : Round)
        → Shrinks c r
        → ((c' : ClusterConnection)
            → length c'.read_buffer < f
            → length c'.read_buffer < g
            → read_loop f c' ≡ read_loop g c')
        → after_round (read_loop f) r ≡ after_round (read_loop g) r
    go (break c') s ih = refl
    go (invalid c') s ih = refl
    go (message c') s ih = ih c' (omega arith) (omega arith)

-- With more rounds than there are bytes the loop ends.
pub read_loop_total :
    (f : ℕ) (c : ClusterConnection)
    → length c.read_buffer < f
    → (d : Drained) × (read_loop f c ≡ ok d)
unfolding read_loop
read_loop_total zero c h = absurd (omega arith)
read_loop_total (suc f) c h = go (round c) (round-Shrinks c) (read_loop_total f)
  where
    go :
        (r : Round)
        → Shrinks c r
        → ((c' : ClusterConnection)
            → length c'.read_buffer < f
            → (d : Drained) × (read_loop f c' ≡ ok d))
        → (d : Drained) × (after_round (read_loop f) r ≡ ok d)
    go (break c') s ih = (drained c', refl)
    go (invalid c') s ih = (refused c', refl)
    go (message c') s ih = ih c' (omega arith)

-- The loop over the bytes at hand, as `on_read` runs it.
abbrev pub drain : ClusterConnection → Run Drained
drain c = read_loop (suc (length c.read_buffer)) c

pub drain-step :
    (c : ClusterConnection) (f : ℕ)
    → length c.read_buffer ≤ f
    → drain c ≡ after_round (read_loop f) (round c)
unfolding read_loop
drain-step c f h = read_loop-fuel (suc (length c.read_buffer)) (suc f) c (omega arith) (omega arith)

-- What more bytes make of a finished loop.
abbrev pub Resumes : Bytes → ClusterConnection → Drained → Type 0
Resumes d c (drained c') = drain (commit d c) ≡ drain (commit d c')
Resumes d c (refused c') = drain (commit d c) ≡ ok (refused (commit d c'))

Resumes-step :
    (d : Bytes) (c c' : ClusterConnection) (r : Drained)
    → drain (commit d c) ≡ drain (commit d c')
    → Resumes d c' r
    → Resumes d c r
Resumes-step d c c' (drained _) e h = e ∙ h
Resumes-step d c c' (refused _) e h = e ∙ h

-- A loop that stopped for want of bytes goes on as if all bytes had been there at once, and a refused
-- length stays refused.
pub read_loop-Resumes :
    (f : ℕ) (c : ClusterConnection) (d : Bytes) (r : Drained) → read_loop f c ≡ ok r → Resumes d c r
unfolding read_loop
read_loop-Resumes zero c d r e = cc
read_loop-Resumes (suc f) c d r e =
    go (round c) r (round-Shrinks c) (round-Extends d c) e (read_loop-Resumes f)
  where
    go :
        (q : Round) (r : Drained)
        → Shrinks c q
        → Extends d q (round (commit d c))
        → after_round (read_loop f) q ≡ ok r
        → ((c' : ClusterConnection) (d : Bytes) (r : Drained)
            → read_loop f c' ≡ ok r
            → Resumes d c' r)
        → Resumes d c r
    go (break c') (drained c'') s x e ih =
        let same : c' ≡ c'' = cc in
        rw (← same) (
          drain-step (commit d c) (length (c.read_buffer ++ d)) (omega arith)
          ∙ ap (after_round (read_loop (length (c.read_buffer ++ d)))) x
          ∙ sym (
              drain-step (commit d c') (length (c.read_buffer ++ d))
                (omega (arith, length-append c.read_buffer d, length-append c'.read_buffer d))))
    go (break c') (refused c'') s x e ih = cc
    go (invalid c') (refused c'') s x e ih =
        let same : c' ≡ c'' = cc in
        rw (← same) (
          drain-step (commit d c) (length (c.read_buffer ++ d)) (omega arith)
          ∙ ap (after_round (read_loop (length (c.read_buffer ++ d)))) x)
    go (invalid c') (drained c'') s x e ih = cc
    go (message c') r s x e ih =
        let n = length (c.read_buffer ++ d) in
        let shorter : length (c'.read_buffer ++ d) < n =
          omega (arith, length-append c.read_buffer d, length-append c'.read_buffer d) in
        Resumes-step d c c' r
          (drain-step (commit d c) n (omega arith)
            ∙ ap (after_round (read_loop n)) x
            ∙ read_loop-fuel n (suc (length (c'.read_buffer ++ d))) (commit d c') shorter
                (omega arith))
          (ih c' d r e)

-- The result of `on_read` behind the loop.
abbrev pub finish_read : Drained → Run ClusterConnection
finish_read (drained c) = ok (read_next c)
finish_read (refused c) = ok (shutdown c)

pub on_read-drain :
    (bytes : Bytes) (c : ClusterConnection)
    → on_read none bytes c ≡ (drain (commit bytes c) >>= finish_read)
unfolding on_read
on_read-drain bytes c = ground arith

-- `on_read` never runs out of fuel nor fails: from any state it returns one, whatever bytes came.
pub on_read_total :
    (bytes : Bytes) (c : ClusterConnection)
    → (d : Drained) × (drain (commit bytes c) ≡ ok d) × (on_read none bytes c ≡ finish_read d)
on_read_total bytes c =
    let (d, e) =
      read_loop_total (suc (length (c.read_buffer ++ bytes))) (commit bytes c) (omega arith) in
    (d, e, on_read-drain bytes c ∙ rw e)

-- Two reads in a row, the second on the state that the first left when its own read was taken up, do
-- what one read of all the bytes does, provided that the first came to no invalid length.
pub on_read-append :
    (a b : Bytes) (c c' : ClusterConnection)
    → drain (commit a c) ≡ ok (drained c')
    → (on_read none a c ≡ ok (read_next c')) × (on_read none b c' ≡ on_read none (a ++ b) c)
on_read-append a b c c' e = (
  on_read-drain a c ∙ rw e,
  on_read-drain b c'
      ∙ ap (λ r. r >>= finish_read)
          (sym (read_loop-Resumes (suc (length (c.read_buffer ++ a))) (commit a c) b (drained c') e)
            ∙ rw (append_assoc c.read_buffer a b))
      ∙ sym (on_read-drain (a ++ b) c),
)
