-- ===== src/Ws/RateLimit.antt =====
-- The inbound rate limiter of server/front/src/ws/WsConnection.cpp over the messages of one window.
use ian.Prelude.{
  ℕ, ◌+◌, ◌%◌, ◌≤◌, ◌<◌, ◌≡◌, refl, sym, ◌∙◌, Bool, true, false, ◌||◌, List, [], ◌∷◌, length, ltb,
  Bool-cases, inl, inr, ℤ, pos, negsuc, exceeds, to_size, size_mod, if◌then◌else◌, arith,
}
use mathlib.Core.Path.{ap₂}
use native.Mathlib.Nat.{mod-eq_of_lt}
use ian.Front.{World, seconds}
use ian.Ws.State.{WsConnection, abort, count_message}

-- Messages and control frames, each with the time of its arrival and its size.
abbrev pub Arrivals : Type 0
Arrivals = List (ℕ × ℕ)

abbrev pub total : Arrivals → ℕ
total [] = 0
total ((t, n) ∷ later) = n + total later

-- The arrivals counted in turn, up to the one that has the connection killed.
pub count_all : World → Arrivals → WsConnection → WsConnection × Bool
count_all w [] c = (c, false)
count_all w ((t, n) ∷ later) c =
    let (c', killed) = count_message (record w { now = t }) n c in
    let rest = count_all w later c' in if killed then (c', true) else rest

-- All arrive within a second of the start of the window.
abbrev pub Within : ℕ → Arrivals → Type 0
Within s [] = Unit {0}
Within s ((t, n) ∷ later) = (t ≤ s + seconds 1) × Within s later

-- The test of `check_rate_limit` for given counters.
unfoldable pub over : World → ℕ → ℕ → Bool
over w m b = exceeds m w.config.rate_limit_messages || exceeds b (to_size w.config.rate_limit_bytes)

exceeds_mono : (n k : ℕ) (z : ℤ) → n ≤ k → exceeds n z ≡ true → exceeds k z ≡ true
exceeds_mono n k (pos l) h e = ground arith
exceeds_mono n k (negsuc l) h e = refl

over_mono : (w : World) (m b m' b' : ℕ) → m ≤ m' → b ≤ b' → over w m b ≡ true → over w m' b' ≡ true
unfolding over
over_mono w m b m' b' h k e = ground (
  arith,
  exceeds_mono m m' w.config.rate_limit_messages h,
  exceeds_mono b b' (to_size w.config.rate_limit_bytes) k,
)

-- The counters behind one more arrival of `n` bytes.
abbrev pub counted : ℕ → WsConnection → WsConnection
counted n c = record c {
  rate_limit_messages = c.rate_limit_messages + 1;
  rate_limit_bytes = c.rate_limit_bytes + n;
}

-- One arrival within the window.
count_message_within :
    (w : World) (t n : ℕ) (c : WsConnection)
    → t ≤ c.rate_limit_start + seconds 1
    → c.rate_limit_bytes + n < size_mod
    → count_message (record w { now = t }) n c ≡ (
        if over w (c.rate_limit_messages + 1) (c.rate_limit_bytes + n)
        then (abort (counted n c), true)
        else (counted n c, false))
unfolding count_message over
count_message_within w t n c h k =
    let fits : (c.rate_limit_bytes + n) % size_mod ≡ c.rate_limit_bytes + n = mod-eq_of_lt k in
    let early : ltb (c.rate_limit_start + seconds 1) t ≡ false = ground arith in rw (fits, early)

abort_dropped : (c : WsConnection) → (abort c).dropped ≡ true
unfolding abort
abort_dropped c = ground arith

-- A connection that is within its limits and receives messages in the second from the start of its
-- window, their sizes and the counter in the range of a size_t, is killed by the rate limiter exactly
-- if, with these messages counted, there are more messages or more bytes than the limits; a killed
-- connection is dropped, and any other is not.
pub count_all-over :
    (w : World) (arrivals : Arrivals) (c : WsConnection)
    → Within c.rate_limit_start arrivals
    → c.rate_limit_bytes + total arrivals < size_mod
    → c.dropped ≡ false
    → over w c.rate_limit_messages c.rate_limit_bytes ≡ false
    → ((count_all w arrivals c).1
        ≡ over w (c.rate_limit_messages + length arrivals) (c.rate_limit_bytes + total arrivals))
      × ((count_all w arrivals c).0.dropped ≡ (count_all w arrivals c).1)
unfolding count_all
count_all-over w [] c within fits alive ok_ =
    (sym (ap₂ (over w) (omega arith) (omega arith) ∙ ok_), alive)
count_all-over w ((t, n) ∷ later) c (h, within) fits alive ok_ =
    elim (Bool-cases (over w (c.rate_limit_messages + 1) (c.rate_limit_bytes + n))) [
      | inl killed ↦
          rw (count_message_within w t n c h (omega arith), killed)
            (
              sym (
                  over_mono w (c.rate_limit_messages + 1) (c.rate_limit_bytes + n) _ _ (omega arith)
                    (omega arith) killed),
              abort_dropped (counted n c),
            )
      | inr kept ↦
          let rest = count_all-over w later (counted n c) within (omega arith) alive kept in
          rw (count_message_within w t n c h (omega arith), kept)
            (rest.0 ∙ ap₂ (over w) (omega arith) (omega arith), rest.1)
    ]
