-- ===== src/Happy/Digits.antt =====
-- The digits of an integer of the schema language, as Parser::parse_integer takes them.
use ian.Prelude.{
  ℕ, zero, suc, ◌+◌, ◌-◌, ◌*◌, ◌≤◌, ◌<◌, ◌≡◌, sym, ap, ◌∙◌, Bool, true, false, [], ◌∷◌, ◌++◌, Bytes,
  length, get_or, drop, ltb, Bool-cases, inl, inr, arith,
}
use ian.Happy.Reader.{StreamReader, Parser, Outcome, ok, undefined, peek_at}
use ian.Happy.Lexer.{is_digit, int64_max, scan_digits}
use ian.Happy.Advance.{peek_at-Filled}
use ian.Happy.View.{Filled, Filled-trans, Delivers, view, peek_at-view, get_or-drop}
use ian.Happy.Strings.{peek_at-cons, Filled-view}

-- The value of some digits behind the value `ret`.
abbrev pub decimal : ℕ → Bytes → ℕ
decimal ret [] = ret
decimal ret (c ∷ cs) = decimal (ret * 10 + (c - b'0')) cs

abbrev pub AllDigits : Bytes → Type 0
AllDigits [] = Unit
AllDigits (c ∷ cs) = (is_digit c ≡ true) × AllDigits cs

pub le-decimal : (ret : ℕ) (cs : Bytes) → ret ≤ decimal ret cs
le-decimal ret [] = omega arith
le-decimal ret (c ∷ cs) = omega (arith, le-decimal (ret * 10 + (c - b'0')) cs)

module _ (r : StreamReader) where
  -- The three rounds of the loop.
  pub scan_digits_end :
      (f len ret : ℕ) (p : Parser r.State)
      → is_digit (peek_at r len p).0 ≡ false
      → scan_digits r (suc f) len ret p ≡ ok ((ret, len), (peek_at r len p).1)
  unfolding scan_digits
  scan_digits_end f len ret p h = ground arith

  pub scan_digits_over :
      (f len ret : ℕ) (p : Parser r.State)
      → is_digit (peek_at r len p).0 ≡ true
      → ltb int64_max (ret * 10 + ((peek_at r len p).0 - b'0')) ≡ true
      → scan_digits r (suc f) len ret p ≡ undefined
  unfolding scan_digits
  scan_digits_over f len ret p h k = ground arith

  pub scan_digits_on :
      (f len ret : ℕ) (p : Parser r.State)
      → is_digit (peek_at r len p).0 ≡ true
      → ltb int64_max (ret * 10 + ((peek_at r len p).0 - b'0')) ≡ false
      → scan_digits r (suc f) len ret p
        ≡ scan_digits r f (len + 1) (ret * 10 + ((peek_at r len p).0 - b'0')) (peek_at r len p).1
  unfolding scan_digits
  scan_digits_on f len ret p h k = ground arith

module _ (r : StreamReader) (contents : r.State → Bytes) (law : Delivers r contents) where
  -- The outcome for a value that is too large for an int64_t, or not.
  abbrev pub Scanned : Bool → ℕ → ℕ → Parser r.State → Outcome ((ℕ × ℕ) × Parser r.State) → Type 0
  Scanned true value end_ p result = result ≡ undefined
  Scanned false value end_ p result =
      (q : Parser r.State) × (result ≡ ok ((value, end_), q))
      × Filled r contents law p q
      × (view r contents law q ≡ view r contents law p)
      × (q.pos ≡ p.pos)

  Scanned-back :
      (over : Bool) (value end_ end' : ℕ) (p q : Parser r.State)
      (result result' : Outcome ((ℕ × ℕ) × Parser r.State))
      → result ≡ result'
      → end' ≡ end_
      → Filled r contents law p q
      → Scanned over value end' q result'
      → Scanned over value end_ p result
  Scanned-back true value end_ end' p q result result' e n g h = e ∙ h
  Scanned-back false value end_ end' p q result result' e n g (q', run, g', v', at') = (
    q',
    e ∙ run ∙ ap (λ (m : ℕ). ok ((value, m), q')) n,
    Filled-trans r contents law g g',
    v' ∙ Filled-view r contents law g,
    at' ∙ g.same_pos,
  )

  -- With a reader that keeps its contract, the loop of `parse_integer`, over digits behind which no digit
  -- follows and with a round more than there are digits, returns their decimal value and the offset
  -- behind them if the value is within an int64_t, with the text that is left and the position as they
  -- were, and overflows if it is not.
  pub scan_digits-decimal :
      (ds rest : Bytes) (fuel len ret : ℕ) (p : Parser r.State)
      → AllDigits ds
      → is_digit (get_or rest 0 0) ≡ false
      → drop len (view r contents law p) ≡ ds ++ rest
      → length ds < fuel
      → ret ≤ int64_max
      → Scanned
          (ltb int64_max (decimal ret ds))
          (decimal ret ds)
          (len + length ds)
          p
          (scan_digits r fuel len ret p)
  scan_digits-decimal ds rest zero len ret p all stop h k fits = absurd (omega arith)
  scan_digits-decimal [] rest (suc f) len ret p all stop h k fits =
      let (x, kept, at, _) = peek_at-view r contents law len p in
      let e : len + 0 ≡ len = omega arith in
      let byte : (peek_at r len p).0 ≡ get_or rest 0 0 =
        x
        ∙ ap (λ (n : ℕ). get_or (view r contents law p) n 0) (sym e)
        ∙ sym (get_or-drop len (view r contents law p) 0 0)
        ∙ ap (λ b. get_or b 0 0) h in
      let within : ltb int64_max ret ≡ false = ground arith in
      rw (within, e)
        (
          (peek_at r len p).1,
          scan_digits_end r f len ret p (ap is_digit byte ∙ stop),
          (peek_at-Filled r contents law len p).1,
          kept,
          at,
        )
  scan_digits-decimal (c ∷ ds) rest (suc f) len ret p (d, all) stop h k fits =
      let q = (peek_at r len p).1 in
      let value = ret * 10 + (c - b'0') in
      let (x, next, g) = peek_at-cons r contents law len p c (ds ++ rest) h in
      let digit : is_digit (peek_at r len p).0 ≡ true = ap is_digit x ∙ d in
      let same : ltb int64_max (ret * 10 + ((peek_at r len p).0 - b'0')) ≡ ltb int64_max value =
        ap (λ (b : ℕ). ltb int64_max (ret * 10 + (b - b'0'))) x in
      elim (Bool-cases (ltb int64_max value)) [
        | inl over ↦
            let final : ltb int64_max (decimal value ds) ≡ true =
              ground (arith, le-decimal value ds) in
            rw final (scan_digits_over r f len ret p digit (same ∙ over))
        | inr small ↦
            let e : len + 1 + length ds ≡ len + suc (length ds) = omega arith in
            Scanned-back (ltb int64_max (decimal value ds)) (decimal value ds)
              (len + suc (length ds)) (len + 1 + length ds) p q _ _
              (scan_digits_on r f len ret p digit (same ∙ small)
                ∙ ap (λ (b : ℕ). scan_digits r f (len + 1) (ret * 10 + (b - b'0')) q) x)
              e g
              (scan_digits-decimal ds rest f (len + 1) value q all stop next (omega arith)
                (ground arith))
      ]
