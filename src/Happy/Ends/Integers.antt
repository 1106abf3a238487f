-- ===== src/Happy/Ends/Integers.antt =====
-- `parse_integer` of Parser ends.
use ian.Prelude.{
  ℕ, zero, suc, ◌+◌, ◌-◌, ◌*◌, ◌≤◌, ◌<◌, ◌≡◌, refl, ap, ◌∙◌, inl, inr, Bool, true, false, ◌||◌, [],
  ◌∷◌, Bytes, length, length-drop, drop, get_or, ltb, ◌==◌, if◌then◌else◌, Bool-cases, arith,
}
use ian.Happy.Reader.{
  integer, Outcome, ok, undefined, StreamReader, Parser, ◌>>=◌, ◌>>◌, pure, peek_at,
}
use ian.Happy.Lexer.{is_digit, skip, parse_integer, scan_digits, signed, int64_max}
use ian.Happy.View.{Delivers, Filled, Filled-trans, view}
use ian.Happy.Strings.{Filled-view, peek_at-cons}
use ian.Happy.Digits.{scan_digits_end, scan_digits_on, scan_digits_over}
use ian.Happy.Symbols.{symbol_of, peek_at-get_or}
use ian.Happy.Quotes.{code, open_string-plain, is_plain, is_digit-is_plain}
use ian.Happy.Fronts.{Front, integer-digit}
use ian.Happy.Ends.{At, Ended, Takes}
use ian.Happy.Ends.Symbols.{refused, met, expect-Expected, advance-At}
use ian.Happy.Ends.Names.{Filled-At}

module _ (r : StreamReader) (contents : r.State → Bytes) (law : Delivers r contents)
    (text filename : Bytes) where
  -- The digits from an offset on: too many of them, or what they are and where they end.
  pub data Scanned (len ret : ℕ) (cs : Bytes) (p : Parser r.State)
      : Outcome ((ℕ × ℕ) × Parser r.State) → Type 0 where
    overflow : Scanned len ret cs p undefined
    digits :
        (value n end_ : ℕ) (q : Parser r.State)
        → end_ ≡ len + n
        → Filled r contents law p q
        → Front code n cs
        → (is_digit (get_or cs 0 0) ≡ true → 0 < n)
        → Scanned len ret cs p (ok ((value, end_), q))

  Front-none : (cs : Bytes) → Front code 0 cs
  Front-none cs = record { front = []; behind = cs; split = refl; count = refl; same_open = refl }

  Front-plain :
      {n : ℕ} (c : ℕ) (cs : Bytes)
      → is_plain c ≡ true
      → Front code n cs
      → Front code (suc n) (c ∷ cs)
  Front-plain c cs h f = record {
    front = c ∷ f.front;
    behind = f.behind;
    split = ap (◌∷◌ c) f.split;
    count = ap suc f.count;
    same_open = open_string-plain c cs h ∙ f.same_open;
  }

  Scanned-back :
      (len ret ret' c : ℕ) (cs : Bytes) (p q : Parser r.State)
      {x : Outcome ((ℕ × ℕ) × Parser r.State)}
      → is_digit c ≡ true
      → Filled r contents law p q
      → Scanned (len + 1) ret' cs q x
      → Scanned len ret (c ∷ cs) p x
  Scanned-back len ret ret' c cs p q h g overflow = overflow
  Scanned-back len ret ret' c cs p q h g (digits value n end_ q' e g' f _) =
      (digits value (suc n) end_ q' (omega arith) (Filled-trans r contents law g g')
        (Front-plain c cs (is_digit-is_plain c h) f) (λ _. omega arith))

  scan_digits-Scanned :
      (cs : Bytes) (f len ret : ℕ) (p : Parser r.State)
      → drop len (view r contents law p) ≡ cs
      → length cs < f
      → Scanned len ret cs p (scan_digits r f len ret p)
  scan_digits-Scanned cs zero len ret p h k = absurd (omega arith)
  scan_digits-Scanned [] (suc f) len ret p h k =
      let (byte, x) = peek_at-get_or r contents law len p [] h in
      let no_digit : is_digit 0 ≡ false = unfold is_digit in refl in
      let run = scan_digits_end r f len ret p (rw byte no_digit) in
      rw run (digits ret 0 len _ (omega arith) x (Front-none []) (λ d. cc (d, no_digit)))
  scan_digits-Scanned (c ∷ cs) (suc f) len ret p h k =
      let (byte, next, x) = peek_at-cons r contents law len p c cs h in
      elim (Bool-cases (is_digit c)) [
        | inr e ↦
            let run = scan_digits_end r f len ret p (rw byte e) in
            rw run (digits ret 0 len _ (omega arith) x (Front-none (c ∷ cs)) (λ d. cc (d, e)))
        | inl e ↦ elim (Bool-cases (ltb int64_max (ret * 10 + ((peek_at r len p).0 - b'0')))) [
          | inl over ↦ let run = scan_digits_over r f len ret p (rw byte e) over in rw run overflow
          | inr small ↦
              let run = scan_digits_on r f len ret p (rw byte e) small in
              rw run (
                Scanned-back len ret _ c cs p (peek_at r len p).1 e x
                  (scan_digits-Scanned cs f (len + 1) _ (peek_at r len p).1 next (omega arith)))
        ]
      ]

  abbrev start : ℕ → ℕ
  start c = if c == b'-' || c == b'+' then 1 else 0

  digits_taken :
      (negative : Bool) (len k : ℕ) (cs : Bytes) (q : Parser r.State) {d : ℕ}
      {x : Outcome ((ℕ × ℕ) × Parser r.State)}
      → At r contents law text filename d (suc k) q
      → Scanned len 0 cs q x
      → ((n : ℕ)
          → Front code n cs
          → (is_digit (get_or cs 0 0) ≡ true → 0 < n)
          → Front code (len + n) (view r contents law q) × (0 < len + n))
      → Ended r contents law text filename d k
          (((λ _. x) >>= λ s. skip r s.1 >> pure (signed r negative s.0)) q)
  digits_taken negative len k cs q a overflow h = tt
  digits_taken negative len k cs q a (digits value n end_ q' e x f some_) h =
      let (g, taken) = h n f some_ in
      let left = Filled-view r contents law x in
      rw e (
        advance-At r contents law text filename q' (Filled-At r contents law text filename q q' x a)
          (rw left g) taken)

  abbrev IntegerFront : ℕ → Bytes → Type 0
  IntegerFront c v =
      (n : ℕ)
      → Front code n (drop (start c) v)
      → (is_digit (get_or (drop (start c) v) 0 0) ≡ true → 0 < n)
      → Front code (start c + n) v × (0 < start c + n)

  -- Behind a sign, or from the first digit on.
  integer-IntegerFront : (v : Bytes) → symbol_of v ≡ integer → IntegerFront (get_or v 0 0) v
  integer-IntegerFront [] s = cc
  integer-IntegerFront (c ∷ cs) s = λ n.
      let h = integer-digit c cs s in
      elim (Bool-cases (c == b'-' || c == b'+')) [
        | inl e ↦
            let plain : is_plain c ≡ true = ground arith in
            rw e (λ f some_.
              let one : 1 + n ≡ suc n = omega arith in
              (rw one (Front-plain c cs plain f), omega arith))
        | inr e ↦
            let digit : is_digit c ≡ true = ground arith in
            rw e (λ f some_.
              let none_ : 0 + n ≡ n = omega arith in (rw none_ f, rw none_ (some_ digit)))
      ]

  scan_from :
      (fuel d k : ℕ) (c : ℕ) (q : Parser r.State)
      → d ≤ fuel
      → At r contents law text filename d k q
      → Scanned
          (start c)
          0
          (drop (start c) (view r contents law q))
          q
          (scan_digits r fuel (start c) 0 q)
  scan_from fuel d k c q h a =
      scan_digits-Scanned (drop (start c) (view r contents law q)) fuel (start c) 0 q refl
        (omega (arith, a.size, a.bound, length-drop (start c) (view r contents law q)))

  pub parse_integer-Takes :
      (fuel d : ℕ) → d ≤ fuel → Takes r contents law text filename d (parse_integer r fuel)
  unfolding parse_integer
  parse_integer-Takes fuel d h = record {
    takes = λ k p a.
        elim (expect-Expected r contents law text filename fuel d (suc k) integer p h a) [
          | refused at why run told ↦ rw (run, parse_integer, ◌>>◌, ◌>>=◌) told
          | met q run b e ↦
              let q' = (peek_at r 0 q).1 in
              let c = (peek_at r 0 q).0 in
              let (byte, x) = peek_at-get_or r contents law 0 q (view r contents law q) refl in
              let left = Filled-view r contents law x in
              let front : IntegerFront c (view r contents law q') =
                rw (byte, left) (integer-IntegerFront (view r contents law q) e) in
              rw (run, ◌>>◌, ◌>>=◌)
                (digits_taken (c == b'-') (start c) k (drop (start c) (view r contents law q')) q'
                  (Filled-At r contents law text filename q q' x b)
                  (scan_from fuel d (suc k) c q' h
                    (Filled-At r contents law text filename q q' x b))
                  front)
        ];
  }
