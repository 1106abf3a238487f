-- ===== src/Happy/Scans.antt =====
-- The two loops of Parser::parse_number, on the digits of a literal.
use ian.Prelude.{
  ℕ, zero, suc, ◌+◌, ◌<◌, ◌≡◌, ap, ◌∙◌, true, false, ◌||◌, [], ◌∷◌, ◌++◌, Bytes, length, get_or,
  drop, ◌==◌, arith,
}
use ian.Happy.Reader.{StreamReader, Parser, ok, peek_at}
use ian.Happy.Lexer.{is_digit}
use ian.Happy.Number.{Doubles, add_digit, add_fraction, scan_whole, scan_fraction}
use ian.Happy.View.{Delivers, Filled-trans, view}
use ian.Happy.Strings.{peek_at-cons}
use ian.Happy.Digits.{AllDigits}
use ian.Happy.Symbols.{peek_at-get_or, Reads}

pub digit_tests :
    (c : ℕ)
    → is_digit c ≡ true
    → ((c == 0) ≡ false) × ((c == b'-' || c == b'+') ≡ false) × ((c == b'-') ≡ false)
unfolding is_digit
digit_tests c h = (ground arith, ground arith, ground arith)

module _ (D : Doubles) where
  open D use {Number, of_int, mul, neg, tenth}

  -- The values of digits in front of the dot, and behind it.
  abbrev pub whole : Number → Bytes → Number
  whole ret [] = ret
  whole ret (c ∷ cs) = whole (add_digit D ret c) cs

  abbrev pub fraction : Number → Number → Bytes → Number
  fraction ret fract [] = ret
  fraction ret fract (c ∷ cs) = fraction (add_fraction D ret fract c) (mul fract tenth) cs

  module _ (r : StreamReader) where
    scan_whole_end :
        (f len : ℕ) (ret : Number) (p : Parser r.State)
        → is_digit (peek_at r len p).0 ≡ false
        → scan_whole D r (suc f) len ret p ≡ ok ((ret, len), (peek_at r len p).1)
    unfolding scan_whole
    scan_whole_end f len ret p h = ground arith

    scan_whole_on :
        (f len : ℕ) (ret : Number) (p : Parser r.State)
        → is_digit (peek_at r len p).0 ≡ true
        → scan_whole D r (suc f) len ret p
          ≡ scan_whole D r f (len + 1) (add_digit D ret (peek_at r len p).0) (peek_at r len p).1
    unfolding scan_whole
    scan_whole_on f len ret p h = ground arith

    scan_fraction_end :
        (f len : ℕ) (ret fract : Number) (p : Parser r.State)
        → is_digit (peek_at r len p).0 ≡ false
        → scan_fraction D r (suc f) len ret fract p ≡ ok ((ret, len), (peek_at r len p).1)
    unfolding scan_fraction
    scan_fraction_end f len ret fract p h = ground arith

    scan_fraction_on :
        (f len : ℕ) (ret fract : Number) (p : Parser r.State)
        → is_digit (peek_at r len p).0 ≡ true
        → scan_fraction D r (suc f) len ret fract p
          ≡ scan_fraction D r f
              (len + 1)
              (add_fraction D ret fract (peek_at r len p).0)
              (mul fract tenth)
              (peek_at r len p).1
    unfolding scan_fraction
    scan_fraction_on f len ret fract p h = ground arith

  module _ (r : StreamReader) (contents : r.State → Bytes) (law : Delivers r contents) where
    -- Digits, and no further one.
    pub scan_whole-whole :
        (ds rest : Bytes) (f len : ℕ) (ret : Number) (p : Parser r.State)
        → AllDigits ds
        → is_digit (get_or rest 0 0) ≡ false
        → drop len (view r contents law p) ≡ ds ++ rest
        → length ds < f
        → Reads r contents law (whole ret ds, len + length ds) p (scan_whole D r f len ret p)
    scan_whole-whole ds rest zero len ret p all e h k = absurd (omega arith)
    scan_whole-whole [] rest (suc f) len ret p all e h k =
        let (byte, x) = peek_at-get_or r contents law len p rest h in
        let none_ : len + 0 ≡ len = omega arith in
        rw none_ (_, scan_whole_end r f len ret p (rw byte e), x)
    scan_whole-whole (c ∷ cs) rest (suc f) len ret p (d, all) e h k =
        let (byte, next, x) = peek_at-cons r contents law len p c (cs ++ rest) h in
        let n : len + 1 + length cs ≡ len + suc (length cs) = omega arith in
        let (q, run, y) =
          scan_whole-whole cs rest f (len + 1) (add_digit D ret c) _ all e next (omega arith) in
        (
          q,
          scan_whole_on r f len ret p (rw byte d)
              ∙ ap (λ (b : ℕ). scan_whole D r f (len + 1) (add_digit D ret b) (peek_at r len p).1)
                  byte
              ∙ run
              ∙ ap (λ (m : ℕ). ok ((whole (add_digit D ret c) cs, m), q)) n,
          Filled-trans r contents law x y,
        )

    pub scan_fraction-fraction :
        (ds rest : Bytes) (f len : ℕ) (ret fract : Number) (p : Parser r.State)
        → AllDigits ds
        → is_digit (get_or rest 0 0) ≡ false
        → drop len (view r contents law p) ≡ ds ++ rest
        → length ds < f
        → Reads r contents law
            (fraction ret fract ds, len + length ds)
            p
            (scan_fraction D r f len ret fract p)
    scan_fraction-fraction ds rest zero len ret fract p all e h k = absurd (omega arith)
    scan_fraction-fraction [] rest (suc f) len ret fract p all e h k =
        let (byte, x) = peek_at-get_or r contents law len p rest h in
        let none_ : len + 0 ≡ len = omega arith in
        rw none_ (_, scan_fraction_end r f len ret fract p (rw byte e), x)
    scan_fraction-fraction (c ∷ cs) rest (suc f) len ret fract p (d, all) e h k =
        let (byte, next, x) = peek_at-cons r contents law len p c (cs ++ rest) h in
        let n : len + 1 + length cs ≡ len + suc (length cs) = omega arith in
        let (q, run, y) =
          scan_fraction-fraction cs rest f (len + 1) (add_fraction D ret fract c) (mul fract tenth)
            _ all e next (omega arith) in
        (
          q,
          scan_fraction_on r f len ret fract p (rw byte d)
              ∙ ap
                  (λ (b : ℕ).
                    scan_fraction D r f (len + 1) (add_fraction D ret fract b) (mul fract tenth)
                      (peek_at r len p).1)
                  byte
              ∙ run
              ∙ ap
                  (λ (m : ℕ).
                    ok ((fraction (add_fraction D ret fract c) (mul fract tenth) cs, m), q))
                  n,
          Filled-trans r contents law x y,
        )
