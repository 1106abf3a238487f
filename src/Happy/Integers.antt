-- ===== src/Happy/Integers.antt =====
-- The size of an array, as Parser::parse_integer takes it.
use mathlib.Core.Path.{subst}
use ian.Prelude.{
  ℕ, zero, suc, ◌+◌, ◌≤◌, ◌<◌, ◌≡◌, refl, ap, ◌∙◌, Bool, true, false, ◌||◌, [], ◌∷◌, ◌++◌, Bytes,
  length, length-append, ltb, ◌==◌, if◌then◌else◌, arith, ℤ, pos,
}
use ian.Happy.Reader.{integer, StreamReader, Parser, ok, M, ◌>>=◌, ◌>>◌, pure, peek_at, advance}
use ian.Happy.Lexer.{is_digit, peek, expect, skip, parse_integer, scan_digits, signed, int64_max}
use ian.Happy.View.{Delivers, Filled-trans}
use ian.Happy.Advance.{Filled-Reaches}
use ian.Happy.Strings.{Filled-view, bind-ok}
use ian.Happy.Digits.{AllDigits, decimal, Scanned, scan_digits-decimal}
use ian.Happy.Symbols.{number_kind, peek_at-get_or}
use ian.Happy.Tokens.{Fresh, Fresh-Peeks, expect-Peeks, advance-Fresh}
use ian.Happy.Scans.{digit_tests}

number_kind-integer : (ds rest : Bytes) → AllDigits ds → number_kind (ds ++ (b']' ∷ rest)) ≡ integer
number_kind-integer [] rest all = unfold is_digit in refl
number_kind-integer (c ∷ cs) rest (d, all) =
    let no_dot : (c == b'.') ≡ false = unfold is_digit in ground arith in
    rw (d, no_dot) (number_kind-integer cs rest all)

within_int64 : (n : ℕ) → n ≤ int64_max → ltb int64_max n ≡ false
within_int64 n h = ground arith

shorter :
    (d : ℕ) (ds rest : Bytes) (fuel : ℕ)
    → length (d ∷ (ds ++ (b']' ∷ rest))) < fuel
    → length (d ∷ ds) < fuel
shorter d ds rest fuel h = omega (arith, length-append ds (b']' ∷ rest))

digit_solid :
    (c : ℕ)
    → is_digit c ≡ true
    → (c == b'#' || (c == b' ' || c == b'\t' || c == b'\n' || c == b'\r')) ≡ false
unfolding is_digit
digit_solid c h = ground arith

module _ (r : StreamReader) (contents : r.State → Bytes) (law : Delivers r contents) where
  signed_plain : (n : ℕ) → signed r false n ≡ pos n
  signed_plain zero = refl
  signed_plain (suc n) = refl

  -- What `parse_integer` does behind its first char `c`.
  abbrev finish : ℕ → ℕ × ℕ → M r.State ℤ
  finish c d = skip r d.1 >> pure (signed r (c == b'-') d.0)

  abbrev from_char : ℕ → ℕ → M r.State ℤ
  from_char fuel c = scan_digits r fuel (if c == b'-' || c == b'+' then 1 else 0) 0 >>= finish c

  -- A digit is no sign.
  from_char-scan_digits :
      (fuel d value end_ : ℕ) (q q' : Parser r.State)
      → is_digit d ≡ true
      → scan_digits r fuel 0 0 q ≡ ok ((value, end_), q')
      → from_char fuel d q ≡ ok (pos value, advance r end_ q')
  from_char-scan_digits fuel d value end_ q q' h run =
      let (zero_, sign_, minus_) = digit_tests d h in
      ap (λ (b : Bool). (scan_digits r fuel (if b then 1 else 0) 0 >>= finish d) q) sign_
      ∙ bind-ok (scan_digits r fuel 0 0) (finish d) q run
      ∙ ap (λ (b : Bool). ok (signed r b value, advance r end_ q')) minus_
      ∙ ap (λ (z : ℤ). ok (z, advance r end_ q')) (signed_plain value)

  pub parse_integer-decimal :
      (d : ℕ) (ds rest : Bytes) (fuel : ℕ) (p : Parser r.State)
      → AllDigits (d ∷ ds)
      → decimal 0 (d ∷ ds) ≤ int64_max
      → Fresh r contents law (d ∷ (ds ++ (b']' ∷ rest))) p
      → length (d ∷ (ds ++ (b']' ∷ rest))) < fuel
      → (q : Parser r.State) × (parse_integer r fuel p ≡ ok (pos (decimal 0 (d ∷ ds)), q))
        × Fresh r contents law (b']' ∷ rest) q
  unfolding parse_integer
  parse_integer-decimal d ds rest fuel p (h, all) fits fresh k =
      let v = d ∷ (ds ++ (b']' ∷ rest)) in
      let x =
        Fresh-Peeks r contents law fuel integer v v p fresh k (λ at. rw (digit_solid d h) refl)
          (rw ((digit_tests d h).0, h) (number_kind-integer ds rest all)) refl in
      let (byte, f) = peek_at-get_or r contents law 0 x.peeked v x.left in
      let q = (peek_at r 0 x.peeked).1 in
      let value = decimal 0 (d ∷ ds) in
      let (q', run, g, _, _) =
        subst
          (λ b. Scanned r contents law b value (0 + length (d ∷ ds)) q (scan_digits r fuel 0 0 q))
          (within_int64 value fits)
          (scan_digits-decimal r contents law (d ∷ ds) (b']' ∷ rest) fuel 0 0 q (h, all)
            (unfold is_digit in refl) (Filled-view r contents law f ∙ x.left)
            (shorter d ds rest fuel k) (omega arith)) in
      let whole = Filled-trans r contents law f g in
      let none_before : 0 + length (d ∷ ds) ≡ length (d ∷ ds) = omega arith in
      (
        advance r (length (d ∷ ds)) q',
        bind-ok (expect r fuel integer) (λ _. peek r 0 >>= from_char fuel) p
              (expect-Peeks r contents law fuel integer v p x)
            ∙ ap (λ (c : ℕ). from_char fuel c q) byte
            ∙ from_char-scan_digits fuel d value (0 + length (d ∷ ds)) q q' h run
            ∙ ap (λ (n : ℕ). ok (pos value, advance r n q')) none_before,
        advance-Fresh r contents law (d ∷ ds) (b']' ∷ rest) q'
            (let o = whole.same_offset in
              rw o (Filled-Reaches r contents law _ x.peeked q' whole x.sound))
            (Filled-view r contents law whole ∙ x.left),
      )
