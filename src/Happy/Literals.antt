-- ===== src/Happy/Literals.antt =====
-- The literals of numbers of the schema language, as Parser::parse_number takes them.
use ian.Prelude.{
  ℕ, ◌+◌, ◌<◌, ◌≡◌, refl, sym, ap, ◌∙◌, Bool, false, ◌||◌, [], ◌∷◌, ◌++◌, append_assoc, Bytes,
  length, length-append, get_or, drop, drop-length, ◌==◌, if◌then◌else◌, arith, pos,
}
use ian.Happy.Reader.{number, StreamReader, Parser, ok, M, ◌>>=◌, ◌>>◌, pure, peek_at, advance}
use ian.Happy.Lexer.{is_digit, peek, peek_symbol, expect, skip}
use ian.Happy.Number.{Doubles, scan_whole, scan_fraction, parse_number}
use ian.Happy.View.{Filled, Delivers, Filled-trans, view}
use ian.Happy.Advance.{Filled-Reaches}
use ian.Happy.Strings.{Filled-view, bind-ok}
use ian.Happy.Blanks.{length-skip_blank}
use ian.Happy.Digits.{AllDigits}
use ian.Happy.Symbols.{symbol_of, number_kind, peek_at-get_or}
use ian.Happy.Tokens.{Fresh, Peeks, Behind, Fresh-Peeks, expect-Peeks, advance-Fresh}
use ian.Happy.Scans.{digit_tests, whole, fraction, scan_whole-whole, scan_fraction-fraction}

module _ (D : Doubles) where
  open D use {Number, of_int, mul, neg, tenth}

  module _ (r : StreamReader) (contents : r.State → Bytes) (law : Delivers r contents) where
    -- A sign, or none in front of a digit.
    pub data Lead : Bytes → Bytes → Type 0 where
      minus : {ds : Bytes} → Lead (b'-' ∷ []) ds
      plus : {ds : Bytes} → Lead (b'+' ∷ []) ds
      none_ : {d : ℕ} {ds : Bytes} → Lead [] (d ∷ ds)

    abbrev is_minus : Bytes → Bool
    is_minus lead = get_or lead 0 0 == b'-'

    -- The text of a number with a dot.
    abbrev pub number_text : Bytes → Bytes → Bytes → Bytes → Bytes
    number_text lead ds es rest = lead ++ (ds ++ (b'.' ∷ (es ++ rest)))

    number_kind-point :
        (ds rest : Bytes) → AllDigits ds → number_kind (ds ++ (b'.' ∷ rest)) ≡ number
    number_kind-point [] rest all = unfold is_digit in refl
    number_kind-point (c ∷ cs) rest (d, all) =
        let no_dot : (c == b'.') ≡ false = unfold is_digit in ground arith in
        rw (d, no_dot) (number_kind-point cs rest all)

    -- The steps of `parse_number` behind the first char `c`.
    abbrev finish : ℕ → Number × ℕ → M r.State Number
    finish c d = skip r d.1 >> pure (if c == b'-' then neg d.0 else d.0)

    abbrev scan_both : ℕ → ℕ → ℕ → M r.State Number
    scan_both fuel c start = scan_whole D r fuel start (of_int (pos 0)) >>= λ w.
        scan_fraction D r fuel (w.1 + 1) w.0 tenth >>= finish c

    abbrev sign_length : ℕ → ℕ
    sign_length c = if c == b'-' || c == b'+' then 1 else 0

    parse_number-body :
        (fuel start : ℕ) (v : Bytes) (p : Parser r.State) (k : Peeks r contents law fuel number v p)
        → sign_length (get_or v 0 0) ≡ start
        → parse_number D r fuel p ≡ scan_both fuel (get_or v 0 0) start (peek_at r 0 k.peeked).1
    unfolding parse_number
    parse_number-body fuel start v p k s =
        let q = (peek_at r 0 k.peeked).1 in
        bind-ok (peek_symbol r fuel) _ p k.peeks
        ∙ bind-ok (expect r fuel number) (λ _. peek r 0 >>= λ c. scan_both fuel c (sign_length c))
            k.peeked
            (expect-Peeks r contents law fuel number v k.peeked (record {
              peeked = k.peeked;
              peeks = k.again;
              again = k.again;
              left = k.left;
              sound = k.sound;
            }))
        ∙ ap (λ (c : ℕ). scan_both fuel c (sign_length c) q)
            (peek_at-get_or r contents law 0 k.peeked v k.left).0
        ∙ ap (λ (m : ℕ). scan_both fuel (get_or v 0 0) m q) s

    Lead-number :
        (lead ds es rest : Bytes)
        → Lead lead ds
        → AllDigits ds
        → let v = number_text lead ds es rest in
          (symbol_of v ≡ number)
          × (sign_length (get_or v 0 0) ≡ length lead)
          × ((get_or v 0 0 == b'-') ≡ is_minus lead)
    Lead-number lead ds es rest minus all =
        (unfold is_digit in number_kind-point ds (es ++ rest) all, refl, refl)
    Lead-number lead ds es rest plus all =
        (unfold is_digit in number_kind-point ds (es ++ rest) all, refl, refl)
    Lead-number lead (d ∷ ds) es rest none_ (h, all) =
        let (z, s, m) = digit_tests d h in
        (rw (z, h) (number_kind-point ds (es ++ rest) all), rw s refl, rw m refl)

    -- The value of a literal.
    abbrev pub literal_value : Bytes → Bytes → Bytes → Number
    literal_value lead ds es =
        let n = fraction D (whole D (of_int (pos 0)) ds) tenth es in
        if is_minus lead then neg n else n

    -- The text up to the dot.
    abbrev front : Bytes → Bytes → Bytes
    front lead ds = lead ++ (ds ++ (b'.' ∷ []))

    number_text-front :
        (lead ds es rest : Bytes) → number_text lead ds es rest ≡ front lead ds ++ (es ++ rest)
    number_text-front lead ds es rest =
        ap (λ t. lead ++ t) (sym (append_assoc ds (b'.' ∷ []) (es ++ rest)))
        ∙ sym (append_assoc lead (ds ++ (b'.' ∷ [])) (es ++ rest))

    length-front : (lead ds : Bytes) → length (front lead ds) ≡ length lead + length ds + 1
    length-front lead ds =
        omega (arith, length-append lead (ds ++ (b'.' ∷ [])), length-append ds (b'.' ∷ []))

    length-number_text :
        (lead ds es rest : Bytes)
        → length (number_text lead ds es rest)
          ≡ length lead + length ds + 1 + length es + length rest
    length-number_text lead ds es rest = omega (
      arith,
      ap length (number_text-front lead ds es rest),
      length-append (front lead ds) (es ++ rest),
      length-front lead ds,
      length-append es rest,
    )

    -- Both loops over the text of a number.
    scan_both-literal :
        (lead ds es rest : Bytes) (fuel c : ℕ) (q : Parser r.State)
        → AllDigits ds
        → AllDigits es
        → is_digit (get_or rest 0 0) ≡ false
        → view r contents law q ≡ number_text lead ds es rest
        → length (number_text lead ds es rest) < fuel
        → (q' : Parser r.State) × (scan_both fuel c (length lead) q
            ≡ finish c
                (
                  fraction D (whole D (of_int (pos 0)) ds) tenth es,
                  length lead + length ds + 1 + length es,
                )
                q')
          × Filled r contents law q q'
    scan_both-literal lead ds es rest fuel c q all all' e left h =
        let tail = b'.' ∷ (es ++ rest) in
        let n = length-number_text lead ds es rest in
        let (q', run, x) =
          scan_whole-whole D r contents law ds tail fuel (length lead) (of_int (pos 0)) q all
            (unfold is_digit in refl) (ap (drop (length lead)) left ∙ drop-length lead (ds ++ tail))
            (omega arith) in
        let behind_dot : drop (length lead + length ds + 1) (view r contents law q') ≡ es ++ rest =
          ap (λ (i : ℕ). drop i (view r contents law q')) (sym (length-front lead ds))
          ∙ ap (drop (length (front lead ds)))
              (Filled-view r contents law x ∙ left ∙ number_text-front lead ds es rest)
          ∙ drop-length (front lead ds) (es ++ rest) in
        let (q'', run', x') =
          scan_fraction-fraction D r contents law es rest fuel (length lead + length ds + 1)
            (whole D (of_int (pos 0)) ds) tenth q' all' e behind_dot (omega arith) in
        (
          q'',
          bind-ok (scan_whole D r fuel (length lead) (of_int (pos 0)))
                (λ y. scan_fraction D r fuel (y.1 + 1) y.0 tenth >>= finish c) q run
              ∙ bind-ok
                  (scan_fraction D r fuel (length lead + length ds + 1)
                    (whole D (of_int (pos 0)) ds) tenth)
                  (finish c) q' run',
          Filled-trans r contents law x x',
        )

    -- With a reader that keeps its contract: where, behind blanks and comments, the literal of a number with
    -- a dot stands, with a sign or a digit in front, and behind it no digit, `parse_number` returns its value
    -- by the arithmetic of double, digit by digit, and leaves exactly the text behind it, if given more
    -- rounds than there are bytes left.
    pub parse_number-literal :
        (lead ds es w rest : Bytes) (fuel : ℕ) (p : Parser r.State)
        → Lead lead ds
        → AllDigits ds
        → AllDigits es
        → is_digit (get_or rest 0 0) ≡ false
        → Fresh r contents law w p
        → Behind r contents law w (number_text lead ds es rest)
        → length w < fuel
        → (q : Parser r.State) × (parse_number D r fuel p ≡ ok (literal_value lead ds es, q))
          × Fresh r contents law rest q
    parse_number-literal lead ds es w rest fuel p l all all' e fresh b h =
        let v = number_text lead ds es rest in
        let (symbol, start, minus_) = Lead-number lead ds es rest l all in
        let k = Fresh-Peeks r contents law fuel number w v p fresh h b symbol refl in
        let fits : length v < fuel =
          omega (arith, ap length (b p.pos), length-skip_blank false w p.pos) in
        let x = (peek_at-get_or r contents law 0 k.peeked v k.left).1 in
        let (q, run, y) =
          scan_both-literal lead ds es rest fuel (get_or v 0 0) (peek_at r 0 k.peeked).1 all all' e
            (Filled-view r contents law x ∙ k.left) fits in
        let f = Filled-trans r contents law x y in
        let n = fraction D (whole D (of_int (pos 0)) ds) tenth es in
        let all_ : v ≡ (front lead ds ++ es) ++ rest =
          number_text-front lead ds es rest ∙ sym (append_assoc (front lead ds) es rest) in
        let end_ : length lead + length ds + 1 + length es ≡ length (front lead ds ++ es) =
          omega (arith, length-front lead ds, length-append (front lead ds) es) in
        (
          advance r (length (front lead ds ++ es)) q,
          parse_number-body fuel (length lead) v p k start
              ∙ run
              ∙ ap (λ (i : ℕ). ok ((if get_or v 0 0 == b'-' then neg n else n), advance r i q)) end_
              ∙ ap
                  (λ (m : Bool).
                    ok ((if m then neg n else n), advance r (length (front lead ds ++ es)) q))
                  minus_,
          advance-Fresh r contents law (front lead ds ++ es) rest q
              (let o = f.same_offset in rw o (Filled-Reaches r contents law _ k.peeked q f k.sound))
              (Filled-view r contents law f ∙ k.left ∙ all_),
        )
