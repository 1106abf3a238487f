-- ===== src/Happy/Symbols.antt =====
-- Parser::peek_symbol on the text that is left.
use ian.Prelude.{
  ℕ, zero, suc, ◌+◌, ◌<◌, ◌≡◌, refl, sym, ap, ◌∙◌, inl, inr, true, false, not, ◌||◌, [], ◌∷◌, ◌++◌,
  append_assoc, append-nil, Bytes, length, get_or, drop, ◌==◌, if◌then◌else◌, Bool-cases, arith,
}
use ian.Happy.Reader.{
  Symbol, string, integer, number, eof, error, invalid, StreamReader, Parser, Outcome, M, ok, ◌>>=◌,
  ◌>>◌, pure, peek_at, skip_whitespace,
}
use ian.Happy.Lexer.{
  is_digit, is_letter, is_word, sign, same, keyword, peek, scan_number, scan_word, classify,
  peek_symbol,
}
use ian.Happy.View.{Delivers, Filled, Filled-trans, view, get_or-drop, peek_at-view}
use ian.Happy.Advance.{Sound, Filled-Reaches, peek_at-Filled}
use ian.Happy.Strings.{Filled-view, peek_at-cons, bind-ok}
use ian.Happy.Blanks.{skip_blank, length-skip_blank}
use ian.Happy.Skip.{skip_whitespace-skip_blank}

-- Whether digits end at a point.
abbrev pub number_kind : Bytes → Symbol
number_kind [] = integer
number_kind (c ∷ cs) =
    let rest = number_kind cs in
    if is_digit c || c == b'.' then (if c == b'.' then number else rest) else integer

-- The chars of a word that a text begins with.
abbrev pub word_of : Bytes → Bytes
word_of [] = []
word_of (c ∷ cs) = let rest = word_of cs in if is_word c then c ∷ rest else []

-- The symbol that a text begins with, without blanks in front of it.
abbrev pub symbol_of : Bytes → Symbol
symbol_of [] = eof
symbol_of (c ∷ cs) =
    if c == 0
    then eof
    else if is_digit c || c == b'-' || c == b'+'
    then number_kind cs
    else if not (same (sign c) invalid)
    then sign c
    else if c == b'\'' || c == b'"'
    then string
    else if is_letter c
    then keyword (c ∷ word_of cs)
    else error

module _ (r : StreamReader) where
  scan_number_point :
      (f off : ℕ) (p : Parser r.State)
      → (is_digit (peek_at r off p).0 || (peek_at r off p).0 == b'.') ≡ true
      → ((peek_at r off p).0 == b'.') ≡ true
      → scan_number r (suc f) off p ≡ ok (number, (peek_at r off p).1)
  unfolding scan_number
  scan_number_point f off p h k = ground arith

  scan_number_on :
      (f off : ℕ) (p : Parser r.State)
      → (is_digit (peek_at r off p).0 || (peek_at r off p).0 == b'.') ≡ true
      → ((peek_at r off p).0 == b'.') ≡ false
      → scan_number r (suc f) off p ≡ scan_number r f (off + 1) (peek_at r off p).1
  unfolding scan_number
  scan_number_on f off p h k = ground arith

  scan_number_end :
      (f off : ℕ) (p : Parser r.State)
      → (is_digit (peek_at r off p).0 || (peek_at r off p).0 == b'.') ≡ false
      → scan_number r (suc f) off p ≡ ok (integer, (peek_at r off p).1)
  unfolding scan_number
  scan_number_end f off p h = ground arith

  scan_word_on :
      (f off : ℕ) (word : Bytes) (p : Parser r.State)
      → is_word (peek_at r off p).0 ≡ true
      → scan_word r (suc f) off word p
        ≡ scan_word r f (off + 1) (word ++ (peek_at r off p).0 ∷ []) (peek_at r off p).1
  unfolding scan_word
  scan_word_on f off word p h = ground arith

  scan_word_end :
      (f off : ℕ) (word : Bytes) (p : Parser r.State)
      → is_word (peek_at r off p).0 ≡ false
      → scan_word r (suc f) off word p ≡ ok ((word, off), (peek_at r off p).1)
  unfolding scan_word
  scan_word_end f off word p h = ground arith

  -- What `peek_symbol` does where no symbol is cached.
  abbrev cache : Symbol → M r.State Symbol
  cache s p = ok (s, record p { next_symbol = s })

  abbrev fresh : ℕ → M r.State Symbol
  fresh fuel = skip_whitespace r fuel >> (peek r 0 >>= λ c. classify r fuel c >>= cache)

  peek_symbol-fresh :
      (fuel : ℕ) (p : Parser r.State)
      → not (same p.next_symbol invalid) ≡ false
      → peek_symbol r fuel p ≡ fresh fuel p
  unfolding peek_symbol
  peek_symbol-fresh fuel p h = rw h refl

module _ (r : StreamReader) (contents : r.State → Bytes) (law : Delivers r contents) where
  -- What is read from an offset at which a text stands, be it empty.
  pub peek_at-get_or :
      (len : ℕ) (p : Parser r.State) (v : Bytes)
      → drop len (view r contents law p) ≡ v
      → ((peek_at r len p).0 ≡ get_or v 0 0) × Filled r contents law p (peek_at r len p).1
  peek_at-get_or len p v h =
      let e : len ≡ len + 0 = omega arith in
      (
        (peek_at-view r contents law len p).0
            ∙ ap (λ (n : ℕ). get_or (view r contents law p) n 0) e
            ∙ sym (get_or-drop len (view r contents law p) 0 0)
            ∙ ap (λ (b : Bytes). get_or b 0 0) h,
        (peek_at-Filled r contents law len p).1,
      )

  -- A step that returns and fills the buffer only.
  abbrev pub Reads : {A : Type 0} → A → Parser r.State → Outcome (A × Parser r.State) → Type 0
  Reads a p result = (q : Parser r.State) × (result ≡ ok (a, q)) × Filled r contents law p q

  scan_number-number_kind :
      (cs : Bytes) (f off : ℕ) (p : Parser r.State)
      → drop off (view r contents law p) ≡ cs
      → length cs < f
      → Reads (number_kind cs) p (scan_number r f off p)
  scan_number-number_kind cs zero off p h k = absurd (omega arith)
  scan_number-number_kind [] (suc f) off p h k =
      let (byte, x) = peek_at-get_or off p [] h in
      (_, scan_number_end r f off p (rw byte (unfold is_digit in refl)), x)
  scan_number-number_kind (c ∷ cs) (suc f) off p h k =
      let (byte, next, x) = peek_at-cons r contents law off p c cs h in
      elim (Bool-cases (is_digit c || c == b'.')) [
        | inr e ↦ rw e (_, scan_number_end r f off p (rw byte e), x)
        | inl e ↦ elim (Bool-cases (c == b'.')) [
          | inl d ↦ rw (e, d) (_, scan_number_point r f off p (rw byte e) (rw byte d), x)
          | inr d ↦
              let (q, run, y) = scan_number-number_kind cs f (off + 1) _ next (omega arith) in
              rw (e, d)
                (
                  q,
                  scan_number_on r f off p (rw byte e) (rw byte d) ∙ run,
                  Filled-trans r contents law x y,
                )
        ]
      ]

  pub scan_word-word_of :
      (cs : Bytes) (f off : ℕ) (word : Bytes) (p : Parser r.State)
      → drop off (view r contents law p) ≡ cs
      → length cs < f
      → Reads (word ++ word_of cs, off + length (word_of cs)) p (scan_word r f off word p)
  scan_word-word_of cs zero off word p h k = absurd (omega arith)
  scan_word-word_of [] (suc f) off word p h k =
      let (byte, x) = peek_at-get_or off p [] h in
      let e : off + 0 ≡ off = omega arith in
      (
        _,
        scan_word_end r f off word p (rw byte (unfold is_word is_letter is_digit in refl))
            ∙ rw (append-nil word, e) refl,
        x,
      )
  scan_word-word_of (c ∷ cs) (suc f) off word p h k =
      let n : off + 1 + length (word_of cs) ≡ off + suc (length (word_of cs)) = omega arith in
      let (byte, next, x) = peek_at-cons r contents law off p c cs h in
      elim (Bool-cases (is_word c)) [
        | inr e ↦
            let same_ : off + 0 ≡ off = omega arith in
            rw (e, append-nil word, same_) (_, scan_word_end r f off word p (rw byte e), x)
        | inl e ↦
            let (q, run, y) =
              scan_word-word_of cs f (off + 1) (word ++ c ∷ []) _ next (omega arith) in
            rw e (
              q,
              scan_word_on r f off word p (rw byte e)
                  ∙ ap (λ (b : ℕ). scan_word r f (off + 1) (word ++ b ∷ []) (peek_at r off p).1)
                      byte
                  ∙ run
                  ∙ rw (n, append_assoc word (c ∷ []) (word_of cs)) refl,
              Filled-trans r contents law x y,
            )
      ]

  Filled-same : (p : Parser r.State) → Filled r contents law p p
  Filled-same p = record {
    kept = refl;
    grown = omega arith;
    same_offset = refl;
    same_pos = refl;
    same_symbol = refl;
  }

  classify-symbol_of :
      (fuel : ℕ) (v : Bytes) (p : Parser r.State)
      → view r contents law p ≡ v
      → length v < fuel
      → Reads (symbol_of v) p (classify r fuel (get_or v 0 0) p)
  unfolding classify
  classify-symbol_of fuel [] p h k = (p, refl, Filled-same p)
  classify-symbol_of fuel (c ∷ cs) p h k = elim (Bool-cases (c == 0)) [
    | inl e ↦ rw e (p, refl, Filled-same p)
    | inr zero_ ↦ elim (Bool-cases (is_digit c || c == b'-' || c == b'+')) [
      | inl e ↦ rw (zero_, e) (scan_number-number_kind cs fuel 1 p (ap (drop 1) h) (omega arith))
      | inr digit ↦ elim (Bool-cases (not (same (sign c) invalid))) [
        | inl e ↦ rw (zero_, digit, e) (p, refl, Filled-same p)
        | inr none_ ↦ elim (Bool-cases (c == b'\'' || c == b'"')) [
          | inl e ↦ rw (zero_, digit, none_, e) (p, refl, Filled-same p)
          | inr quote ↦ elim (Bool-cases (is_letter c)) [
            | inr e ↦ rw (zero_, digit, none_, quote, e) (p, refl, Filled-same p)
            | inl e ↦
                let (q, run, x) =
                  scan_word-word_of cs fuel 1 (c ∷ []) p (ap (drop 1) h) (omega arith) in
                rw (zero_, digit, none_, quote, e)
                  (q, bind-ok (scan_word r fuel 1 (c ∷ [])) (λ w. pure (keyword w.0)) p run, x)
          ]
        ]
      ]
    ]
  ]

  -- With a reader that keeps its contract, from a state that has read up to where it stands and has no
  -- symbol cached, and with a round more than there are bytes left, `peek_symbol` returns the symbol of
  -- the text behind the blanks and the comments, caches it, and leaves exactly that text, with the
  -- position there.
  pub peek_symbol-symbol_of :
      (fuel : ℕ) (p : Parser r.State)
      → Sound r contents law p
      → p.next_symbol ≡ invalid
      → length (view r contents law p) < fuel
      → let v = (skip_blank false (view r contents law p) p.pos).0 in
        (q : Parser r.State) × (peek_symbol r fuel p ≡ ok (symbol_of v, q))
        × (view r contents law q ≡ v)
        × (q.pos ≡ (skip_blank false (view r contents law p) p.pos).1)
        × (q.next_symbol ≡ symbol_of v)
        × Sound r contents law q
  peek_symbol-symbol_of fuel p h n k =
      let v = (skip_blank false (view r contents law p) p.pos).0 in
      let (q, run, left, pos, symbol, sound) =
        skip_whitespace-skip_blank r contents law fuel p h k in
      let (byte, x) = peek_at-get_or 0 q v left in
      let q' = (peek_at r 0 q).1 in
      let fits : length v < fuel =
        omega (arith, length-skip_blank false (view r contents law p) p.pos) in
      let (q'', run', y) =
        classify-symbol_of fuel v q' (Filled-view r contents law x ∙ left) fits in
      let z = Filled-trans r contents law x y in
      let at : q''.buffer_offset ≡ q.buffer_offset = z.same_offset in
      (
        record q'' { next_symbol = symbol_of v },
        peek_symbol-fresh r fuel p (ap (λ s. not (same s invalid)) n)
            ∙ bind-ok (skip_whitespace r fuel)
                (λ _. peek r 0 >>= λ c. classify r fuel c >>= cache r) p run
            ∙ ap (λ (c : ℕ). (classify r fuel c >>= cache r) q') byte
            ∙ bind-ok (classify r fuel (get_or v 0 0)) (cache r) q' run',
        Filled-view r contents law z ∙ left,
        z.same_pos ∙ pos,
        refl,
        rw at (Filled-Reaches r contents law q.buffer_offset q q'' z sound),
      )
