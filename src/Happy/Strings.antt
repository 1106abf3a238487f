-- ===== src/Happy/Strings.antt =====
-- The string literals of the schema language, as Parser::parse_string takes them apart.
use ian.Prelude.{
  ℕ, zero, suc, ◌+◌, ◌<◌, ◌≡◌, refl, ap, ◌∙◌, ◌⊎◌, true, false, ◌||◌, [], ◌∷◌, ◌++◌, append_assoc,
  append-nil, Bytes, length, drop, ◌==◌, if◌then◌else◌, Bool-cases, inl, inr, arith,
}
use ian.Happy.Advance.{peek_at-Filled, Filled-Reaches, moved, Sound, advance-view}
use ian.Happy.Reader.{string, invalid, advance, StreamReader, Parser, ok, peek_at, M, ◌>>=◌}
use ian.Happy.Lexer.{scan_string, unescape, parse_string, expect, peek_symbol}
use ian.Happy.View.{Filled, Filled-trans, Delivers, view, peek_at-view, drop-cons}

-- A literal without its opening delimiter: the delimiter and the backslash stand behind a backslash.
abbrev pub literal : ℕ → Bytes → Bytes
literal delim [] = delim ∷ []
literal delim (c ∷ s) =
    if c == delim || c == b'\\' then b'\\' ∷ c ∷ literal delim s else c ∷ literal delim s

abbrev pub Quote : ℕ → Type 0
Quote delim = (delim ≡ b'\'') ⊎ (delim ≡ b'"')

-- A step behind one that returned.
pub bind-ok :
    {S A B : Type 0} (m : M S A) (f : A → M S B) (p : Parser S) {a : A} {q : Parser S}
    → m p ≡ ok (a, q)
    → (m >>= f) p ≡ f a q
bind-ok m f p h = rw (h, ◌>>=◌) refl

module _ (r : StreamReader) where
  -- The three rounds of the loop.
  pub scan_string_plain :
      (f delim len : ℕ) (ret : Bytes) (p : Parser r.State)
      → ((peek_at r len p).0 == delim) ≡ false
      → ((peek_at r len p).0 == b'\\') ≡ false
      → scan_string r (suc f) delim len ret p
        ≡ scan_string r f delim (len + 1) (ret ++ (peek_at r len p).0 ∷ []) (peek_at r len p).1
  unfolding scan_string
  scan_string_plain f delim len ret p h k = ground arith

  pub scan_string_escaped :
      (f delim len : ℕ) (ret : Bytes) (p : Parser r.State)
      → ((peek_at r len p).0 == delim) ≡ false
      → ((peek_at r len p).0 == b'\\') ≡ true
      → let e = peek_at r (len + 1) (peek_at r len p).1 in
        scan_string r (suc f) delim len ret p
        ≡ scan_string r f delim (len + 2) (ret ++ unescape r e.0 ∷ []) e.1
  unfolding scan_string
  scan_string_escaped f delim len ret p h k = ground arith

  pub scan_string_end :
      (f delim len : ℕ) (ret : Bytes) (p : Parser r.State)
      → ((peek_at r len p).0 == delim) ≡ true
      → scan_string r (suc f) delim len ret p ≡ ok ((ret, len + 1), (peek_at r len p).1)
  unfolding scan_string
  scan_string_end f delim len ret p h = ground arith

  peek_symbol_cached :
      (fuel : ℕ) (p : Parser r.State)
      → p.next_symbol ≡ string
      → peek_symbol r fuel p ≡ ok (string, p)
  unfolding peek_symbol
  peek_symbol_cached fuel p h = simp h

  pub expect_cached :
      (fuel : ℕ) (p : Parser r.State) → p.next_symbol ≡ string → expect r fuel string p ≡ ok (tt, p)
  unfolding expect
  expect_cached fuel p h = bind-ok (peek_symbol r fuel) _ p (peek_symbol_cached fuel p h)

module _ (r : StreamReader) (contents : r.State → Bytes) (law : Delivers r contents) where
  unescape_quoted :
      (delim c : ℕ) → Quote delim → (c == delim || c == b'\\') ≡ true → unescape r c ≡ c
  unescape_quoted delim c (inl q) h = ground arith
  unescape_quoted delim c (inr q) h = ground arith

  Quote-not_backslash : (delim : ℕ) → Quote delim → (b'\\' == delim) ≡ false
  Quote-not_backslash delim (inl q) = ground arith
  Quote-not_backslash delim (inr q) = ground arith

  pub Filled-view :
      {p q : Parser r.State}
      → Filled r contents law p q
      → view r contents law q ≡ view r contents law p
  Filled-view f = rw (f.same_offset, f.kept)

  -- What is read from an offset at which something known stands.
  pub peek_at-cons :
      (len : ℕ) (p : Parser r.State) (c : ℕ) (ys : Bytes)
      → drop len (view r contents law p) ≡ c ∷ ys
      → ((peek_at r len p).0 ≡ c)
        × (drop (len + 1) (view r contents law (peek_at r len p).1) ≡ ys)
        × Filled r contents law p (peek_at r len p).1
  peek_at-cons len p c ys h =
      let (a, b) = drop-cons len (view r contents law p) ys c h in
      let f = (peek_at-Filled r contents law len p).1 in
      ((peek_at-view r contents law len p).0 ∙ a, rw (Filled-view f) b, f)

  -- The literal of a string that stands from an offset on.
  scan_string-literal :
      (s rest : Bytes) (fuel delim len : ℕ) (ret : Bytes) (p : Parser r.State)
      → Quote delim
      → drop len (view r contents law p) ≡ literal delim s ++ rest
      → length s < fuel
      → (q : Parser r.State) × (scan_string r fuel delim len ret p
          ≡ ok ((ret ++ s, len + length (literal delim s)), q))
        × Filled r contents law p q
  scan_string-literal s rest zero delim len ret p quote h k = absurd (omega arith)
  scan_string-literal [] rest (suc f) delim len ret p quote h k =
      let (c, _, x) = peek_at-cons len p delim rest h in
      (
        (peek_at r len p).1,
        rw (append-nil ret) (scan_string_end r f delim len ret p (ground (arith, c))),
        x,
      )
  scan_string-literal (c ∷ s) rest (suc f) delim len ret p quote h k =
      let q = (peek_at r len p).1 in
      elim (Bool-cases (c == delim || c == b'\\')) [
        | inl escaped ↦
            let q' = (peek_at r (len + 1) q).1 in
            let (x, next, g) =
              peek_at-cons len p b'\\' (c ∷ (literal delim s ++ rest)) (h ∙ rw escaped) in
            let (y, next', g') = peek_at-cons (len + 1) q c (literal delim s ++ rest) next in
            let two : len + 1 + 1 ≡ len + 2 = omega arith in
            let (q'', run, g'') =
              scan_string-literal s rest f delim (len + 2) (ret ++ c ∷ []) q' quote
                (rw (← two) next') (omega arith) in
            let e : (len + 2) + length (literal delim s)
                ≡ len + suc (suc (length (literal delim s))) =
              omega arith in
            let same : unescape r (peek_at r (len + 1) q).0 ≡ c =
              ap (unescape r) y ∙ unescape_quoted delim c quote escaped in
            (
              q'',
              scan_string_escaped r f delim len ret p (rw x (Quote-not_backslash delim quote))
                    (ground (arith, x))
                  ∙ rw same (run ∙ rw (escaped, e, append_assoc ret (c ∷ []) s)),
              Filled-trans r contents law g (Filled-trans r contents law g' g''),
            )
        | inr plain ↦
            let (x, next, g) = peek_at-cons len p c (literal delim s ++ rest) (h ∙ rw plain) in
            let (q', run, g') =
              scan_string-literal s rest f delim (len + 1) (ret ++ c ∷ []) q quote next
                (omega arith) in
            let e : (len + 1) + length (literal delim s) ≡ len + suc (length (literal delim s)) =
              omega arith in
            (
              q',
              scan_string_plain r f delim len ret p (ground (arith, x)) (ground (arith, x))
                  ∙ rw x (run ∙ rw (plain, e, append_assoc ret (c ∷ []) s)),
              Filled-trans r contents law g g',
            )
      ]

  -- The parts of `parse_string` where the symbol is cached.
  parse_string_parts :
      (fuel n : ℕ) (s : Bytes) (p q : Parser r.State)
      → p.next_symbol ≡ string
      → scan_string r fuel (peek_at r 0 p).0 1 [] (peek_at r 0 p).1 ≡ ok ((s, n), q)
      → parse_string r fuel p ≡ ok (s, advance r n q)
  unfolding parse_string
  parse_string_parts fuel n s p q h run =
      bind-ok (expect r fuel string) _ p (expect_cached r fuel p h)
      ∙ bind-ok (scan_string r fuel (peek_at r 0 p).0 1 []) _ (peek_at r 0 p).1 run

  -- With a reader that keeps its contract, in a state that has read up to where it stands: where the
  -- symbol of a string is cached and its literal stands next, in either kind of quotes, `parse_string`
  -- with a round more than the string has bytes returns the string, leaves the text behind the literal,
  -- moves the position over it, caches no symbol, and has read up to where it stands.
  pub parse_string-literal :
      (s rest : Bytes) (fuel delim : ℕ) (p : Parser r.State)
      → Quote delim
      → Sound r contents law p
      → p.next_symbol ≡ string
      → view r contents law p ≡ delim ∷ (literal delim s ++ rest)
      → length s < fuel
      → (q : Parser r.State) × (parse_string r fuel p ≡ ok (s, q))
        × (view r contents law q ≡ rest)
        × (q.pos ≡ moved (delim ∷ literal delim s) p.pos)
        × (q.next_symbol ≡ invalid)
        × Sound r contents law q
  unfolding parse_string
  parse_string-literal s rest fuel delim p quote sound cached h k =
      let (x, next, g) = peek_at-cons 0 p delim (literal delim s ++ rest) h in
      let one : zero + 1 ≡ 1 = omega arith in
      let (q, run, g') =
        scan_string-literal s rest fuel delim 1 [] (peek_at r 0 p).1 quote (rw (← one) next) k in
      let f = Filled-trans r contents law g g' in
      let size : 1 + length (literal delim s) ≡ suc (length (literal delim s)) = omega arith in
      let (v, at, none_cached, sound') =
        advance-view r contents law (delim ∷ literal delim s) rest q
          (Filled-Reaches r contents law q.buffer_offset p q f (rw f.same_offset sound))
          (Filled-view f ∙ h) in
      (
        advance r (suc (length (literal delim s))) q,
        parse_string_parts fuel (1 + length (literal delim s)) s p q cached
              (ap (λ (d : ℕ). scan_string r fuel d 1 [] (peek_at r 0 p).1) x ∙ run)
            ∙ ap (λ (n : ℕ). ok (s, advance r n q)) size,
        v,
        at ∙ ap (moved (delim ∷ literal delim s)) f.same_pos,
        none_cached,
        sound',
      )
