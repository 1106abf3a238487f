-- ===== src/Happy/Tokens.antt =====
-- What `expect`, `parse_symbol` and `parse_identifier` of Parser do where their symbol comes next.
use ian.Prelude.{
  ℕ, ◌+◌, ◌<◌, ◌≡◌, refl, sym, ap, ◌∙◌, true, false, [], ◌++◌, Bytes, length, if◌then◌else◌, arith,
}
use ian.Happy.Ast.{DocumentPosition}
use ian.Happy.Reader.{
  Symbol, identifier, invalid, StreamReader, Parser, ok, ◌>>=◌, ◌>>◌, pure, trim_opportunity,
  advance,
}
use ian.Happy.Lexer.{
  same, peek_symbol, expect, unexpected_symbol, parse_symbol, symbol_length, parse_identifier,
  scan_word, skip,
}
use ian.Happy.View.{Delivers, view}
use ian.Happy.Advance.{Sound, Filled-Reaches, advance-view, trim_opportunity-view}
use ian.Happy.Strings.{Filled-view, bind-ok}
use ian.Happy.Blanks.{skip_blank}
use ian.Happy.Symbols.{symbol_of, word_of, peek_symbol-symbol_of, scan_word-word_of}

same_refl : (s : Symbol) → same s s ≡ true
same_refl s = ground arith

module _ (r : StreamReader) (contents : r.State → Bytes) (law : Delivers r contents) where
  -- No symbol is cached, and `w` is left.
  pub record Fresh (w : Bytes) (p : Parser r.State) : Type 0 where
    pub sound : Sound r contents law p
    pub left : view r contents law p ≡ w
    pub none_cached : p.next_symbol ≡ invalid

  -- The next symbol is `s`, which the text `v` begins with.
  pub record Peeks (fuel : ℕ) (s : Symbol) (v : Bytes) (p : Parser r.State) : Type 0 where
    pub peeked : Parser r.State
    pub peeks : peek_symbol r fuel p ≡ ok (s, peeked)
    pub again : peek_symbol r fuel peeked ≡ ok (s, peeked)
    pub left : view r contents law peeked ≡ v
    pub sound : Sound r contents law peeked

  pub Peeks-peeked :
      (fuel : ℕ) (s : Symbol) (v : Bytes) (p : Parser r.State) (k : Peeks fuel s v p)
      → Peeks fuel s v k.peeked
  Peeks-peeked fuel s v p k = record {
    peeked = k.peeked;
    peeks = k.again;
    again = k.again;
    left = k.left;
    sound = k.sound;
  }

  peek_symbol_cached :
      (fuel : ℕ) (s : Symbol) (p : Parser r.State)
      → same s invalid ≡ false
      → p.next_symbol ≡ s
      → peek_symbol r fuel p ≡ ok (s, p)
  unfolding peek_symbol
  peek_symbol_cached fuel s p h e =
      let h' : same p.next_symbol invalid ≡ false = ap (λ x. same x invalid) e ∙ h in
      rw h' (ap (λ x. ok (x, p)) e)

  -- Behind blanks and comments, from which position ever, stands `v`.
  abbrev pub Behind : Bytes → Bytes → Type 0
  Behind w v = (at : DocumentPosition) → (skip_blank false w at).0 ≡ v

  pub Fresh-Peeks :
      (fuel : ℕ) (s : Symbol) (w v : Bytes) (p : Parser r.State)
      → Fresh w p
      → length w < fuel
      → Behind w v
      → symbol_of v ≡ s
      → same s invalid ≡ false
      → Peeks fuel s v p
  Fresh-Peeks fuel s w v p f k b e h =
      let (q, run, left, pos, symbol, sound) =
        peek_symbol-symbol_of r contents law fuel p f.sound f.none_cached (rw f.left k) in
      let text : (skip_blank false (view r contents law p) p.pos).0 ≡ v =
        ap (λ x. (skip_blank false x p.pos).0) f.left ∙ b p.pos in
      let found : symbol_of (skip_blank false (view r contents law p) p.pos).0 ≡ s =
        ap symbol_of text ∙ e in
      record {
        peeked = q;
        peeks = run ∙ ap (λ x. ok (x, q)) found;
        again = peek_symbol_cached fuel s q h (symbol ∙ found);
        left = left ∙ text;
        sound = sound;
      }

  pub expect-Peeks :
      (fuel : ℕ) (s : Symbol) (v : Bytes) (p : Parser r.State) (k : Peeks fuel s v p)
      → expect r fuel s p ≡ ok (tt, k.peeked)
  unfolding expect
  expect-Peeks fuel s v p k =
      bind-ok (peek_symbol r fuel) (λ x. if same x s then pure tt else unexpected_symbol r fuel s) p
        k.peeks
      ∙ rw (same_refl s) refl

  pub advance-Fresh :
      (cs rest : Bytes) (p : Parser r.State)
      → Sound r contents law p
      → view r contents law p ≡ cs ++ rest
      → Fresh rest (advance r (length cs) p)
  advance-Fresh cs rest p h e =
      let (left, pos, symbol, sound) = advance-view r contents law cs rest p h e in
      record { sound = sound; left = left; none_cached = symbol }

  -- A sign or a keyword that comes next is taken.
  pub parse_symbol-Fresh :
      (fuel : ℕ) (s : Symbol) (cs rest : Bytes) (p : Parser r.State)
      → Peeks fuel s (cs ++ rest) p
      → length cs ≡ symbol_length s
      → (q : Parser r.State) × (parse_symbol r fuel s p ≡ ok (tt, q)) × Fresh rest q
  unfolding parse_symbol
  parse_symbol-Fresh fuel s cs rest p k n =
      let f = advance-Fresh cs rest k.peeked k.sound k.left in
      let q = advance r (length cs) k.peeked in
      let (left, sound, pos, symbol) = trim_opportunity-view r contents law q f.sound in
      (
        trim_opportunity q,
        bind-ok (expect r fuel s)
              (λ _. skip r (symbol_length s) >> (λ x. ok (tt, trim_opportunity x))) p
              (expect-Peeks fuel s (cs ++ rest) p k)
            ∙ ap (λ (m : ℕ). ok (tt, trim_opportunity (advance r m k.peeked))) (sym n),
        record { sound = sound; left = left ∙ f.left; none_cached = symbol ∙ f.none_cached },
      )

  -- A name that comes next is taken.
  pub parse_identifier-Fresh :
      (fuel : ℕ) (name rest : Bytes) (p : Parser r.State)
      → Peeks fuel identifier (name ++ rest) p
      → word_of (name ++ rest) ≡ name
      → length (name ++ rest) < fuel
      → (q : Parser r.State) × (parse_identifier r fuel p ≡ ok (name, q)) × Fresh rest q
  unfolding parse_identifier
  parse_identifier-Fresh fuel name rest p k e h =
      let none_before : 0 + length (word_of (name ++ rest)) ≡ length (word_of (name ++ rest)) =
        omega arith in
      let (q, run, x) =
        scan_word-word_of r contents law (name ++ rest) fuel 0 [] k.peeked k.left h in
      let f =
        advance-Fresh name rest q
          (let o = x.same_offset in rw o (Filled-Reaches r contents law _ k.peeked q x k.sound))
          (Filled-view r contents law x ∙ k.left) in
      (
        advance r (length name) q,
        bind-ok (expect r fuel identifier)
              (λ _. scan_word r fuel 0 [] >>= (λ w. skip r w.1 >> pure w.0)) p
              (expect-Peeks fuel identifier (name ++ rest) p k)
            ∙ bind-ok (scan_word r fuel 0 []) (λ w. skip r w.1 >> pure w.0) k.peeked run
            ∙ ap (λ (m : ℕ). ok (word_of (name ++ rest), advance r m q)) none_before
            ∙ ap (λ (n : Bytes). ok (n, advance r (length n) q)) e,
        f,
      )
