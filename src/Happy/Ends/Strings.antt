-- ===== src/Happy/Ends/Strings.antt =====
-- `parse_string` of Parser ends where its string is closed.
use ian.Prelude.{
  ℕ, zero, suc, ◌+◌, ◌≤◌, ◌<◌, ◌≡◌, refl, sym, ap, ◌∙◌, inl, inr, true, false, ◌||◌, [], ◌∷◌, ◌++◌,
  Bytes, length, length-append, append_assoc, drop, ◌==◌, Bool-cases, arith,
}
use ian.Happy.Reader.{string, Outcome, ok, StreamReader, Parser, ◌>>=◌, ◌>>◌, pure, peek_at}
use ian.Happy.Lexer.{skip, peek, parse_string, scan_string}
use ian.Happy.View.{Delivers, Filled, Filled-trans, view}
use ian.Happy.Strings.{
  Quote, Filled-view, peek_at-cons, scan_string_plain, scan_string_escaped, scan_string_end,
}
use ian.Happy.Symbols.{symbol_of}
use ian.Happy.Quotes.{code, quoted, escaped, open_string}
use ian.Happy.Fronts.{Front, string-quote}
use ian.Happy.Ends.{At, Ended, Takes}
use ian.Happy.Ends.Symbols.{refused, met, expect-Expected, advance-At}
use ian.Happy.Ends.Names.{Filled-At}

escaped_char :
    (delim : ℕ) (cs : Bytes)
    → open_string (escaped delim) cs ≡ false
    → (c : ℕ) × (rest : Bytes) × (cs ≡ c ∷ rest)
escaped_char delim [] h = cc
escaped_char delim (c ∷ rest) h = (c, rest, refl)

quote_opens :
    (c : ℕ) (cs : Bytes)
    → (c == b'\'' || c == b'"') ≡ true
    → open_string code (c ∷ cs) ≡ open_string (quoted c) cs
quote_opens c cs h = ground arith

Quote-cases : (c : ℕ) → (c == b'\'' || c == b'"') ≡ true → Quote c
Quote-cases c h = ground arith

module _ (r : StreamReader) (contents : r.State → Bytes) (law : Delivers r contents)
    (text filename : Bytes) where
  -- A string from an offset on, with what is left behind its delimiter.
  pub record Closes (delim len : ℕ) (ret cs : Bytes) (p : Parser r.State)
      (x : Outcome ((Bytes × ℕ) × Parser r.State)) : Type 0 where
    pub value : Bytes
    pub size : ℕ
    pub filled : Parser r.State
    pub run : x ≡ ok ((value, len + size), filled)
    pub same_view : Filled r contents law p filled
    pub front : Front (quoted delim) size cs

  -- A round of the loop over bytes that stay within the string.
  Closes-back :
      (delim len more : ℕ) (ret ret' taken cs : Bytes) (p q : Parser r.State)
      {x y : Outcome ((Bytes × ℕ) × Parser r.State)}
      → x ≡ y
      → Filled r contents law p q
      → open_string (quoted delim) (taken ++ cs) ≡ open_string (quoted delim) cs
      → length taken ≡ more
      → Closes delim (len + more) ret' cs q y
      → Closes delim len ret (taken ++ cs) p x
  Closes-back delim len more ret ret' taken cs p q e g same_open n c =
      let at : len + more + c.size ≡ len + (more + c.size) = omega arith in
      let f = c.front in
      record {
        value = c.value;
        size = more + c.size;
        filled = c.filled;
        run = e ∙ c.run ∙ ap (λ (m : ℕ). ok ((c.value, m), c.filled)) at;
        same_view = Filled-trans r contents law g c.same_view;
        front = record {
          front = taken ++ f.front;
          behind = f.behind;
          split = ap (λ b. taken ++ b) f.split ∙ sym (append_assoc taken f.front f.behind);
          count = omega (arith, length-append taken f.front, n, f.count);
          same_open = same_open ∙ f.same_open;
        };
      }

  scan_string-Closes :
      (cs : Bytes) (f delim len : ℕ) (ret : Bytes) (p : Parser r.State)
      → Quote delim
      → drop len (view r contents law p) ≡ cs
      → length cs < f
      → open_string (quoted delim) cs ≡ false
      → Closes delim len ret cs p (scan_string r f delim len ret p)
  scan_string-Closes cs zero delim len ret p quote h k closed = absurd (omega arith)
  scan_string-Closes [] (suc f) delim len ret p quote h k closed = cc
  scan_string-Closes (c ∷ cs) (suc f) delim len ret p quote h k closed =
      let (byte, next, x) = peek_at-cons r contents law len p c cs h in
      elim (Bool-cases (c == delim)) [
        | inl e ↦ record {
          value = ret;
          size = 1;
          filled = (peek_at r len p).1;
          run = scan_string_end r f delim len ret p (rw byte e);
          same_view = x;
          front = record {
            front = c ∷ [];
            behind = cs;
            split = refl;
            count = refl;
            same_open = rw e refl;
          };
        }
        | inr e ↦ elim (Bool-cases (c == b'\\')) [
          | inr plain ↦
              Closes-back delim len 1 ret _ (c ∷ []) cs p (peek_at r len p).1
                (scan_string_plain r f delim len ret p (rw byte e) (rw byte plain)) x
                (rw (e, plain) refl) refl
                (scan_string-Closes cs f delim (len + 1) _ (peek_at r len p).1 quote next
                  (omega arith) (rw (← closed) (rw (e, plain) refl)))
          | inl back ↦
              let q = (peek_at r len p).1 in
              let inside : open_string (escaped delim) cs ≡ false =
                rw (← closed) (rw (e, back) refl) in
              let (d, rest, split) = escaped_char delim cs inside in
              let (_, next', x') = peek_at-cons r contents law (len + 1) q d rest (next ∙ split) in
              let two : len + 1 + 1 ≡ len + 2 = omega arith in
              rw split (
                Closes-back delim len 2 ret _ (c ∷ d ∷ []) rest p (peek_at r (len + 1) q).1
                  (scan_string_escaped r f delim len ret p (rw byte e) (rw byte back))
                  (Filled-trans r contents law x x') (rw (e, back) refl) refl
                  (scan_string-Closes rest f delim (len + 2) _ (peek_at r (len + 1) q).1 quote
                    (rw (← two) next') (omega (arith, ap length split)) (rw split at inside)))
        ]
      ]

  -- The string that a text begins with.
  string_taken :
      (d k c : ℕ) (cs : Bytes) (q : Parser r.State) {x : Outcome ((Bytes × ℕ) × Parser r.State)}
      → At r contents law text filename d (suc k) q
      → view r contents law q ≡ c ∷ cs
      → (c == b'\'' || c == b'"') ≡ true
      → Closes c 1 [] cs q x
      → Ended r contents law text filename d k (((λ _. x) >>= λ s. skip r s.1 >> pure s.0) q)
  string_taken d k c cs q a e h z =
      let f = z.front in
      let front : Front code (1 + z.size) (c ∷ cs) = record {
        front = c ∷ f.front;
        behind = f.behind;
        split = ap (◌∷◌ c) f.split;
        count = omega (arith, f.count);
        same_open = quote_opens c cs h ∙ f.same_open;
      } in
      let left = Filled-view r contents law z.same_view in
      let run = z.run in
      rw run (
        advance-At r contents law text filename z.filled
          (Filled-At r contents law text filename q z.filled z.same_view a) (rw (left, e) front)
          (omega arith))

  string-Ended :
      (fuel d k : ℕ) (v : Bytes) (q : Parser r.State)
      → d ≤ fuel
      → At r contents law text filename d (suc k) q
      → view r contents law q ≡ v
      → symbol_of v ≡ string
      → Ended r contents law text filename d k
          ((peek r 0 >>= λ b. scan_string r fuel b 1 [] >>= λ s. skip r s.1 >> pure s.0) q)
  string-Ended fuel d k [] q h a e s = cc
  string-Ended fuel d k (c ∷ cs) q h a e s =
      let (byte, next, x) = peek_at-cons r contents law 0 q c cs e in
      let q' = (peek_at r 0 q).1 in
      let left = Filled-view r contents law x in
      let quote = string-quote c cs s in
      let one : 0 + 1 ≡ 1 = omega arith in
      let inside : open_string (quoted c) cs ≡ false =
        sym (quote_opens c cs quote) ∙ ap (open_string code) (sym e) ∙ a.closed in
      rw byte (
        string_taken d k c cs q' (Filled-At r contents law text filename q q' x a) (left ∙ e) quote
          (scan_string-Closes cs fuel c 1 [] q' (Quote-cases c quote) (rw (← one) next)
            (omega (arith, a.size, a.bound, ap length e)) inside))

  pub parse_string-Takes :
      (fuel d : ℕ) → d ≤ fuel → Takes r contents law text filename d (parse_string r fuel)
  unfolding parse_string
  parse_string-Takes fuel d h = record {
    takes = λ k p a.
        elim (expect-Expected r contents law text filename fuel d (suc k) string p h a) [
          | refused at why run told ↦ rw (run, parse_string, ◌>>◌, ◌>>=◌) told
          | met q run b e ↦
              rw (run, ◌>>◌, ◌>>=◌) (string-Ended fuel d k (view r contents law q) q h b refl e)
        ];
  }
