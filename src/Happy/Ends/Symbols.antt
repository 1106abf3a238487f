-- ===== src/Happy/Ends/Symbols.antt =====
-- `peek_symbol`, `expect`, `unexpected`, `parse_symbol` and `parse_identifier` of Parser end.
use ian.Prelude.{
  ℕ, suc, ◌≤◌, ◌<◌, ◌≡◌, refl, sym, ap, ◌∙◌, inl, inr, false, Bytes, length, length-append,
  if◌then◌else◌, Bool-cases, arith,
}
use ian.Happy.Ast.{DocumentPosition}
use ian.Happy.Reader.{
  Symbol, invalid, Reason, expected, context, ok, throws, StreamReader, Parser, M, pure,
  trim_opportunity, advance,
}
use ian.Happy.Lexer.{
  same, symbol_length, peek_symbol, unexpected_symbol, unexpected_in, expect, parse_symbol,
}
use ian.Happy.View.{Delivers, view}
use ian.Happy.Advance.{advance-view, trim_opportunity-view}
use ian.Happy.Strings.{bind-ok}
use ian.Happy.Places.{Reached-on, moved_place, skip_blank-Reached}
use ian.Happy.Blanks.{length-skip_blank}
use ian.Happy.Symbols.{symbol_of, peek_symbol-symbol_of}
use ian.Happy.Quotes.{code, open_string, open_string-skip_blank}
use ian.Happy.Fronts.{eq_of_same, Front, symbol-Front}
use ian.Happy.Ends.{At, Told, Stays, Takes}

peek_symbol_known :
    (r : StreamReader) (fuel : ℕ) (p : Parser r.State)
    → same p.next_symbol invalid ≡ false
    → peek_symbol r fuel p ≡ ok (p.next_symbol, p)
unfolding peek_symbol
peek_symbol_known r fuel p h = rw h refl

module _ (r : StreamReader) (contents : r.State → Bytes) (law : Delivers r contents)
    (text filename : Bytes) where
  -- What `peek_symbol` returns: the symbol of the text that it leaves.
  pub record Peeked (fuel d k : ℕ) (p : Parser r.State) : Type 0 where
    pub peeked : Parser r.State
    pub run : peek_symbol r fuel p ≡ ok (symbol_of (view r contents law peeked), peeked)
    pub known : peeked.next_symbol ≡ symbol_of (view r contents law peeked)
    pub stands : At r contents law text filename d k peeked

  peek_symbol-uncached :
      (fuel d k : ℕ) (p : Parser r.State)
      → d ≤ fuel
      → At r contents law text filename d k p
      → p.next_symbol ≡ invalid
      → Peeked fuel d k p
  peek_symbol-uncached fuel d k p h a none_cached =
      let v = view r contents law p in
      let (q, run, left, pos, symbol, sound) =
        peek_symbol-symbol_of r contents law fuel p a.sound none_cached
          (omega (arith, a.size, a.bound)) in
      let size = length-skip_blank false v p.pos in
      let cached = symbol ∙ ap symbol_of (sym left) in
      record {
        peeked = q;
        run = run ∙ ap (λ w. ok (symbol_of w, q)) (sym left);
        known = cached;
        stands = record {
          sound = sound;
          cached = inr cached;
          closed =
              ap (open_string code) left ∙ sym (open_string-skip_blank false v p.pos) ∙ a.closed;
          size = rw left (omega (arith, a.size));
          place = rw (left, pos) (skip_blank-Reached false v p.pos a.place);
          bound = a.bound;
        };
      }

  pub peek_symbol-Peeked :
      (fuel d k : ℕ) (p : Parser r.State)
      → d ≤ fuel
      → At r contents law text filename d k p
      → Peeked fuel d k p
  peek_symbol-Peeked fuel d k p h a = elim (Bool-cases (same p.next_symbol invalid)) [
    | inl e ↦ peek_symbol-uncached fuel d k p h a (eq_of_same p.next_symbol invalid e)
    | inr e ↦ elim a.cached [
      | inl none_cached ↦ peek_symbol-uncached fuel d k p h a none_cached
      | inr known ↦ record {
        peeked = p;
        run = peek_symbol_known r fuel p e ∙ ap (λ s. ok (s, p)) known;
        known = known;
        stands = a;
      }
    ]
  ]

  pub peek_symbol-Stays :
      (fuel d : ℕ) → d ≤ fuel → Stays r contents law text filename d (peek_symbol r fuel)
  peek_symbol-Stays fuel d h = record {
    stays = λ k p a. let x = peek_symbol-Peeked fuel d k p h a in rw x.run x.stands;
  }

  unexpected_symbol-throws :
      (fuel d k : ℕ) (wanted : Symbol) {A : Type 0} (p : Parser r.State)
      → d ≤ fuel
      → At r contents law text filename d k p
      → (at : DocumentPosition) × (why : Reason) × (unexpected_symbol r {A = A} fuel wanted p
          ≡ throws at why)
        × Told r contents law text filename at why
  unfolding unexpected_symbol
  unexpected_symbol-throws fuel d k wanted {A} p h a =
      let x = peek_symbol-Peeked fuel d k p h a in
      (
        _,
        _,
        bind-ok (peek_symbol r fuel) (λ s q. throws q.pos (expected s wanted)) p x.run,
        record { rest = view r contents law x.peeked; place = x.stands.place; named = refl },
      )

  pub unexpected_in-throws :
      {A : Type 0} (fuel d k : ℕ) (place : Bytes) (p : Parser r.State)
      → d ≤ fuel
      → At r contents law text filename d k p
      → (at : DocumentPosition) × (why : Reason) × (unexpected_in r {A = A} fuel place p
          ≡ throws at why)
        × Told r contents law text filename at why
  unfolding unexpected_in
  unexpected_in-throws {A} fuel d k place p h a =
      let x = peek_symbol-Peeked fuel d k p h a in
      (
        _,
        _,
        bind-ok (peek_symbol r fuel) (λ s q. throws q.pos (context s place)) p x.run,
        record { rest = view r contents law x.peeked; place = x.stands.place; named = refl },
      )

  pub unexpected_in-Takes :
      {A : Type 0} (fuel d : ℕ) (place : Bytes)
      → d ≤ fuel
      → Takes r contents law text filename {A = A} d (unexpected_in r fuel place)
  unexpected_in-Takes {A} fuel d place h = record {
    takes = λ k p a.
        let (at, why, run, told) = unexpected_in-throws {A = A} fuel d (suc k) place p h a in
        rw run told;
  }

  -- `expect` throws, or the text that it leaves begins with the symbol.
  pub data Expected (fuel d k : ℕ) (wanted : Symbol) (p : Parser r.State) : Type 0 where
    refused :
        (at : DocumentPosition) (why : Reason)
        → expect r fuel wanted p ≡ throws at why
        → Told r contents law text filename at why
        → Expected fuel d k wanted p
    met :
        (q : Parser r.State)
        → expect r fuel wanted p ≡ ok (tt, q)
        → At r contents law text filename d k q
        → symbol_of (view r contents law q) ≡ wanted
        → Expected fuel d k wanted p

  pub expect-Expected :
      (fuel d k : ℕ) (wanted : Symbol) (p : Parser r.State)
      → d ≤ fuel
      → At r contents law text filename d k p
      → Expected fuel d k wanted p
  unfolding expect
  expect-Expected fuel d k wanted p h a =
      let x = peek_symbol-Peeked fuel d k p h a in
      let s = symbol_of (view r contents law x.peeked) in
      let test : M r.State (Unit {0}) =
        if same s wanted then pure tt else unexpected_symbol r fuel wanted in
      let run : expect r fuel wanted p ≡ test x.peeked =
        bind-ok (peek_symbol r fuel)
          (λ t. if same t wanted then pure tt else unexpected_symbol r fuel wanted) p x.run in
      elim (Bool-cases (same s wanted)) [
        | inl e ↦ met x.peeked (run ∙ rw e refl) x.stands (eq_of_same s wanted e)
        | inr e ↦
            let (at, why, run', told) =
              unexpected_symbol-throws fuel d k wanted {A = Unit {0}} x.peeked h x.stands in
            refused at why (run ∙ rw e run') told
      ]

  -- Some bytes of the text are taken.
  pub advance-At :
      {d k n : ℕ} (p : Parser r.State)
      → At r contents law text filename d (suc k) p
      → (f : Front code n (view r contents law p)) → 0 < n
      → At r contents law text filename d k (advance r n p)
  advance-At {d} {k} {n} p a f h =
      let (left, pos, symbol, sound) =
        advance-view r contents law f.front f.behind p a.sound f.split in
      let (line, file) = moved_place f.front p.pos in
      let b : At r contents law text filename d k (advance r (length f.front) p) = record {
        sound = sound;
        cached = inl symbol;
        closed = ap (open_string code) left ∙ sym f.same_open ∙ a.closed;
        place = rw left (
            Reached-on f.front f.behind p.pos (advance r (length f.front) p).pos
              (rw (← f.split) a.place) (ap (λ x. x.line) pos ∙ line) (ap (λ x. x.file) pos ∙ file));
        size =
            rw left
              (omega (arith, a.size, f.count, ap length f.split, length-append f.front f.behind));
        bound = omega (arith, a.bound);
      } in
      let e = f.count in rw (← e) b

  trim_opportunity-At :
      {d k : ℕ} (p : Parser r.State)
      → At r contents law text filename d k p
      → At r contents law text filename d k (trim_opportunity p)
  trim_opportunity-At p a =
      let (left, sound, pos, symbol) = trim_opportunity-view r contents law p a.sound in
      record {
        sound = sound;
        cached = rw (left, symbol) a.cached;
        closed = rw left a.closed;
        place = rw (left, pos) a.place;
        size = rw left a.size;
        bound = a.bound;
      }

  -- A sign or a keyword that is read takes bytes.
  pub parse_symbol-Takes :
      (fuel d : ℕ) (s : Symbol)
      → d ≤ fuel
      → 0 < symbol_length s
      → Takes r contents law text filename d (parse_symbol r fuel s)
  unfolding parse_symbol
  parse_symbol-Takes fuel d s h n = record {
    takes = λ k p a. elim (expect-Expected fuel d (suc k) s p h a) [
      | refused at why run told ↦ rw run told
      | met q run b e ↦
          let f : Front code (symbol_length s) (view r contents law q) =
            rw (← e) (symbol-Front (view r contents law q) (rw e n)) in
          rw run (trim_opportunity-At (advance r (symbol_length s) q) (advance-At q b f n))
    ];
  }
