-- ===== src/Happy/Skip.antt =====
-- Parser::skip_whitespace on the text that is left.
use ian.Prelude.{
  ℕ, zero, suc, ◌+◌, ◌<◌, ◌≡◌, refl, sym, ap, ◌∙◌, inl, inr, true, false, ◌||◌, [], ◌∷◌, Bytes,
  length, get_or, ◌==◌, Bool-cases, arith,
}
use ian.Happy.Ast.{DocumentPosition}
use ian.Happy.Reader.{
  Symbol, StreamReader, Parser, Outcome, ok, ◌>>=◌, peek_at, skip_comment, skip_loop,
  skip_whitespace, trim_opportunity, next_column,
}
use ian.Happy.View.{Delivers, full, view, drop-cons, get_or-drop}
use ian.Happy.Advance.{Sound, Reaches, peek_at-Filled, trim_opportunity-view}
use ian.Happy.Blanks.{
  is_blank, ends_comment, skipped, skip_blank, comment_rest, skip_blank-comment,
  length-comment_rest,
}

module _ (r : StreamReader) (contents : r.State → Bytes) (law : Delivers r contents) where
  -- The parser has the byte where it stands in its buffer, if there is one, and `v` is left.
  record At (v : Bytes) (at : DocumentPosition) (symbol : Symbol) (p : Parser r.State)
      : Type 0 where
    left : view r contents law p ≡ v
    peeked : Reaches r contents law (suc p.buffer_offset) p
    position : p.pos ≡ at
    cached : p.next_symbol ≡ symbol

  peek_at-At :
      (v : Bytes) (at : DocumentPosition) (symbol : Symbol) (p : Parser r.State)
      → Sound r contents law p
      → view r contents law p ≡ v
      → p.pos ≡ at
      → p.next_symbol ≡ symbol
      → ((peek_at r 0 p).0 ≡ get_or v 0 0) × At v at symbol (peek_at r 0 p).1
  peek_at-At v at symbol p h e pos n =
      let (c, f, w) = peek_at-Filled r contents law 0 p in
      let q = (peek_at r 0 p).1 in
      (
        c ∙ sym (get_or-drop p.buffer_offset _ 0 0) ∙ ap (λ (b : Bytes). get_or b 0 0) e,
        record {
          left = rw (f.same_offset, f.kept) e;
          peeked =
              let o : suc (p.buffer_offset + 0) ≡ suc q.buffer_offset =
                omega (arith, f.same_offset) in
              rw (← o) w;
          position = f.same_pos ∙ pos;
          cached = f.same_symbol ∙ n;
        },
      )

  -- A byte on, and the next one peeked.
  next-At :
      (c : ℕ) (cs : Bytes) (at pos at' : DocumentPosition) (symbol : Symbol) (p : Parser r.State)
      → At (c ∷ cs) at symbol p
      → pos ≡ at'
      → let p' = record p { pos = pos; buffer_offset = p.buffer_offset + 1 } in
        ((peek_at r 0 p').0 ≡ get_or cs 0 0) × At cs at' symbol (peek_at r 0 p').1
  next-At c cs at pos at' symbol p a e =
      let p' = record p { pos = pos; buffer_offset = p.buffer_offset + 1 } in
      let o : suc p.buffer_offset ≡ p.buffer_offset + 1 = omega arith in
      peek_at-At cs at' symbol p' (rw (← o) a.peeked)
        (drop-cons p.buffer_offset (full r contents law p) cs c a.left).1 e a.cached

  abbrev Commented : Bytes → DocumentPosition → Symbol → Outcome (ℕ × Parser r.State) → Type 0
  Commented v at symbol result =
      (q : Parser r.State) × (result ≡ ok (get_or (comment_rest v at).0 0 0, q))
      × At (comment_rest v at).0 (comment_rest v at).1 symbol q

  -- The state in which the loops peek the next byte.
  abbrev on : DocumentPosition → Parser r.State → Parser r.State
  on pos p = record p { pos = pos; buffer_offset = p.buffer_offset + 1 }

  skip_comment_end :
      (f : ℕ) (p : Parser r.State)
      → ends_comment (peek_at r 0 (on (next_column p.pos) p)).0 ≡ true
      → skip_comment r (suc f) p ≡ ok (peek_at r 0 (on (next_column p.pos) p))
  unfolding skip_comment
  skip_comment_end f p h = ground arith

  skip_comment_on :
      (f : ℕ) (p : Parser r.State)
      → ends_comment (peek_at r 0 (on (next_column p.pos) p)).0 ≡ false
      → skip_comment r (suc f) p ≡ skip_comment r f (peek_at r 0 (on (next_column p.pos) p)).1
  unfolding skip_comment
  skip_comment_on f p h = ground arith

  skip_comment-At :
      (f c : ℕ) (cs : Bytes) (at : DocumentPosition) (symbol : Symbol) (p : Parser r.State)
      → At (c ∷ cs) at symbol p
      → length cs < f
      → Commented cs (next_column at) symbol (skip_comment r f p)
  skip_comment-At zero c cs at symbol p a h = absurd (omega arith)
  skip_comment-At (suc f) c [] at symbol p a h =
      let (e, n) =
        next-At c [] at (next_column p.pos) (next_column at) symbol p a
          (ap next_column a.position) in
      (
        _,
        skip_comment_end f p (rw e refl)
            ∙ ap (λ (x : ℕ). ok (x, (peek_at r 0 (on (next_column p.pos) p)).1)) e,
        n,
      )
  skip_comment-At (suc f) c (d ∷ ds) at symbol p a h =
      let (e, n) =
        next-At c (d ∷ ds) at (next_column p.pos) (next_column at) symbol p a
          (ap next_column a.position) in
      elim (Bool-cases (ends_comment d)) [
        | inl b ↦ rw b (
          _,
          skip_comment_end f p (rw e b)
              ∙ ap (λ (x : ℕ). ok (x, (peek_at r 0 (on (next_column p.pos) p)).1)) e,
          n,
        )
        | inr b ↦
            let (q, run, m) = skip_comment-At f d ds (next_column at) symbol _ n (omega arith) in
            rw b (q, skip_comment_on f p (rw e b) ∙ run, m)
      ]

  -- Behind the blanks: the byte where the parser stands is none of them.
  abbrev Skipped : Bytes × DocumentPosition → Symbol → Outcome (Unit {0} × Parser r.State) → Type 0
  Skipped (v, at) symbol result = (q : Parser r.State) × (result ≡ ok (tt, q)) × At v at symbol q

  skip_loop_comment :
      (f : ℕ) (p q : Parser r.State) (c : ℕ)
      → skip_comment r f p ≡ ok (c, q)
      → skip_loop r (suc f) b'#' p ≡ skip_loop r f c q
  unfolding skip_loop
  skip_loop_comment f p q c h = rw (h, ◌>>=◌) refl

  skip_loop_blank :
      (f c : ℕ) (p : Parser r.State)
      → is_blank c ≡ true
      → let (c', q) = peek_at r 0 (on (skipped c p.pos) p) in
        skip_loop r (suc f) c p ≡ skip_loop r f c' q
  unfolding skip_loop
  skip_loop_blank f c p h = elim (Bool-cases (c == b' ')) [
    | inl e ↦ let q : c ≡ b' ' = ground arith in rw q refl
    | inr space ↦ elim (Bool-cases (c == b'\t')) [
      | inl e ↦ let q : c ≡ b'\t' = ground arith in rw q refl
      | inr tab ↦ elim (Bool-cases (c == b'\n')) [
        | inl e ↦ let q : c ≡ b'\n' = ground arith in rw q refl
        | inr newline ↦ let q : c ≡ b'\r' = ground arith in rw q refl
      ]
    ]
  ]

  skip_loop_end :
      (f c : ℕ) (p : Parser r.State)
      → (c == b'#' || is_blank c) ≡ false
      → skip_loop r (suc f) c p ≡ ok (tt, p)
  unfolding skip_loop
  skip_loop_end f c p h = ground arith

  skip_loop-Skipped :
      (f : ℕ) (v : Bytes) (at : DocumentPosition) (symbol : Symbol) (p : Parser r.State)
      → At v at symbol p
      → length v < f
      → Skipped (skip_blank false v at) symbol (skip_loop r f (get_or v 0 0) p)
  skip_loop-Skipped zero v at symbol p a h = absurd (omega arith)
  skip_loop-Skipped (suc f) [] at symbol p a h = (p, skip_loop_end f 0 p refl, a)
  skip_loop-Skipped (suc f) (c ∷ cs) at symbol p a h = elim (Bool-cases (c == b'#')) [
    | inl e ↦
        let mark : c ≡ b'#' = ground arith in
        let (q, run, m) = skip_comment-At f c cs at symbol p a (omega arith) in
        let (v, at') = comment_rest cs (next_column at) in
        let (q', run', m') =
          skip_loop-Skipped f v at' symbol q m
            (omega (arith, length-comment_rest cs (next_column at))) in
        rw (mark, skip_blank-comment cs (next_column at))
          (q', skip_loop_comment f p q (get_or v 0 0) run ∙ run', m')
    | inr e ↦ elim (Bool-cases (is_blank c)) [
      | inl b ↦
          let (byte, n) =
            next-At c cs at (skipped c p.pos) (skipped c at) symbol p a
              (ap (skipped c) a.position) in
          let (q, run, m) = skip_loop-Skipped f cs (skipped c at) symbol _ n (omega arith) in
          rw (e, b)
            (
              q,
              skip_loop_blank f c p b
                  ∙ ap (λ (x : ℕ). skip_loop r f x (peek_at r 0 (on (skipped c p.pos) p)).1) byte
                  ∙ run,
              m,
            )
      | inr b ↦ rw (e, b) (p, skip_loop_end f c p (rw (e, b) refl), a)
    ]
  ]

  pub Reaches_back :
      (n : ℕ) (p : Parser r.State) → Reaches r contents law (suc n) p → Reaches r contents law n p
  Reaches_back n p (inl h) = inl (omega arith)
  Reaches_back n p (inr h) = inr h

  -- With a reader that keeps its contract, from a state that has read up to where it stands, and with a
  -- round more than there are bytes left, `skip_whitespace` returns, leaves exactly the text behind the
  -- blanks and the comments, with the position there, and keeps the cached symbol.
  pub skip_whitespace-skip_blank :
      (fuel : ℕ) (p : Parser r.State)
      → Sound r contents law p
      → length (view r contents law p) < fuel
      → (q : Parser r.State) × (skip_whitespace r fuel p ≡ ok (tt, q))
        × (view r contents law q ≡ (skip_blank false (view r contents law p) p.pos).0)
        × (q.pos ≡ (skip_blank false (view r contents law p) p.pos).1)
        × (q.next_symbol ≡ p.next_symbol)
        × Sound r contents law q
  unfolding skip_whitespace
  skip_whitespace-skip_blank fuel p h k =
      let v = view r contents law p in
      let (byte, a) = peek_at-At v p.pos p.next_symbol p h refl refl refl in
      let (q, run, b) = skip_loop-Skipped fuel v p.pos p.next_symbol _ a k in
      let (left, sound, pos, symbol) =
        trim_opportunity-view r contents law q (Reaches_back q.buffer_offset q b.peeked) in
      (
        trim_opportunity q,
        rw (byte, run, ◌>>=◌) refl,
        left ∙ b.left,
        pos ∙ b.position,
        symbol ∙ b.cached,
        sound,
      )
