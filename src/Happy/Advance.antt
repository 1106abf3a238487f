-- ===== src/Happy/Advance.antt =====
-- What Parser::advance does to the text that is left, and to the position.
use ian.Prelude.{
  ℕ, zero, suc, ◌+◌, ◌-◌, ◌≤◌, ◌<◌, ◌≡◌, refl, sym, ap, ◌∙◌, ◌⊎◌, [], ◌∷◌, ◌++◌, append-nil, Bytes,
  length, length-append, get_or, drop, drop-append, ltb, leb, ◌==◌, if◌then◌else◌, Bool-cases, inl,
  inr, arith,
}
use ian.Happy.Ast.{DocumentPosition}
use ian.Happy.Reader.{
  invalid, StreamReader, Parser, trim_opportunity, read_more, fill, peek_at, count_chars, advance,
  next_line, next_column,
}
use ian.Happy.View.{
  Delivers, full, Filled, read_more-Filled, fill-Filled, view, drop-cons, length-zero,
}

-- The position behind some bytes.
abbrev pub moved : Bytes → DocumentPosition → DocumentPosition
moved [] at = at
moved (c ∷ cs) at = moved cs (if c == b'\n' then next_line at else next_column at)

drop-prefix : (n : ℕ) (cs rest xs : Bytes) → drop n xs ≡ cs ++ rest → drop (n + length cs) xs ≡ rest
drop-prefix n [] rest xs h = let e : n + 0 ≡ n = omega arith in ap (λ (m : ℕ). drop m xs) e ∙ h
drop-prefix n (c ∷ cs) rest xs h =
    let e : n + suc (length cs) ≡ (n + 1) + length cs = omega arith in
    ap (λ (m : ℕ). drop m xs) e ∙ drop-prefix (n + 1) cs rest xs (drop-cons n xs (cs ++ rest) c h).1

module _ (r : StreamReader) (contents : r.State → Bytes) (law : Delivers r contents) where
  -- The buffer reaches up to `at`, or the input is at its end.
  abbrev pub Reaches : ℕ → Parser r.State → Type 0
  Reaches at p = (at ≤ length p.buffer) ⊎ (contents p.reader ≡ [])

  pub Filled-Reaches :
      (at : ℕ) (p q : Parser r.State) → Filled r contents law p q → Reaches at p → Reaches at q
  Filled-Reaches at p q f (inl h) = inl (omega (arith, h, f.grown))
  Filled-Reaches at p q f (inr h) = inr (
      length-zero (contents q.reader) (
        omega (
          arith,
          f.grown,
          length-append p.buffer (contents p.reader),
          length-append q.buffer (contents q.reader),
          ap length f.kept,
          ap length h,
        )))

  fill-Reaches :
      (missing at : ℕ) (p : Parser r.State)
      → suc at ≤ length p.buffer + missing
      → (0 < missing → length p.buffer ≤ at)
      → Reaches (suc at) (fill r missing at p).1
  unfolding fill
  fill-Reaches zero at p h k = inl (omega arith)
  fill-Reaches (suc missing) at p h k =
      let q = read_more r at p in
      let n = at + 0x0800 - length p.buffer in
      let f = read_more-Filled r contents law at p in
      let g = f.grown in
      elim (Bool-cases (length q.buffer == length p.buffer)) [
        | inl none_left ↦
            let nothing : (r.read p.reader n).0 ≡ [] =
              length-zero (r.read p.reader n).0
                (ground (arith, length-append p.buffer (r.read p.reader n).0)) in
            let behind : length p.buffer ≤ at = k (omega arith) in
            let asked : 0 < n = omega arith in
            rw none_left (Filled-Reaches (suc at) p q f (inr (law.at_end p.reader n asked nothing)))
        | inr more ↦ elim (Bool-cases (ltb at (length q.buffer))) [
          | inl enough ↦ rw (more, enough) (inl (ground arith))
          | inr short ↦
              rw (more, short) (fill-Reaches missing at q (ground arith) (λ _. ground arith))
        ]
      ]

  pub peek_at-Filled :
      (offset : ℕ) (p : Parser r.State)
      → ((peek_at r offset p).0 ≡ get_or (full r contents law p) (p.buffer_offset + offset) 0)
        × Filled r contents law p (peek_at r offset p).1
        × Reaches (suc (p.buffer_offset + offset)) (peek_at r offset p).1
  unfolding peek_at
  peek_at-Filled offset p =
      let at = p.buffer_offset + offset in
      let h : suc at ≤ length p.buffer + (suc at - length p.buffer) = omega arith in
      let f = fill-Filled r contents law (suc at - length p.buffer) at p h (λ k. omega arith) in
      (f.0, f.1, fill-Reaches (suc at - length p.buffer) at p h (λ k. omega arith))

  -- What `count_chars` does over the bytes `cs`.
  record Counted (cs : Bytes) (i : ℕ) (p q : Parser r.State) : Type 0 where
    kept : full r contents law q ≡ full r contents law p
    same_offset : q.buffer_offset ≡ p.buffer_offset
    reaches : Reaches (p.buffer_offset + i + length cs) q
    position : q.pos ≡ moved cs p.pos

  count_chars-Counted :
      (cs rest : Bytes) (i : ℕ) (p : Parser r.State)
      → Reaches (p.buffer_offset + i) p
      → drop (p.buffer_offset + i) (full r contents law p) ≡ cs ++ rest
      → Counted cs i p (count_chars r (length cs) i p)
  unfolding count_chars
  count_chars-Counted [] rest i p h e =
      let same : p.buffer_offset + i + 0 ≡ p.buffer_offset + i = omega arith in
      record { kept = refl; same_offset = refl; reaches = rw same h; position = refl }
  count_chars-Counted (c ∷ cs) rest i p h e =
      let q = (peek_at r i p).1 in
      let (x, f, w) = peek_at-Filled i p in
      let (a, b) = drop-cons (p.buffer_offset + i) (full r contents law p) (cs ++ rest) c e in
      let byte : (peek_at r i p).0 ≡ c = x ∙ a in
      let p' = record q {
        pos = if (peek_at r i p).0 == b'\n' then next_line q.pos else next_column q.pos;
      } in
      let one : suc (p.buffer_offset + i) ≡ q.buffer_offset + suc i =
        omega (arith, f.same_offset) in
      let one' : p.buffer_offset + i + 1 ≡ q.buffer_offset + suc i = omega (arith, f.same_offset) in
      let next : drop (q.buffer_offset + suc i) (full r contents law q) ≡ cs ++ rest =
        rw (f.kept, ← one') b in
      let g = count_chars-Counted cs rest (suc i) p' (rw (← one) w) next in
      let end_ : p.buffer_offset + i + suc (length cs) ≡ q.buffer_offset + suc i + length cs =
        omega (arith, one) in
      record {
        kept = g.kept ∙ f.kept;
        same_offset = g.same_offset ∙ f.same_offset;
        reaches = rw end_ g.reaches;
        position = g.position ∙ rw (byte, f.same_pos);
      }

  -- The parser has read up to where it stands, or to the end.
  abbrev pub Sound : Parser r.State → Type 0
  Sound p = Reaches p.buffer_offset p

  pub trim_opportunity-view :
      (p : Parser r.State)
      → Sound p
      → (view r contents law (trim_opportunity p) ≡ view r contents law p)
        × Sound (trim_opportunity p)
        × ((trim_opportunity p).pos ≡ p.pos)
        × ((trim_opportunity p).next_symbol ≡ p.next_symbol)
  unfolding trim_opportunity
  trim_opportunity-view p h =
      let o = p.buffer_offset in
      elim (Bool-cases (leb 0x4000 o)) [
        | inl e ↦ elim h [
          | inl k ↦
              rw e
                (sym (drop-append o p.buffer (contents p.reader) k), inl (omega arith), refl, refl)
          | inr k ↦
              let all = append-nil (drop o p.buffer) ∙ ap (drop o) (sym (append-nil p.buffer)) in
              rw (e, k) (all, inl (omega arith), refl, refl)
        ]
        | inr e ↦ rw e (refl, h, refl, refl)
      ]

  -- With a reader that keeps its contract, from a state that has read up to where it stands, `advance` over bytes that are left leaves exactly
  -- the text behind them, whether it trims the buffer or not, moves the position over them, with a line
  -- for each newline and a column for any other byte, and drops the cached symbol.
  pub advance-view :
      (cs rest : Bytes) (p : Parser r.State)
      → Sound p
      → view r contents law p ≡ cs ++ rest
      → let q = advance r (length cs) p in
        (view r contents law q ≡ rest)
        × (q.pos ≡ moved cs p.pos)
        × (q.next_symbol ≡ invalid)
        × Sound q
  unfolding advance
  advance-view cs rest p h e =
      let start : p.buffer_offset + 0 ≡ p.buffer_offset = omega arith in
      let g = count_chars-Counted cs rest 0 p (rw start h) (rw start e) in
      let q = count_chars r (length cs) 0 p in
      let p' = record q { buffer_offset = q.buffer_offset + length cs; next_symbol = invalid } in
      let end_ : q.buffer_offset + length cs ≡ p.buffer_offset + 0 + length cs =
        omega (arith, g.same_offset) in
      let (v, s, at, none_cached) = trim_opportunity-view p' (rw end_ g.reaches) in
      (
        v
            ∙ rw (g.same_offset, g.kept)
                (drop-prefix p.buffer_offset cs rest (full r contents law p) e),
        at ∙ g.position,
        none_cached,
        s,
      )
