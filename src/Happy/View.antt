-- ===== src/Happy/View.antt =====
-- The buffer of the schema parser against the text that its reader delivers.
use ian.Prelude.{
  ℕ, zero, suc, ◌+◌, ◌-◌, ◌≤◌, ◌<◌, ◌≡◌, refl, sym, ap, ◌∙◌, List, [], ◌∷◌, ◌++◌, append-nil,
  append_assoc, Bytes, length, get_or, drop, length-append, ltb, ◌==◌, Bool-cases, inl, inr, arith,
}
use ian.Happy.Reader.{StreamReader, Parser, read_more, fill, peek_at}

-- The contract of a StreamReader, with what each state of it is still to deliver: at most as many bytes
-- as asked for, and none at the end only.
pub record Delivers (r : StreamReader) (contents : r.State → Bytes) : Type 0 where
  pub delivers : (s : r.State) (n : ℕ) → contents s ≡ (r.read s n).0 ++ contents (r.read s n).1
  pub at_most : (s : r.State) (n : ℕ) → length (r.read s n).0 ≤ n
  pub at_end : (s : r.State) (n : ℕ) → 0 < n → (r.read s n).0 ≡ [] → contents s ≡ []

module _ {ℓ} {A : Type ℓ} where
  get_or-append :
      (xs ys : List A) (i : ℕ) (d : A) → i < length xs → get_or (xs ++ ys) i d ≡ get_or xs i d
  get_or-append [] ys i d h = absurd (omega arith)
  get_or-append (x ∷ xs) ys zero d h = refl
  get_or-append (x ∷ xs) ys (suc i) d h = get_or-append xs ys i d (omega arith)

  get_or-beyond : (xs : List A) (i : ℕ) (d : A) → length xs ≤ i → get_or xs i d ≡ d
  get_or-beyond [] i d h = refl
  get_or-beyond (x ∷ xs) zero d h = absurd (omega arith)
  get_or-beyond (x ∷ xs) (suc i) d h = get_or-beyond xs i d (omega arith)

  pub get_or-drop :
      (k : ℕ) (xs : List A) (i : ℕ) (d : A) → get_or (drop k xs) i d ≡ get_or xs (k + i) d
  get_or-drop zero xs i d = let e : i ≡ zero + i = omega arith in ap (λ (n : ℕ). get_or xs n d) e
  get_or-drop (suc k) [] i d = refl
  get_or-drop (suc k) (x ∷ xs) i d =
      let e : suc (k + i) ≡ suc k + i = omega arith in
      get_or-drop k xs i d ∙ ap (λ (n : ℕ). get_or (x ∷ xs) n d) e

pub drop-cons :
    (n : ℕ) (xs ys : Bytes) (c : ℕ)
    → drop n xs ≡ c ∷ ys
    → (get_or xs n 0 ≡ c) × (drop (n + 1) xs ≡ ys)
drop-cons zero [] ys c h = cc
drop-cons zero (x ∷ xs) ys c h = (cc, cc)
drop-cons (suc n) [] ys c h = cc
drop-cons (suc n) (x ∷ xs) ys c h =
    let (a, b) = drop-cons n xs ys c h in
    let e : suc n + 1 ≡ suc (n + 1) = omega arith in (a, ap (λ (k : ℕ). drop k (x ∷ xs)) e ∙ b)

pub length-zero : (xs : Bytes) → length xs ≡ 0 → xs ≡ []
length-zero [] h = refl
length-zero (x ∷ xs) h = absurd (omega arith)

module _ (r : StreamReader) (contents : r.State → Bytes) (law : Delivers r contents) where
  -- All that was read and not trimmed, and all that is to come.
  abbrev pub full : Parser r.State → Bytes
  full p = p.buffer ++ contents p.reader

  -- `q` is `p` with more of the input in its buffer.
  pub record Filled (p q : Parser r.State) : Type 0 where
    pub kept : full q ≡ full p
    pub grown : length p.buffer ≤ length q.buffer
    pub same_offset : q.buffer_offset ≡ p.buffer_offset
    pub same_pos : q.pos ≡ p.pos
    pub same_symbol : q.next_symbol ≡ p.next_symbol

  pub read_more-Filled : (at : ℕ) (p : Parser r.State) → Filled p (read_more r at p)
  read_more-Filled at p =
      let n = at + 0x0800 - length p.buffer in
      record {
        kept =
            append_assoc p.buffer (r.read p.reader n).0 (contents (r.read p.reader n).1)
            ∙ ap (λ b. p.buffer ++ b) (sym (law.delivers p.reader n));
        grown = omega (arith, length-append p.buffer (r.read p.reader n).0);
        same_offset = refl;
        same_pos = refl;
        same_symbol = refl;
      }

  pub Filled-trans : {p q s : Parser r.State} → Filled p q → Filled q s → Filled p s
  Filled-trans f g = record {
    kept = g.kept ∙ f.kept;
    grown = omega (arith, f.grown, g.grown);
    same_offset = g.same_offset ∙ f.same_offset;
    same_pos = g.same_pos ∙ f.same_pos;
    same_symbol = g.same_symbol ∙ f.same_symbol;
  }

  -- A read that adds nothing is at the end of the text.
  read_more_end :
      (at : ℕ) (p : Parser r.State)
      → length p.buffer ≤ at
      → length (read_more r at p).buffer ≡ length p.buffer
      → get_or (full p) at 0 ≡ 0
  read_more_end at p k e =
      let n = at + 0x0800 - length p.buffer in
      let nothing : (r.read p.reader n).0 ≡ [] =
        length-zero (r.read p.reader n).0
          (omega (arith, e, length-append p.buffer (r.read p.reader n).0)) in
      let done = law.at_end p.reader n (omega arith) nothing in
      get_or-beyond (full p) at 0 (rw (done, append-nil p.buffer) k)

  pub fill-Filled :
      (missing at : ℕ) (p : Parser r.State)
      → suc at ≤ length p.buffer + missing
      → (0 < missing → length p.buffer ≤ at)
      → ((fill r missing at p).0 ≡ get_or (full p) at 0) × Filled p (fill r missing at p).1
  unfolding fill
  fill-Filled zero at p h k = (
    sym (get_or-append p.buffer (contents p.reader) at 0 (omega arith)),
    record {
      kept = refl;
      grown = omega arith;
      same_offset = refl;
      same_pos = refl;
      same_symbol = refl;
    },
  )
  fill-Filled (suc missing) at p h k =
      let q = read_more r at p in
      let f = read_more-Filled at p in
      elim (Bool-cases (length q.buffer == length p.buffer)) [
        | inl none_left ↦
            rw none_left (sym (read_more_end at p (k (omega arith)) (ground arith)), f)
        | inr more ↦ elim (Bool-cases (ltb at (length q.buffer))) [
          | inl enough ↦
              rw (more, enough)
                (
                  sym (get_or-append q.buffer (contents q.reader) at 0 (ground arith))
                      ∙ ap (λ b. get_or b at 0) f.kept,
                  f,
                )
          | inr short ↦
              let g = fill-Filled missing at q (ground arith) (λ _. ground arith) in
              rw (more, short) (g.0 ∙ ap (λ b. get_or b at 0) f.kept, Filled-trans f g.1)
        ]
      ]

  -- What the parser is still to read.
  abbrev pub view : Parser r.State → Bytes
  view p = drop p.buffer_offset (full p)

  -- Whatever chunks a reader delivers by its contract, `peek_at` returns the byte at an offset
  -- into the text that is left, and 0 behind its end, and changes nothing but the buffer: the text that
  -- is left, the position and the cached symbol stay.
  pub peek_at-view :
      (offset : ℕ) (p : Parser r.State)
      → let q = (peek_at r offset p).1 in
        ((peek_at r offset p).0 ≡ get_or (view p) offset 0)
        × (view q ≡ view p)
        × (q.pos ≡ p.pos)
        × (q.next_symbol ≡ p.next_symbol)
  unfolding peek_at
  peek_at-view offset p =
      let at = p.buffer_offset + offset in
      let f = fill-Filled (suc at - length p.buffer) at p (omega arith) (λ h. omega arith) in
      (
        f.0 ∙ sym (get_or-drop p.buffer_offset (full p) offset 0),
        rw (f.1.same_offset, f.1.kept),
        f.1.same_pos,
        f.1.same_symbol,
      )
