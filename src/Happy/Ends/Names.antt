-- ===== src/Happy/Ends/Names.antt =====
-- `parse_identifier` of Parser ends.
use ian.Prelude.{ℕ, suc, ◌+◌, ◌≤◌, ◌≡◌, refl, [], Bytes, length, arith}
use ian.Happy.Reader.{identifier, StreamReader, Parser, ◌>>=◌, ◌>>◌}
use ian.Happy.Lexer.{parse_identifier}
use ian.Happy.View.{Delivers, Filled, view}
use ian.Happy.Advance.{Filled-Reaches}
use ian.Happy.Strings.{Filled-view}
use ian.Happy.Symbols.{word_of, scan_word-word_of}
use ian.Happy.Fronts.{name-Front}
use ian.Happy.Ends.{At, Takes}
use ian.Happy.Ends.Symbols.{refused, met, expect-Expected, advance-At}

module _ (r : StreamReader) (contents : r.State → Bytes) (law : Delivers r contents)
    (text filename : Bytes) where
  pub Filled-At :
      {d k : ℕ} (p q : Parser r.State)
      → Filled r contents law p q
      → At r contents law text filename d k p
      → At r contents law text filename d k q
  Filled-At p q x a =
      let left = Filled-view r contents law x in
      let symbol = x.same_symbol in
      let pos = x.same_pos in
      let o = x.same_offset in
      record {
        sound = rw o (Filled-Reaches r contents law p.buffer_offset p q x a.sound);
        cached = rw (left, symbol) a.cached;
        closed = rw left a.closed;
        place = rw (left, pos) a.place;
        size = rw left a.size;
        bound = a.bound;
      }

  pub parse_identifier-Takes :
      (fuel d : ℕ) → d ≤ fuel → Takes r contents law text filename d (parse_identifier r fuel)
  unfolding parse_identifier
  parse_identifier-Takes fuel d h = record {
    takes = λ k p a.
        elim (expect-Expected r contents law text filename fuel d (suc k) identifier p h a) [
          | refused at why run told ↦ rw (run, parse_identifier, ◌>>◌, ◌>>=◌) told
          | met q run b e ↦
              let v = view r contents law q in
              let (f, some_) = name-Front v e in
              let (q', run', x) =
                scan_word-word_of r contents law v fuel 0 [] q refl
                  (omega (arith, b.size, b.bound)) in
              let n : 0 + length (word_of v) ≡ length (word_of v) = omega arith in
              let left = Filled-view r contents law x in
              rw (run, run', n, ◌>>◌, ◌>>=◌)
                (advance-At r contents law text filename q' (Filled-At q q' x b) (rw left f) some_)
        ];
  }
