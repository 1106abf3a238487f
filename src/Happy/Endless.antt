-- ===== src/Happy/Endless.antt =====
-- A string literal that is never closed, as Parser::parse_string takes it.
use ian.Prelude.{
  ℕ, zero, suc, ◌+◌, ◌≤◌, ◌≡◌, ◌≢◌, refl, sym, ap, ◌∙◌, false, [], ◌∷◌, Bytes, get_or, ◌==◌,
  Bool-cases, inl, inr, arith,
}
use ian.Happy.Reader.{string, StreamReader, Parser, out_of_fuel, peek_at, M, ◌>>=◌}
use ian.Happy.Lexer.{scan_string, parse_string, expect}
use ian.Happy.View.{Delivers, view, peek_at-view}
use ian.Happy.Strings.{scan_string_plain, scan_string_escaped, bind-ok, expect_cached}

-- A step behind one that does not return.
bind-out_of_fuel :
    {S A B : Type 0} (m : M S A) (f : A → M S B) (p : Parser S)
    → m p ≡ out_of_fuel
    → (m >>= f) p ≡ out_of_fuel
bind-out_of_fuel m f p h = rw (h, ◌>>=◌) refl

behind :
    (delim : ℕ) (rest : Bytes)
    → ((i : ℕ) → get_or rest i 0 ≢ delim)
    → (i : ℕ) → 1 ≤ i
    → get_or (delim ∷ rest) i 0 ≢ delim
behind delim rest h zero k = absurd (omega arith)
behind delim rest h (suc i) k = h i

module _ (r : StreamReader) (contents : r.State → Bytes) (law : Delivers r contents) where
  -- The loop of `parse_string` from an offset behind which there is no delimiter.
  scan_string_endless :
      (fuel delim len : ℕ) (ret : Bytes) (p : Parser r.State)
      → ((i : ℕ) → len ≤ i → get_or (view r contents law p) i 0 ≢ delim)
      → scan_string r fuel delim len ret p ≡ out_of_fuel
  unfolding scan_string
  scan_string_endless zero delim len ret p h = refl
  scan_string_endless (suc f) delim len ret p h =
      let q = (peek_at r len p).1 in
      let (c, kept, _, _) = peek_at-view r contents law len p in
      let (_, kept', _, _) = peek_at-view r contents law (len + 1) q in
      let other : ((peek_at r len p).0 == delim) ≡ false =
        elim (Bool-cases ((peek_at r len p).0 == delim)) [
          | inl e ↦ absurd (h len (omega arith) (sym c ∙ ground arith))
          | inr e ↦ e
        ] in
      elim (Bool-cases ((peek_at r len p).0 == b'\\')) [
        | inl e ↦
            scan_string_escaped r f delim len ret p other e
            ∙ scan_string_endless f delim (len + 2) _ _
                (λ i k. rw (kept', kept) (h i (omega arith)))
        | inr e ↦
            scan_string_plain r f delim len ret p other e
            ∙ scan_string_endless f delim (len + 1) _ _ (λ i k. rw kept (h i (omega arith)))
      ]

  -- With a reader that keeps its contract, where the symbol of a string is cached and the rest of the
  -- input holds no second delimiter, which is not zero, no number of rounds is enough for
  -- `parse_string`: it neither returns nor throws, since it reads zeros behind the end for ever.
  pub parse_string_endless :
      (fuel delim : ℕ) (rest : Bytes) (p : Parser r.State)
      → p.next_symbol ≡ string
      → view r contents law p ≡ delim ∷ rest
      → ((i : ℕ) → get_or rest i 0 ≢ delim)
      → parse_string r fuel p ≡ out_of_fuel
  unfolding parse_string
  parse_string_endless fuel delim rest p cached e h =
      let q = (peek_at r 0 p).1 in
      let (c, kept, _, _) = peek_at-view r contents law 0 p in
      let byte : (peek_at r 0 p).0 ≡ delim = c ∙ ap (λ b. get_or b 0 0) e in
      let endless =
        scan_string_endless fuel delim 1 [] q (λ i k. rw (kept, e) (behind delim rest h i k)) in
      bind-ok (expect r fuel string) _ p (expect_cached r fuel p cached)
      ∙ bind-out_of_fuel (scan_string r fuel (peek_at r 0 p).0 1 []) _ q
          (ap (λ (d : ℕ). scan_string r fuel d 1 [] q) byte ∙ endless)
