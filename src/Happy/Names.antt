-- ===== src/Happy/Names.antt =====
-- Qualified identifiers, printed and parsed again.

use ian.Prelude.{
  ℕ, zero, suc, ◌≤◌, ◌<◌, ◌≡◌, refl, ap, ◌∙◌, false, List, [], ◌∷◌, ◌++◌, append_assoc, Bytes,
  length, length-append, arith, All,
}
use ian.Happy.Ast.{AstQualifiedIdentifier}
use ian.Happy.Reader.{
  Symbol, identifier, namespace_sep, invalid, StreamReader, Parser, Outcome, ok, ◌>>=◌, ◌>>◌,
}
use ian.Happy.Lexer.{
  is_digit, is_letter, is_word, sign, same, peek_symbol, parse_symbol, parse_identifier,
}
use ian.Happy.Parser.{qualify, parse_qualified_identifier}
use ian.Happy.View.{Delivers}
use ian.Happy.Print.{print_spaces, print_qualified_identifier}
use ian.Happy.Strings.{bind-ok}
use ian.Happy.Blanks.{length-skip_blank}
use ian.Happy.Symbols.{symbol_of}
use ian.Happy.Tokens.{
  Fresh, Peeks, Peeks-peeked, Behind, Fresh-Peeks, parse_symbol-Fresh, parse_identifier-Fresh,
}
use ian.Happy.Words.{
  IsName, EndsWord, IsName-word_of, IsName-symbol_of, IsName-skip_blank, IsName-length,
}

module _ (r : StreamReader) (contents : r.State → Bytes) (law : Delivers r contents) where
  -- A name that comes next is parsed.
  name-Fresh :
      (fuel : ℕ) (w name rest : Bytes) (p : Parser r.State)
      → Fresh r contents law w p
      → Behind r contents law w (name ++ rest)
      → IsName name
      → EndsWord rest
      → length w < fuel
      → (q : Parser r.State) × (parse_identifier r fuel p ≡ ok (name, q))
        × Fresh r contents law rest q
  name-Fresh fuel w name rest p f b n e k =
      parse_identifier-Fresh r contents law fuel name rest p
        (Fresh-Peeks r contents law fuel identifier w (name ++ rest) p f k b
          (IsName-symbol_of name rest n e) refl)
        (IsName-word_of name rest n e)
        (omega (arith, ap length (b p.pos), length-skip_blank false w p.pos))

  -- The two rounds of the loop.
  qualify_end :
      (f fuel : ℕ) (space : List Bytes) (tmp : Bytes) (s : Symbol) (p q : Parser r.State)
      → peek_symbol r fuel p ≡ ok (s, q)
      → same s namespace_sep ≡ false
      → qualify r (suc f) fuel space tmp p ≡ ok (record { space = space; name = tmp }, q)
  unfolding qualify
  qualify_end f fuel space tmp s p q h e = rw (h, e, qualify, ◌>>=◌) refl

  qualify_on :
      (f fuel : ℕ) (space : List Bytes) (tmp next : Bytes) (p q q' q'' : Parser r.State)
      → peek_symbol r fuel p ≡ ok (namespace_sep, q)
      → parse_symbol r fuel namespace_sep q ≡ ok (tt, q')
      → parse_identifier r fuel q' ≡ ok (next, q'')
      → qualify r (suc f) fuel space tmp p ≡ qualify r f fuel (space ++ tmp ∷ []) next q''
  unfolding qualify
  qualify_on f fuel space tmp next p q q' q'' h g k = rw (h, g, k, qualify, ◌>>=◌, ◌>>◌) refl

  -- What comes behind a qualified identifier: `s` is the next symbol, and no word char stands there.
  pub record Ends (fuel : ℕ) (s : Symbol) (rest v : Bytes) : Type 0 where
    pub ends_word : EndsWord rest
    pub behind : Behind r contents law rest v
    pub symbol : symbol_of v ≡ s
    pub no_dot : same s namespace_sep ≡ false
    pub valid : same s invalid ≡ false

  -- What parses to `a` and leaves `s` as the next symbol.
  abbrev pub Parses : {A : Type 0} → ℕ → Symbol → Bytes → A → Outcome (A × Parser r.State) → Type 0
  Parses fuel s v a result =
      (q : Parser r.State) × (result ≡ ok (a, q)) × Peeks r contents law fuel s v q

  qualify_rest :
      (f fuel : ℕ) (space : List Bytes) (tmp : Bytes) (s : Symbol) (rest v : Bytes)
      (p : Parser r.State)
      → Ends fuel s rest v
      → 0 < f
      → Fresh r contents law rest p
      → length rest < fuel
      → Parses fuel s v (record { space = space; name = tmp }) (qualify r f fuel space tmp p)
  qualify_rest zero fuel space tmp s rest v p e h fresh k = absurd (omega arith)
  qualify_rest (suc f) fuel space tmp s rest v p e h fresh k =
      let x = Fresh-Peeks r contents law fuel s rest v p fresh k e.behind e.symbol e.valid in
      (
        x.peeked,
        qualify_end f fuel space tmp s p x.peeked x.peeks e.no_dot,
        Peeks-peeked r contents law fuel s v p x,
      )

  -- A dot and a name.
  qualify_dot :
      (next rest : Bytes) (f fuel : ℕ) (space : List Bytes) (tmp : Bytes) (p : Parser r.State)
      → IsName next
      → EndsWord rest
      → Fresh r contents law (b'.' ∷ (next ++ rest)) p
      → suc (length (next ++ rest)) < fuel
      → (q : Parser r.State) × (qualify r (suc f) fuel space tmp p
          ≡ qualify r f fuel (space ++ tmp ∷ []) next q)
        × Fresh r contents law rest q
  qualify_dot next rest f fuel space tmp p n e fresh k =
      let dot =
        Fresh-Peeks r contents law fuel namespace_sep _ (b'.' ∷ (next ++ rest)) p fresh k
          (λ at. refl) (unfold sign is_digit in refl) refl in
      let (q', run', fresh') =
        parse_symbol-Fresh r contents law fuel namespace_sep (b'.' ∷ []) (next ++ rest) dot.peeked
          (Peeks-peeked r contents law fuel namespace_sep _ p dot) refl in
      let (q'', run'', fresh'') =
        name-Fresh fuel (next ++ rest) next rest q' fresh' (IsName-skip_blank next rest n) n e
          (omega arith) in
      (q'', qualify_on f fuel space tmp next p dot.peeked q' q'' dot.peeks run' run'', fresh'')

  -- The text behind the first name of a qualified identifier.
  abbrev more : List Bytes → Bytes → Bytes → Bytes
  more [] name rest = name ++ rest
  more (x ∷ xs) name rest = x ++ (b'.' ∷ more xs name rest)

  print_spaces-append :
      (xs : List Bytes) (name rest : Bytes) → print_spaces xs name ++ rest ≡ more xs name rest
  print_spaces-append [] name rest = refl
  print_spaces-append (x ∷ xs) name rest =
      append_assoc x (b'.' ∷ print_spaces xs name) rest
      ∙ ap (λ t. x ++ (b'.' ∷ t)) (print_spaces-append xs name rest)

  length-more :
      (xs : List Bytes) (name rest : Bytes)
      → All IsName xs
      → IsName name
      → suc (length xs) ≤ length (more xs name rest)
  length-more [] name rest all n = omega (arith, IsName-length name n, length-append name rest)
  length-more (x ∷ xs) name rest (x', all) n =
      omega (arith, length-more xs name rest all n, length-append x (b'.' ∷ more xs name rest))

  qualify-more :
      (xs : List Bytes) (name rest v : Bytes) (s : Symbol) (f fuel : ℕ) (space : List Bytes)
      (tmp : Bytes) (p : Parser r.State)
      → All IsName xs
      → IsName name
      → Ends fuel s rest v
      → Fresh r contents law (b'.' ∷ more xs name rest) p
      → suc (length xs) < f
      → suc (length (more xs name rest)) < fuel
      → Parses fuel s v
          (record { space = space ++ tmp ∷ xs; name = name })
          (qualify r f fuel space tmp p)
  qualify-more xs name rest v s zero fuel space tmp p all n e fresh h k = absurd (omega arith)
  qualify-more [] name rest v s (suc zero) fuel space tmp p all n e fresh h k = absurd (omega arith)
  qualify-more [] name rest v s (suc (suc f)) fuel space tmp p all n e fresh h k =
      let (q, run, fresh') = qualify_dot name rest (suc f) fuel space tmp p n e.ends_word fresh k in
      let (z, run', x) =
        qualify_rest (suc f) fuel (space ++ tmp ∷ []) name s rest v q e (omega arith) fresh'
          (omega (arith, length-append name rest)) in
      (z, run ∙ run', x)
  qualify-more (y ∷ ys) name rest v s (suc f) fuel space tmp p (y', all) n e fresh h k =
      let (q, run, fresh') =
        qualify_dot y (b'.' ∷ more ys name rest) f fuel space tmp p y'
          (unfold is_word is_letter is_digit in refl) fresh k in
      let (z, run', x) =
        qualify-more ys name rest v s f fuel (space ++ tmp ∷ []) y q all n e fresh' (omega arith)
          (omega (arith, length-append y (b'.' ∷ more ys name rest))) in
      (
        z,
        run
            ∙ run'
            ∙ ap (λ (l : List Bytes). ok (record { space = l; name = name }, z))
                (append_assoc space (tmp ∷ []) (y ∷ ys)),
        x,
      )

  -- With a reader that keeps its contract: where, behind blanks and comments, a qualified identifier stands as
  -- it is printed, of names that are no keywords, and behind it a text that goes on with no word char and whose next symbol `s` is no
  -- dot, `parse_qualified_identifier` returns the identifier and leaves `s` as the next symbol, if given
  -- more rounds than there are bytes left.
  pub parse_qualified_identifier-print :
      (id : AstQualifiedIdentifier) (w rest v : Bytes) (s : Symbol) (fuel : ℕ) (p : Parser r.State)
      → All IsName id.space
      → IsName id.name
      → Ends fuel s rest v
      → Fresh r contents law w p
      → Behind r contents law w (print_qualified_identifier id ++ rest)
      → length w < fuel
      → Parses fuel s v id (parse_qualified_identifier r fuel p)
  unfolding parse_qualified_identifier
  parse_qualified_identifier-print id w rest v s fuel p all n e fresh b k =
      go id.space id.name all n (λ at. b at ∙ same_text)
    where
      same_text : print_qualified_identifier id ++ rest ≡ more id.space id.name rest
      same_text = print_spaces-append id.space id.name rest

      go :
          (space : List Bytes) (name : Bytes)
          → All IsName space
          → IsName name
          → Behind r contents law w (more space name rest)
          → Parses fuel s v
              (record { space = space; name = name })
              (parse_qualified_identifier r fuel p)
      go [] name all n b =
          let shorter : length (name ++ rest) < fuel =
            omega (arith, ap length (b p.pos), length-skip_blank false w p.pos) in
          let (q, run, fresh') = name-Fresh fuel w name rest p fresh b n e.ends_word k in
          let (z, run', x) =
            qualify_rest fuel fuel [] name s rest v q e (omega arith) fresh'
              (omega (arith, length-append name rest)) in
          (z, bind-ok (parse_identifier r fuel) (qualify r fuel fuel []) p run ∙ run', x)
      go (y ∷ ys) name (y', all) n b =
          let shorter : length (more (y ∷ ys) name rest) < fuel =
            omega (arith, ap length (b p.pos), length-skip_blank false w p.pos) in
          let (q, run, fresh') =
            name-Fresh fuel w y (b'.' ∷ more ys name rest) p fresh b y'
              (unfold is_word is_letter is_digit in refl) k in
          let (z, run', x) =
            qualify-more ys name rest v s fuel fuel [] y q all n e fresh'
              (omega (
                arith,
                length-more ys name rest all n,
                length-append y (b'.' ∷ more ys name rest),
                IsName-length y y',
              ))
              (omega (arith, length-append y (b'.' ∷ more ys name rest), IsName-length y y')) in
          (z, bind-ok (parse_identifier r fuel) (qualify r fuel fuel []) p run ∙ run', x)
