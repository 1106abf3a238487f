-- ===== src/Happy/Types.antt =====
-- Types of the schema language, printed and parsed again.

use ian.Prelude.{
  ℕ, ◌≤◌, ◌<◌, ◌≡◌, refl, sym, ap, ◌∙◌, Bool, true, false, Option, some, none, [], ◌∷◌, ◌++◌,
  append_assoc, append-nil, All, Bytes, length, length-append, arith, ℤ, pos, codes,
}
use ian.Happy.Ast.{AstQualifiedIdentifier, AstType, DocumentPosition}
use ian.Happy.Reader.{Symbol, bracket_open, bracket_close, StreamReader, Parser, ok, ◌>>=◌, ◌>>◌}
use ian.Happy.Lexer.{
  is_digit, is_letter, is_word, sign, same, peek_symbol, parse_symbol, parse_integer, int64_max,
}
use ian.Happy.Parser.{parse_type, parse_qualified_identifier}
use ian.Happy.Print.{print_qualified_identifier, print_type}
use ian.Happy.View.{Delivers}
use ian.Happy.Blanks.{length-skip_blank}
use ian.Happy.Digits.{AllDigits, decimal}
use ian.Happy.Tokens.{Fresh, Peeks-peeked, Behind, Fresh-Peeks, parse_symbol-Fresh}
use ian.Happy.Words.{IsName}
use ian.Happy.Names.{Ends, Parses, parse_qualified_identifier-print}
use ian.Happy.Integers.{parse_integer-decimal}

module _ (r : StreamReader) (contents : r.State → Bytes) (law : Delivers r contents) where
  -- The steps of `parse_type`.
  parse_type_plain :
      (fuel : ℕ) (name : AstQualifiedIdentifier) (s : Symbol) (p q q' : Parser r.State)
      → parse_qualified_identifier r fuel p ≡ ok (name, q)
      → peek_symbol r fuel q ≡ ok (s, q')
      → same s bracket_open ≡ false
      → parse_type r fuel p
        ≡ ok (record { identifier = name; is_array = false; array_size = none }, q')
  unfolding parse_type
  parse_type_plain fuel name s p q q' h g e = rw (h, g, e, parse_type, ◌>>=◌) refl

  parse_type_array :
      (fuel : ℕ) (name : AstQualifiedIdentifier) (size : ℤ) (p q q' q₁ q₂ q₃ : Parser r.State)
      → parse_qualified_identifier r fuel p ≡ ok (name, q)
      → peek_symbol r fuel q ≡ ok (bracket_open, q')
      → parse_symbol r fuel bracket_open q' ≡ ok (tt, q₁)
      → parse_integer r fuel q₁ ≡ ok (size, q₂)
      → parse_symbol r fuel bracket_close q₂ ≡ ok (tt, q₃)
      → parse_type r fuel p
        ≡ ok (record { identifier = name; is_array = true; array_size = some size }, q₃)
  unfolding parse_type
  parse_type_array fuel name size p q q' q₁ q₂ q₃ h g a b c =
      rw (h, g, a, b, c, parse_type, ◌>>=◌, ◌>>◌) refl

  -- How the size of an array is printed: by the digits of a number within an int64_t.
  abbrev pub PrintsSize : (Option ℤ → Bytes) → Bool → Option ℤ → Type 0
  PrintsSize show false size = size ≡ none
  PrintsSize show true size =
      (d : ℕ) × (ds : Bytes) × AllDigits (d ∷ ds)
      × (decimal 0 (d ∷ ds) ≤ int64_max)
      × (size ≡ some (pos (decimal 0 (d ∷ ds))))
      × (show size ≡ d ∷ ds)

  -- Behind the name of an array.
  bracket-Ends :
      (fuel : ℕ) (w : Bytes) → Ends r contents law fuel bracket_open (b'[' ∷ w) (b'[' ∷ w)
  bracket-Ends fuel w = record {
    ends_word = unfold is_word is_letter is_digit in refl;
    behind = λ at. refl;
    symbol = unfold is_digit sign in refl;
    no_dot = refl;
    valid = refl;
  }

  -- The brackets of an array and its size.
  brackets-Fresh :
      (id : AstQualifiedIdentifier) (d : ℕ) (ds w rest : Bytes) (fuel : ℕ) (p : Parser r.State)
      → All IsName id.space
      → IsName id.name
      → AllDigits (d ∷ ds)
      → decimal 0 (d ∷ ds) ≤ int64_max
      → Fresh r contents law w p
      → Behind r contents law w
          (print_qualified_identifier id ++ (b'[' ∷ d ∷ (ds ++ (b']' ∷ rest))))
      → length w < fuel
      → (q : Parser r.State) × (parse_type r fuel p
          ≡ ok (
            record {
              identifier = id;
              is_array = true;
              array_size = some (pos (decimal 0 (d ∷ ds)));
            },
            q,
          ))
        × Fresh r contents law rest q
  brackets-Fresh id d ds w rest fuel p all n digits fits fresh b k =
      let tail = d ∷ (ds ++ (b']' ∷ rest)) in
      let bound : length (b'[' ∷ tail) < fuel = omega (
        arith,
        ap length (b p.pos),
        length-skip_blank false w p.pos,
        length-append (print_qualified_identifier id) (b'[' ∷ tail),
      ) in
      let (q, run, x) =
        parse_qualified_identifier-print r contents law id w (b'[' ∷ tail) (b'[' ∷ tail)
          bracket_open fuel p all n (bracket-Ends fuel tail) fresh b k in
      let (q₁, run₁, fresh₁) =
        parse_symbol-Fresh r contents law fuel bracket_open (b'[' ∷ []) tail x.peeked
          (Peeks-peeked r contents law fuel bracket_open _ q x) refl in
      let (q₂, run₂, fresh₂) =
        parse_integer-decimal r contents law d ds rest fuel q₁ digits fits fresh₁ (omega arith) in
      let y =
        Fresh-Peeks r contents law fuel bracket_close (b']' ∷ rest) (b']' ∷ rest) q₂ fresh₂
          (omega (arith, length-append ds (b']' ∷ rest))) (λ at. refl)
          (unfold is_digit sign in refl) refl in
      let (q₃, run₃, fresh₃) =
        parse_symbol-Fresh r contents law fuel bracket_close (b']' ∷ []) rest q₂ y refl in
      (q₃, parse_type_array fuel id _ p q x.peeked q₁ q₂ q₃ run x.peeks run₁ run₂ run₃, fresh₃)

  rest_shorter :
      (name : Bytes) (d : ℕ) (ds rest w : Bytes) (fuel : ℕ) (p : Parser r.State)
      → Behind r contents law w (name ++ (b'[' ∷ d ∷ (ds ++ (b']' ∷ rest))))
      → length w < fuel
      → length rest < fuel
  rest_shorter name d ds rest w fuel p b k = omega (
    arith,
    ap length (b p.pos),
    length-skip_blank false w p.pos,
    length-append name (b'[' ∷ d ∷ (ds ++ (b']' ∷ rest))),
    length-append ds (b']' ∷ rest),
  )

  -- With a reader that keeps its contract: where, behind blanks and comments, a type stands as it is
  -- printed, of names that are no keywords, with the size of an array as digits of a number within an
  -- int64_t, and behind it a text that goes on with no word char and whose next symbol `s` is neither a dot
  -- nor an opening bracket, `parse_type` returns the type and leaves `s` as the next symbol, if given more
  -- rounds than there are bytes left.
  pub parse_type-print :
      (show : Option ℤ → Bytes) (type : AstType) (w rest v : Bytes) (s : Symbol) (fuel : ℕ)
      (p : Parser r.State)
      → All IsName type.identifier.space
      → IsName type.identifier.name
      → PrintsSize show type.is_array type.array_size
      → Ends r contents law fuel s rest v
      → same s bracket_open ≡ false
      → Fresh r contents law w p
      → Behind r contents law w (print_type show type ++ rest)
      → length w < fuel
      → Parses r contents law fuel s v type (parse_type r fuel p)
  parse_type-print show type w rest v s fuel p all n size e no_bracket fresh b k =
      go type.is_array type.array_size size b
    where
      go :
          (is_array : Bool) (array_size : Option ℤ)
          → PrintsSize show is_array array_size
          → Behind r contents law w (
              print_type show (record {
                identifier = type.identifier;
                is_array = is_array;
                array_size = array_size;
              })
              ++ rest)
          → Parses r contents law fuel s v
              (record {
                identifier = type.identifier;
                is_array = is_array;
                array_size = array_size;
              })
              (parse_type r fuel p)
      go false size plain b =
          let text = append-nil (print_qualified_identifier type.identifier) in
          let (q, run, x) =
            parse_qualified_identifier-print r contents law type.identifier w rest v s fuel p all n
              e fresh (λ at. b at ∙ ap (λ t. t ++ rest) text) k in
          (
            x.peeked,
            parse_type_plain fuel type.identifier s p q x.peeked run x.peeks no_bracket
                ∙ ap
                    (λ z. ok (
                      record { identifier = type.identifier; is_array = false; array_size = z },
                      x.peeked,
                    ))
                    (sym plain),
            Peeks-peeked r contents law fuel s v q x,
          )
      go true size (d, ds, digits, fits, same_size, shown) b =
          let name = print_qualified_identifier type.identifier in
          let text : (name ++ (b'[' ∷ (show size ++ codes "]"))) ++ rest
              ≡ name ++ (b'[' ∷ d ∷ (ds ++ (b']' ∷ rest))) =
            append_assoc name (b'[' ∷ (show size ++ codes "]")) rest
            ∙ ap (λ t. name ++ (b'[' ∷ ((t ++ codes "]") ++ rest))) shown
            ∙ ap (λ t. name ++ (b'[' ∷ d ∷ t)) (append_assoc ds (codes "]") rest) in
          let behind = λ (at : DocumentPosition). b at ∙ text in
          let (q, run, fresh') =
            brackets-Fresh type.identifier d ds w rest fuel p all n digits fits fresh behind k in
          let x =
            Fresh-Peeks r contents law fuel s rest v q fresh'
              (rest_shorter name d ds rest w fuel p behind k) e.behind e.symbol e.valid in
          (
            q,
            run
                ∙ ap
                    (λ z.
                      ok (
                        record { identifier = type.identifier; is_array = true; array_size = z },
                        q,
                      ))
                    (sym same_size),
            x,
          )
