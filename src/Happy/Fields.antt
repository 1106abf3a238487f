-- ===== src/Happy/Fields.antt =====
-- The fields of a structure of the schema language, printed and parsed again.
use ian.Prelude.{
  ℕ, ◌+◌, ◌<◌, ◌≡◌, refl, sym, ap, ◌∙◌, false, Option, [], ◌∷◌, ◌++◌, append_assoc, All, Bytes,
  length, length-append, if◌then◌else◌, arith, ℤ, codes,
}
use ian.Happy.Ast.{AstType, AstStructField, DocumentPosition}
use ian.Happy.Reader.{
  Symbol, identifier, colon, bracket_open, next_column, StreamReader, Parser, ok, ◌>>=◌, ◌>>◌,
}
use ian.Happy.Lexer.{is_digit, is_letter, is_word, sign, same, parse_symbol, parse_identifier}
use ian.Happy.Parser.{parse_type, parse_struct_field}
use ian.Happy.Print.{print_qualified_identifier, print_type, print_struct_field}
use ian.Happy.View.{Delivers}
use ian.Happy.Blanks.{skip_blank}
use ian.Happy.Words.{IsName, IsName-word_of, print_spaces-skip_blank}
use ian.Happy.Tokens.{Peeks, Fresh-Peeks, parse_symbol-Fresh, parse_identifier-Fresh}
use ian.Happy.Names.{Ends, Parses}
use ian.Happy.Types.{PrintsSize, parse_type-print}

-- No blank stands in front of a printed type.
print_type-skip_blank :
    (show : Option ℤ → Bytes) (type : AstType) (rest : Bytes) (at : DocumentPosition)
    → All IsName type.identifier.space
    → IsName type.identifier.name
    → (skip_blank false (print_type show type ++ rest) at).0 ≡ print_type show type ++ rest
print_type-skip_blank show type rest at all n =
    let name = print_qualified_identifier type.identifier in
    let e =
      append_assoc name (if type.is_array then b'[' ∷ (show type.array_size ++ codes "]") else [])
        rest in
    ap (λ t. (skip_blank false t at).0) e
    ∙ print_spaces-skip_blank type.identifier.space type.identifier.name _ at all n
    ∙ sym e

module _ (r : StreamReader) (contents : r.State → Bytes) (law : Delivers r contents) where
  parse_struct_field_steps :
      (fuel : ℕ) (name : Bytes) (type : AstType) (p q q' q'' : Parser r.State)
      → parse_identifier r fuel p ≡ ok (name, q)
      → parse_symbol r fuel colon q ≡ ok (tt, q')
      → parse_type r fuel q' ≡ ok (type, q'')
      → parse_struct_field r fuel p
        ≡ ok (record { origin = p.pos; identifier = name; field_type = type }, q'')
  unfolding parse_struct_field
  parse_struct_field_steps fuel name type p q q' q'' h g k =
      rw (h, g, k, parse_struct_field, ◌>>=◌, ◌>>◌) refl

  -- With a reader that keeps its contract: where a field comes next as it is printed, of names that are no
  -- keywords, with the size of an array as digits of a number within an int64_t, and behind it a text that
  -- goes on with no word char and whose next symbol `s` is neither a dot nor an opening bracket,
  -- `parse_struct_field` returns the field, with the position where the parser stands as its origin, and
  -- leaves `s` as the next symbol, if given more rounds than there are bytes left.
  pub parse_struct_field-print :
      (show : Option ℤ → Bytes) (field : AstStructField) (rest v : Bytes) (s : Symbol) (fuel : ℕ)
      (p : Parser r.State)
      → IsName field.identifier
      → All IsName field.field_type.identifier.space
      → IsName field.field_type.identifier.name
      → PrintsSize r contents law show field.field_type.is_array field.field_type.array_size
      → Ends r contents law fuel s rest v
      → same s bracket_open ≡ false
      → Peeks r contents law fuel identifier (print_struct_field show field ++ rest) p
      → length (print_struct_field show field ++ rest) < fuel
      → Parses r contents law fuel s v
          (record field { origin = p.pos })
          (parse_struct_field r fuel p)
  parse_struct_field-print show field rest v s fuel p i all n size e no_bracket k h =
      let name = field.identifier in
      let tail = print_type show field.field_type ++ rest in
      let text : print_struct_field show field ++ rest ≡ name ++ (b':' ∷ b' ' ∷ tail) =
        append_assoc name (codes ": " ++ print_type show field.field_type) rest in
      let shorter : length name + length (b':' ∷ b' ' ∷ tail) < fuel =
        omega (arith, ap length text, length-append name (b':' ∷ b' ' ∷ tail)) in
      let (q, run, fresh) =
        parse_identifier-Fresh r contents law fuel name (b':' ∷ b' ' ∷ tail) p
          (record {
            peeked = k.peeked;
            peeks = k.peeks;
            again = k.again;
            left = k.left ∙ text;
            sound = k.sound;
          })
          (IsName-word_of name (b':' ∷ b' ' ∷ tail) i (unfold is_word is_letter is_digit in refl))
          (omega (arith, length-append name (b':' ∷ b' ' ∷ tail))) in
      let x =
        Fresh-Peeks r contents law fuel colon _ (b':' ∷ b' ' ∷ tail) q fresh (omega arith)
          (λ at. refl) (unfold is_digit sign in refl) refl in
      let (q', run', fresh') =
        parse_symbol-Fresh r contents law fuel colon (b':' ∷ []) (b' ' ∷ tail) q x refl in
      let (q'', run'', y) =
        parse_type-print r contents law show field.field_type (b' ' ∷ tail) rest v s fuel q' all n
          size e no_bracket fresh'
          (λ at. print_type-skip_blank show field.field_type rest (next_column at) all n)
          (omega arith) in
      (q'', parse_struct_field_steps fuel name field.field_type p q q' q'' run run' run'', y)
