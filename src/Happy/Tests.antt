-- ===== src/Happy/Tests.antt =====
-- Runs of the schema parser on small documents.
use ian.Prelude.{
  true, some, codes, ℕ, ◌*◌, Option, ℤ, pos, negsuc, ◌+◌, false, zero, suc, ◌≡◌, ◌≢◌, refl, [], ◌∷◌,
  ◌++◌, Bytes, get_or, inl, inr, arith,
}
use ian.Happy.Reader.{
  identifier, throws, context, Parser, Outcome, peek_at, string, invalid, ok, out_of_fuel,
}
use ian.Happy.Ast.{AstRoot, AstStructField, AstType, AstQualifiedIdentifier, DocumentPosition}
use ian.Happy.Symbols.{peek_symbol-symbol_of}
use ian.Happy.Names.{Parses}
use ian.Happy.Number.{Doubles, parse_number}
use ian.Happy.Literals.{minus}
use ian.Happy.Values.{Exact, parse_number-value}
use ian.Happy.Tokens.{Fresh, Fresh-Peeks}
use ian.Happy.Fields.{parse_struct_field-print}
use ian.Happy.Printed.{print_root-throws}
use ian.Happy.Parser.{new_parser, parse, parse_struct_field}
use ian.Happy.Advance.{moved, Sound}
use ian.Happy.Strings.{literal, parse_string-literal}
use ian.Happy.Endless.{parse_string_endless}
use ian.Happy.Lexer.{
  parse_string, is_digit, is_letter, is_word, sign, keyword, peek_symbol, scan_digits,
}
use ian.Happy.Digits.{Scanned, scan_digits-decimal}
use ian.Happy.View.{view, peek_at-view}
use ian.Happy.Samples.{text_reader, remaining, text_reader-Delivers, sample}

abbrev run_sample : Outcome (AstRoot × Parser Bytes)
run_sample = parse text_reader 200 (codes "f") sample

-- The byte behind two reads of the buffer.
peek_at-view_example :
    let p = new_parser text_reader (codes "f") sample in
    let q = (peek_at text_reader 10 p).1 in
    ((peek_at text_reader 10 p).0 ≡ get_or (view text_reader remaining text_reader-Delivers p) 10 0)
    × (view text_reader remaining text_reader-Delivers q
        ≡ view text_reader remaining text_reader-Delivers p)
    × (q.pos ≡ p.pos)
    × (q.next_symbol ≡ p.next_symbol)
peek_at-view_example =
    peek_at-view text_reader remaining text_reader-Delivers 10
      (new_parser text_reader (codes "f") sample)

-- A parser on a text, with the symbol of a string cached.
abbrev at_string : Bytes → Parser Bytes
at_string text = record (new_parser text_reader (codes "f") text) { next_symbol = string }

-- A quote, and a literal with an escaped quote in it, which two reads deliver.
abbrev quoted : Parser Bytes
quoted = at_string (b'\'' ∷ (literal b'\'' (codes "it's a text") ++ codes " b"))

parse_string-literal_example :
    (q : Parser Bytes) × (parse_string text_reader 12 quoted ≡ ok (codes "it's a text", q))
    × (view text_reader remaining text_reader-Delivers q ≡ codes " b")
    × (q.pos ≡ moved (b'\'' ∷ literal b'\'' (codes "it's a text")) quoted.pos)
    × (q.next_symbol ≡ invalid)
    × Sound text_reader remaining text_reader-Delivers q
parse_string-literal_example =
    parse_string-literal text_reader remaining text_reader-Delivers (codes "it's a text")
      (codes " b") 12 b'\'' quoted (inl refl) (inl (omega arith)) refl refl (omega arith)

never_closed : (i : ℕ) → get_or (codes "ab") i 0 ≢ b'\''
never_closed zero e = omega arith
never_closed (suc zero) e = omega arith
never_closed (suc (suc i)) e = omega arith

parse_string_endless_example :
    parse_string text_reader 1000 (at_string (b'\'' ∷ codes "ab")) ≡ out_of_fuel
parse_string_endless_example =
    parse_string_endless text_reader remaining text_reader-Delivers 1000 b'\'' (codes "ab")
      (at_string (b'\'' ∷ codes "ab")) refl refl never_closed

-- The size of an array, up to its bracket.
abbrev at_size : Parser Bytes
at_size = new_parser text_reader (codes "f") (codes "120" ++ codes "]")

scan_digits-decimal_example :
    Scanned text_reader remaining text_reader-Delivers false 120
      (0 + 3)
      at_size
      (scan_digits text_reader 4 0 0 at_size)
unfolding is_digit
scan_digits-decimal_example =
    scan_digits-decimal text_reader remaining text_reader-Delivers (codes "120") (codes "]") 4 0 0
      at_size (refl, (refl, (refl, tt))) refl refl (omega arith) (omega arith)

-- A line of blanks and a comment in front of a name.
abbrev commented : Parser Bytes
commented = new_parser text_reader (codes "f") (codes " \t# x\n  ab.c d")

peek_symbol-symbol_of_example :
    (q : Parser Bytes) × (peek_symbol text_reader 20 commented ≡ ok (identifier, q))
    × (view text_reader remaining text_reader-Delivers q ≡ codes "ab.c d")
    × (q.pos ≡ record { file = codes "f"; line = 2; column = 2 })
    × (q.next_symbol ≡ identifier)
    × Sound text_reader remaining text_reader-Delivers q
unfolding is_letter is_word is_digit sign keyword
peek_symbol-symbol_of_example =
    peek_symbol-symbol_of text_reader remaining text_reader-Delivers 20 commented
      (inl (omega arith)) refl (omega arith)

abbrev abc : AstQualifiedIdentifier
abc = record { space = codes "ab" ∷ []; name = codes "c" }

abbrev no_number : Option ℤ → Bytes
no_number n = []

abbrev one_struct : AstRoot
one_struct =
    let at : DocumentPosition = record { file = []; line = 1; column = 0 } in
    record {
      origin = at;
      includes = [];
      space = abc;
      struct_decls = record { origin = at; identifier = codes "s"; fields = [] } ∷ [];
      map_decls = [];
      enco_decls = [];
    }

print_root-throws_example :
    (at : DocumentPosition) × (parse text_reader 40
        (codes "f")
        (codes "NAMESPACE ab.c\nDATA s\n{\n}\n")
      ≡ throws at (context identifier (codes "document")))
unfolding is_letter is_word is_digit sign keyword
print_root-throws_example =
    print_root-throws text_reader remaining text_reader-Delivers no_number one_struct
      (record {
        origin = record { file = []; line = 1; column = 0 };
        identifier = codes "s";
        fields = [];
      })
      [] 40 (codes "f") (codes "NAMESPACE ab.c\nDATA s\n{\n}\n") refl refl
      (inr (((refl, (refl, tt), refl), tt), (refl, tt, refl))) refl (omega arith)

-- An arithmetic on which a run computes.
abbrev counted : Doubles
counted = record {
  Number = ℕ;
  of_int = λ z. elim z [ pos n ↦ n | negsuc n ↦ 0 ];
  add = λ a b. a + b;
  mul = λ a b. a * b;
  neg = λ a. a;
  tenth = 2;
}

abbrev at_number : Parser Bytes
at_number = new_parser text_reader (codes "f") (codes " -12.5]")

counted-Exact : Exact counted
counted-Exact = record { add_exact = λ a b h. refl; mul_exact = λ a b h. refl }

parse_number-value_example :
    (q : Parser Bytes) × (parse_number counted text_reader 20 at_number ≡ ok (22, q))
    × Fresh text_reader remaining text_reader-Delivers (codes "]") q
unfolding is_digit
parse_number-value_example =
    parse_number-value counted text_reader remaining text_reader-Delivers (codes "-") (codes "12")
      (codes "5") (codes " -12.5]") (codes "]") 20 at_number counted-Exact minus (refl, (refl, tt))
      (refl, tt) (omega arith) refl
      (record { sound = inl (omega arith); left = refl; none_cached = refl }) (λ at. refl)
      (omega arith)

abbrev twelve : Option ℤ → Bytes
twelve n = codes "12"

abbrev abc_array : AstType
abc_array = record { identifier = abc; is_array = true; array_size = some (pos 12) }

abbrev at_type : Parser Bytes
at_type = new_parser text_reader (codes "f") (codes " ab.c[12] d")

abbrev one_field : AstStructField
one_field = record {
  origin = record { file = codes "f"; line = 1; column = 0 };
  identifier = codes "n";
  field_type = abc_array;
}

abbrev at_field : Parser Bytes
at_field = new_parser text_reader (codes "f") (codes "n: ab.c[12] d")

parse_struct_field-print_example :
    Parses text_reader remaining text_reader-Delivers 20 identifier
      (codes "d")
      one_field
      (parse_struct_field text_reader 20 at_field)
unfolding is_letter is_word is_digit sign keyword
parse_struct_field-print_example =
    parse_struct_field-print text_reader remaining text_reader-Delivers twelve one_field
      (codes " d") (codes "d") identifier 20 at_field (refl, tt, refl)
      ((refl, (refl, tt), refl), tt) (refl, tt, refl)
      (b'1', codes "2", (refl, (refl, tt)), omega arith, refl, refl)
      (record { ends_word = refl; behind = λ at. refl; symbol = refl; no_dot = refl; valid = refl })
      refl
      (Fresh-Peeks text_reader remaining text_reader-Delivers 20 identifier (codes "n: ab.c[12] d")
        (codes "n: ab.c[12] d") at_field
        (record { sound = inl (omega arith); left = refl; none_cached = refl }) (omega arith)
        (λ at. refl) refl refl)
      (omega arith)
