-- ===== src/Happy/Main.antt =====
-- The schema compiler as a program: tools/happy/src/Main.cpp, with the messages of `unexpected` in
-- Parser.cpp and of ParseException in Parser.hpp.
-- `fread` is a parameter; a stream that fails is left out. How a stream writes a number is a parameter too.
use ian.Prelude.{ℕ, Option, [], ◌∷◌, ◌++◌, Bytes, ℤ, codes, take}
use ian.Happy.Ast.{AstRoot, DocumentPosition}
use ian.Happy.Reader.{
  Symbol, identifier, string, integer, number, namespace_kw, include_kw, struct_kw, mapping_kw,
  encoding_kw, delta_kw, colon, namespace_sep, curly_open, curly_close, bracket_open, bracket_close,
  eof, error, invalid, Reason, expected, context, Outcome, ok, throws, undefined, out_of_fuel,
  StreamReader, Parser,
}
use ian.Happy.Parser.{parse}
use ian.Happy.Print.{print_root}

unfoldable pub symbol_str : Symbol → Bytes
symbol_str identifier = codes "identifier"
symbol_str string = codes "string"
symbol_str integer = codes "integer"
symbol_str number = codes "number"
symbol_str namespace_kw = codes "namespace_kw"
symbol_str include_kw = codes "include_kw"
symbol_str struct_kw = codes "struct_kw"
symbol_str mapping_kw = codes "mapping_kw"
symbol_str encoding_kw = codes "encoding_kw"
symbol_str delta_kw = codes "delta_kw"
symbol_str colon = codes "colon"
symbol_str namespace_sep = codes "namespace_sep"
symbol_str curly_open = codes "curly_open"
symbol_str curly_close = codes "curly_close"
symbol_str bracket_open = codes "bracket_open"
symbol_str bracket_close = codes "bracket_close"
symbol_str eof = codes "eof"
symbol_str error = codes "error"
symbol_str invalid = codes "???"

-- What `snprintf` leaves in the buffer of 1024 bytes of `unexpected`.
unfoldable pub message : Reason → Bytes
unfolding symbol_str
message (expected s wanted) =
    take 1023
      (codes "Unexpected symbol " ++ (symbol_str s ++ (codes ", expected " ++ symbol_str wanted)))
message (context s place) =
    take 1023 (codes "Unexpected symbol " ++ (symbol_str s ++ (codes " in " ++ place)))

-- ParseException copies as much again.
abbrev pub what : Reason → Bytes
what why = take 1023 (message why)

abbrev pub stdin_name : Bytes
stdin_name = codes "<stdin>"

-- How the program ends: with a code and what it wrote to both streams, in an overflow, or never.
pub data Ending : Type 0 where
  exits : ℕ → Bytes → Bytes → Ending
  overflows never : Ending

-- `fread` on the standard input, in a state of it.
pub record Stdin : Type 1 where
  pub State : Type 0
  pub fread : State → ℕ → Bytes × State

abbrev pub stdin_reader : Stdin → StreamReader
stdin_reader i = record { State = i.State; read = i.fread }

module _ (show : Option ℤ → Bytes) (show_place : ℕ → Bytes) where
  abbrev pub diagnostic : DocumentPosition → Reason → Bytes
  diagnostic at why =
      at.file
      ++ (b':'
          ∷ (show_place at.line
              ++ (b':' ∷ (show_place at.column ++ (codes ": " ++ (what why ++ (b'\n' ∷ [])))))))

  abbrev pub ending : {S : Type 0} → Outcome (AstRoot × Parser S) → Ending
  ending (ok (root, p)) = exits 0 (print_root show root) []
  ending (throws at why) = exits 1 [] (diagnostic at why)
  ending undefined = overflows
  ending out_of_fuel = never

  unfoldable pub main : (i : Stdin) → ℕ → i.State → Ending
  unfolding parse message
  main i fuel s = ending (parse (stdin_reader i) fuel stdin_name s)
