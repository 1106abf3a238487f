-- ===== src/Happy/MainTests.antt =====
-- Runs of the schema compiler as a program.
use ian.Prelude.{ℕ, ◌+◌, ◌≡◌, refl, Option, [], ◌∷◌, Bytes, ℤ, codes, arith}
use ian.Happy.Lexer.{peek_symbol, parse_symbol, parse_identifier, parse_string}
use ian.Happy.Main.{Stdin, exits, never, main}
use ian.Happy.Reports.{Reports, main-Reports}
use ian.Happy.Samples.{text_reader, remaining, text_reader-Delivers, sample}

abbrev input : Stdin
input = record { State = Bytes; fread = text_reader.read }

abbrev no_size : Option ℤ → Bytes
no_size n = []

-- For numbers below ten.
abbrev digit : ℕ → Bytes
digit n = (b'0' + n) ∷ []

main-Reports_example :
    Reports no_size digit input remaining text_reader-Delivers 200 sample
      (main no_size digit input 200 sample)
main-Reports_example =
    main-Reports no_size digit input remaining text_reader-Delivers 200 sample (omega arith) refl

reports_line :
    main no_size digit input 30 (codes "STRUCT S\n{ a 5 }")
    ≡ exits 1 [] (codes "<stdin>:2:4: Unexpected symbol integer, expected colon\n")
unfolding main peek_symbol parse_symbol parse_identifier parse_string
reports_line = refl

prints_include :
    main no_size digit input 30 (codes "INCLUDE 'a'") ≡ exits 0 (codes "INCLUDE 'a'\n") []
unfolding main peek_symbol parse_symbol parse_identifier parse_string
prints_include = refl

-- The quote is never closed.
runs_on : main no_size digit input 30 (codes "INCLUDE 'a") ≡ never
unfolding main peek_symbol parse_symbol parse_identifier parse_string
runs_on = refl
