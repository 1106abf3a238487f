-- ===== src/Happy/Ends/Tests.antt =====
-- The parser on a document that it reads to its end, and where quotes open strings.
use ian.Prelude.{◌≡◌, refl, true, false, codes, arith}
use ian.Happy.Parser.{parse}
use ian.Happy.Quotes.{code, open_string}
use ian.Happy.Samples.{text_reader, remaining, text_reader-Delivers, sample}
use ian.Happy.Ends.Whole.{Settled, parse-Settled}

parse-Settled_example :
    Settled text_reader remaining text_reader-Delivers sample
      (codes "f")
      200
      (parse text_reader 200 (codes "f") sample)
parse-Settled_example =
    parse-Settled text_reader remaining text_reader-Delivers 200 (codes "f") sample (omega arith)
      refl

-- A quote within a comment, in a string of the other kind or behind a backslash opens nothing.
closed_quotes : open_string code (codes "INCLUDE 'a\"\\'b' # it's\n") ≡ false
closed_quotes = refl

open_quote : open_string code (codes "INCLUDE 'a") ≡ true
open_quote = refl
