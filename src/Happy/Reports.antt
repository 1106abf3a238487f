-- ===== src/Happy/Reports.antt =====
-- What the schema compiler as a program comes to: tools/happy/src/Main.cpp.
use ian.Prelude.{
  ℕ, zero, suc, ◌<◌, ◌≤◌, ◌+◌, ◌-◌, ◌≡◌, ◌∙◌, refl, ap, false, Option, List, [], ◌∷◌, ◌++◌,
  append_assoc, length-append, take, codes, arith, Bytes, ℤ, length,
}
use ian.Happy.Ast.{AstRoot, DocumentPosition}
use ian.Happy.Reader.{
  eof, Reason, expected, context, Symbol, identifier, string, integer, number, namespace_kw,
  include_kw, struct_kw, mapping_kw, encoding_kw, delta_kw, colon, namespace_sep, curly_open,
  curly_close, bracket_open, bracket_close, error, invalid, Outcome, ok, throws, undefined,
  out_of_fuel, Parser,
}
use ian.Happy.Parser.{parse}
use ian.Happy.Print.{print_root}
use ian.Happy.View.{Delivers, view}
use ian.Happy.Symbols.{symbol_of}
use ian.Happy.Quotes.{code, open_string}
use ian.Happy.Ends.{Told, found}
use ian.Happy.Places.{newlines}
use ian.Happy.Ends.Whole.{Settled, parse-Settled}
use ian.Happy.Main.{
  stdin_name, Stdin, stdin_reader, Ending, exits, overflows, never, diagnostic, ending, main,
  symbol_str, message, what,
}

take_short {ℓ} : {A : Type ℓ} (n : ℕ) (xs : List A) → length xs ≤ n → take n xs ≡ xs
take_short zero [] h = refl
take_short zero (x ∷ xs) h = absurd (omega arith)
take_short (suc n) [] h = refl
take_short (suc n) (x ∷ xs) h = ap (◌∷◌ x) (take_short n xs (omega arith))

take-prefix {ℓ} :
    {A : Type ℓ} (n : ℕ) (xs ys : List A) → take (length xs + n) (xs ++ ys) ≡ xs ++ take n ys
take-prefix n [] ys = let e : 0 + n ≡ n = omega arith in ap (λ (m : ℕ). take m ys) e
take-prefix n (x ∷ xs) ys =
    let e : length (x ∷ xs) + n ≡ suc (length xs + n) = omega arith in
    ap (λ (m : ℕ). take m (x ∷ (xs ++ ys))) e ∙ ap (◌∷◌ x) (take-prefix n xs ys)

take-take {ℓ} : {A : Type ℓ} (n : ℕ) (xs : List A) → take n (take n xs) ≡ take n xs
take-take zero xs = refl
take-take (suc n) [] = refl
take-take (suc n) (x ∷ xs) = ap (◌∷◌ x) (take-take n xs)

symbol_str-short : (s : Symbol) → length (symbol_str s) ≤ 13
unfolding symbol_str
symbol_str-short identifier = omega arith
symbol_str-short string = omega arith
symbol_str-short integer = omega arith
symbol_str-short number = omega arith
symbol_str-short namespace_kw = omega arith
symbol_str-short include_kw = omega arith
symbol_str-short struct_kw = omega arith
symbol_str-short mapping_kw = omega arith
symbol_str-short encoding_kw = omega arith
symbol_str-short delta_kw = omega arith
symbol_str-short colon = omega arith
symbol_str-short namespace_sep = omega arith
symbol_str-short curly_open = omega arith
symbol_str-short curly_close = omega arith
symbol_str-short bracket_open = omega arith
symbol_str-short bracket_close = omega arith
symbol_str-short eof = omega arith
symbol_str-short error = omega arith
symbol_str-short invalid = omega arith

-- What a message says behind the name of the symbol: nothing of it is cut off where a symbol was wanted,
-- and a name of a place is, if there is no room in the buffer.
abbrev pub detail : Reason → Bytes
detail (expected s wanted) = codes ", expected " ++ symbol_str wanted
detail (context s place) = take (1005 - length (symbol_str s)) (codes " in " ++ place)

what-detail :
    (why : Reason) → what why ≡ codes "Unexpected symbol " ++ (symbol_str (found why) ++ detail why)
unfolding message
what-detail (expected s w) =
    let text =
      codes "Unexpected symbol " ++ (symbol_str s ++ (codes ", expected " ++ symbol_str w)) in
    let short : length text ≤ 1023 = omega (
      arith,
      length-append (symbol_str s) (codes ", expected " ++ symbol_str w),
      symbol_str-short s,
      symbol_str-short w,
    ) in
    take-take 1023 text ∙ take_short 1023 text short
what-detail (context s place) =
    let tail = codes " in " ++ place in
    let rest = symbol_str s ++ tail in
    let room : 1005 ≡ length (symbol_str s) + (1005 - length (symbol_str s)) =
      omega (arith, symbol_str-short s) in
    take-take 1023 (codes "Unexpected symbol " ++ rest)
    ∙ ap (λ (t : Bytes). codes "Unexpected symbol " ++ t)
        (ap (λ (n : ℕ). take n rest) room
          ∙ take-prefix (1005 - length (symbol_str s)) (symbol_str s) tail)

module _ (show : Option ℤ → Bytes) (show_place : ℕ → Bytes) (i : Stdin) (contents : i.State → Bytes)
    (law : Delivers (stdin_reader i) contents) (fuel : ℕ) (s : i.State) where
  -- A line of errors, by the text in front of the symbol that it names and the text from the symbol on.
  abbrev pub error_line : Bytes → ℕ → Bytes → Reason → Bytes
  error_line front column rest why =
      codes "<stdin>"
      ++ (b':'
          ∷ (show_place (1 + newlines front)
              ++ (b':'
                  ∷ (show_place column
                      ++ (codes ": Unexpected symbol "
                          ++ (symbol_str (symbol_of rest) ++ (detail why ++ (b'\n' ∷ []))))))))

  -- The tree of the whole input is printed and nothing else, or a line gives the line where a symbol stands
  -- that was unexpected, and its name.
  abbrev pub Reports : Ending → Type 0
  Reports (exits zero out err) =
      (root : AstRoot) × (p : Parser i.State) × (parse (stdin_reader i) fuel stdin_name s
        ≡ ok (root, p))
      × (symbol_of (view (stdin_reader i) contents law p) ≡ eof)
      × (out ≡ print_root show root)
      × (err ≡ [])
  Reports (exits (suc n) out err) =
      (at : DocumentPosition) × (why : Reason) × (front : Bytes) × (rest : Bytes) × (parse
          (stdin_reader i) fuel stdin_name s
        ≡ throws at why)
      × (contents s ≡ front ++ rest)
      × (err ≡ error_line front at.column rest why)
      × (out ≡ [])
      × (n ≡ 0)
  Reports overflows = Unit
  Reports never = ⊥

  diagnostic-error_line :
      (at : DocumentPosition) (why : Reason)
      → (told : Told (stdin_reader i) contents law (contents s) stdin_name at why)
      → diagnostic show show_place at why ≡ error_line told.place.front at.column told.rest why
  diagnostic-error_line at why told =
      let text : what why ++ (b'\n' ∷ [])
          ≡ codes "Unexpected symbol "
            ++ (symbol_str (symbol_of told.rest) ++ (detail why ++ (b'\n' ∷ []))) =
        ap (λ (t : Bytes). t ++ (b'\n' ∷ [])) (what-detail why)
        ∙ ap (λ (t : Bytes). codes "Unexpected symbol " ++ t)
            (append_assoc (symbol_str (found why)) (detail why) (b'\n' ∷ []))
        ∙ ap
            (λ (x : Symbol).
              codes "Unexpected symbol " ++ (symbol_str x ++ (detail why ++ (b'\n' ∷ []))))
            told.named in
      λ j.
        told.place.file j
        ++ (b':'
            ∷ (show_place (told.place.line j)
                ++ (b':' ∷ (show_place at.column ++ (codes ": " ++ text j)))))

  Settled-Reports :
      (x : Outcome (AstRoot × Parser i.State))
      → parse (stdin_reader i) fuel stdin_name s ≡ x
      → Settled (stdin_reader i) contents law (contents s) stdin_name fuel x
      → Reports (ending show show_place x)
  Settled-Reports (ok (root, p)) e (place, at_eof) = (root, p, e, at_eof, refl, refl)
  Settled-Reports (throws at why) e told = (
    at,
    why,
    told.place.front,
    told.rest,
    e,
    told.place.split,
    diagnostic-error_line at why told,
    refl,
    refl,
  )
  Settled-Reports undefined e h = tt
  Settled-Reports out_of_fuel e h = h

  -- Where `fread` gives the input in any pieces, but no bytes at its end only, and every string of the
  -- input is closed, and with as many rounds as it has bytes and one more, the program ends: in the overflow of
  -- an integer; or with code 0, with the tree that is parsed from the input up to its end or its first zero
  -- printed to the output, and no error; or with code 1, nothing printed, and one line of errors: the name of
  -- the input, the number of the line where a symbol stands, a column, and the symbol that stands there as
  -- unexpected, with the symbol that was wanted, which the buffers never cut off, or a place.
  pub main-Reports :
      length (contents s) < fuel
      → open_string code (contents s) ≡ false
      → Reports (main show show_place i fuel s)
  unfolding main
  main-Reports h closed =
      Settled-Reports (parse (stdin_reader i) fuel stdin_name s) refl
        (parse-Settled (stdin_reader i) contents law fuel stdin_name s h closed)
