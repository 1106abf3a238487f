-- ===== src/Happy/Lexer.antt =====
-- The symbols of the schema language: `peek_symbol`, `expect`, `unexpected`, `parse_symbol` and the
-- members of Parser that read one symbol, in tools/happy/src/Parser.cpp. `fuel` bounds the rounds of
-- every loop; the offsets do not overflow an int here. `parse_number` is in Happy/Number.
use ian.Prelude.{
  codes, ℕ, zero, suc, ◌+◌, ◌-◌, ◌*◌, ◌^◌, Bool, true, false, ◌&&◌, ◌||◌, not, [], ◌∷◌, ◌++◌, Bytes,
  leb, ltb, ◌==◌, if◌then◌else◌, ℤ, pos, negsuc,
}
use ian.Happy.Reader.{
  Symbol, identifier, string, integer, number, namespace_kw, include_kw, struct_kw, mapping_kw,
  encoding_kw, delta_kw, colon, namespace_sep, curly_open, curly_close, bracket_open, bracket_close,
  eof, error, invalid, expected, context, ok, throws, undefined, StreamReader, M, ◌>>=◌, ◌>>◌, pure,
  give_up, trim_opportunity, peek_at, advance, skip_whitespace,
}

abbrev pub within : ℕ → ℕ → ℕ → Bool
within lo hi c = leb lo c && leb c hi

unfoldable pub is_digit : ℕ → Bool
is_digit c = within b'0' b'9' c

unfoldable pub is_letter : ℕ → Bool
is_letter c = within b'a' b'z' c || within b'A' b'Z' c

unfoldable pub is_word : ℕ → Bool
unfolding is_letter is_digit
is_word c = is_letter c || is_digit c || c == b'_'

abbrev pub equal : Bytes → Bytes → Bool
equal [] [] = true
equal (x ∷ xs) (y ∷ ys) = x == y && equal xs ys
equal _ _ = false

unfoldable pub keyword : Bytes → Symbol
keyword word =
    if equal word (codes "NAMESPACE")
    then namespace_kw
    else if equal word (codes "INCLUDE")
    then include_kw
    else if equal word (codes "STRUCT")
    then struct_kw
    else if equal word (codes "MAPPING")
    then mapping_kw
    else if equal word (codes "ENCODING")
    then encoding_kw
    else if equal word (codes "DELTA")
    then delta_kw
    else identifier

-- The signs; `invalid` for a char that is none.
unfoldable pub sign : ℕ → Symbol
sign c =
    if c == b':'
    then colon
    else if c == b'.'
    then namespace_sep
    else if c == b'{'
    then curly_open
    else if c == b'}'
    then curly_close
    else if c == b'['
    then bracket_open
    else if c == b']'
    then bracket_close
    else invalid

-- `==` on symbols, by their place in the enum.
abbrev pub ordinal : Symbol → ℕ
ordinal identifier = 0
ordinal string = 1
ordinal integer = 2
ordinal number = 3
ordinal namespace_kw = 4
ordinal include_kw = 5
ordinal struct_kw = 6
ordinal mapping_kw = 7
ordinal encoding_kw = 8
ordinal delta_kw = 9
ordinal colon = 10
ordinal namespace_sep = 11
ordinal curly_open = 12
ordinal curly_close = 13
ordinal bracket_open = 14
ordinal bracket_close = 15
ordinal eof = 16
ordinal error = 17
ordinal invalid = 18

abbrev pub same : Symbol → Symbol → Bool
same a b = ordinal a == ordinal b

-- The length of a sign or a keyword; 0 for any other symbol, which `parse_symbol` is never given.
abbrev pub symbol_length : Symbol → ℕ
symbol_length namespace_kw = 9
symbol_length include_kw = 7
symbol_length struct_kw = 6
symbol_length mapping_kw = 7
symbol_length encoding_kw = 8
symbol_length delta_kw = 5
symbol_length colon = 1
symbol_length namespace_sep = 1
symbol_length curly_open = 1
symbol_length curly_close = 1
symbol_length bracket_open = 1
symbol_length bracket_close = 1
symbol_length _ = 0

-- INT64_MAX
abbrev pub int64_max : ℕ
int64_max = 2 ^ 63 - 1

module _ (r : StreamReader) where
  abbrev pub peek : ℕ → M r.State ℕ
  peek offset p = ok (peek_at r offset p)

  -- Integer or number: on to the first char that is no digit.
  unfoldable pub scan_number : ℕ → ℕ → M r.State Symbol
  unfolding peek_at is_digit
  scan_number zero off = give_up
  scan_number (suc f) off = do
    c ← peek off
    elim (is_digit c || c == b'.') [
      | true ↦ elim (c == b'.') [ true ↦ pure number | false ↦ scan_number f (off + 1) ]
      | false ↦ pure integer
    ]

  -- The chars of a word from `off` on, behind those in `word`, and the offset of its end.
  unfoldable pub scan_word : ℕ → ℕ → Bytes → M r.State (Bytes × ℕ)
  unfolding peek_at is_word
  scan_word zero off word = give_up
  scan_word (suc f) off word = do
    c ← peek off
    elim (is_word c) [ true ↦ scan_word f (off + 1) (word ++ c ∷ []) | false ↦ pure (word, off) ]

  -- The symbol that begins with char `c`.
  unfoldable pub classify : ℕ → ℕ → M r.State Symbol
  unfolding scan_number scan_word is_digit is_letter sign keyword
  classify fuel c =
      if c == 0
      then pure eof
      else if is_digit c || c == b'-' || c == b'+'
      then scan_number fuel 1
      else if not (same (sign c) invalid)
      then pure (sign c)
      else if c == b'\'' || c == b'"'
      then pure string
      else if is_letter c
      then (scan_word fuel 1 (c ∷ []) >>= λ w. pure (keyword w.0))
      else pure error

  -- The symbol is cached until the next `advance`.
  unfoldable pub peek_symbol : ℕ → M r.State Symbol
  unfolding skip_whitespace classify
  peek_symbol fuel p =
      let fresh =
        (do
          skip_whitespace r fuel
          c ← peek 0
          s ← classify fuel c
          λ q. ok (s, record q { next_symbol = s }))
          p in
      if not (same p.next_symbol invalid) then ok (p.next_symbol, p) else fresh

  unfoldable pub unexpected_symbol : {A : Type 0} → ℕ → Symbol → M r.State A
  unfolding peek_symbol
  unexpected_symbol fuel wanted = do s ← peek_symbol fuel; λ p. throws p.pos (expected s wanted)

  unfoldable pub unexpected_in : {A : Type 0} → ℕ → Bytes → M r.State A
  unfolding peek_symbol
  unexpected_in fuel place = do s ← peek_symbol fuel; λ p. throws p.pos (context s place)

  unfoldable pub expect : ℕ → Symbol → M r.State (Unit {0})
  unfolding peek_symbol unexpected_symbol
  expect fuel wanted = do
    s ← peek_symbol fuel
    if same s wanted then pure tt else unexpected_symbol fuel wanted

  -- `advance` as a step.
  abbrev pub skip : ℕ → M r.State (Unit {0})
  skip n p = ok (tt, advance r n p)

  unfoldable pub parse_symbol : ℕ → Symbol → M r.State (Unit {0})
  unfolding expect advance trim_opportunity
  parse_symbol fuel symbol = do
    expect fuel symbol
    skip (symbol_length symbol)
    λ p. ok (tt, trim_opportunity p)

  unfoldable pub parse_identifier : ℕ → M r.State Bytes
  unfolding expect scan_word advance
  parse_identifier fuel = do expect fuel identifier; w ← scan_word fuel 0 []; skip w.1; pure w.0

  -- The char that an escape stands for.
  abbrev pub unescape : ℕ → ℕ
  unescape c = if c == b'n' then b'\n' else if c == b't' then b'\t' else if c == b'0' then 0 else c

  -- The chars of a string from offset `len` on, behind those in `ret`, and the offset behind it.
  unfoldable pub scan_string : ℕ → ℕ → ℕ → Bytes → M r.State (Bytes × ℕ)
  unfolding peek_at
  scan_string zero delim len ret = give_up
  scan_string (suc f) delim len ret = do
    c ← peek len
    elim (c == delim) [
      | true ↦ pure (ret, len + 1)
      | false ↦ elim (c == b'\\') [
        | true ↦ do e ← peek (len + 1); scan_string f delim (len + 2) (ret ++ unescape e ∷ [])
        | false ↦ scan_string f delim (len + 1) (ret ++ c ∷ [])
      ]
    ]

  unfoldable pub parse_string : ℕ → M r.State Bytes
  unfolding expect scan_string advance
  parse_string fuel = do
    expect fuel string
    delim ← peek 0
    s ← scan_string fuel delim 1 []
    skip s.1
    pure s.0

  -- The digits from offset `len` on, behind the value `ret`; an int64_t that overflows is undefined.
  unfoldable pub scan_digits : ℕ → ℕ → ℕ → M r.State (ℕ × ℕ)
  unfolding peek_at is_digit
  scan_digits zero len ret = give_up
  scan_digits (suc f) len ret = do
    c ← peek len
    elim (is_digit c) [
      | false ↦ pure (ret, len)
      | true ↦
          let value = ret * 10 + (c - b'0') in
          elim (ltb int64_max value) [
            | true ↦ λ p. undefined
            | false ↦ scan_digits f (len + 1) value
          ]
    ]

  abbrev pub signed : Bool → ℕ → ℤ
  signed negative zero = pos 0
  signed true (suc n) = negsuc n
  signed false n = pos n

  unfoldable pub parse_integer : ℕ → M r.State ℤ
  unfolding expect scan_digits advance
  parse_integer fuel = do
    expect fuel integer
    c ← peek 0
    d ← scan_digits fuel (if c == b'-' || c == b'+' then 1 else 0) 0
    skip d.1
    pure (signed (c == b'-') d.0)
