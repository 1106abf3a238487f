-- ===== src/Happy/Reader.antt =====
-- The buffered input of the schema parser: the class StreamReader and the members `peek_at`,
-- `trim_opportunity`, `advance` and `skip_whitespace` of Parser in tools/happy/src/Parser.hpp and
-- Parser.cpp. A char is a byte; line and column do not overflow.
use ian.Prelude.{
  ℕ, zero, suc, ◌+◌, ◌-◌, ◌&&◌, ◌||◌, not, ◌++◌, Bytes, length, get_or, drop, ltb, leb, ◌==◌,
  if◌then◌else◌,
}
use ian.Happy.Ast.{DocumentPosition}

pub data Symbol : Type 0 where
  identifier string integer number : Symbol
  namespace_kw include_kw struct_kw mapping_kw encoding_kw delta_kw : Symbol
  colon namespace_sep curly_open curly_close bracket_open bracket_close : Symbol
  eof error invalid : Symbol

-- What an exception says was unexpected: a symbol where another was expected, or in a context.
pub data Reason : Type 0 where
  expected : Symbol → Symbol → Reason
  context : Symbol → Bytes → Reason

-- `undefined` is the overflow of a signed integer. `out_of_fuel` has no counterpart in the program.
pub data Outcome {ℓ} (A : Type ℓ) : Type ℓ where
  ok : A → Outcome A
  throws : DocumentPosition → Reason → Outcome A
  undefined out_of_fuel : Outcome A

-- The abstract class: `read s n` asks for at most `n` bytes in state `s`.
pub record StreamReader : Type 1 where
  pub State : Type 0
  pub read : State → ℕ → Bytes × State

-- The members of Parser. `next_symbol` is `invalid` where no symbol is cached.
pub record Parser (S : Type 0) : Type 0 where
  pub reader : S
  pub pos : DocumentPosition
  pub buffer : Bytes
  pub buffer_offset : ℕ
  pub next_symbol : Symbol

-- A step of the parser on its members.
abbrev pub M : Type 0 → Type 0 → Type 0
M S A = Parser S → Outcome (A × Parser S)

infixl 5 ◌>>=◌ ◌>>◌
abbrev pub ◌>>=◌ : {S A B : Type 0} → M S A → (A → M S B) → M S B
◌>>=◌ m f p = elim (m p) [
  | ok (a, q) ↦ f a q
  | throws at why ↦ throws at why
  | undefined ↦ undefined
  | out_of_fuel ↦ out_of_fuel
]

abbrev pub ◌>>◌ : {S B : Type 0} → M S (Unit {0}) → M S B → M S B
m >> k = m >>= λ _. k

abbrev pub pure : {S A : Type 0} → A → M S A
pure a p = ok (a, p)

abbrev pub give_up : {S A : Type 0} → M S A
give_up p = out_of_fuel

abbrev pub current_position : {S : Type 0} → M S DocumentPosition
current_position p = ok (p.pos, p)

abbrev pub next_column : DocumentPosition → DocumentPosition
next_column at = record at { column = at.column + 1 }

abbrev pub next_line : DocumentPosition → DocumentPosition
next_line at = record at { column = 0; line = at.line + 1 }

unfoldable pub trim_opportunity : {S : Type 0} → Parser S → Parser S
trim_opportunity p =
    if leb 0x4000 p.buffer_offset
    then record p { buffer = drop p.buffer_offset p.buffer; buffer_offset = 0 }
    else p

module _ (r : StreamReader) where
  -- One read of `peek_at`, for the byte at `at`.
  abbrev pub read_more : ℕ → Parser r.State → Parser r.State
  read_more at p =
      let (bytes, s) = r.read p.reader (at + 0x0800 - length p.buffer) in
      record p { reader = s; buffer = p.buffer ++ bytes }

  -- The loop of `peek_at`, with as many rounds as bytes are missing; a read that gives nothing ends it.
  unfoldable pub fill : ℕ → ℕ → Parser r.State → ℕ × Parser r.State
  fill zero at p = (get_or p.buffer at 0, p)
  fill (suc missing) at p =
      let p' = read_more at p in
      let more = fill missing at p' in
      if length p'.buffer == length p.buffer
      then (0, p')
      else if ltb at (length p'.buffer)
      then (get_or p'.buffer at 0, p')
      else more

  unfoldable pub peek_at : ℕ → Parser r.State → ℕ × Parser r.State
  unfolding fill
  peek_at offset p = let at = p.buffer_offset + offset in fill (suc at - length p.buffer) at p

  unfoldable pub count_chars : ℕ → ℕ → Parser r.State → Parser r.State
  unfolding peek_at
  count_chars zero i p = p
  count_chars (suc n) i p =
      let (c, q) = peek_at i p in
      count_chars n (suc i)
        (record q { pos = if c == b'\n' then next_line q.pos else next_column q.pos })

  unfoldable pub advance : ℕ → Parser r.State → Parser r.State
  unfolding count_chars trim_opportunity
  advance offset p =
      let q = count_chars offset 0 p in
      trim_opportunity
        (record q { buffer_offset = q.buffer_offset + offset; next_symbol = invalid })

  -- The bytes of a comment, from its mark up to the end of the line or of the input.
  unfoldable pub skip_comment : ℕ → Parser r.State → Outcome (ℕ × Parser r.State)
  unfolding peek_at
  skip_comment zero p = out_of_fuel
  skip_comment (suc f) p =
      let (c, q) =
        peek_at 0 (record p { pos = next_column p.pos; buffer_offset = p.buffer_offset + 1 }) in
      let more = skip_comment f q in
      if not (c == 0) && not (c == b'\n') && not (c == b'\r') then more else ok (c, q)

  -- The loop of `skip_whitespace`, on the char that was peeked.
  unfoldable pub skip_loop : ℕ → ℕ → Parser r.State → Outcome (Unit {0} × Parser r.State)
  unfolding skip_comment peek_at
  skip_loop zero c p = out_of_fuel
  skip_loop (suc f) c p =
      let comment = (skip_comment f >>= skip_loop f) p in
      let at =
        if c == b' ' || c == b'\t'
        then next_column p.pos
        else if c == b'\n'
        then next_line p.pos
        else p.pos in
      let (c', q) = peek_at 0 (record p { pos = at; buffer_offset = p.buffer_offset + 1 }) in
      let more = skip_loop f c' q in
      if c == b'#'
      then comment
      else if c == b' ' || c == b'\t' || c == b'\n' || c == b'\r'
      then more
      else ok (tt, p)

  unfoldable pub skip_whitespace : ℕ → M r.State (Unit {0})
  unfolding skip_loop trim_opportunity
  skip_whitespace fuel p =
      let (c, q) = peek_at 0 p in (skip_loop fuel c >>= λ u q'. ok (u, trim_opportunity q')) q
