-- ===== src/Happy/Number.antt =====
-- `Parser::parse_number` of tools/happy/src/Parser.cpp, which nothing calls. The arithmetic of double is
-- an interface; the offsets do not overflow an int.
use ian.Prelude.{ℕ, zero, suc, ◌+◌, ◌-◌, true, false, ◌||◌, ◌==◌, if◌then◌else◌, ℤ, pos}
use ian.Happy.Reader.{integer, number, StreamReader, M, ◌>>=◌, ◌>>◌, pure, give_up}
use ian.Happy.Lexer.{is_digit, same, peek, peek_symbol, expect, skip, parse_integer}

-- The operations on double that the code uses, and its constant 0.1.
pub record Doubles : Type 1 where
  pub Number : Type 0
  pub of_int : ℤ → Number
  pub add : Number → Number → Number
  pub mul : Number → Number → Number
  pub neg : Number → Number
  pub tenth : Number

module _ (D : Doubles) where
  open D use {Number, of_int, add, mul, neg, tenth}

  -- A digit in front of the dot, and one behind it.
  abbrev pub add_digit : Number → ℕ → Number
  add_digit ret c = add (mul ret (of_int (pos 10))) (of_int (pos (c - b'0')))

  abbrev pub add_fraction : Number → Number → ℕ → Number
  add_fraction ret fract c =
      if c == b'0' then ret else add ret (mul (of_int (pos (c - b'0'))) fract)

  module _ (r : StreamReader) where
    -- The two loops, on the digits from offset `len` on.
    unfoldable pub scan_whole : ℕ → ℕ → Number → M r.State (Number × ℕ)
    scan_whole zero len ret = give_up
    scan_whole (suc f) len ret = do
      c ← peek r len
      elim (is_digit c) [
        | false ↦ pure (ret, len)
        | true ↦ scan_whole f (len + 1) (add_digit ret c)
      ]

    unfoldable pub scan_fraction : ℕ → ℕ → Number → Number → M r.State (Number × ℕ)
    scan_fraction zero len ret fract = give_up
    scan_fraction (suc f) len ret fract = do
      c ← peek r len
      elim (is_digit c) [
        | false ↦ pure (ret, len)
        | true ↦ scan_fraction f (len + 1) (add_fraction ret fract c) (mul fract tenth)
      ]

    unfoldable pub parse_number : ℕ → M r.State Number
    unfolding scan_whole scan_fraction
    parse_number fuel = do
      s ← peek_symbol r fuel
      elim (same s integer) [
        | true ↦ do n ← parse_integer r fuel; pure (of_int n)
        | false ↦ do
          expect r fuel number
          c ← peek r 0
          w ← scan_whole fuel (if c == b'-' || c == b'+' then 1 else 0) (of_int (pos 0))
          d ← scan_fraction fuel (w.1 + 1) w.0 tenth
          skip r d.1
          pure (if c == b'-' then neg d.0 else d.0)
      ]
