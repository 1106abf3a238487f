-- ===== src/Happy/Values.antt =====
-- The values of the literals that Parser::parse_number takes, apart from how it goes through them.
use ian.Prelude.{
  ℕ, zero, suc, ◌+◌, ◌-◌, ◌*◌, ◌<◌, ◌≤◌, ◌≡◌, refl, ap, ◌∙◌, Bool, true, false, [], ◌∷◌, Bytes,
  length, get_or, ◌==◌, if◌then◌else◌, arith, pos,
}
use ian.Happy.Reader.{StreamReader, Parser, ok}
use ian.Happy.Lexer.{is_digit}
use ian.Happy.Number.{Doubles, add_digit, parse_number}
use ian.Happy.View.{Delivers}
use ian.Happy.Digits.{AllDigits, decimal, le-decimal}
use ian.Happy.Tokens.{Fresh, Behind}
use ian.Happy.Scans.{whole, fraction}
use ian.Happy.Literals.{Lead, number_text, literal_value, parse_number-literal}

-- A double holds each integer up to 2^53.
abbrev pub exact_limit : ℕ
exact_limit = 9007199254740992

abbrev pub digit_of : ℕ → ℕ
digit_of c = c - 48

module _ (D : Doubles) where
  open D use {Number, of_int, add, mul, neg, tenth}

  -- The arithmetic of double is exact on the natural numbers up to 2^53.
  pub record Exact : Type 0 where
    pub add_exact :
        (a b : ℕ)
        → a + b ≤ exact_limit
        → add (of_int (pos a)) (of_int (pos b)) ≡ of_int (pos (a + b))
    pub mul_exact :
        (a b : ℕ)
        → a * b ≤ exact_limit
        → mul (of_int (pos a)) (of_int (pos b)) ≡ of_int (pos (a * b))

  -- The weight of the digit at a place behind the dot, from 0 on.
  abbrev pub weight : ℕ → Number
  weight zero = tenth
  weight (suc k) = mul (weight k) tenth

  -- The digits from the place `k` behind the dot on, each with its weight, on top of `n`; a 0 adds nothing.
  abbrev pub with_tenths : Number → ℕ → Bytes → Number
  with_tenths n k [] = n
  with_tenths n k (c ∷ cs) =
      with_tenths
        (if digit_of c == 0 then n else add n (mul (of_int (pos (digit_of c))) (weight k))) (suc k)
        cs

  abbrev pub number_value : Bool → Bytes → Bytes → Number
  number_value negative ds es =
      let n = with_tenths (of_int (pos (decimal 0 ds))) 0 es in if negative then neg n else n

  whole-decimal :
      (x : Exact) (ds : Bytes) (n : ℕ)
      → decimal n ds ≤ exact_limit
      → whole D (of_int (pos n)) ds ≡ of_int (pos (decimal n ds))
  whole-decimal x [] n h = refl
  whole-decimal x (c ∷ cs) n h =
      let small : n * 10 + (c - 48) ≤ exact_limit =
        omega (arith, h, le-decimal (n * 10 + (c - 48)) cs) in
      let step : add_digit D (of_int (pos n)) c ≡ of_int (pos (n * 10 + (c - 48))) =
        ap (λ m. add m (of_int (pos (c - 48)))) (x.mul_exact n 10 (omega arith))
        ∙ x.add_exact (n * 10) (c - 48) small in
      ap (λ m. whole D m cs) step ∙ whole-decimal x cs (n * 10 + (c - 48)) h

  digit-zero : (c : ℕ) → is_digit c ≡ true → (c == 48) ≡ (digit_of c == 0)
  unfolding is_digit
  digit-zero c h = ground arith

  fraction-with_tenths :
      (es : Bytes) (n : Number) (k : ℕ)
      → AllDigits es
      → fraction D n (weight k) es ≡ with_tenths n k es
  fraction-with_tenths [] n k all = refl
  fraction-with_tenths (c ∷ cs) n k (d, all) =
      ap
        (λ (b : Bool).
          fraction D (if b then n else add n (mul (of_int (pos (digit_of c))) (weight k)))
            (weight (suc k)) cs)
        (digit-zero c d)
      ∙ fraction-with_tenths cs _ (suc k) all

  module _ (r : StreamReader) (contents : r.State → Bytes) (law : Delivers r contents) where
    literal_value-number_value :
        (lead ds es : Bytes)
        → Exact
        → AllDigits es
        → decimal 0 ds ≤ exact_limit
        → literal_value D r contents law lead ds es ≡ number_value (get_or lead 0 0 == b'-') ds es
    literal_value-number_value lead ds es x all h =
        ap (λ (n : Number). if get_or lead 0 0 == b'-' then neg n else n)
          (ap (λ (m : Number). fraction D m tenth es) (whole-decimal x ds 0 h)
            ∙ fraction-with_tenths es (of_int (pos (decimal 0 ds))) 0 all)

    -- With a reader that keeps its contract and an arithmetic of double that is exact on the natural numbers up
    -- to 2^53: where, behind blanks and comments, the literal of a number with a dot stands, with a sign or
    -- a digit in front, digits in front of the dot whose decimal value is 2^53 at most, and behind it no
    -- digit, `parse_number` returns this value, plus each digit but 0 behind the dot times the power
    -- of 0.1 of its place, in their order, negated behind a minus, and leaves exactly the text behind it, if
    -- given more rounds than there are bytes left.
    pub parse_number-value :
        (lead ds es w rest : Bytes) (fuel : ℕ) (p : Parser r.State)
        → Exact
        → Lead D r contents law lead ds
        → AllDigits ds
        → AllDigits es
        → decimal 0 ds ≤ exact_limit
        → is_digit (get_or rest 0 0) ≡ false
        → Fresh r contents law w p
        → Behind r contents law w (number_text D r contents law lead ds es rest)
        → length w < fuel
        → (q : Parser r.State) × (parse_number D r fuel p
            ≡ ok (number_value (get_or lead 0 0 == b'-') ds es, q))
          × Fresh r contents law rest q
    parse_number-value lead ds es w rest fuel p x l all all' small stop fresh behind h =
        let (q, run, after) =
          parse_number-literal D r contents law lead ds es w rest fuel p l all all' stop fresh
            behind h in
        (
          q,
          run ∙ ap (λ (n : Number). ok (n, q)) (literal_value-number_value lead ds es x all' small),
          after,
        )
