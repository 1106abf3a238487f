-- ===== src/Happy/Quotes.antt =====
-- Where the strings of a schema text begin and end: its quotes outside of comments, as Parser takes
-- them in tools/happy/src/Parser.cpp.
use ian.Prelude.{
  ℕ, ◌≡◌, refl, ap, ◌∙◌, Bool, true, false, not, ◌||◌, [], ◌∷◌, ◌++◌, Bytes, ◌==◌, if◌then◌else◌,
  Bool-cases, inl, inr, arith,
}
use ian.Happy.Ast.{DocumentPosition}
use ian.Happy.Reader.{invalid}
use ian.Happy.Lexer.{is_digit, is_letter, is_word, sign, same}
use ian.Happy.Blanks.{is_blank, skipped, skip_blank}
use ian.Happy.Symbols.{word_of}

-- What a byte stands in; a string has its delimiter, and `escaped` is behind a backslash.
pub data Mode : Type 0 where
  code comment : Mode
  quoted escaped : ℕ → Mode

abbrev pub next_mode : Mode → ℕ → Mode
next_mode code c = if c == b'#' then comment else if c == b'\'' || c == b'"' then quoted c else code
next_mode comment c = if c == b'\n' || c == b'\r' then code else comment
next_mode (quoted d) c = if c == d then code else if c == b'\\' then escaped d else quoted d
next_mode (escaped d) c = quoted d

-- A zero ends the text outside of strings.
abbrev pub is_last : Mode → ℕ → Bool
is_last code c = c == 0
is_last comment c = c == 0
is_last _ c = false

abbrev pub in_string : Mode → Bool
in_string code = false
in_string comment = false
in_string _ = true

-- Whether a text that begins in a mode ends within a string.
abbrev pub open_string : Mode → Bytes → Bool
open_string m [] = in_string m
open_string m (c ∷ cs) =
    let rest = open_string (next_mode m c) cs in if is_last m c then false else rest

-- A byte that neither opens a string or a comment nor ends the text.
abbrev pub is_plain : ℕ → Bool
is_plain c = not (c == 0 || c == b'#' || c == b'\'' || c == b'"')

pub open_string-plain :
    (c : ℕ) (cs : Bytes) → is_plain c ≡ true → open_string code (c ∷ cs) ≡ open_string code cs
open_string-plain c cs h = ground arith

pub is_word-is_plain : (c : ℕ) → is_word c ≡ true → is_plain c ≡ true
unfolding is_word is_letter is_digit
is_word-is_plain c h = ground arith

pub is_letter-is_word : (c : ℕ) → is_letter c ≡ true → is_word c ≡ true
unfolding is_word is_letter
is_letter-is_word c h = ground arith

pub is_digit-is_plain : (c : ℕ) → is_digit c ≡ true → is_plain c ≡ true
unfolding is_digit
is_digit-is_plain c h = ground arith

pub sign-is_plain : (c : ℕ) → not (same (sign c) invalid) ≡ true → is_plain c ≡ true
unfolding sign
sign-is_plain c h = ground arith

-- A word at the front of a text.
pub word_of-split :
    (cs : Bytes)
    → (rest : Bytes) × (cs ≡ word_of cs ++ rest) × (open_string code cs ≡ open_string code rest)
word_of-split [] = ([], refl, refl)
word_of-split (c ∷ cs) = elim (Bool-cases (is_word c)) [
  | inl e ↦
      let (rest, split, same_open) = word_of-split cs in
      rw e (rest, ap (◌∷◌ c) split, open_string-plain c cs (is_word-is_plain c e) ∙ same_open)
  | inr e ↦ rw e (c ∷ cs, refl, refl)
]

abbrev mode_of : Bool → Mode
mode_of in_comment = if in_comment then comment else code

-- Blanks and comments open no string.
pub open_string-skip_blank :
    (in_comment : Bool) (cs : Bytes) (at : DocumentPosition)
    → open_string (mode_of in_comment) cs ≡ open_string code (skip_blank in_comment cs at).0
open_string-skip_blank true [] at = refl
open_string-skip_blank false [] at = refl
open_string-skip_blank true (c ∷ cs) at =
    let next = not (c == b'\n' || c == b'\r') in
    let step : next_mode comment c ≡ mode_of next = ground arith in
    elim (Bool-cases (c == 0)) [
      | inl e ↦ let z : c ≡ 0 = ground arith in rw z refl
      | inr e ↦
          rw e (ap (λ m. open_string m cs) step ∙ open_string-skip_blank next cs (skipped c at))
    ]
open_string-skip_blank false (c ∷ cs) at = elim (Bool-cases (not (c == b'#' || is_blank c))) [
  | inl e ↦ rw e refl
  | inr e ↦
      let step : next_mode code c ≡ mode_of (c == b'#') = ground arith in
      let on : (c == 0) ≡ false = ground arith in
      rw (e, on)
        (ap (λ m. open_string m cs) step ∙ open_string-skip_blank (c == b'#') cs (skipped c at))
]
