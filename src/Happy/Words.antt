-- ===== src/Happy/Words.antt =====
-- Names of the schema language, and printed qualified identifiers, as texts.

use ian.Prelude.{
  ℕ, ◌<◌, ◌≡◌, refl, sym, ap, ◌∙◌, true, false, not, ◌||◌, List, [], ◌∷◌, ◌++◌, append_assoc, Bytes,
  length, get_or, ◌==◌, arith, All,
}
use ian.Happy.Ast.{DocumentPosition}
use ian.Happy.Reader.{identifier, invalid}
use ian.Happy.Lexer.{is_digit, is_letter, is_word, sign, same, keyword}
use ian.Happy.Print.{print_spaces}
use ian.Happy.Blanks.{skip_blank}
use ian.Happy.Symbols.{symbol_of, word_of}

abbrev AllWord : Bytes → Type 0
AllWord [] = Unit
AllWord (c ∷ cs) = (is_word c ≡ true) × AllWord cs

-- What the grammar takes for a name: a letter, word chars, and no keyword.
abbrev pub IsName : Bytes → Type 0
IsName [] = ⊥
IsName (c ∷ cs) = (is_letter c ≡ true) × AllWord cs × (keyword (c ∷ cs) ≡ identifier)

-- A text that does not go on with a word char.
abbrev pub EndsWord : Bytes → Type 0
EndsWord rest = is_word (get_or rest 0 0) ≡ false

word_of-append : (cs rest : Bytes) → AllWord cs → EndsWord rest → word_of (cs ++ rest) ≡ cs
word_of-append [] [] all e = refl
word_of-append [] (d ∷ ds) all e = rw e refl
word_of-append (c ∷ cs) rest (w, all) e = rw (w, word_of-append cs rest all e) refl

letter-is_word : (c : ℕ) → is_letter c ≡ true → is_word c ≡ true
unfolding is_word
letter-is_word c h = ground arith

pub IsName-word_of :
    (name rest : Bytes) → IsName name → EndsWord rest → word_of (name ++ rest) ≡ name
IsName-word_of [] rest h e = absurd h
IsName-word_of (c ∷ cs) rest (l, all, k) e =
    rw (letter-is_word c l, word_of-append cs rest all e) refl

letter_tests :
    (c : ℕ)
    → is_letter c ≡ true
    → ((c == 0) ≡ false)
      × ((is_digit c || c == b'-' || c == b'+') ≡ false)
      × (not (same (sign c) invalid) ≡ false)
      × ((c == b'\'' || c == b'"') ≡ false)
unfolding is_letter is_digit sign
letter_tests c h = (ground arith, ground arith, ground arith, ground arith)

pub IsName-symbol_of :
    (name rest : Bytes) → IsName name → EndsWord rest → symbol_of (name ++ rest) ≡ identifier
IsName-symbol_of [] rest h e = absurd h
IsName-symbol_of (c ∷ cs) rest (l, all, k) e =
    let (z, d, s, q) = letter_tests c l in rw (z, d, s, q, l, word_of-append cs rest all e) k

letter_solid :
    (c : ℕ)
    → is_letter c ≡ true
    → (c == b'#' || (c == b' ' || c == b'\t' || c == b'\n' || c == b'\r')) ≡ false
unfolding is_letter
letter_solid c h = ground arith

pub IsName-skip_blank :
    (name rest : Bytes)
    → IsName name
    → (at : DocumentPosition) → (skip_blank false (name ++ rest) at).0 ≡ name ++ rest
IsName-skip_blank [] rest h at = absurd h
IsName-skip_blank (c ∷ cs) rest (l, all, k) at = rw (letter_solid c l) refl

-- No blank stands in front of a printed qualified identifier.
pub print_spaces-skip_blank :
    (xs : List Bytes) (name rest : Bytes) (at : DocumentPosition)
    → All IsName xs
    → IsName name
    → (skip_blank false (print_spaces xs name ++ rest) at).0 ≡ print_spaces xs name ++ rest
print_spaces-skip_blank [] name rest at all n = IsName-skip_blank name rest n at
print_spaces-skip_blank (x ∷ xs) name rest at (x', all) n =
    let e = append_assoc x (b'.' ∷ print_spaces xs name) rest in
    ap (λ t. (skip_blank false t at).0) e
    ∙ IsName-skip_blank x (b'.' ∷ (print_spaces xs name ++ rest)) x' at
    ∙ sym e

pub IsName-length : (name : Bytes) → IsName name → 0 < length name
IsName-length [] h = absurd h
IsName-length (c ∷ cs) h = omega arith
