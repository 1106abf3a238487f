-- ===== src/Happy/Fronts.antt =====
-- What a text of the schema language begins with, by its symbol, for `peek_symbol` of Parser.
use mathlib.Core.Path.{subst}
use ian.Prelude.{
  ℕ, suc, ◌<◌, ◌≡◌, refl, sym, ap, ◌∙◌, ◌⊎◌, inl, inr, true, false, not, ◌||◌, List, [], ◌∷◌, ◌++◌,
  Bytes, length, get_or, ◌==◌, if◌then◌else◌, Bool-cases, arith,
}
use ian.Happy.Reader.{
  namespace_kw, include_kw, struct_kw, mapping_kw, encoding_kw, delta_kw, colon, namespace_sep,
  curly_open, curly_close, bracket_open, bracket_close, Symbol, identifier, integer, number, string,
  eof, error, invalid,
}
use ian.Happy.Lexer.{is_digit, is_letter, ordinal, equal, keyword, sign, same, symbol_length}
use ian.Happy.Symbols.{symbol_of, number_kind, word_of}
use ian.Happy.Quotes.{
  Mode, code, open_string, open_string-plain, word_of-split, is_letter-is_word, is_word-is_plain,
  sign-is_plain,
}

number_kind-cases : (cs : Bytes) → (number_kind cs ≡ integer) ⊎ (number_kind cs ≡ number)
number_kind-cases [] = inl refl
number_kind-cases (c ∷ cs) = ground (arith, number_kind-cases cs)

-- How the symbol of a text comes about.
pub data Starts (c : ℕ) (cs : Bytes) : Symbol → Type 0 where
  at_eof : Starts c cs eof
  at_integer : (is_digit c || c == b'-' || c == b'+') ≡ true → Starts c cs integer
  at_number : Starts c cs number
  at_sign : not (same (sign c) invalid) ≡ true → Starts c cs (sign c)
  at_string : (c == b'\'' || c == b'"') ≡ true → Starts c cs string
  at_word : is_letter c ≡ true → Starts c cs (keyword (c ∷ word_of cs))
  at_error : Starts c cs error

pub symbol_of-Starts : (c : ℕ) (cs : Bytes) → Starts c cs (symbol_of (c ∷ cs))
symbol_of-Starts c cs = elim (Bool-cases (c == 0)) [
  | inl e ↦ rw e at_eof
  | inr e0 ↦ elim (Bool-cases (is_digit c || c == b'-' || c == b'+')) [
    | inl e ↦ elim (number_kind-cases cs) [
      | inl k ↦ rw (e0, e, k) (at_integer e)
      | inr k ↦ rw (e0, e, k) at_number
    ]
    | inr e1 ↦ elim (Bool-cases (not (same (sign c) invalid))) [
      | inl e ↦ rw (e0, e1, e) (at_sign e)
      | inr e2 ↦ elim (Bool-cases (c == b'\'' || c == b'"')) [
        | inl e ↦ rw (e0, e1, e2, e) (at_string e)
        | inr e3 ↦ elim (Bool-cases (is_letter c)) [
          | inl e ↦ rw (e0, e1, e2, e3, e) (at_word e)
          | inr e ↦ rw (e0, e1, e2, e3, e) at_error
        ]
      ]
    ]
  ]
]

equal-length : (xs ys : Bytes) → equal xs ys ≡ true → length xs ≡ length ys
equal-length [] [] h = refl
equal-length [] (y ∷ ys) h = cc
equal-length (x ∷ xs) [] h = cc
equal-length (x ∷ xs) (y ∷ ys) h = omega (arith, equal-length xs ys (ground arith))

-- A keyword is as long as its word, and any other word is a name.
abbrev IsWord : Symbol → ℕ → Type 0
IsWord s n = (symbol_length s ≡ n) ⊎ (s ≡ identifier)

keyword_or :
    (word text : Bytes) (s t : Symbol)
    → symbol_length s ≡ length text
    → IsWord t (length word)
    → IsWord (if equal word text then s else t) (length word)
keyword_or word text s t h k = elim (Bool-cases (equal word text)) [
  | inl e ↦ rw e (inl (h ∙ sym (equal-length word text e)))
  | inr e ↦ rw e k
]

keyword-IsWord : (word : Bytes) → IsWord (keyword word) (length word)
unfolding keyword
keyword-IsWord word = keyword_or word _ _ _ refl (
    keyword_or word _ _ _ refl (
      keyword_or word _ _ _ refl (
        keyword_or word _ _ _ refl
          (keyword_or word _ _ _ refl (keyword_or word _ _ _ refl (inr refl))))))

sign-length : (c : ℕ) → not (same (sign c) invalid) ≡ true → symbol_length (sign c) ≡ 1
unfolding sign
sign-length c h = ground arith

sign-not_name : (c : ℕ) → same (sign c) identifier ≡ false
unfolding sign
sign-not_name c = ground arith

sign-not_literal : (c : ℕ) → (same (sign c) string ≡ false) × (same (sign c) integer ≡ false)
unfolding sign
sign-not_literal c = ground arith

keyword-not_literal :
    (word : Bytes) → (same (keyword word) string ≡ false) × (same (keyword word) integer ≡ false)
unfolding keyword
keyword-not_literal word = ground arith

-- Symbols in the order of their ordinals.
abbrev symbols : List Symbol
symbols =
    identifier ∷ string ∷ integer ∷ number ∷ namespace_kw ∷ include_kw ∷ struct_kw ∷ mapping_kw
    ∷ encoding_kw ∷ delta_kw ∷ colon ∷ namespace_sep ∷ curly_open ∷ curly_close ∷ bracket_open
    ∷ bracket_close ∷ eof ∷ error ∷ invalid ∷ []

get_or-ordinal : (s : Symbol) → get_or symbols (ordinal s) invalid ≡ s
get_or-ordinal s = ground arith

pub eq_of_same : (s t : Symbol) → same s t ≡ true → s ≡ t
eq_of_same s t h =
    let e : ordinal s ≡ ordinal t = ground arith in
    sym (get_or-ordinal s) ∙ ap (λ (n : ℕ). get_or symbols n invalid) e ∙ get_or-ordinal t

-- What a step takes off the front of a text.
pub record Front (m : Mode) (n : ℕ) (v : Bytes) : Type 0 where
  pub front : Bytes
  pub behind : Bytes
  pub split : v ≡ front ++ behind
  pub count : length front ≡ n
  pub same_open : open_string m v ≡ open_string code behind

-- The word at the front of a text.
pub word-Front :
    (c : ℕ) (cs : Bytes) → is_letter c ≡ true → Front code (suc (length (word_of cs))) (c ∷ cs)
word-Front c cs h =
    let (rest, split, same_open) = word_of-split cs in
    record {
      front = c ∷ word_of cs;
      behind = rest;
      split = ap (◌∷◌ c) split;
      count = refl;
      same_open = open_string-plain c cs (is_word-is_plain c (is_letter-is_word c h)) ∙ same_open;
    }

Starts-Front :
    (c : ℕ) (cs : Bytes) {s : Symbol}
    → Starts c cs s
    → 0 < symbol_length s
    → Front code (symbol_length s) (c ∷ cs)
Starts-Front c cs at_eof h = absurd (omega arith)
Starts-Front c cs (at_integer e) h = absurd (omega arith)
Starts-Front c cs at_number h = absurd (omega arith)
Starts-Front c cs (at_sign e) h = record {
  front = c ∷ [];
  behind = cs;
  split = refl;
  count = sym (sign-length c e);
  same_open = open_string-plain c cs (sign-is_plain c e);
}
Starts-Front c cs (at_string e) h = absurd (omega arith)
Starts-Front c cs (at_word e) h = elim (keyword-IsWord (c ∷ word_of cs)) [
  | inl k ↦ subst (λ (n : ℕ). Front code n (c ∷ cs)) (sym k) (word-Front c cs e)
  | inr k ↦
      let none_ : symbol_length (keyword (c ∷ word_of cs)) ≡ 0 = ap symbol_length k in
      absurd (omega arith)
]
Starts-Front c cs at_error h = absurd (omega arith)

-- A sign or a keyword that a text begins with.
pub symbol-Front :
    (v : Bytes) → 0 < symbol_length (symbol_of v) → Front code (symbol_length (symbol_of v)) v
symbol-Front [] h = absurd (omega arith)
symbol-Front (c ∷ cs) h = Starts-Front c cs (symbol_of-Starts c cs) h

Starts-letter :
    (c : ℕ) (cs : Bytes) {s : Symbol}
    → Starts c cs s
    → same s identifier ≡ true
    → is_letter c ≡ true
Starts-letter c cs at_eof h = cc
Starts-letter c cs (at_integer e) h = cc
Starts-letter c cs at_number h = cc
Starts-letter c cs (at_sign e) h = cc (sign-not_name c)
Starts-letter c cs (at_string e) h = cc
Starts-letter c cs (at_word e) h = e
Starts-letter c cs at_error h = cc

-- A name that a text begins with.
pub name-Front :
    (v : Bytes)
    → symbol_of v ≡ identifier
    → Front code (length (word_of v)) v × (0 < length (word_of v))
name-Front [] h = cc
name-Front (c ∷ cs) h =
    let e = Starts-letter c cs (symbol_of-Starts c cs) (rw h refl) in
    let w = is_letter-is_word c e in rw w (word-Front c cs e, omega arith)

Starts-string :
    (c : ℕ) (cs : Bytes) {s : Symbol}
    → Starts c cs s
    → same s string ≡ true
    → (c == b'\'' || c == b'"') ≡ true
Starts-string c cs at_eof h = cc
Starts-string c cs (at_integer e) h = cc
Starts-string c cs at_number h = cc
Starts-string c cs (at_sign e) h = cc (sign-not_literal c).0
Starts-string c cs (at_string e) h = e
Starts-string c cs (at_word e) h = cc (keyword-not_literal (c ∷ word_of cs)).0
Starts-string c cs at_error h = cc

pub string-quote :
    (c : ℕ) (cs : Bytes) → symbol_of (c ∷ cs) ≡ string → (c == b'\'' || c == b'"') ≡ true
string-quote c cs h = Starts-string c cs (symbol_of-Starts c cs) (rw h refl)

Starts-integer :
    (c : ℕ) (cs : Bytes) {s : Symbol}
    → Starts c cs s
    → same s integer ≡ true
    → (is_digit c || c == b'-' || c == b'+') ≡ true
Starts-integer c cs at_eof h = cc
Starts-integer c cs (at_integer e) h = e
Starts-integer c cs at_number h = cc
Starts-integer c cs (at_sign e) h = cc (sign-not_literal c).1
Starts-integer c cs (at_string e) h = cc
Starts-integer c cs (at_word e) h = cc (keyword-not_literal (c ∷ word_of cs)).1
Starts-integer c cs at_error h = cc

pub integer-digit :
    (c : ℕ) (cs : Bytes)
    → symbol_of (c ∷ cs) ≡ integer
    → (is_digit c || c == b'-' || c == b'+') ≡ true
integer-digit c cs h = Starts-integer c cs (symbol_of-Starts c cs) (rw h refl)
