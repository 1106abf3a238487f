-- ===== src/Happy/Blanks.antt =====
-- The blanks and the comments of a text of the schema language.
use ian.Prelude.{
  ℕ, ◌≤◌, ◌≡◌, refl, inl, inr, Bool, true, false, not, ◌||◌, [], ◌∷◌, Bytes, length, ◌==◌,
  if◌then◌else◌, Bool-cases, arith,
}
use ian.Happy.Ast.{DocumentPosition}
use ian.Happy.Reader.{next_column, next_line}

abbrev pub is_blank : ℕ → Bool
is_blank c = c == b' ' || c == b'\t' || c == b'\n' || c == b'\r'

abbrev pub ends_comment : ℕ → Bool
ends_comment c = c == 0 || c == b'\n' || c == b'\r'

-- The position behind a byte that is skipped. A carriage return does not move it.
abbrev pub skipped : ℕ → DocumentPosition → DocumentPosition
skipped c at = if c == b'\n' then next_line at else if c == b'\r' then at else next_column at

-- What is left behind the blanks and the comments of a text, and its position; `comment` is whether the
-- text begins within a comment, which ends with its line.
abbrev pub skip_blank : Bool → Bytes → DocumentPosition → Bytes × DocumentPosition
skip_blank comment [] at = ([], at)
skip_blank comment (c ∷ cs) at =
    let rest =
      skip_blank (if comment then not (c == b'\n' || c == b'\r') else c == b'#') cs
        (skipped c at) in
    if (if comment then c == 0 else not (c == b'#' || is_blank c)) then (c ∷ cs, at) else rest

-- The end of a comment, from within it.
abbrev pub comment_rest : Bytes → DocumentPosition → Bytes × DocumentPosition
comment_rest [] at = ([], at)
comment_rest (c ∷ cs) at =
    let rest = comment_rest cs (next_column at) in if ends_comment c then (c ∷ cs, at) else rest

pub skip_blank-comment :
    (cs : Bytes) (at : DocumentPosition)
    → skip_blank true cs at ≡ skip_blank false (comment_rest cs at).0 (comment_rest cs at).1
skip_blank-comment [] at = refl
skip_blank-comment (c ∷ cs) at = elim (Bool-cases (c == 0)) [
  | inl e ↦ let q : c ≡ 0 = ground arith in rw q refl
  | inr z ↦ elim (Bool-cases (c == b'\n')) [
    | inl e ↦ let q : c ≡ b'\n' = ground arith in rw q refl
    | inr n ↦ elim (Bool-cases (c == b'\r')) [
      | inl e ↦ let q : c ≡ b'\r' = ground arith in rw q refl
      | inr r ↦ rw (z, n, r) (skip_blank-comment cs (next_column at))
    ]
  ]
]

pub length-comment_rest :
    (cs : Bytes) (at : DocumentPosition) → length (comment_rest cs at).0 ≤ length cs
length-comment_rest [] at = omega arith
length-comment_rest (c ∷ cs) at = elim (Bool-cases (ends_comment c)) [
  | inl e ↦ rw e (omega arith)
  | inr e ↦ rw e (omega (arith, length-comment_rest cs (next_column at)))
]

pub length-skip_blank :
    (comment : Bool) (cs : Bytes) (at : DocumentPosition)
    → length (skip_blank comment cs at).0 ≤ length cs
length-skip_blank comment [] at = omega arith
length-skip_blank comment (c ∷ cs) at =
    elim (Bool-cases (if comment then c == 0 else not (c == b'#' || is_blank c))) [
      | inl e ↦ rw e (omega arith)
      | inr e ↦ rw e (
          omega (
            arith,
            length-skip_blank (if comment then not (c == b'\n' || c == b'\r') else c == b'#') cs
                (skipped c at),
          ))
    ]
