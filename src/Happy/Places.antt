-- ===== src/Happy/Places.antt =====
-- Which part of a text of the schema language a position stands at.
use ian.Prelude.{
  ℕ, suc, ◌+◌, ◌≡◌, refl, sym, ◌∙◌, Bool, not, ◌||◌, [], ◌∷◌, ◌++◌, append_assoc, Bytes, ◌==◌,
  if◌then◌else◌, Bool-cases, inl, inr, arith,
}
use ian.Happy.Ast.{DocumentPosition}
use ian.Happy.Reader.{next_line, next_column}
use ian.Happy.Advance.{moved}
use ian.Happy.Blanks.{is_blank, skipped, skip_blank}

abbrev pub newlines : Bytes → ℕ
newlines [] = 0
newlines (c ∷ cs) = let rest = newlines cs in if c == b'\n' then suc rest else rest

newlines-append : (xs ys : Bytes) → newlines (xs ++ ys) ≡ newlines xs + newlines ys
newlines-append [] ys = omega arith
newlines-append (x ∷ xs) ys = ground (arith, newlines-append xs ys)

-- `rest` is the end of the text, and the position names its file and its line.
pub record Reached (text filename rest : Bytes) (at : DocumentPosition) : Type 0 where
  pub front : Bytes
  pub split : text ≡ front ++ rest
  pub line : at.line ≡ 1 + newlines front
  pub file : at.file ≡ filename

pub Reached-on :
    {text filename : Bytes} (cs rest : Bytes) (at at' : DocumentPosition)
    → Reached text filename (cs ++ rest) at
    → at'.line ≡ at.line + newlines cs
    → at'.file ≡ at.file
    → Reached text filename rest at'
Reached-on cs rest at at' r h k = record {
  front = r.front ++ cs;
  split = r.split ∙ sym (append_assoc r.front cs rest);
  line = omega (arith, h, r.line, newlines-append r.front cs);
  file = k ∙ r.file;
}

pub moved_place :
    (cs : Bytes) (at : DocumentPosition)
    → ((moved cs at).line ≡ at.line + newlines cs) × ((moved cs at).file ≡ at.file)
moved_place [] at = (omega arith, refl)
moved_place (c ∷ cs) at =
    let at' = if c == b'\n' then next_line at else next_column at in
    let (line, file) = moved_place cs at' in
    let step : at'.line + newlines cs ≡ at.line + newlines (c ∷ cs) = ground arith in
    let same : at'.file ≡ at.file = ground arith in (line ∙ step, file ∙ same)

skipped_place :
    (c : ℕ) (at : DocumentPosition)
    → ((skipped c at).line ≡ at.line + newlines (c ∷ [])) × ((skipped c at).file ≡ at.file)
skipped_place c at = ground arith

pub skip_blank-Reached :
    {text filename : Bytes} (comment : Bool) (cs : Bytes) (at : DocumentPosition)
    → Reached text filename cs at
    → Reached text filename (skip_blank comment cs at).0 (skip_blank comment cs at).1
skip_blank-Reached comment [] at r = r
skip_blank-Reached comment (c ∷ cs) at r =
    elim (Bool-cases (if comment then c == 0 else not (c == b'#' || is_blank c))) [
      | inl e ↦ rw e r
      | inr e ↦
          let (line, file) = skipped_place c at in
          rw e (
            skip_blank-Reached (if comment then not (c == b'\n' || c == b'\r') else c == b'#') cs
              (skipped c at) (Reached-on (c ∷ []) cs at (skipped c at) r line file))
    ]
