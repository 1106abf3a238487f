-- ===== src/Happy/Samples.antt =====
-- A reader over a text and a small document, for runs of the schema parser.
use ian.Prelude.{
  codes, ℕ, zero, suc, ◌≤◌, ◌<◌, ◌≡◌, refl, ap, [], ◌∷◌, ◌++◌, Bytes, length, take, drop, ltb,
  if◌then◌else◌, Bool-cases, inl, inr, arith,
}
use ian.Happy.Reader.{StreamReader}
use ian.Happy.View.{Delivers}

-- A reader over a text that delivers at most seven bytes at a time.
abbrev at_most_seven : ℕ → ℕ
at_most_seven n = if ltb n 7 then n else 7

abbrev pub text_reader : StreamReader
text_reader = record {
  State = Bytes;
  read = λ s n. (take (at_most_seven n) s, drop (at_most_seven n) s);
}

abbrev pub remaining : Bytes → Bytes
remaining s = s

take-drop : (k : ℕ) (s : Bytes) → s ≡ take k s ++ drop k s
take-drop zero s = refl
take-drop (suc k) [] = refl
take-drop (suc k) (x ∷ s) = ap (◌∷◌ x) (take-drop k s)

length-take : (k : ℕ) (s : Bytes) → length (take k s) ≤ k
length-take zero s = omega arith
length-take (suc k) [] = omega arith
length-take (suc k) (x ∷ s) = omega (arith, length-take k s)

take-nil : (k : ℕ) (s : Bytes) → 0 < k → take k s ≡ [] → s ≡ []
take-nil zero s h e = absurd (omega arith)
take-nil (suc k) [] h e = refl
take-nil (suc k) (x ∷ s) h e = cc

pub text_reader-Delivers : Delivers text_reader remaining
text_reader-Delivers = record {
  delivers = λ s n. take-drop (at_most_seven n) s;
  at_most = λ s n. elim (Bool-cases (ltb n 7)) [
    | inl e ↦ rw e (length-take n s)
    | inr e ↦ rw e (ground (arith, length-take 7 s))
  ];
  at_end = λ s n h e. take-nil (at_most_seven n) s (ground arith) e;
}

abbrev pub sample : Bytes
sample =
    codes
      "NAMESPACE foo.bar # c\n\nSTRUCT MyData\n{\n  a: int\n  b: float[12]\n}\nENCODING MyData\n{\n DELTA { a: VLE } DELTA b: VLE\n c\n}\n"
