-- ===== src/Happy/Ends/Grammar.antt =====
-- The productions of Parser end, in tools/happy/src/Parser.cpp.
use ian.Prelude.{ℕ, zero, suc, ◌≤◌, ◌<◌, List, [], Bytes, arith}
use ian.Happy.Ast.{DocumentPosition}
use ian.Happy.Reader.{
  Symbol, include_kw, colon, namespace_sep, curly_close, bracket_open, bracket_close, StreamReader,
  M, ◌>>=◌, current_position,
}
use ian.Happy.Lexer.{same, symbol_length, peek_symbol, parse_symbol, parse_identifier}
use ian.Happy.Parser.{
  until_close, qualify, parse_qualified_identifier, parse_type, parse_include, parse_struct_field,
  parse_mapping_field,
}
use ian.Happy.View.{Delivers}
use ian.Happy.Ends.{
  Stays, Takes, Takes-Stays, Stays-bind, Takes-bind, Takes-within, Stays-none, Stays-pure, Stays-if,
}
use ian.Happy.Ends.Symbols.{peek_symbol-Stays, parse_symbol-Takes}
use ian.Happy.Ends.Names.{parse_identifier-Takes}
use ian.Happy.Ends.Integers.{parse_integer-Takes}
use ian.Happy.Ends.Strings.{parse_string-Takes}

module _ (r : StreamReader) (contents : r.State → Bytes) (law : Delivers r contents)
    (text filename : Bytes) (fuel : ℕ) where
  pub position-Takes :
      {A : Type 0} {d : ℕ} {f : DocumentPosition → M r.State A}
      → ((at : DocumentPosition) → Takes r contents law text filename d (f at))
      → Takes r contents law text filename d (current_position >>= f)
  position-Takes h = record { takes = λ k p a. (h p.pos).takes k p a }

  -- What takes bytes within every bound up to `e`.
  abbrev pub TakesUpTo : {A : Type 0} → ℕ → M r.State A → Type 0
  TakesUpTo e m = (d : ℕ) → d ≤ e → Takes r contents law text filename d m

  -- Every round that goes on takes bytes.
  pub qualify-Stays :
      (f d : ℕ) (space : List Bytes) (tmp : Bytes)
      → d ≤ f
      → d ≤ fuel
      → Stays r contents law text filename d (qualify r f fuel space tmp)
  unfolding qualify
  qualify-Stays zero d space tmp h n = Stays-none _ h
  qualify-Stays (suc f) zero space tmp h n = Stays-none _ (omega arith)
  qualify-Stays (suc f) (suc d) space tmp h n =
      Stays-bind (peek_symbol-Stays r contents law text filename fuel (suc d) n) λ s.
        Stays-if (same s namespace_sep)
          (Takes-Stays (
            Takes-within
              (parse_symbol-Takes r contents law text filename fuel (suc d) namespace_sep n
                (omega arith))
              λ _.
                Stays-bind
                  (Takes-Stays
                    (parse_identifier-Takes r contents law text filename fuel d (omega arith)))
                  λ next. qualify-Stays f d _ next (omega arith) (omega arith)))
          (Stays-pure _)

  pub until_close-Stays :
      {A : Type 0} (f d : ℕ) (item : M r.State A) (fields : List A)
      → d ≤ f
      → d ≤ fuel
      → TakesUpTo d item
      → Stays r contents law text filename d (until_close r f fuel item fields)
  unfolding until_close
  until_close-Stays zero d item fields h n g = Stays-none _ h
  until_close-Stays (suc f) zero item fields h n g = Stays-none _ (omega arith)
  until_close-Stays (suc f) (suc d) item fields h n g =
      Stays-bind (peek_symbol-Stays r contents law text filename fuel (suc d) n) λ s.
        Stays-if (same s curly_close) (Stays-pure _) (
          Takes-Stays (
            Takes-within (g (suc d) (omega arith)) λ x.
              until_close-Stays f d item _ (omega arith) (omega arith) (λ e k. g e (omega arith))))

  module _ (d : ℕ) (h : d ≤ fuel) where
    pub symbol-Takes :
        (s : Symbol)
        → 0 < symbol_length s
        → Takes r contents law text filename d (parse_symbol r fuel s)
    symbol-Takes s n = parse_symbol-Takes r contents law text filename fuel d s h n

    pub name-Takes : Takes r contents law text filename d (parse_identifier r fuel)
    name-Takes = parse_identifier-Takes r contents law text filename fuel d h

    pub peek-Stays : Stays r contents law text filename d (peek_symbol r fuel)
    peek-Stays = peek_symbol-Stays r contents law text filename fuel d h

    pub parse_qualified_identifier-Takes :
        Takes r contents law text filename d (parse_qualified_identifier r fuel)
    unfolding parse_qualified_identifier
    parse_qualified_identifier-Takes = Takes-bind name-Takes λ tmp. qualify-Stays fuel d [] tmp h h

    pub parse_type-Takes : Takes r contents law text filename d (parse_type r fuel)
    unfolding parse_type
    parse_type-Takes = Takes-bind parse_qualified_identifier-Takes λ name.
        Stays-bind peek-Stays λ s.
          Stays-if (same s bracket_open)
            (Stays-bind (Takes-Stays (symbol-Takes bracket_open (omega arith))) λ _.
              Stays-bind (Takes-Stays (parse_integer-Takes r contents law text filename fuel d h))
                λ size.
                  Stays-bind (Takes-Stays (symbol-Takes bracket_close (omega arith)))
                    λ _. Stays-pure _)
            (Stays-pure _)

    pub parse_include-Takes : Takes r contents law text filename d (parse_include r fuel)
    unfolding parse_include
    parse_include-Takes = position-Takes λ at.
        Takes-bind (symbol-Takes include_kw (omega arith)) λ _.
          Stays-bind (Takes-Stays (parse_string-Takes r contents law text filename fuel d h))
            λ path. Stays-pure _

    pub parse_struct_field-Takes : Takes r contents law text filename d (parse_struct_field r fuel)
    unfolding parse_struct_field
    parse_struct_field-Takes = position-Takes λ at. Takes-bind name-Takes λ name.
        Stays-bind (Takes-Stays (symbol-Takes colon (omega arith)))
          λ _. Stays-bind (Takes-Stays parse_type-Takes) λ type. Stays-pure _

    pub parse_mapping_field-Takes :
        Takes r contents law text filename d (parse_mapping_field r fuel)
    unfolding parse_mapping_field
    parse_mapping_field-Takes = position-Takes λ at. Takes-bind name-Takes λ name.
        Stays-bind (Takes-Stays (symbol-Takes colon (omega arith))) λ _.
          Stays-bind (Takes-Stays (parse_string-Takes r contents law text filename fuel d h))
            λ decl. Stays-pure _
