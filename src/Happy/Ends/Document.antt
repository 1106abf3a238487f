-- ===== src/Happy/Ends/Document.antt =====
-- The loops of `Parser::parse_document` end, in tools/happy/src/Parser.cpp.
use ian.Prelude.{ℕ, zero, suc, ◌≤◌, List, [], ◌∷◌, ◌++◌, Bytes, codes, arith}
use ian.Happy.Ast.{AstInclude, AstRoot}
use ian.Happy.Reader.{
  Symbol, namespace_kw, include_kw, struct_kw, mapping_kw, encoding_kw, eof, StreamReader, M, ◌>>=◌,
  pure,
}
use ian.Happy.Lexer.{same, unexpected_in}
use ian.Happy.Parser.{
  parse_includes, parse_namespace, parse_struct, parse_mapping, parse_encoding, parse_declarations,
}
use ian.Happy.View.{Delivers}
use ian.Happy.Ends.{Stays, Takes-Stays, Stays-bind, Takes-within, Stays-none, Stays-pure, Stays-if}
use ian.Happy.Ends.Symbols.{unexpected_in-Takes}
use ian.Happy.Ends.Grammar.{
  symbol-Takes, peek-Stays, parse_qualified_identifier-Takes, parse_include-Takes,
}
use ian.Happy.Ends.Declarations.{parse_struct-Takes, parse_mapping-Takes, parse_encoding-Takes}

module _ (r : StreamReader) (contents : r.State → Bytes) (law : Delivers r contents)
    (text filename : Bytes) (fuel : ℕ) where
  pub parse_includes-Stays :
      (f d : ℕ) (includes : List AstInclude)
      → d ≤ f
      → d ≤ fuel
      → Stays r contents law text filename d (parse_includes r f fuel includes)
  unfolding parse_includes
  parse_includes-Stays zero d includes h n = Stays-none _ h
  parse_includes-Stays (suc f) zero includes h n = Stays-none _ (omega arith)
  parse_includes-Stays (suc f) (suc d) includes h n =
      Stays-bind (peek-Stays r contents law text filename fuel (suc d) n) λ s.
        Stays-if (same s include_kw)
          (Takes-Stays (
            Takes-within (parse_include-Takes r contents law text filename fuel (suc d) n)
              λ x. parse_includes-Stays f d _ (omega arith) (omega arith)))
          (Stays-pure _)

  pub parse_namespace-Stays : Stays r contents law text filename fuel (parse_namespace r fuel)
  unfolding parse_namespace
  parse_namespace-Stays =
      Stays-bind (peek-Stays r contents law text filename fuel fuel (omega arith)) λ s.
        Stays-if (same s namespace_kw)
          (Stays-bind
            (Takes-Stays (
              symbol-Takes r contents law text filename fuel fuel (omega arith) namespace_kw
                (omega arith)))
            λ _. Takes-Stays (
              parse_qualified_identifier-Takes r contents law text filename fuel fuel
                (omega arith)))
          (Stays-pure _)

  -- A round of the loop over the declarations, by the next symbol.
  abbrev pub declaration : ℕ → AstRoot → Symbol → M r.State AstRoot
  declaration f root s = elim s [
    | struct_kw ↦ do
      x ← parse_struct r fuel
      parse_declarations r f fuel (record root { struct_decls = root.struct_decls ++ x ∷ [] })
    | mapping_kw ↦ do
      x ← parse_mapping r fuel
      parse_declarations r f fuel (record root { map_decls = root.map_decls ++ x ∷ [] })
    | encoding_kw ↦ do
      x ← parse_encoding r fuel
      parse_declarations r f fuel (record root { enco_decls = root.enco_decls ++ x ∷ [] })
    | eof ↦ pure root
    | _ ↦ unexpected_in r fuel (codes "document")
  ]

  declaration-Stays :
      (f d : ℕ) (root : AstRoot) (s : Symbol)
      → suc d ≤ fuel
      → ((root' : AstRoot)
          → Stays r contents law text filename d (parse_declarations r f fuel root'))
      → Stays r contents law text filename (suc d) (declaration f root s)
  declaration-Stays f d root struct_kw h g =
      Takes-Stays
        (Takes-within (parse_struct-Takes r contents law text filename fuel (suc d) h) λ x. g _)
  declaration-Stays f d root mapping_kw h g =
      Takes-Stays
        (Takes-within (parse_mapping-Takes r contents law text filename fuel (suc d) h) λ x. g _)
  declaration-Stays f d root encoding_kw h g =
      Takes-Stays
        (Takes-within (parse_encoding-Takes r contents law text filename fuel (suc d) h) λ x. g _)
  declaration-Stays f d root eof h g = Stays-pure root
  declaration-Stays f d root _ h g =
      Takes-Stays
        (unexpected_in-Takes r contents law text filename fuel (suc d) (codes "document") h)

  pub parse_declarations-Stays :
      (f d : ℕ) (root : AstRoot)
      → d ≤ f
      → d ≤ fuel
      → Stays r contents law text filename d (parse_declarations r f fuel root)
  unfolding parse_declarations
  parse_declarations-Stays zero d root h n = Stays-none _ h
  parse_declarations-Stays (suc f) zero root h n = Stays-none _ (omega arith)
  parse_declarations-Stays (suc f) (suc d) root h n =
      Stays-bind (peek-Stays r contents law text filename fuel (suc d) n) λ s.
        declaration-Stays f d root s n
          (λ root'. parse_declarations-Stays f d root' (omega arith) (omega arith))
