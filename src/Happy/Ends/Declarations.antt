-- ===== src/Happy/Ends/Declarations.antt =====
-- `parse_struct`, `parse_mapping`, `parse_encoding` and what stands in it end, in Parser.cpp of
-- tools/happy/src.
use ian.Prelude.{ℕ, zero, suc, ◌≤◌, [], Bytes, codes, arith}
use ian.Happy.Ast.{DocumentPosition, AstEncodingNode, AstEncodingNodes, delta_block, no_nodes, node}
use ian.Happy.Reader.{
  Symbol, identifier, encoding_kw, delta_kw, struct_kw, mapping_kw, colon, curly_open, curly_close,
  StreamReader, M, ◌>>=◌, ◌>>◌, pure,
}
use ian.Happy.Lexer.{same, unexpected_in, parse_symbol}
use ian.Happy.Parser.{
  parse_struct_field, parse_struct, nodes_until_close, parse_encoding_id, parse_encoding_field,
  parse_encoding_delta_block, parse_encoding_node, parse_encoding, parse_mapping_field,
  parse_mapping,
}
use ian.Happy.View.{Delivers}
use ian.Happy.Ends.{
  Stays, Takes, Takes-Stays, Stays-bind, Takes-bind, Stays-Takes, Takes-none, Takes-within,
  Stays-none, Stays-pure, Stays-if,
}
use ian.Happy.Ends.Symbols.{unexpected_in-Takes}
use ian.Happy.Ends.Grammar.{
  TakesUpTo, position-Takes, until_close-Stays, symbol-Takes, name-Takes, peek-Stays,
  parse_qualified_identifier-Takes, parse_struct_field-Takes, parse_mapping_field-Takes,
}

module _ (r : StreamReader) (contents : r.State → Bytes) (law : Delivers r contents)
    (text filename : Bytes) (fuel : ℕ) where
  module _ (d : ℕ) (h : d ≤ fuel) where
    -- A body in braces.
    pub braces-Stays :
        {A B : Type 0} {body : M r.State A} (f : A → B)
        → Stays r contents law text filename d body
        → Stays r contents law text filename d (
            parse_symbol r fuel curly_open >>= λ _.
            body >>= λ x. parse_symbol r fuel curly_close >>= λ _. pure (f x))
    braces-Stays f b =
        Stays-bind
          (Takes-Stays
            (symbol-Takes r contents law text filename fuel d h curly_open (omega arith)))
          λ _. Stays-bind b λ x.
            Stays-bind
              (Takes-Stays
                (symbol-Takes r contents law text filename fuel d h curly_close (omega arith)))
              λ _. Stays-pure _

    pub parse_struct-Takes : Takes r contents law text filename d (parse_struct r fuel)
    unfolding parse_struct
    parse_struct-Takes = position-Takes r contents law text filename fuel λ at.
        Takes-bind (symbol-Takes r contents law text filename fuel d h struct_kw (omega arith)) λ _.
          Stays-bind (Takes-Stays (name-Takes r contents law text filename fuel d h)) λ name.
            braces-Stays _ (
              until_close-Stays r contents law text filename fuel fuel d (parse_struct_field r fuel)
                [] h h
                (λ e k. parse_struct_field-Takes r contents law text filename fuel e (omega arith)))

    pub parse_mapping-Takes : Takes r contents law text filename d (parse_mapping r fuel)
    unfolding parse_mapping
    parse_mapping-Takes = position-Takes r contents law text filename fuel λ at.
        Takes-bind (symbol-Takes r contents law text filename fuel d h mapping_kw (omega arith))
          λ _.
            Stays-bind (Takes-Stays (name-Takes r contents law text filename fuel d h)) λ struct_id.
              Stays-bind
                (Takes-Stays
                  (symbol-Takes r contents law text filename fuel d h colon (omega arith)))
                λ _.
                  Stays-bind
                    (Takes-Stays
                      (parse_qualified_identifier-Takes r contents law text filename fuel d h))
                    λ category. braces-Stays _ (
                      until_close-Stays r contents law text filename fuel fuel d
                        (parse_mapping_field r fuel) [] h h
                        (λ e k.
                          parse_mapping_field-Takes r contents law text filename fuel e
                            (omega arith)))

  pub nodes_until_close-Stays :
      (f d : ℕ) (item : M r.State AstEncodingNode) (fields : AstEncodingNodes)
      → d ≤ f
      → d ≤ fuel
      → TakesUpTo r contents law text filename fuel d item
      → Stays r contents law text filename d (nodes_until_close r f fuel item fields)
  unfolding nodes_until_close
  nodes_until_close-Stays zero d item fields h n g = Stays-none _ h
  nodes_until_close-Stays (suc f) zero item fields h n g = Stays-none _ (omega arith)
  nodes_until_close-Stays (suc f) (suc d) item fields h n g =
      Stays-bind (peek-Stays r contents law text filename fuel (suc d) n) λ s.
        Stays-if (same s curly_close) (Stays-pure _) (
          Takes-Stays (
            Takes-within (g (suc d) (omega arith)) λ x.
              nodes_until_close-Stays f d item _ (omega arith) (omega arith)
                (λ e k. g e (omega arith))))

  parse_encoding_id-Stays :
      (d : ℕ) → d ≤ fuel → Stays r contents law text filename d (parse_encoding_id r fuel)
  unfolding parse_encoding_id
  parse_encoding_id-Stays d h = Stays-bind (peek-Stays r contents law text filename fuel d h) λ s.
      Stays-if (same s colon)
        (Stays-bind
          (Takes-Stays (symbol-Takes r contents law text filename fuel d h colon (omega arith)))
          λ _. Takes-Stays (name-Takes r contents law text filename fuel d h))
        (Stays-pure _)

  parse_encoding_field-Takes :
      (d : ℕ) → d ≤ fuel → Takes r contents law text filename d (parse_encoding_field r fuel)
  unfolding parse_encoding_field
  parse_encoding_field-Takes d h = position-Takes r contents law text filename fuel λ at.
      Takes-bind (name-Takes r contents law text filename fuel d h)
        λ name. Stays-bind (parse_encoding_id-Stays d h) λ encoding. Stays-pure _

  -- What follows the keyword of a block, by the next symbol.
  abbrev block : DocumentPosition → M r.State AstEncodingNode → Symbol → M r.State AstEncodingNode
  block at item s = elim s [
    | identifier ↦ do x ← item; pure (delta_block at (node x no_nodes))
    | curly_open ↦ do
      parse_symbol r fuel curly_open
      fields ← nodes_until_close r fuel fuel item no_nodes
      parse_symbol r fuel curly_close
      pure (delta_block at fields)
    | _ ↦ unexpected_in r fuel (codes "encoding_delta_block")
  ]

  block-Stays :
      (d : ℕ) (at : DocumentPosition) (item : M r.State AstEncodingNode) (s : Symbol)
      → d ≤ fuel
      → TakesUpTo r contents law text filename fuel d item
      → Stays r contents law text filename d (block at item s)
  block-Stays d at item identifier h g =
      Stays-bind (Takes-Stays (g d (omega arith))) λ x. Stays-pure _
  block-Stays d at item curly_open h g =
      braces-Stays d h _ (nodes_until_close-Stays fuel d item no_nodes h h g)
  block-Stays d at item _ h g =
      Takes-Stays
        (unexpected_in-Takes r contents law text filename fuel d (codes "encoding_delta_block") h)

  parse_encoding_delta_block-Takes :
      (d : ℕ) (item : M r.State AstEncodingNode)
      → suc d ≤ fuel
      → TakesUpTo r contents law text filename fuel d item
      → Takes r contents law text filename (suc d) (parse_encoding_delta_block r fuel item)
  unfolding parse_encoding_delta_block
  parse_encoding_delta_block-Takes d item h g =
      position-Takes r contents law text filename fuel λ at.
        Takes-within
          (symbol-Takes r contents law text filename fuel (suc d) h delta_kw (omega arith))
          λ _.
            Stays-bind (peek-Stays r contents law text filename fuel d (omega arith))
              λ s. block-Stays d at item s (omega arith) g

  abbrev choice : M r.State AstEncodingNode → Symbol → M r.State AstEncodingNode
  choice item s = elim s [
    | delta_kw ↦ parse_encoding_delta_block r fuel item
    | identifier ↦ parse_encoding_field r fuel
    | _ ↦ unexpected_in r fuel (codes "encoding_node")
  ]

  choice-Takes :
      (d : ℕ) (item : M r.State AstEncodingNode) (s : Symbol)
      → suc d ≤ fuel
      → TakesUpTo r contents law text filename fuel d item
      → Takes r contents law text filename (suc d) (choice item s)
  choice-Takes d item delta_kw h g = parse_encoding_delta_block-Takes d item h g
  choice-Takes d item identifier h g = parse_encoding_field-Takes (suc d) h
  choice-Takes d item _ h g =
      unexpected_in-Takes r contents law text filename fuel (suc d) (codes "encoding_node") h

  -- Every block within a block takes a keyword.
  parse_encoding_node-Takes :
      (depth d : ℕ)
      → d ≤ depth
      → d ≤ fuel
      → Takes r contents law text filename d (parse_encoding_node r depth fuel)
  unfolding parse_encoding_node
  parse_encoding_node-Takes zero d h n = Takes-none _ h
  parse_encoding_node-Takes (suc depth) zero h n = Takes-none _ (omega arith)
  parse_encoding_node-Takes (suc depth) (suc d) h n =
      Stays-Takes (peek-Stays r contents law text filename fuel (suc d) n) λ s.
        choice-Takes d (parse_encoding_node r depth fuel) s n
          (λ e k. parse_encoding_node-Takes depth e (omega arith) (omega arith))

  pub parse_encoding-Takes :
      (d : ℕ) → d ≤ fuel → Takes r contents law text filename d (parse_encoding r fuel)
  unfolding parse_encoding
  parse_encoding-Takes d h = position-Takes r contents law text filename fuel λ at.
      Takes-bind (symbol-Takes r contents law text filename fuel d h encoding_kw (omega arith)) λ _.
        Stays-bind (Takes-Stays (name-Takes r contents law text filename fuel d h)) λ struct_id.
          Stays-bind (parse_encoding_id-Stays d h) λ enco_id. braces-Stays d h _ (
            nodes_until_close-Stays fuel d (parse_encoding_node r fuel fuel) no_nodes h h
              (λ e k. parse_encoding_node-Takes fuel e (omega arith) (omega arith)))
