-- ===== src/Happy/Parser.antt =====
-- The grammar of the schema language: the members of Parser in tools/happy/src/Parser.cpp that read a
-- declaration, and `Parser::parse`. `fuel` bounds the rounds of every loop and the depth of DELTA blocks.
use ian.Prelude.{codes, ℕ, zero, suc, true, false, some, none, List, [], ◌∷◌, ◌++◌, Bytes}
use ian.Happy.Ast.{
  AstQualifiedIdentifier, AstType, AstStructField, AstStruct, AstMappingField, AstMapping,
  AstEncodingNode, AstEncodingNodes, encoding_field, delta_block, no_nodes, node, AstEncoding,
  AstInclude, AstRoot,
}
use ian.Happy.Reader.{
  identifier, namespace_kw, include_kw, struct_kw, mapping_kw, encoding_kw, delta_kw, colon,
  namespace_sep, curly_open, curly_close, bracket_open, bracket_close, eof, invalid, Outcome,
  StreamReader, Parser, M, ◌>>=◌, ◌>>◌, pure, give_up, current_position,
}
use ian.Happy.Lexer.{
  same, peek_symbol, unexpected_in, parse_symbol, parse_identifier, parse_string, parse_integer,
}

abbrev pub default_encoding : Bytes
default_encoding = codes "DEFAULT"

abbrev pub no_identifier : AstQualifiedIdentifier
no_identifier = record { space = []; name = [] }

abbrev pub concat_nodes : AstEncodingNodes → AstEncodingNode → AstEncodingNodes
concat_nodes no_nodes x = node x no_nodes
concat_nodes (node y ys) x = node y (concat_nodes ys x)

module _ (r : StreamReader) where
  -- `while (peek_symbol() != curly_close) fields.emplace_back(item())`
  unfoldable pub until_close : {A : Type 0} → ℕ → ℕ → M r.State A → List A → M r.State (List A)
  until_close zero fuel item fields = give_up
  until_close (suc f) fuel item fields = do
    s ← peek_symbol r fuel
    elim (same s curly_close) [
      | true ↦ pure fields
      | false ↦ do x ← item; until_close f fuel item (fields ++ x ∷ [])
    ]

  -- The loop of `parse_qualified_identifier`, on the last name that was read.
  unfoldable pub qualify : ℕ → ℕ → List Bytes → Bytes → M r.State AstQualifiedIdentifier
  qualify zero fuel space tmp = give_up
  qualify (suc f) fuel space tmp = do
    s ← peek_symbol r fuel
    elim (same s namespace_sep) [
      | false ↦ pure (record { space = space; name = tmp })
      | true ↦ do
        parse_symbol r fuel namespace_sep
        next ← parse_identifier r fuel
        qualify f fuel (space ++ tmp ∷ []) next
    ]

  unfoldable pub parse_qualified_identifier : ℕ → M r.State AstQualifiedIdentifier
  unfolding qualify
  parse_qualified_identifier fuel = do tmp ← parse_identifier r fuel; qualify fuel fuel [] tmp

  unfoldable pub parse_type : ℕ → M r.State AstType
  unfolding parse_qualified_identifier
  parse_type fuel = do
    name ← parse_qualified_identifier fuel
    s ← peek_symbol r fuel
    elim (same s bracket_open) [
      | false ↦ pure (record { identifier = name; is_array = false; array_size = none })
      | true ↦ do
        parse_symbol r fuel bracket_open
        size ← parse_integer r fuel
        parse_symbol r fuel bracket_close
        pure (record { identifier = name; is_array = true; array_size = some size })
    ]

  unfoldable pub parse_include : ℕ → M r.State AstInclude
  parse_include fuel = do
    at ← current_position
    parse_symbol r fuel include_kw
    path ← parse_string r fuel
    pure (record { origin = at; path = path })

  unfoldable pub parse_struct_field : ℕ → M r.State AstStructField
  unfolding parse_type
  parse_struct_field fuel = do
    at ← current_position
    name ← parse_identifier r fuel
    parse_symbol r fuel colon
    type ← parse_type fuel
    pure (record { origin = at; identifier = name; field_type = type })

  unfoldable pub parse_struct : ℕ → M r.State AstStruct
  unfolding parse_struct_field until_close
  parse_struct fuel = do
    at ← current_position
    parse_symbol r fuel struct_kw
    name ← parse_identifier r fuel
    parse_symbol r fuel curly_open
    fields ← until_close fuel fuel (parse_struct_field fuel) []
    parse_symbol r fuel curly_close
    pure (record { origin = at; identifier = name; fields = fields })

  unfoldable pub parse_mapping_field : ℕ → M r.State AstMappingField
  parse_mapping_field fuel = do
    at ← current_position
    name ← parse_identifier r fuel
    parse_symbol r fuel colon
    decl ← parse_string r fuel
    pure (record { origin = at; identifier = name; mapping_decl = decl })

  unfoldable pub parse_mapping : ℕ → M r.State AstMapping
  unfolding parse_mapping_field parse_qualified_identifier until_close
  parse_mapping fuel = do
    at ← current_position
    parse_symbol r fuel mapping_kw
    struct_id ← parse_identifier r fuel
    parse_symbol r fuel colon
    category ← parse_qualified_identifier fuel
    parse_symbol r fuel curly_open
    fields ← until_close fuel fuel (parse_mapping_field fuel) []
    parse_symbol r fuel curly_close
    pure (record { origin = at; struct_id = struct_id; map_category = category; fields = fields })

  -- The name of an encoding behind a colon, or the default one.
  unfoldable pub parse_encoding_id : ℕ → M r.State Bytes
  parse_encoding_id fuel = do
    s ← peek_symbol r fuel
    elim (same s colon) [
      | true ↦ do parse_symbol r fuel colon; parse_identifier r fuel
      | false ↦ pure default_encoding
    ]

  unfoldable pub parse_encoding_field : ℕ → M r.State AstEncodingNode
  unfolding parse_encoding_id
  parse_encoding_field fuel = do
    at ← current_position
    name ← parse_identifier r fuel
    encoding ← parse_encoding_id fuel
    pure (encoding_field at name encoding)

  -- `until_close` over encoding nodes.
  unfoldable pub nodes_until_close :
      ℕ → ℕ → M r.State AstEncodingNode → AstEncodingNodes → M r.State AstEncodingNodes
  nodes_until_close zero fuel item fields = give_up
  nodes_until_close (suc f) fuel item fields = do
    s ← peek_symbol r fuel
    elim (same s curly_close) [
      | true ↦ pure fields
      | false ↦ do x ← item; nodes_until_close f fuel item (concat_nodes fields x)
    ]

  -- `parse_encoding_delta_block`, given `parse_encoding_node`.
  unfoldable pub parse_encoding_delta_block :
      ℕ → M r.State AstEncodingNode → M r.State AstEncodingNode
  unfolding nodes_until_close
  parse_encoding_delta_block fuel item = do
    at ← current_position
    parse_symbol r fuel delta_kw
    s ← peek_symbol r fuel
    elim s [
      | identifier ↦ do x ← item; pure (delta_block at (node x no_nodes))
      | curly_open ↦ do
        parse_symbol r fuel curly_open
        fields ← nodes_until_close fuel fuel item no_nodes
        parse_symbol r fuel curly_close
        pure (delta_block at fields)
      | _ ↦ unexpected_in r fuel (codes "encoding_delta_block")
    ]

  -- The first number bounds the depth of the blocks.
  unfoldable pub parse_encoding_node : ℕ → ℕ → M r.State AstEncodingNode
  unfolding parse_encoding_field parse_encoding_delta_block
  parse_encoding_node zero fuel = give_up
  parse_encoding_node (suc depth) fuel = do
    s ← peek_symbol r fuel
    elim s [
      | delta_kw ↦ parse_encoding_delta_block fuel (parse_encoding_node depth fuel)
      | identifier ↦ parse_encoding_field fuel
      | _ ↦ unexpected_in r fuel (codes "encoding_node")
    ]

  unfoldable pub parse_encoding : ℕ → M r.State AstEncoding
  unfolding parse_encoding_node parse_encoding_id nodes_until_close
  parse_encoding fuel = do
    at ← current_position
    parse_symbol r fuel encoding_kw
    struct_id ← parse_identifier r fuel
    enco_id ← parse_encoding_id fuel
    parse_symbol r fuel curly_open
    fields ← nodes_until_close fuel fuel (parse_encoding_node fuel fuel) no_nodes
    parse_symbol r fuel curly_close
    pure (record { origin = at; struct_id = struct_id; enco_id = enco_id; fields = fields })

  unfoldable pub parse_includes : ℕ → ℕ → List AstInclude → M r.State (List AstInclude)
  unfolding parse_include
  parse_includes zero fuel includes = give_up
  parse_includes (suc f) fuel includes = do
    s ← peek_symbol r fuel
    elim (same s include_kw) [
      | false ↦ pure includes
      | true ↦ do x ← parse_include fuel; parse_includes f fuel (includes ++ x ∷ [])
    ]

  unfoldable pub parse_namespace : ℕ → M r.State AstQualifiedIdentifier
  unfolding parse_qualified_identifier
  parse_namespace fuel = do
    s ← peek_symbol r fuel
    elim (same s namespace_kw) [
      | false ↦ pure no_identifier
      | true ↦ do parse_symbol r fuel namespace_kw; parse_qualified_identifier fuel
    ]

  -- The loop over the declarations.
  unfoldable pub parse_declarations : ℕ → ℕ → AstRoot → M r.State AstRoot
  unfolding parse_struct parse_mapping parse_encoding
  parse_declarations zero fuel root = give_up
  parse_declarations (suc f) fuel root = do
    s ← peek_symbol r fuel
    elim s [
      | struct_kw ↦ do
        x ← parse_struct fuel
        parse_declarations f fuel (record root { struct_decls = root.struct_decls ++ x ∷ [] })
      | mapping_kw ↦ do
        x ← parse_mapping fuel
        parse_declarations f fuel (record root { map_decls = root.map_decls ++ x ∷ [] })
      | encoding_kw ↦ do
        x ← parse_encoding fuel
        parse_declarations f fuel (record root { enco_decls = root.enco_decls ++ x ∷ [] })
      | eof ↦ pure root
      | _ ↦ unexpected_in r fuel (codes "document")
    ]

  unfoldable pub parse_document : ℕ → M r.State AstRoot
  unfolding parse_includes parse_namespace parse_declarations
  parse_document fuel = do
    at ← current_position
    includes ← parse_includes fuel fuel []
    space ← parse_namespace fuel
    parse_declarations fuel fuel (record {
      origin = at;
      includes = includes;
      space = space;
      struct_decls = [];
      map_decls = [];
      enco_decls = [];
    })

  -- The constructor of Parser.
  abbrev pub new_parser : Bytes → r.State → Parser r.State
  new_parser filename reader = record {
    reader = reader;
    pos = record { file = filename; line = 1; column = 0 };
    buffer = [];
    buffer_offset = 0;
    next_symbol = invalid;
  }

  unfoldable pub parse : ℕ → Bytes → r.State → Outcome (AstRoot × Parser r.State)
  unfolding parse_document
  parse fuel filename reader = parse_document fuel (new_parser filename reader)
