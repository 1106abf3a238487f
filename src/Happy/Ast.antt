-- ===== src/Happy/Ast.antt =====
-- The syntax tree of the schema compiler: tools/happy/src/Ast.hpp. A string is its bytes.
use ian.Prelude.{ℕ, Bool, Option, List, Bytes, ℤ}

pub record DocumentPosition : Type 0 where
  pub file : Bytes
  pub line : ℕ
  pub column : ℕ

pub record AstQualifiedIdentifier : Type 0 where
  pub space : List Bytes
  pub name : Bytes

-- `array_size` is not initialised where `is_array` is false.
pub record AstType : Type 0 where
  pub identifier : AstQualifiedIdentifier
  pub is_array : Bool
  pub array_size : Option ℤ

pub record AstStructField : Type 0 where
  pub origin : DocumentPosition
  pub identifier : Bytes
  pub field_type : AstType

pub record AstStruct : Type 0 where
  pub origin : DocumentPosition
  pub identifier : Bytes
  pub fields : List AstStructField

pub record AstMappingField : Type 0 where
  pub origin : DocumentPosition
  pub identifier : Bytes
  pub mapping_decl : Bytes

pub record AstMapping : Type 0 where
  pub origin : DocumentPosition
  pub struct_id : Bytes
  pub map_category : AstQualifiedIdentifier
  pub fields : List AstMappingField

-- The subclasses of `AstEncodingNode`, and the vectors of such nodes.
mutual
  pub data AstEncodingNode : Type 0 where
    encoding_field : DocumentPosition → Bytes → Bytes → AstEncodingNode
    delta_block : DocumentPosition → AstEncodingNodes → AstEncodingNode

  pub data AstEncodingNodes : Type 0 where
    no_nodes : AstEncodingNodes
    node : AstEncodingNode → AstEncodingNodes → AstEncodingNodes

pub record AstEncoding : Type 0 where
  pub origin : DocumentPosition
  pub struct_id : Bytes
  pub enco_id : Bytes
  pub fields : AstEncodingNodes

pub record AstInclude : Type 0 where
  pub origin : DocumentPosition
  pub path : Bytes

pub record AstRoot : Type 0 where
  pub origin : DocumentPosition
  pub includes : List AstInclude
  pub space : AstQualifiedIdentifier
  pub struct_decls : List AstStruct
  pub map_decls : List AstMapping
  pub enco_decls : List AstEncoding
