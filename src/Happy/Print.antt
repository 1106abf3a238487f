-- ===== src/Happy/Print.antt =====
-- The printer of the schema compiler: tools/happy/src/AstPrint.hpp, each operator as the bytes that it
-- writes. How a stream writes a number is a parameter; `none` is the size that is not initialised.
use ian.Prelude.{List, [], ◌∷◌, ◌++◌, Bytes, Option, ℤ, codes, if◌then◌else◌, Bool, true, false}
use ian.Happy.Ast.{AstQualifiedIdentifier, AstType, AstStructField, AstStruct, AstInclude, AstRoot}

abbrev pub print_spaces : List Bytes → Bytes → Bytes
print_spaces [] name = name
print_spaces (x ∷ xs) name = x ++ (b'.' ∷ print_spaces xs name)

abbrev pub print_qualified_identifier : AstQualifiedIdentifier → Bytes
print_qualified_identifier id = print_spaces id.space id.name

abbrev pub print_include : AstInclude → Bytes
print_include inc = codes "INCLUDE '" ++ (inc.path ++ codes "'")

abbrev is_empty : Bytes → Bool
is_empty [] = true
is_empty _ = false

abbrev pub print_includes : List AstInclude → Bytes
print_includes [] = []
print_includes (i ∷ is) = print_include i ++ (b'\n' ∷ print_includes is)

abbrev pub print_namespace : AstQualifiedIdentifier → Bytes
print_namespace space =
    if is_empty space.name
    then []
    else codes "NAMESPACE " ++ (print_qualified_identifier space ++ (b'\n' ∷ []))

module _ (show : Option ℤ → Bytes) where
  abbrev pub print_type : AstType → Bytes
  print_type type =
      print_qualified_identifier type.identifier
      ++ (if type.is_array then b'[' ∷ (show type.array_size ++ codes "]") else [])

  abbrev pub print_struct_field : AstStructField → Bytes
  print_struct_field field = field.identifier ++ (codes ": " ++ print_type field.field_type)

  abbrev pub print_fields : List AstStructField → Bytes
  print_fields [] = []
  print_fields (f ∷ fs) = b' ' ∷ (print_struct_field f ++ (b'\n' ∷ print_fields fs))

  abbrev pub print_struct : AstStruct → Bytes
  print_struct data_ =
      codes "DATA "
      ++ (data_.identifier ++ (codes "\n{\n" ++ (print_fields data_.fields ++ codes "}")))

  abbrev pub print_structs : List AstStruct → Bytes
  print_structs [] = []
  print_structs (d ∷ ds) = print_struct d ++ (b'\n' ∷ print_structs ds)

  abbrev pub print_root : AstRoot → Bytes
  print_root root =
      print_includes root.includes
      ++ (print_namespace root.space ++ print_structs root.struct_decls)
