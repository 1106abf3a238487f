-- ===== src/Happy/Printed.antt =====
-- What tools/happy/src/Parser.cpp makes of a root that AstPrint.hpp printed.

use ian.Prelude.{
  ℕ, zero, suc, ◌<◌, ◌≡◌, ◌⊎◌, refl, ap, ◌∙◌, inl, inr, false, Option, List, [], ◌∷◌, ◌++◌,
  append_assoc, Bytes, length, arith, All, codes, ℤ,
}
use ian.Happy.Ast.{AstQualifiedIdentifier, AstStruct, AstInclude, AstRoot, DocumentPosition}
use ian.Happy.Reader.{
  Symbol, identifier, namespace_kw, include_kw, context, StreamReader, Parser, Outcome, ok, throws,
  ◌>>=◌, ◌>>◌, next_line, next_column,
}
use ian.Happy.Lexer.{
  is_digit, is_letter, is_word, sign, same, keyword, peek_symbol, unexpected_in, parse_symbol,
}
use ian.Happy.Parser.{
  parse_includes, parse_namespace, parse_declarations, parse_document, parse, new_parser,
  parse_qualified_identifier, no_identifier,
}
use ian.Happy.View.{Delivers}
use ian.Happy.Print.{
  print_qualified_identifier, print_fields, print_structs, print_namespace, print_root,
}
use ian.Happy.Tokens.{Fresh, Peeks, Peeks-peeked, Fresh-Peeks, parse_symbol-Fresh}
use ian.Happy.Words.{IsName, IsName-symbol_of, IsName-skip_blank, print_spaces-skip_blank}
use ian.Happy.Names.{Ends, parse_qualified_identifier-print}

module _ (r : StreamReader) where
  parse_includes_none :
      (f fuel : ℕ) (includes : List AstInclude) (s : Symbol) (p q : Parser r.State)
      → peek_symbol r fuel p ≡ ok (s, q)
      → same s include_kw ≡ false
      → parse_includes r (suc f) fuel includes p ≡ ok (includes, q)
  unfolding parse_includes
  parse_includes_none f fuel includes s p q h e = rw (h, e, parse_includes, ◌>>=◌) refl

  parse_namespace_none :
      (fuel : ℕ) (s : Symbol) (p q : Parser r.State)
      → peek_symbol r fuel p ≡ ok (s, q)
      → same s namespace_kw ≡ false
      → parse_namespace r fuel p ≡ ok (no_identifier, q)
  unfolding parse_namespace
  parse_namespace_none fuel s p q h e = rw (h, e, parse_namespace, ◌>>=◌) refl

  parse_namespace_some :
      (fuel : ℕ) (id : AstQualifiedIdentifier) (p q q' q'' : Parser r.State)
      → peek_symbol r fuel p ≡ ok (namespace_kw, q)
      → parse_symbol r fuel namespace_kw q ≡ ok (tt, q')
      → parse_qualified_identifier r fuel q' ≡ ok (id, q'')
      → parse_namespace r fuel p ≡ ok (id, q'')
  unfolding parse_namespace
  parse_namespace_some fuel id p q q' q'' h g k = rw (h, g, k, parse_namespace, ◌>>=◌, ◌>>◌) refl

  parse_declarations_identifier :
      (f fuel : ℕ) (root : AstRoot) (p q : Parser r.State)
      → peek_symbol r fuel p ≡ ok (identifier, q)
      → peek_symbol r fuel q ≡ ok (identifier, q)
      → parse_declarations r (suc f) fuel root p
        ≡ throws q.pos (context identifier (codes "document"))
  unfolding parse_declarations unexpected_in
  parse_declarations_identifier f fuel root p q h g =
      rw (h, g, parse_declarations, unexpected_in, ◌>>=◌) refl

-- The word that the printer writes in front of a structure is a name.
data-IsName : IsName (codes "DATA")
unfolding is_letter is_word is_digit keyword
data-IsName = (refl, (refl, (refl, (refl, tt))), refl)

module _ (r : StreamReader) (contents : r.State → Bytes) (law : Delivers r contents)
    (show : Option ℤ → Bytes) where
  -- What the printer writes of some structures behind that word.
  abbrev behind_data : AstStruct → List AstStruct → Bytes
  behind_data d ds =
      b' '
      ∷ ((d.identifier ++ (codes "\n{\n" ++ (print_fields show d.fields ++ codes "}")))
          ++ (b'\n' ∷ print_structs show ds))

  -- Where a name comes next, the loop over the declarations gives up.
  abbrev Rejects : {A : Type 0} → Outcome A → Type 0
  Rejects result =
      (at : DocumentPosition) × (result ≡ throws at (context identifier (codes "document")))

  structs-Ends :
      (fuel : ℕ) (d : AstStruct) (ds : List AstStruct)
      → Ends r contents law fuel identifier
          (b'\n' ∷ print_structs show (d ∷ ds))
          (print_structs show (d ∷ ds))
  unfolding is_letter is_word is_digit
  structs-Ends fuel d ds = record {
    ends_word = refl;
    behind = λ at. IsName-skip_blank (codes "DATA") (behind_data d ds) data-IsName (next_line at);
    symbol = IsName-symbol_of (codes "DATA") (behind_data d ds) data-IsName refl;
    no_dot = refl;
    valid = refl;
  }

  -- The namespace that a printed root has: none, or one of names that are no keywords.
  abbrev pub Printable : AstQualifiedIdentifier → Type 0
  Printable space = (space.name ≡ []) ⊎ (All IsName space.space × IsName space.name)

  document-Rejects :
      (f : ℕ) (v : Bytes) (s : Symbol) (space : AstQualifiedIdentifier) (p q q' : Parser r.State)
      → peek_symbol r (suc f) p ≡ ok (s, q)
      → same s include_kw ≡ false
      → parse_namespace r (suc f) q ≡ ok (space, q')
      → Peeks r contents law (suc f) identifier v q'
      → Rejects (parse_document r (suc f) p)
  unfolding parse_document
  document-Rejects f v s space p q q' h e g k = (
    k.peeked.pos,
    rw (parse_includes_none r f (suc f) [] s p q h e, g, ◌>>=◌)
        (parse_declarations_identifier r f (suc f)
          (record {
            origin = p.pos;
            includes = [];
            space = space;
            struct_decls = [];
            map_decls = [];
            enco_decls = [];
          })
          q' k.peeked k.peeks k.again),
  )

  document_at_structs :
      (fuel : ℕ) (d : AstStruct) (ds : List AstStruct) (p : Parser r.State)
      → Fresh r contents law (print_structs show (d ∷ ds)) p
      → length (print_structs show (d ∷ ds)) < fuel
      → Rejects (parse_document r fuel p)
  document_at_structs zero d ds p fresh k = absurd (omega arith)
  document_at_structs (suc f) d ds p fresh k =
      let v = print_structs show (d ∷ ds) in
      let x =
        Fresh-Peeks r contents law (suc f) identifier v v p fresh k
          (IsName-skip_blank (codes "DATA") (behind_data d ds) data-IsName)
          (structs-Ends (suc f) d ds).symbol refl in
      document-Rejects f v identifier no_identifier p x.peeked x.peeked x.peeks refl
        (parse_namespace_none r (suc f) identifier x.peeked x.peeked x.again refl)
        (Peeks-peeked r contents law (suc f) identifier v p x)

  document_at_namespace :
      (fuel : ℕ) (space : AstQualifiedIdentifier) (d : AstStruct) (ds : List AstStruct)
      (p : Parser r.State)
      → All IsName space.space
      → IsName space.name
      → let w =
          codes "NAMESPACE "
          ++ (print_qualified_identifier space ++ (b'\n' ∷ print_structs show (d ∷ ds))) in
        Fresh r contents law w p → length w < fuel → Rejects (parse_document r fuel p)
  document_at_namespace zero space d ds p all n fresh k = absurd (omega arith)
  document_at_namespace (suc f) space d ds p all n fresh k =
      let e = structs-Ends (suc f) d ds in
      let v = print_structs show (d ∷ ds) in
      let name = print_qualified_identifier space ++ (b'\n' ∷ v) in
      let x =
        Fresh-Peeks r contents law (suc f) namespace_kw _ (codes "NAMESPACE" ++ (b' ' ∷ name)) p
          fresh k (λ at. refl) (unfold is_letter is_word is_digit keyword sign in refl) refl in
      let (q, run, fresh') =
        parse_symbol-Fresh r contents law (suc f) namespace_kw (codes "NAMESPACE") (b' ' ∷ name)
          x.peeked (Peeks-peeked r contents law (suc f) namespace_kw _ p x) refl in
      let (q', run', y) =
        parse_qualified_identifier-print r contents law space (b' ' ∷ name) (b'\n' ∷ v) v identifier
          (suc f) q all n e fresh'
          (λ at. print_spaces-skip_blank space.space space.name (b'\n' ∷ v) (next_column at) all n)
          (omega arith) in
      document-Rejects f v namespace_kw space p x.peeked q' x.peeks refl
        (parse_namespace_some r (suc f) space x.peeked x.peeked q q' x.again run run') y

  begin-Fresh :
      (filename : Bytes) (reader : r.State) (w : Bytes)
      → contents reader ≡ w
      → Fresh r contents law w (new_parser r filename reader)
  begin-Fresh filename reader w e = record {
    sound = inl (omega arith);
    left = e;
    none_cached = refl;
  }

  namespace_cases :
      (space : AstQualifiedIdentifier)
      → Printable space
      → (print_namespace space ≡ [])
        ⊎ (All IsName space.space
            × IsName space.name
            × (print_namespace space
                ≡ codes "NAMESPACE " ++ (print_qualified_identifier space ++ (b'\n' ∷ []))))
  namespace_cases space (inl none_) = inl (rw none_ refl)
  namespace_cases space (inr (all, n)) = go space.name n refl
    where
      go :
          (name : Bytes)
          → IsName name
          → space.name ≡ name
          → (print_namespace space ≡ [])
            ⊎ (All IsName space.space
                × IsName space.name
                × (print_namespace space
                    ≡ codes "NAMESPACE " ++ (print_qualified_identifier space ++ (b'\n' ∷ []))))
      go [] h e = absurd h
      go (c ∷ cs) h e = inr (all, n, rw e refl)

  -- With a reader that keeps its contract: a root without includes and with a structure, whose namespace is
  -- empty or of names that are no keywords, does not parse as it is printed. If given more rounds than it
  -- has bytes, `parse` throws an exception, that an identifier was unexpected in the document.
  pub print_root-throws :
      (root : AstRoot) (d : AstStruct) (ds : List AstStruct) (fuel : ℕ) (filename : Bytes)
      (reader : r.State)
      → root.includes ≡ []
      → root.struct_decls ≡ d ∷ ds
      → Printable root.space
      → contents reader ≡ print_root show root
      → length (print_root show root) < fuel
      → (at : DocumentPosition) × (parse r fuel filename reader
          ≡ throws at (context identifier (codes "document")))
  unfolding parse parse_document
  print_root-throws root d ds fuel filename reader i s space e k =
      let text : print_root show root ≡ print_namespace root.space ++ print_structs show (d ∷ ds) =
        rw (i, s) refl in
      elim (namespace_cases root.space space) [
        | inl none_ ↦
            let w : print_root show root ≡ print_structs show (d ∷ ds) =
              text ∙ ap (λ t. t ++ print_structs show (d ∷ ds)) none_ in
            document_at_structs fuel d ds (new_parser r filename reader)
              (begin-Fresh filename reader _ (e ∙ w)) (omega (arith, ap length w))
        | inr (all, n, some_) ↦
            let q = print_qualified_identifier root.space in
            let w : print_root show root
                ≡ codes "NAMESPACE " ++ (q ++ (b'\n' ∷ print_structs show (d ∷ ds))) =
              text
              ∙ ap (λ t. t ++ print_structs show (d ∷ ds)) some_
              ∙ ap (λ t. codes "NAMESPACE " ++ t)
                  (append_assoc q (b'\n' ∷ []) (print_structs show (d ∷ ds))) in
            document_at_namespace fuel root.space d ds (new_parser r filename reader) all n
              (begin-Fresh filename reader _ (e ∙ w)) (omega (arith, ap length w))
      ]
