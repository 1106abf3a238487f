-- ===== src/Happy/Ends/Whole.antt =====
-- `Parser::parse` of tools/happy/src/Parser.cpp ends where every string of the text is closed.
use ian.Prelude.{ℕ, zero, suc, ◌≤◌, ◌<◌, ◌≡◌, refl, inl, [], false, Bytes, length, codes, arith}
use ian.Happy.Ast.{AstRoot}
use ian.Happy.Reader.{
  Symbol, struct_kw, mapping_kw, encoding_kw, eof, Outcome, ok, throws, undefined, out_of_fuel,
  StreamReader, Parser, M, ◌>>=◌,
}
use ian.Happy.Parser.{
  parse_includes, parse_namespace, parse_declarations, parse_document, new_parser, parse,
}
use ian.Happy.View.{Delivers, view}
use ian.Happy.Quotes.{code, open_string}
use ian.Happy.Ends.{At, Told, At-within, Ended, Takes, Stays-bind}
use ian.Happy.Ends.Symbols.{unexpected_in-throws, peek_symbol-Peeked}
use ian.Happy.Ends.Document.{
  parse_includes-Stays, parse_namespace-Stays, parse_declarations-Stays, declaration,
}
use ian.Happy.Places.{Reached}
use ian.Happy.Symbols.{symbol_of}
use ian.Happy.Ends.Declarations.{parse_struct-Takes, parse_mapping-Takes, parse_encoding-Takes}

module _ (r : StreamReader) (contents : r.State → Bytes) (law : Delivers r contents)
    (text filename : Bytes) (fuel : ℕ) where
  -- A step that returns only at the end.
  abbrev AtEof : {A : Type 0} → Outcome (A × Parser r.State) → Type 0
  AtEof (ok (a, q)) = symbol_of (view r contents law q) ≡ eof
  AtEof _ = Unit

  AtEof-bind :
      {A B : Type 0} {d k : ℕ} (x : Outcome (A × Parser r.State)) (f : A → M r.State B)
      → Ended r contents law text filename d k x
      → ((a : A) (q : Parser r.State) → At r contents law text filename d k q → AtEof (f a q))
      → AtEof (elim x [
        | ok (a, q) ↦ f a q
        | throws at why ↦ throws at why
        | undefined ↦ undefined
        | out_of_fuel ↦ out_of_fuel
      ])
  AtEof-bind (ok (a, q)) f h g = g a q h
  AtEof-bind (throws at why) f h g = tt
  AtEof-bind undefined f h g = tt
  AtEof-bind out_of_fuel f h g = tt

  -- Behind a declaration.
  declared :
      {A : Type 0} {d : ℕ} (k : ℕ) {m : M r.State A} (f : A → M r.State AstRoot)
      (q : Parser r.State)
      → Takes r contents law text filename (suc d) m
      → At r contents law text filename (suc d) k q
      → ((a : A) (l : ℕ) (p : Parser r.State)
          → At r contents law text filename d l p
          → AtEof (f a p))
      → AtEof ((m >>= f) q)
  declared zero f q h a g = absurd (omega (arith, a.size))
  declared (suc k) {m} f q h a g =
      let b = a.bound in
      AtEof-bind (m q) f (h.takes k q a)
        (λ x p c. g x k p (At-within r contents law text filename (omega arith) c))

  declaration-AtEof :
      (f d k : ℕ) (root : AstRoot) (s : Symbol) (q : Parser r.State)
      → suc d ≤ fuel
      → symbol_of (view r contents law q) ≡ s
      → At r contents law text filename (suc d) k q
      → ((root' : AstRoot) (l : ℕ) (p : Parser r.State)
          → At r contents law text filename d l p
          → AtEof (parse_declarations r f fuel root' p))
      → AtEof (declaration r contents law text filename fuel f root s q)
  declaration-AtEof f d k root struct_kw q h e a g =
      declared k _ q (parse_struct-Takes r contents law text filename fuel (suc d) h) a (λ x. g _)
  declaration-AtEof f d k root mapping_kw q h e a g =
      declared k _ q (parse_mapping-Takes r contents law text filename fuel (suc d) h) a (λ x. g _)
  declaration-AtEof f d k root encoding_kw q h e a g =
      declared k _ q (parse_encoding-Takes r contents law text filename fuel (suc d) h) a (λ x. g _)
  declaration-AtEof f d k root eof q h e a g = e
  declaration-AtEof f d k root _ q h e a g =
      let (at, why, run, _) =
        unexpected_in-throws r contents law text filename {A = AstRoot} fuel (suc d) k
          (codes "document") q h a in
      rw run tt

  parse_declarations-AtEof :
      (f d k : ℕ) (root : AstRoot) (p : Parser r.State)
      → d ≤ f
      → d ≤ fuel
      → At r contents law text filename d k p
      → AtEof (parse_declarations r f fuel root p)
  unfolding parse_declarations
  parse_declarations-AtEof zero d k root p h n a = absurd (omega (arith, a.size, a.bound))
  parse_declarations-AtEof (suc f) zero k root p h n a = absurd (omega (arith, a.size, a.bound))
  parse_declarations-AtEof (suc f) (suc d) k root p h n a =
      let x = peek_symbol-Peeked r contents law text filename fuel (suc d) k p n a in
      let run = x.run in
      rw (run, ◌>>=◌)
        (declaration-AtEof f d k root (symbol_of (view r contents law x.peeked)) x.peeked n refl
          x.stands
          (λ root' l q b. parse_declarations-AtEof f d l root' q (omega arith) (omega arith) b))

  parse_document-AtEof :
      (p : Parser r.State)
      → At r contents law text filename fuel fuel p
      → AtEof (parse_document r fuel p)
  unfolding parse_document
  parse_document-AtEof p a =
      AtEof-bind (parse_includes r fuel fuel [] p) _
        ((parse_includes-Stays r contents law text filename fuel fuel fuel [] (omega arith)
            (omega arith)).stays
          fuel p a)
        (λ includes q b.
          AtEof-bind (parse_namespace r fuel q) _
            ((parse_namespace-Stays r contents law text filename fuel).stays fuel q b)
            (λ space s c.
              parse_declarations-AtEof fuel fuel fuel _ s (omega arith) (omega arith) c))

  parse_document-Ended :
      (p : Parser r.State)
      → At r contents law text filename fuel fuel p
      → Ended r contents law text filename fuel fuel (parse_document r fuel p)
  unfolding parse_document
  parse_document-Ended p a =
      (Stays-bind
          (parse_includes-Stays r contents law text filename fuel fuel fuel [] (omega arith)
            (omega arith))
          λ includes. Stays-bind (parse_namespace-Stays r contents law text filename fuel) λ space.
            parse_declarations-Stays r contents law text filename fuel fuel fuel _ (omega arith)
              (omega arith)).stays
        fuel p a

  -- A tree is returned at the end of the text only, and an exception names the symbol that stands where it
  -- says.
  abbrev pub Settled : Outcome (AstRoot × Parser r.State) → Type 0
  Settled (ok (root, q)) =
      Reached text filename (view r contents law q) q.pos
      × (symbol_of (view r contents law q) ≡ eof)
  Settled (throws at why) = Told r contents law text filename at why
  Settled undefined = Unit
  Settled out_of_fuel = ⊥

  settled :
      (x : Outcome (AstRoot × Parser r.State))
      → Ended r contents law text filename fuel fuel x
      → AtEof x
      → Settled x
  settled (ok (root, q)) h e = (h.place, e)
  settled (throws at why) h e = h
  settled undefined h e = tt
  settled out_of_fuel h e = h

-- With a reader that keeps its contract, over a text in which every string is closed, and with as many
-- rounds as the text has bytes and one more, `parse` ends, whatever else the text is: it overflows an
-- integer; or it returns a tree, behind all of the text or in front of its first zero outside of strings
-- and comments; or it throws, with the symbol that stands at some place of the text as the unexpected one,
-- with the file and the line of that place. Where strings begin and end is counted outside of comments and
-- up to the first such zero.
pub parse-Settled :
    (r : StreamReader) (contents : r.State → Bytes) (law : Delivers r contents) (fuel : ℕ)
    (filename : Bytes) (reader : r.State)
    → length (contents reader) < fuel
    → open_string code (contents reader) ≡ false
    → Settled r contents law (contents reader) filename fuel (parse r fuel filename reader)
unfolding parse
parse-Settled r contents law fuel filename reader h closed =
    let text = contents reader in
    let start : At r contents law text filename fuel fuel (new_parser r filename reader) = record {
      sound = inl (omega arith);
      cached = inl refl;
      closed = closed;
      size = h;
      place = record { front = []; split = refl; line = refl; file = refl };
      bound = omega arith;
    } in
    settled r contents law text filename fuel (parse r fuel filename reader)
      (parse_document-Ended r contents law text filename fuel _ start)
      (parse_document-AtEof r contents law text filename fuel _ start)
