-- ===== src/Happy/Ends.antt =====
-- Steps of the schema parser that end, and how they are composed. What a step leaves is measured by the
-- bytes of the text.
use ian.Prelude.{
  ℕ, zero, suc, ◌≤◌, ◌<◌, ◌≡◌, refl, sym, ap, ◌∙◌, ◌⊎◌, inl, inr, Bool, true, false, ◌++◌, Bytes,
  length, arith,
}
use ian.Happy.Ast.{DocumentPosition}
use ian.Happy.Places.{Reached}
use ian.Happy.Reader.{
  Symbol, Reason, expected, context, invalid, Outcome, ok, throws, undefined, out_of_fuel,
  StreamReader, Parser, M, ◌>>=◌, ◌>>◌, pure, trim_opportunity,
}
use ian.Happy.View.{Delivers, view}
use ian.Happy.Advance.{Sound}
use ian.Happy.Symbols.{symbol_of}
use ian.Happy.Quotes.{code, open_string}
pub mod Symbols
pub mod Names
pub mod Integers
pub mod Strings
pub mod Grammar
pub mod Declarations
pub mod Document
pub mod Whole
mod Tests

-- The symbol that an exception calls unexpected.
abbrev pub found : Reason → Symbol
found (expected s wanted) = s
found (context s place) = s

module _ (r : StreamReader) (contents : r.State → Bytes) (law : Delivers r contents)
    (text filename : Bytes) where
  -- Less than `k` bytes are left, in which every string is closed; `k` is within `d`.
  pub record At (d k : ℕ) (p : Parser r.State) : Type 0 where
    pub sound : Sound r contents law p
    pub cached : (p.next_symbol ≡ invalid) ⊎ (p.next_symbol ≡ symbol_of (view r contents law p))
    pub closed : open_string code (view r contents law p) ≡ false
    pub size : length (view r contents law p) < k
    pub place : Reached text filename (view r contents law p) p.pos
    pub bound : k ≤ d

  -- An exception names the symbol that stands where it says.
  pub record Told (at : DocumentPosition) (why : Reason) : Type 0 where
    pub rest : Bytes
    pub place : Reached text filename rest at
    pub named : found why ≡ symbol_of rest

  -- An exception and an overflow end a step as well.
  abbrev pub Ended : {A : Type 0} → ℕ → ℕ → Outcome (A × Parser r.State) → Type 0
  Ended d k (ok (a, q)) = At d k q
  Ended d k (throws at why) = Told at why
  Ended d k undefined = Unit
  Ended d k out_of_fuel = ⊥

  -- A step that ends and takes no byte back, and one that takes a byte as well.
  pub record Stays {A : Type 0} (d : ℕ) (m : M r.State A) : Type 0 where
    pub stays : (k : ℕ) (p : Parser r.State) → At d k p → Ended d k (m p)

  pub record Takes {A : Type 0} (d : ℕ) (m : M r.State A) : Type 0 where
    pub takes : (k : ℕ) (p : Parser r.State) → At d (suc k) p → Ended d k (m p)

  pub At-more : {d k l : ℕ} {p : Parser r.State} → k ≤ l → l ≤ d → At d k p → At d l p
  At-more h h' a = record {
    sound = a.sound;
    cached = a.cached;
    closed = a.closed;
    place = a.place;
    size = omega (arith, a.size);
    bound = h';
  }

  pub At-within : {d e k : ℕ} {p : Parser r.State} → k ≤ e → At d k p → At e k p
  At-within h a = record {
    sound = a.sound;
    cached = a.cached;
    closed = a.closed;
    place = a.place;
    size = a.size;
    bound = h;
  }

  Ended-more :
      {A : Type 0} {d k l : ℕ} (x : Outcome (A × Parser r.State))
      → k ≤ l
      → l ≤ d
      → Ended d k x
      → Ended d l x
  Ended-more (ok (a, q)) h h' e = At-more h h' e
  Ended-more (throws at why) h h' e = e
  Ended-more undefined h h' e = tt
  Ended-more out_of_fuel h h' e = e

  Ended-within :
      {A : Type 0} (d : ℕ) {e k : ℕ} (x : Outcome (A × Parser r.State))
      → k ≤ e
      → Ended d k x
      → Ended e k x
  Ended-within d (ok (a, q)) h w = At-within h w
  Ended-within d (throws at why) h w = w
  Ended-within d undefined h w = tt
  Ended-within d out_of_fuel h w = w

  Ended-bind :
      {A B : Type 0} {d k : ℕ} (e l : ℕ) (x : Outcome (A × Parser r.State)) (f : A → M r.State B)
      → Ended d k x
      → ((a : A) (q : Parser r.State) → At d k q → Ended e l (f a q))
      → Ended e l (elim x [
        | ok (a, q) ↦ f a q
        | throws at why ↦ throws at why
        | undefined ↦ undefined
        | out_of_fuel ↦ out_of_fuel
      ])
  Ended-bind e l (ok (a, q)) f h g = g a q h
  Ended-bind e l (throws at why) f h g = h
  Ended-bind e l undefined f h g = tt
  Ended-bind e l out_of_fuel f h g = h

module _ {r : StreamReader} {contents : r.State → Bytes} {law : Delivers r contents}
    {text filename : Bytes} where
  Takes-more :
      {A : Type 0} {d : ℕ} {m : M r.State A}
      → Takes r contents law text filename d m
      → (k : ℕ) (p : Parser r.State) → At r contents law text filename d k p
      → Ended r contents law text filename d k (m p)
  Takes-more h zero p a = absurd (omega (arith, a.size))
  Takes-more {m} h (suc k) p a =
      Ended-more r contents law text filename (m p) (omega arith) a.bound (h.takes k p a)

  pub Takes-Stays :
      {A : Type 0} {d : ℕ} {m : M r.State A}
      → Takes r contents law text filename d m
      → Stays r contents law text filename d m
  Takes-Stays h = record { stays = λ k p a. Takes-more h k p a }

  module _ {A B : Type 0} {d : ℕ} {m : M r.State A} {f : A → M r.State B} where
    pub Stays-bind :
        Stays r contents law text filename d m
        → ((a : A) → Stays r contents law text filename d (f a))
        → Stays r contents law text filename d (m >>= f)
    Stays-bind h g = record {
      stays = λ k p a.
          Ended-bind r contents law text filename d k (m p) f (h.stays k p a)
            (λ x q b. (g x).stays k q b);
    }

    pub Takes-bind :
        Takes r contents law text filename d m
        → ((a : A) → Stays r contents law text filename d (f a))
        → Takes r contents law text filename d (m >>= f)
    Takes-bind h g = record {
      takes = λ k p a.
          Ended-bind r contents law text filename d k (m p) f (h.takes k p a)
            (λ x q b. (g x).stays k q b);
    }

    pub Stays-Takes :
        Stays r contents law text filename d m
        → ((a : A) → Takes r contents law text filename d (f a))
        → Takes r contents law text filename d (m >>= f)
    Stays-Takes h g = record {
      takes = λ k p a.
          Ended-bind r contents law text filename d k (m p) f (h.stays (suc k) p a)
            (λ x q b. (g x).takes k q b);
    }

    -- Behind a byte there is less left to take.
    pub Takes-within :
        Takes r contents law text filename (suc d) m
        → ((a : A) → Stays r contents law text filename d (f a))
        → Takes r contents law text filename (suc d) (m >>= f)
    Takes-within h g = record {
      takes = λ k p a.
          let b : k ≤ d = omega (arith, a.bound) in
          Ended-bind r contents law text filename (suc d) k (m p) f (h.takes k p a) (λ x q c.
            Ended-within r contents law text filename d (f x q) (omega arith)
              ((g x).stays k q (At-within r contents law text filename b c)));
    }

  -- Nothing stands within no bytes.
  pub Stays-none :
      {A : Type 0} {d : ℕ} (m : M r.State A) → d ≤ 0 → Stays r contents law text filename d m
  Stays-none m h = record { stays = λ k p a. absurd (omega (arith, a.size, a.bound)) }

  pub Takes-none :
      {A : Type 0} {d : ℕ} (m : M r.State A) → d ≤ 0 → Takes r contents law text filename d m
  Takes-none m h = record { takes = λ k p a. absurd (omega (arith, a.size, a.bound)) }

  pub Stays-pure : {A : Type 0} {d : ℕ} (x : A) → Stays r contents law text filename d (pure x)
  Stays-pure x = record { stays = λ k p a. a }

  module _ {A : Type 0} {d : ℕ} {m n : M r.State A} where
    pub Stays-if :
        (b : Bool)
        → Stays r contents law text filename d m
        → Stays r contents law text filename d n
        → Stays r contents law text filename d (elim b [ true ↦ m | false ↦ n ])
    Stays-if true h g = h
    Stays-if false h g = g
