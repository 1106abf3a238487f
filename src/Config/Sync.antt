-- ===== src/Config/Sync.antt =====
-- The values of the configuration against the tree that was loaded last.
use ian.Prelude.{
  ℕ, ◌≡◌, refl, sym, ap, ◌∙◌, inl, inr, Bool, true, false, ◌||◌, not, ◌&&◌, Option, none, some,
  List, [], ◌∷◌, Bytes, ℤ, ◌==◌, Bool-cases, Option-cases, arith,
}
use ian.Config.Value.{
  PropertyTree, ConfigValue, Listener, bool_value, string_value, int_value, Store, write, insert,
  erase, State, Request, bool_request, string_request, int_request, constructed, on_update,
  register, construct, copy, destroy, invoke_config_listeners, load, initial,
}

abbrev has : ℕ → List ℕ → Bool
has a [] = false
has a (b ∷ bs) = a == b || has a bs

has-insert : (a b : ℕ) (bs : List ℕ) → has a (insert b bs) ≡ (a == b || has a bs)
unfolding insert
has-insert a b [] = refl
has-insert a b (c ∷ cs) = ground (arith, has-insert a b cs)

has-erase : (a b : ℕ) (bs : List ℕ) → has a (erase b bs) ≡ (not (a == b) && has a bs)
unfolding erase
has-erase a b [] = ground arith
has-erase a b (c ∷ cs) = ground (arith, has-erase a b cs)

abbrev is_some {ℓ} : {A : Type ℓ} → Option A → Bool
is_some none = false
is_some (some a) = true

module _ (P : PropertyTree) where
  open P use {Tree, get_bool, get_string, get_int}

  -- The value of an object is what its path and its default give in a tree.
  pub data Current (t : Tree) : Listener → Type 0 where
    bools :
        (v : ConfigValue Bool)
        → v.value ≡ get_bool t v.path v.default_val
        → Current t (bool_value v)
    strings :
        (v : ConfigValue Bytes)
        → v.value ≡ get_string t v.path v.default_val
        → Current t (string_value v)
    ints : (v : ConfigValue ℤ) → v.value ≡ get_int t v.path v.default_val → Current t (int_value v)

  -- The path and the default of an object, at its type.
  abbrev pub asked : Listener → Request
  asked (bool_value v) = bool_request v.path v.default_val
  asked (string_value v) = string_request v.path v.default_val
  asked (int_value v) = int_request v.path v.default_val

  on_update-Current : (t : Tree) (o : Listener) → Current t (on_update P t o)
  unfolding on_update
  on_update-Current t (bool_value v) = bools _ refl
  on_update-Current t (string_value v) = strings _ refl
  on_update-Current t (int_value v) = ints _ refl

  asked-on_update : (t : Tree) (o : Listener) → asked (on_update P t o) ≡ asked o
  unfolding on_update
  asked-on_update t (bool_value v) = refl
  asked-on_update t (string_value v) = refl
  asked-on_update t (int_value v) = refl

  on_update_again :
      (t t' : Tree) (o : Listener) → on_update P t (on_update P t' o) ≡ on_update P t o
  unfolding on_update
  on_update_again t t' (bool_value v) = refl
  on_update_again t t' (string_value v) = refl
  on_update_again t t' (int_value v) = refl

  -- What an update of some listeners makes of an object.
  abbrev updated : Tree → Bool → Option Listener → Option Listener
  updated t true (some o) = some (on_update P t o)
  updated t _ o = o

  abbrev pub asked_of : Option Listener → Option Request
  asked_of none = none
  asked_of (some o) = some (asked o)

  asked-updated :
      (t : Tree) (listed : Bool) (o : Option Listener) → asked_of (updated t listed o) ≡ asked_of o
  asked-updated t true (some o) = ap some (asked-on_update t o)
  asked-updated t false (some o) = refl
  asked-updated t true none = refl
  asked-updated t false none = refl

  still_live :
      (x : ℕ) (xs : List ℕ) (h : Store) (o' : Listener) (a : ℕ)
      → ((b : ℕ) → has b (x ∷ xs) ≡ true → is_some (h b) ≡ true)
      → has a xs ≡ true
      → is_some (write x (some o') h a) ≡ true
  still_live x xs h o' a e q = let there = e a (ground arith) in ground arith

  same_address : (a b : ℕ) → (a == b) ≡ true → a ≡ b
  same_address a b h = ground arith

  is_some-updated :
      (t : Tree) (listed : Bool) (o : Option Listener) → is_some (updated t listed o) ≡ is_some o
  is_some-updated t true (some o) = refl
  is_some-updated t false (some o) = refl
  is_some-updated t true none = refl
  is_some-updated t false none = refl

  updated-Current :
      (t : Tree) (listed : Bool) (x : Option Listener) (o : Listener)
      → listed ≡ is_some x
      → updated t listed x ≡ some o
      → Current t o
  updated-Current t true (some x) o e h =
      let q : o ≡ on_update P t x = cc in rw q (on_update-Current t x)
  updated-Current t false (some x) o e h = cc
  updated-Current t true none o e h = cc
  updated-Current t false none o e h = cc

  updated_twice :
      (t : Tree) (x : ℕ) (o : Listener) (h : Store)
      → h x ≡ some o
      → (a : ℕ) (listed : Bool)
      → updated t listed (write x (some (on_update P t o)) h a) ≡ updated t (a == x || listed) (h a)
  updated_twice t x o h p a true = elim (Bool-cases (a == x)) [
    | inl same ↦
        let q : h a ≡ some o = ap h (same_address a x same) ∙ p in
        rw (same, q, on_update_again t t o)
    | inr other ↦ rw other
  ]
  updated_twice t x o h p a false = elim (Bool-cases (a == x)) [
    | inl same ↦ let q : h a ≡ some o = ap h (same_address a x same) ∙ p in rw (same, q)
    | inr other ↦ rw other
  ]

  invoke-updated :
      (t : Tree) (ls : List ℕ) (h : Store)
      → ((a : ℕ) → has a ls ≡ true → is_some (h a) ≡ true)
      → (h' : Store) × (invoke_config_listeners P t ls h ≡ some h')
        × ((a : ℕ) → h' a ≡ updated t (has a ls) (h a))
  unfolding invoke_config_listeners
  invoke-updated t [] h e = (h, refl, λ a. refl)
  invoke-updated t (x ∷ xs) h e = elim (Option-cases (h x)) [
    | inl gone ↦ absurd (let here = e x (ground arith) in ground arith)
    | inr (o, p) ↦
        let h₁ = write x (some (on_update P t o)) h in
        let (h', run, all) =
          invoke-updated t xs h₁ (λ a q. still_live x xs h (on_update P t o) a e q) in
        (h', rw (p, invoke_config_listeners) run, λ a. all a ∙ updated_twice t x o h p a (has a xs))
  ]

  -- Every object is registered, and is what its path and its default give in the tree.
  pub record InSync (s : State P) : Type 0 where
    pub registered : (a : ℕ) → has a s.listeners ≡ is_some (s.objects a)
    pub current : (a : ℕ) (o : Listener) → s.objects a ≡ some o → Current s.config_tree o

  -- One operation on the configuration, at an address that is free or taken as the language wants it.
  pub data Step : State P → State P → Type 0 where
    constructs :
        {s : State P} (a : ℕ) (request : Request)
        → s.objects a ≡ none
        → Step s (construct P a request s)
    copies :
        {s : State P} (a b : ℕ) (o : Listener)
        → s.objects a ≡ none
        → s.objects b ≡ some o
        → Step s (copy P a o s)
    destroys : {s : State P} (a : ℕ) → Step s (destroy P a s)
    loads :
        {s s' : State P} (read : Option Tree) (done : Bool)
        → load P read s ≡ some (s', done)
        → Step s s'

  pub data Steps (s : State P) : State P → Type 0 where
    here : Steps s s
    next : {s' s'' : State P} → Steps s s' → Step s' s'' → Steps s s''

  initial-InSync : InSync (initial P)
  initial-InSync = record { registered = λ a. refl; current = λ a o e. cc }

  constructed-Current : (t : Tree) (request : Request) → Current t (constructed P request t)
  constructed-Current t (bool_request path d) = bools _ refl
  constructed-Current t (string_request path d) = strings _ refl
  constructed-Current t (int_request path d) = ints _ refl

  register-InSync :
      (a : ℕ) (o : Listener) (s : State P)
      → Current s.config_tree o
      → InSync s
      → InSync (register P a o s)
  register-InSync a o s e v = record {
    registered = λ b. ground (arith, has-insert b a s.listeners, v.registered b);
    current = λ b o' p. elim (Bool-cases (b == a)) [
      | inl same ↦ let q : o ≡ o' = ground arith in rw (← q) e
      | inr other ↦ v.current b o' (ground arith)
    ];
  }

  destroy-InSync : (a : ℕ) (s : State P) → InSync s → InSync (destroy P a s)
  unfolding destroy
  destroy-InSync a s v = record {
    registered = λ b. ground (arith, has-erase b a s.listeners, v.registered b);
    current = λ b o p. v.current b o (ground arith);
  }

  -- A load returns, and what it does to each object.
  load-InSync :
      (read : Option Tree) (s : State P)
      → InSync s
      → (s' : State P) × (done : Bool) × (load P read s ≡ some (s', done))
        × InSync s'
        × ((a : ℕ) → asked_of (s'.objects a) ≡ asked_of (s.objects a))
  unfolding load
  load-InSync none s v = (s, false, refl, v, λ a. refl)
  load-InSync (some t) s v =
      let (h, run, all) =
        invoke-updated t s.listeners s.objects (λ a e. sym (v.registered a) ∙ e) in
      (
        record s { config_tree = t; objects = h },
        true,
        rw (run, load),
        record {
          registered = λ a.
              v.registered a
              ∙ sym (is_some-updated t (has a s.listeners) (s.objects a))
              ∙ ap is_some (sym (all a));
          current = λ a o p.
              updated-Current t (has a s.listeners) (s.objects a) o (v.registered a)
                (sym (all a) ∙ p);
        },
        λ a. ap asked_of (all a) ∙ asked-updated t (has a s.listeners) (s.objects a),
      )

  Step-InSync : {s s' : State P} → InSync s → Step s s' → InSync s'
  unfolding construct copy
  Step-InSync v (constructs {s = s} a request free) =
      register-InSync a _ s (constructed-Current s.config_tree request) v
  Step-InSync v (copies {s = s} a b o free e) = register-InSync a o s (v.current b o e) v
  Step-InSync v (destroys {s = s} a) = destroy-InSync a s v
  Step-InSync v (loads {s = s} {s' = s'} read done e) =
      let (s'', done', e', w, _) = load-InSync read s v in let same : s' ≡ s'' = cc in rw same w

  -- Whatever values were constructed, copied and destroyed and whatever files were loaded, or failed to
  -- load, before: every value that exists is a listener, and what it holds is what its path and its default
  -- give, at its type, in the tree that was loaded last; and a further load never calls an object that is
  -- gone, after which the same holds and the same values exist, with their paths and defaults.
  pub Steps-InSync :
      {s : State P} (read : Option Tree)
      → Steps (initial P) s
      → InSync s
        × ((s' : State P) × (done : Bool) × (load P read s ≡ some (s', done))
            × InSync s'
            × ((a : ℕ) → asked_of (s'.objects a) ≡ asked_of (s.objects a)))
  Steps-InSync {s = s} read r = let v = go r in (v, load-InSync read s v)
    where
      go : {s : State P} → Steps (initial P) s → InSync s
      go here = initial-InSync
      go (next r st) = Step-InSync (go r) st
