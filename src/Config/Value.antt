-- ===== src/Config/Value.antt =====
-- Configuration values and their listeners: Config.cpp, ConfigValue.cpp, ConfigListener.cpp and
-- ConfigListeners.cpp of server/common/src/config, with their headers.
-- A value registers itself, by its address, in the set of listeners when it is constructed, and a load of
-- the file has every listener look its path up again. The objects are in a store from addresses, and
-- the mutex of the set is not modelled: the operations here run one after another.
use ian.Prelude.{
  ℕ, Bool, true, false, Option, none, some, List, [], ◌∷◌, Bytes, ltb, ◌==◌, if◌then◌else◌, ℤ,
}

-- boost::property_tree::ptree, and `get` with a default at each type. `child_keys` are the keys of the
-- children of a node, in their order, and none where there is no such node.
pub record PropertyTree : Type 1 where
  pub Tree : Type 0
  pub empty : Tree
  pub get_bool : Tree → Bytes → Bool → Bool
  pub get_string : Tree → Bytes → Bytes → Bytes
  pub get_int : Tree → Bytes → ℤ → ℤ
  pub child_keys : Tree → Bytes → List Bytes

-- The three classes have the same members.
pub record ConfigValue (A : Type 0) : Type 0 where
  pub path : Bytes
  pub default_val : A
  pub value : A

-- An object of a class derived from ConfigListener.
pub data Listener : Type 0 where
  bool_value : ConfigValue Bool → Listener
  string_value : ConfigValue Bytes → Listener
  int_value : ConfigValue ℤ → Listener

abbrev pub Store : Type 0
Store = ℕ → Option Listener

abbrev pub write : ℕ → Option Listener → Store → Store
write a o h = λ b. if b == a then o else h b

-- `insert` and `erase` of a set of pointers, in the order of the addresses.
unfoldable pub insert : ℕ → List ℕ → List ℕ
insert a [] = a ∷ []
insert a (b ∷ bs) = if ltb a b then a ∷ b ∷ bs else if a == b then b ∷ bs else b ∷ insert a bs

unfoldable pub erase : ℕ → List ℕ → List ℕ
erase a [] = []
erase a (b ∷ bs) = if a == b then erase a bs else b ∷ erase a bs

-- What is constructed: one of the three, of a path and a default.
pub data Request : Type 0 where
  bool_request : Bytes → Bool → Request
  string_request : Bytes → Bytes → Request
  int_request : Bytes → ℤ → Request

module _ (P : PropertyTree) where
  open P use {Tree, empty, get_bool, get_string, get_int}

  -- The static tree and the data of the listeners, with the objects of the program.
  pub record State : Type 0 where
    pub config_tree : Tree
    pub listeners : List ℕ
    pub objects : Store

  -- The constructors of the three classes, which look their path up.
  abbrev pub new_bool_value : Bytes → Bool → Tree → ConfigValue Bool
  new_bool_value path default_val t = record {
    path = path;
    default_val = default_val;
    value = get_bool t path default_val;
  }

  abbrev pub new_string_value : Bytes → Bytes → Tree → ConfigValue Bytes
  new_string_value path default_val t = record {
    path = path;
    default_val = default_val;
    value = get_string t path default_val;
  }

  abbrev pub new_int_value : Bytes → ℤ → Tree → ConfigValue ℤ
  new_int_value path default_val t = record {
    path = path;
    default_val = default_val;
    value = get_int t path default_val;
  }

  abbrev pub constructed : Request → Tree → Listener
  constructed (bool_request path d) t = bool_value (new_bool_value path d t)
  constructed (string_request path d) t = string_value (new_string_value path d t)
  constructed (int_request path d) t = int_value (new_int_value path d t)

  unfoldable pub on_update : Tree → Listener → Listener
  on_update t (bool_value v) = bool_value (record v { value = get_bool t v.path v.default_val })
  on_update t (string_value v) =
      string_value (record v { value = get_string t v.path v.default_val })
  on_update t (int_value v) = int_value (record v { value = get_int t v.path v.default_val })

  -- The constructor and the destructor of ConfigListener, around those of the object.
  abbrev pub register : ℕ → Listener → State → State
  register a o s = record s {
    listeners = insert a s.listeners;
    objects = write a (some o) s.objects;
  }

  unfoldable pub construct : ℕ → Request → State → State
  unfolding insert
  construct a request s = register a (constructed request s.config_tree) s

  -- A copy takes the value of the other over, and registers itself.
  unfoldable pub copy : ℕ → Listener → State → State
  unfolding insert
  copy a other s = register a other s

  unfoldable pub destroy : ℕ → State → State
  unfolding erase
  destroy a s = record s { listeners = erase a s.listeners; objects = write a none s.objects }

  -- `none` is a call through a pointer to no object.
  unfoldable pub invoke_config_listeners : Tree → List ℕ → Store → Option Store
  unfolding on_update
  invoke_config_listeners t [] h = some h
  invoke_config_listeners t (a ∷ as_) h = elim (h a) [
    | none ↦ none
    | some o ↦ invoke_config_listeners t as_ (write a (some (on_update t o)) h)
  ]

  -- `read` is the tree that `read_info` reads from the file, and `none` where it throws, which leaves
  -- the tree as it is. The Boolean is the result of `load`.
  unfoldable pub load : Option Tree → State → Option (State × Bool)
  unfolding invoke_config_listeners
  load none s = some (s, false)
  load (some t) s = elim (invoke_config_listeners t s.listeners s.objects) [
    | none ↦ none
    | some h ↦ some (record s { config_tree = t; objects = h }, true)
  ]

  abbrev pub initial : State
  initial = record { config_tree = empty; listeners = []; objects = λ a. none }
