-- ===== src/Config/Group.antt =====
-- Groups of the configuration: ConfigGroup.cpp and `config::get_childs` of Config.cpp, in
-- server/common/src/config.
use ian.Prelude.{Bool, List, ◌∷◌, ◌++◌, map, Bytes, ℤ}
use ian.Config.Value.{PropertyTree, ConfigValue, new_bool_value, new_string_value, new_int_value}

pub record ConfigGroup : Type 0 where
  pub path : Bytes

abbrev pub dotted : Bytes → Bytes → Bytes
dotted a b = a ++ (b'.' ∷ b)

abbrev pub get_group : Bytes → ConfigGroup → ConfigGroup
get_group path g = record { path = dotted g.path path }

module _ (P : PropertyTree) where
  open P use {Tree, get_bool, get_string, get_int, child_keys}

  -- The values of a group, as objects that are registered, and as plain values.
  abbrev pub get_bool_object : Bytes → Bool → Tree → ConfigGroup → ConfigValue Bool
  get_bool_object path d t g = new_bool_value P (dotted g.path path) d t

  abbrev pub get_string_object : Bytes → Bytes → Tree → ConfigGroup → ConfigValue Bytes
  get_string_object path d t g = new_string_value P (dotted g.path path) d t

  abbrev pub get_int_object : Bytes → ℤ → Tree → ConfigGroup → ConfigValue ℤ
  get_int_object path d t g = new_int_value P (dotted g.path path) d t

  abbrev pub get_bool_value : Bytes → Bool → Tree → ConfigGroup → Bool
  get_bool_value path d t g = get_bool t (dotted g.path path) d

  abbrev pub get_string_value : Bytes → Bytes → Tree → ConfigGroup → Bytes
  get_string_value path d t g = get_string t (dotted g.path path) d

  abbrev pub get_int_value : Bytes → ℤ → Tree → ConfigGroup → ℤ
  get_int_value path d t g = get_int t (dotted g.path path) d

  -- `config::get_childs`
  unfoldable pub get_childs : Bytes → Tree → List ConfigGroup
  get_childs path t = map (λ key. record { path = dotted path key }) (child_keys t path)

  abbrev pub get_own_childs : Tree → ConfigGroup → List ConfigGroup
  get_own_childs t g = get_childs g.path t

  abbrev pub get_childs_of : Bytes → Tree → ConfigGroup → List ConfigGroup
  get_childs_of path t g = get_childs (dotted g.path path) t
