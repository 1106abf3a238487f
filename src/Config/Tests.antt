-- ===== src/Config/Tests.antt =====
-- Runs of the configuration on a small tree.
use ian.Prelude.{ℕ, ◌≡◌, refl, Bool, Option, none, some, [], ◌∷◌, ℤ, pos}
use ian.Config.Value.{PropertyTree, State, initial, int_request, construct, load}
use ian.Config.Sync.{InSync, asked_of, Steps, here, next, constructs, Steps-InSync}

-- Trees with a number at every path, or none.
abbrev numbers : PropertyTree
numbers = record {
  Tree = Option ℤ;
  empty = none;
  get_bool = λ t path d. d;
  get_string = λ t path d. d;
  get_int = λ t path d. elim t [ none ↦ d | some n ↦ n ];
  child_keys = λ t path. [];
}

abbrev constructed_one : State numbers
constructed_one = construct numbers 3 (int_request (b'a' ∷ []) (pos 5)) (initial numbers)

-- A value and a file that is loaded; then the file is not there.
constructing : Steps numbers (initial numbers) constructed_one
constructing = next here (constructs 3 (int_request (b'a' ∷ []) (pos 5)) refl)

Steps-InSync_example :
    InSync numbers constructed_one
    × ((s' : State numbers) × (done : Bool) × (load numbers (some (some (pos 7))) constructed_one
          ≡ some (s', done))
        × InSync numbers s'
        × ((a : ℕ)
            → asked_of numbers (s'.objects a) ≡ asked_of numbers (constructed_one.objects a)))
Steps-InSync_example = Steps-InSync numbers (some (some (pos 7))) constructing
