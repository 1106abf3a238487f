-- ===== src/AsioPool.antt =====
-- The pool of io_contexts and their threads: server/common/src/AsioPool.cpp.
-- An io_context is seen by whether it is stopped. It has outstanding work as long as it exists, so that
-- a thread that runs it returns once it is stopped, and not before.
use ian.Prelude.{
  ℕ, zero, suc, ◌+◌, ◌-◌, Bool, true, false, List, [], ◌∷◌, ◌++◌, map, Bytes, ℤ, size_of, Option,
  none, some, ltb, ◌≡◌, ◌<◌, ◌⊎◌, refl, ap, ◌∙◌, inl, inr, Bool-cases, arith,
}
use ian.Config.Value.{ConfigValue}

pub record AsioInstance : Type 0 where
  pub name : Bytes
  pub stopped : Bool
  pub threads : ConfigValue ℤ
  pub workers : ℕ

abbrev pub new_instance : Bytes → ConfigValue ℤ → AsioInstance
new_instance name threads = record { name = name; stopped = false; threads = threads; workers = 0 }

unfoldable pub create_asio : Bytes → ConfigValue ℤ → List AsioInstance → List AsioInstance
create_asio name threads asios = asios ++ new_instance name threads ∷ []

-- The loop that adds workers, with as many rounds as workers are missing. `limit` is the number of threads
-- that the system makes for an instance; `none` is the exception of `std::thread` behind it.
unfoldable pub spawn : ℕ → ℕ → ℕ → Option ℕ
spawn limit zero workers = some workers
spawn limit (suc missing) workers = elim (ltb workers limit) [
  | false ↦ none
  | true ↦ spawn limit missing (workers + 1)
]

-- A round of the first loop of `run`. A negative number of threads becomes a large size_t.
unfoldable pub start_instance : ℕ → AsioInstance → Option AsioInstance
unfolding spawn
start_instance limit i = elim (spawn limit (size_of i.threads.value - i.workers) i.workers) [
  | none ↦ none
  | some workers ↦ some (record i { stopped = false; workers = workers })
]

-- A round of the second loop of `run`, once every worker has returned.
unfoldable pub join_instance : AsioInstance → AsioInstance
join_instance i = record i { workers = 0 }

abbrev pub stop_instance : AsioInstance → AsioInstance
stop_instance i = record i { stopped = true }

unfoldable pub stop : List AsioInstance → List AsioInstance
stop asios = map stop_instance asios

-- An instance with the workers that it wants, and those that it had.
abbrev pub started : AsioInstance → AsioInstance
started i = record i {
  stopped = false;
  workers = i.workers + (size_of i.threads.value - i.workers);
}

spawn_cases :
    (limit missing workers : ℕ)
    → (spawn limit missing workers ≡ some (workers + missing))
      ⊎ ((spawn limit missing workers ≡ none) × (limit < workers + missing))
unfolding spawn
spawn_cases limit zero workers = inl (ground arith)
spawn_cases limit (suc m) workers = elim (Bool-cases (ltb workers limit)) [
  | inr full ↦ inr (rw (spawn, full) refl, ground arith)
  | inl room ↦ elim (spawn_cases limit m (workers + 1)) [
    | inl e ↦ inl (rw (spawn, room) (e ∙ ap some (omega arith)))
    | inr (e, h) ↦ inr (rw (spawn, room) e, omega arith)
  ]
]

-- An instance is started with its workers, or it wants more than the system makes.
pub start_instance_cases :
    (limit : ℕ) (i : AsioInstance)
    → (start_instance limit i ≡ some (started i))
      ⊎ ((start_instance limit i ≡ none)
          × (limit < i.workers + (size_of i.threads.value - i.workers)))
unfolding start_instance
start_instance_cases limit i =
    elim (spawn_cases limit (size_of i.threads.value - i.workers) i.workers) [
      | inl e ↦ inl (rw (start_instance, e) refl)
      | inr (e, h) ↦ inr (rw (start_instance, e) refl, h)
    ]
