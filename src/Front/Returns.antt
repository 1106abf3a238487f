-- ===== src/Front/Returns.antt =====
-- What the exit code of the front server says.
use ian.Prelude.{◌≡◌, ◌≢◌, ℤ, Bool, true, false, none, some, List, [], ◌∷◌, Bytes, pos, codes}
use ian.Config.Value.{PropertyTree}
use ian.Front.Main.{Phase, main, stop_signal, reload_signal, System, Turn}
use ian.Front.Start.{MainResult, terminated, returned}

module _ (P : PropertyTree) (is_address : Bytes → Bool) where
  open P use {Tree}

  -- Whether the load fails in a turn of the main thread that loads.
  abbrev pub has_failure : List (Turn P) → Bool
  has_failure [] = false
  has_failure (main none ∷ ts) = true
  has_failure (main (some t) ∷ ts) = has_failure ts
  has_failure (stop_signal ∷ ts) = has_failure ts
  has_failure (reload_signal ∷ ts) = has_failure ts

  abbrev phase_of : System P → Phase
  phase_of s = s.phase

  -- What `main` has come to at a phase, with whether a stop signal came and whether a load failed.
  abbrev Reads : Bool → Bool → MainResult → Type 0
  Reads stopped failed result =
      (result ≢ terminated)
      × (result ≡ returned 0 → stopped ≡ true)
      × (result ≡ returned 1 → failed ≡ true)

  -- The numbers of threads of the two instances of the pool.
  pub data IsThreads : Bytes → ℤ → Type 0 where
    front_threads : IsThreads (codes "front.threads") (pos 2)
    cluster_threads : IsThreads (codes "cluster.threads") (pos 2)
