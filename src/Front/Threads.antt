-- ===== src/Front/Threads.antt =====
-- A turn of the first loop of `AsioPool::run`, by whether the system makes the threads.
use ian.Prelude.{◌+◌, ◌-◌, ◌<◌, ◌≡◌, ◌⊎◌, refl, inl, inr, List, [], ◌∷◌, ◌++◌, size_of}
use ian.Config.Value.{PropertyTree}
use ian.AsioPool.{AsioInstance, started, start_instance_cases}
use ian.Front.Main.{System, start_next, threw}

module _ (P : PropertyTree) where
  pub start_next_cases :
      (i : AsioInstance) (is : List AsioInstance) (s : System P)
      → (start_next P (i ∷ is) s ≡ record s { handled = s.handled ++ started i ∷ []; left = is })
        ⊎ ((start_next P (i ∷ is) s ≡ record s { phase = threw })
            × (s.thread_limit < i.workers + (size_of i.threads.value - i.workers)))
  start_next_cases i is s = elim (start_instance_cases s.thread_limit i) [
    | inl e ↦ inl (rw (start_next, e) refl)
    | inr (e, h) ↦ inr (rw (start_next, e) refl, h)
  ]
