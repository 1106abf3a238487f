-- ===== src/Front/Workers.antt =====
-- The threads that the loop of server/front/src/Main.cpp keeps, against the configuration.
use mathlib.Core.Path.{subst}
use ian.Prelude.{
  ℕ, ◌≡◌, refl, sym, Bool, true, false, Option, none, some, List, [], ◌∷◌, inl, inr, if◌then◌else◌,
  All, All-append, All-map_mono, arith, size_of,
}
use ian.Config.Value.{PropertyTree}
use ian.AsioPool.{AsioInstance, started, join_instance, stop_instance, stop}
use ian.Front.Threads.{start_next_cases}
use ian.Front.Main.{
  Phase, starting, joining, testing_stop, testing_reload, loading, clearing, threw, exited, System,
  sig_stop, sig_reload, reloaded, start_next, join_next, main_step, Turn, main, stop_signal,
  reload_signal, turn, run, at_loop,
}

module _ (P : PropertyTree) where
  open P use {Tree, get_int}

  -- What the configuration says of an instance.
  abbrev pub wanted : Tree → AsioInstance → ℕ
  wanted t i = size_of (get_int t i.threads.path i.threads.default_val)

  -- An instance without workers, and one with those that the configuration wants.
  abbrev pub Ready : Tree → AsioInstance → Type 0
  Ready t i = (i.threads.value ≡ get_int t i.threads.path i.threads.default_val) × (i.workers ≡ 0)

  abbrev pub Staffed : Tree → AsioInstance → Type 0
  Staffed t i =
      (i.threads.value ≡ get_int t i.threads.path i.threads.default_val) × (i.workers ≡ wanted t i)

  started-Staffed : (t : Tree) (i : AsioInstance) → Ready t i → Staffed t (started i)
  started-Staffed t i (e, h) = (e, rw (e, h) (omega arith))

  -- The instances that are in front of the main thread, and those behind it.
  abbrev Place : Phase → Tree → List AsioInstance → List AsioInstance → Type 0
  Place starting t handled left = All (Staffed t) handled × All (Ready t) left
  Place joining t handled left = All (Ready t) handled × All (Staffed t) left
  Place threw t handled left = Unit
  Place (exited e) t handled left = Unit
  Place _ t handled left = All (Ready t) left

  record Inv (s : System P) : Type 0 where
    place : Place s.phase s.config_tree s.handled s.left

  Inv-if : (b : Bool) (x y : System P) → Inv x → Inv y → Inv (if b then x else y)
  Inv-if true x y f g = f
  Inv-if false x y f g = g

  in_phase :
      (phase : Phase) (s : System P)
      → s.phase ≡ phase
      → Place phase s.config_tree s.handled s.left
      → Inv s
  in_phase phase s e h = record {
    place = subst (λ ph. Place ph s.config_tree s.handled s.left) (sym e) h;
  }

  start_next-Inv :
      (left : List AsioInstance) (s : System P)
      → s.phase ≡ starting
      → All (Staffed s.config_tree) s.handled
      → All (Ready s.config_tree) left
      → Inv (start_next P left s)
  start_next-Inv [] s e all rest = record { place = (tt, all) }
  start_next-Inv (i ∷ is) s e all (h, rest) = elim (start_next_cases P i is s) [
    | inl ok_ ↦ rw ok_ (
        in_phase starting _ e (
          All-append (Staffed s.config_tree) s.handled (started i) all
              (started-Staffed s.config_tree i h),
          rest,
        ))
    | inr (fails, k) ↦ rw fails (record { place = tt })
  ]

  join_next-Inv :
      (left : List AsioInstance) (s : System P)
      → s.left ≡ left
      → s.phase ≡ joining
      → All (Ready s.config_tree) s.handled
      → All (Staffed s.config_tree) s.left
      → Inv (join_next P left s)
  unfolding join_instance
  join_next-Inv [] s l e all rest = record { place = all }
  join_next-Inv (i ∷ is) s l e all rest =
      let (h, others) = subst (All (Staffed s.config_tree)) l rest in
      Inv-if i.stopped _ s
        (in_phase joining _ e
          (All-append (Ready s.config_tree) s.handled (join_instance i) all (h.0, refl), others))
        (in_phase joining s e (all, rest))

  main_step-Inv :
      (read : Option Tree) (phase : Phase) (s : System P)
      → s.phase ≡ phase
      → Place phase s.config_tree s.handled s.left
      → Inv (main_step P read phase s)
  main_step-Inv read starting s e (all, rest) = start_next-Inv s.left s e all rest
  main_step-Inv read joining s e (all, rest) = join_next-Inv s.left s refl e all rest
  main_step-Inv read testing_stop s e h =
      Inv-if s.should_stop _ _ (record { place = tt }) (record { place = h })
  main_step-Inv read testing_reload s e h =
      Inv-if s.should_reload _ _ (record { place = h }) (record { place = tt })
  main_step-Inv none loading s e h = record { place = tt }
  main_step-Inv (some t) loading s e h = record {
    place =
        All-map_mono (Ready s.config_tree) (Ready t) (reloaded P t) s.left (λ i r. (refl, r.1)) h;
  }
  main_step-Inv read clearing s e h = record { place = (tt, h) }
  main_step-Inv read threw s e h = in_phase threw s e tt
  main_step-Inv read (exited x) s e h = in_phase (exited x) s e tt

  stop-Place :
      (phase : Phase) (t : Tree) (handled left : List AsioInstance)
      → Place phase t handled left
      → Place phase t (stop handled) (stop left)
  unfolding stop
  stop-Place starting t handled left (all, rest) = (
    All-map_mono (Staffed t) (Staffed t) stop_instance handled (λ i h. h) all,
    All-map_mono (Ready t) (Ready t) stop_instance left (λ i h. h) rest,
  )
  stop-Place joining t handled left (all, rest) = (
    All-map_mono (Ready t) (Ready t) stop_instance handled (λ i h. h) all,
    All-map_mono (Staffed t) (Staffed t) stop_instance left (λ i h. h) rest,
  )
  stop-Place testing_stop t handled left h =
      All-map_mono (Ready t) (Ready t) stop_instance left (λ i h. h) h
  stop-Place testing_reload t handled left h =
      All-map_mono (Ready t) (Ready t) stop_instance left (λ i h. h) h
  stop-Place loading t handled left h =
      All-map_mono (Ready t) (Ready t) stop_instance left (λ i h. h) h
  stop-Place clearing t handled left h =
      All-map_mono (Ready t) (Ready t) stop_instance left (λ i h. h) h
  stop-Place threw t handled left h = tt
  stop-Place (exited e) t handled left h = tt

  run-Inv : (ts : List (Turn P)) (s : System P) → Inv s → Inv (run P ts s)
  unfolding run turn
  run-Inv [] s v = v
  run-Inv (main read ∷ ts) s v =
      run-Inv ts (main_step P read s.phase s) (main_step-Inv read s.phase s refl v.place)
  run-Inv (stop_signal ∷ ts) s v =
      run-Inv ts (sig_stop P s)
        (record { place = stop-Place s.phase s.config_tree s.handled s.left v.place })
  run-Inv (reload_signal ∷ ts) s v =
      run-Inv ts (sig_reload P s)
        (record { place = stop-Place s.phase s.config_tree s.handled s.left v.place })

  -- However the turns of the main thread interleave with signals and loads, and however often the
  -- configuration changed: while the main thread waits for the threads, each instance that is not joined has
  -- as many workers as the configuration that was loaded last wants, and those that are joined have none.
  -- The instances begin without workers and with the values of the tree at the start.
  pub run-Staffed :
      (limit : ℕ) (t : Tree) (asios : List AsioInstance) (ts : List (Turn P))
      → All (Ready t) asios
      → (run P ts (at_loop P limit t asios)).phase ≡ joining
      → let s = run P ts (at_loop P limit t asios) in
        All (Ready s.config_tree) s.handled × All (Staffed s.config_tree) s.left
  run-Staffed limit t asios ts h e =
      let s = run P ts (at_loop P limit t asios) in
      let v = run-Inv ts (at_loop P limit t asios) (record { place = (tt, h) }) in
      subst (λ ph. Place ph s.config_tree s.handled s.left) e v.place
