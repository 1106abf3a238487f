-- ===== src/Front/Room.antt =====
-- The threads that the loop of server/front/src/Main.cpp asks for, against those that the system makes.
use mathlib.Core.Path.{subst}
use ian.Prelude.{
  ℕ, ◌≤◌, ◌≡◌, ◌≢◌, refl, sym, Bool, true, false, Option, none, some, List, [], ◌∷◌, inl, inr,
  if◌then◌else◌, All, All-append, All-map_mono, Bytes, ℤ, arith, size_of,
}
use ian.Config.Value.{PropertyTree}
use ian.AsioPool.{AsioInstance, started, join_instance, stop_instance, stop}
use ian.Front.Threads.{start_next_cases}
use ian.Front.Main.{
  Phase, starting, joining, testing_stop, testing_reload, loading, clearing, threw, exited, System,
  sig_stop, sig_reload, reloaded, start_next, join_next, main_step, Turn, main, stop_signal,
  reload_signal, turn, run, at_loop,
}

module _ (P : PropertyTree) (limit : ℕ) (IsKey : Bytes → ℤ → Type 0) where
  open P use {Tree, get_int}

  -- A tree wants no more threads of an instance than the system makes, at each path and default in use.
  abbrev pub Bounded : Tree → Type 0
  Bounded t = (path : Bytes) (d : ℤ) → IsKey path d → size_of (get_int t path d) ≤ limit

  abbrev pub BoundedLoads : List (Turn P) → Type 0
  BoundedLoads [] = Unit
  BoundedLoads (main none ∷ ts) = BoundedLoads ts
  BoundedLoads (main (some t) ∷ ts) = Bounded t × BoundedLoads ts
  BoundedLoads (stop_signal ∷ ts) = BoundedLoads ts
  BoundedLoads (reload_signal ∷ ts) = BoundedLoads ts

  abbrev Sized : AsioInstance → Type 0
  Sized i = IsKey i.threads.path i.threads.default_val × (size_of i.threads.value ≤ limit)

  abbrev pub Fine : AsioInstance → Type 0
  Fine i = Sized i × (i.workers ≡ 0)

  abbrev Place : Phase → List AsioInstance → List AsioInstance → Type 0
  Place starting handled left = All Sized handled × All Fine left
  Place joining handled left = All Fine handled × All Sized left
  Place threw handled left = ⊥
  Place (exited e) handled left = Unit
  Place _ handled left = All Fine left

  record Inv (s : System P) : Type 0 where
    same_limit : s.thread_limit ≡ limit
    place : Place s.phase s.handled s.left

  Inv-if : (b : Bool) (x y : System P) → Inv x → Inv y → Inv (if b then x else y)
  Inv-if true x y f g = f
  Inv-if false x y f g = g

  in_phase :
      (phase : Phase) (s : System P)
      → s.thread_limit ≡ limit
      → s.phase ≡ phase
      → Place phase s.handled s.left
      → Inv s
  in_phase phase s l e h = record {
    same_limit = l;
    place = subst (λ ph. Place ph s.handled s.left) (sym e) h;
  }

  start_next-Inv :
      (left : List AsioInstance) (s : System P)
      → s.thread_limit ≡ limit
      → s.phase ≡ starting
      → All Sized s.handled
      → All Fine left
      → Inv (start_next P left s)
  start_next-Inv [] s l e all rest = record { same_limit = l; place = (tt, all) }
  start_next-Inv (i ∷ is) s l e all ((h, w), rest) = elim (start_next_cases P i is s) [
    | inl ok_ ↦
        rw ok_ (in_phase starting _ l e (All-append Sized s.handled (started i) all h, rest))
    | inr (fails, k) ↦ absurd (omega (arith, h.1, w, k, l))
  ]

  join_next-Inv :
      (left : List AsioInstance) (s : System P)
      → s.left ≡ left
      → s.thread_limit ≡ limit
      → s.phase ≡ joining
      → All Fine s.handled
      → All Sized s.left
      → Inv (join_next P left s)
  unfolding join_instance
  join_next-Inv [] s r l e all rest = record { same_limit = l; place = all }
  join_next-Inv (i ∷ is) s r l e all rest =
      let (h, others) = subst (All Sized) r rest in
      Inv-if i.stopped _ s
        (in_phase joining _ l e (All-append Fine s.handled (join_instance i) all (h, refl), others))
        (in_phase joining s l e (all, rest))

  -- What a turn of the main thread may load.
  abbrev BoundedRead : Option Tree → Type 0
  BoundedRead none = Unit
  BoundedRead (some t) = Bounded t

  main_step-Inv :
      (read : Option Tree) (phase : Phase) (s : System P)
      → BoundedRead read
      → s.thread_limit ≡ limit
      → s.phase ≡ phase
      → Place phase s.handled s.left
      → Inv (main_step P read phase s)
  main_step-Inv read starting s b l e (all, rest) = start_next-Inv s.left s l e all rest
  main_step-Inv read joining s b l e (all, rest) = join_next-Inv s.left s refl l e all rest
  main_step-Inv read testing_stop s b l e h =
      Inv-if s.should_stop _ _ (record { same_limit = l; place = tt })
        (record { same_limit = l; place = h })
  main_step-Inv read testing_reload s b l e h =
      Inv-if s.should_reload _ _ (record { same_limit = l; place = h })
        (record { same_limit = l; place = tt })
  main_step-Inv none loading s b l e h = record { same_limit = l; place = tt }
  main_step-Inv (some t) loading s b l e h = record {
    same_limit = l;
    place =
        All-map_mono Fine Fine (reloaded P t) s.left
          (λ i r. ((r.0.0, b i.threads.path i.threads.default_val r.0.0), r.1)) h;
  }
  main_step-Inv read clearing s b l e h = record { same_limit = l; place = (tt, h) }
  main_step-Inv read threw s b l e h = absurd h
  main_step-Inv read (exited x) s b l e h = in_phase (exited x) s l e tt

  stop-Place :
      (phase : Phase) (handled left : List AsioInstance)
      → Place phase handled left
      → Place phase (stop handled) (stop left)
  unfolding stop
  stop-Place starting handled left (all, rest) = (
    All-map_mono Sized Sized stop_instance handled (λ i h. h) all,
    All-map_mono Fine Fine stop_instance left (λ i h. h) rest,
  )
  stop-Place joining handled left (all, rest) = (
    All-map_mono Fine Fine stop_instance handled (λ i h. h) all,
    All-map_mono Sized Sized stop_instance left (λ i h. h) rest,
  )
  stop-Place testing_stop handled left h = All-map_mono Fine Fine stop_instance left (λ i r. r) h
  stop-Place testing_reload handled left h = All-map_mono Fine Fine stop_instance left (λ i r. r) h
  stop-Place loading handled left h = All-map_mono Fine Fine stop_instance left (λ i r. r) h
  stop-Place clearing handled left h = All-map_mono Fine Fine stop_instance left (λ i r. r) h
  stop-Place threw handled left h = absurd h
  stop-Place (exited e) handled left h = tt

  run-Inv : (ts : List (Turn P)) (s : System P) → BoundedLoads ts → Inv s → Inv (run P ts s)
  unfolding run turn
  run-Inv [] s b v = v
  run-Inv (main none ∷ ts) s b v =
      run-Inv ts (main_step P none s.phase s) b
        (main_step-Inv none s.phase s tt v.same_limit refl v.place)
  run-Inv (main (some t) ∷ ts) s (b, bs) v =
      run-Inv ts (main_step P (some t) s.phase s) bs
        (main_step-Inv (some t) s.phase s b v.same_limit refl v.place)
  run-Inv (stop_signal ∷ ts) s b v =
      run-Inv ts (sig_stop P s) b
        (record { same_limit = v.same_limit; place = stop-Place s.phase s.handled s.left v.place })
  run-Inv (reload_signal ∷ ts) s b v =
      run-Inv ts (sig_reload P s) b
        (record { same_limit = v.same_limit; place = stop-Place s.phase s.handled s.left v.place })

  -- If no tree that is loaded wants more threads of an instance than the system makes, and the instances
  -- begin so, without workers, no exception leaves the loop.
  pub run-threw :
      (t : Tree) (asios : List AsioInstance) (ts : List (Turn P))
      → All Fine asios
      → BoundedLoads ts
      → (run P ts (at_loop P limit t asios)).phase ≢ threw
  run-threw t asios ts h b = λ e.
      let s = run P ts (at_loop P limit t asios) in
      let v =
        run-Inv ts (at_loop P limit t asios) b (record { same_limit = refl; place = (tt, h) }) in
      subst (λ ph. Place ph s.handled s.left) e v.place
