-- ===== src/Front/Signals.antt =====
-- How the loop of server/front/src/Main.cpp may end, over any interleaving of its steps with signals.
use mathlib.Core.Path.{subst}
use ian.Prelude.{
  ℕ, ◌+◌, ◌<◌, ◌≡◌, ◌≢◌, ◌⊎◌, refl, sym, ap, ◌∙◌, Bool, true, false, ◌||◌, Option, none, some, List,
  [], ◌∷◌, ◌++◌, if◌then◌else◌, length, length-append, length-map, All, All-append, inl, inr, arith,
}
use ian.Config.Value.{PropertyTree}
use ian.AsioPool.{AsioInstance, started, join_instance, stop_instance, stop}
use ian.Front.Threads.{start_next_cases}
use ian.Front.Main.{
  Exit, shutting_down, reload_failed, no_signal, Phase, starting, joining, testing_stop,
  testing_reload, loading, clearing, threw, exited, System, sig_stop, sig_reload, reloaded,
  start_next, join_next, main_step, Turn, main, stop_signal, reload_signal, turn, run, at_loop,
}

-- An instance is stopped by a signal only.
abbrev Quiet : Bool → AsioInstance → Type 0
Quiet signalled i = i.stopped ≡ true → signalled ≡ true

module _ (P : PropertyTree) where
  open P use {Tree}

  join_next-should_stop :
      (left : List AsioInstance) (s : System P) → (join_next P left s).should_stop ≡ s.should_stop
  join_next-should_stop [] s = refl
  join_next-should_stop (i ∷ is) s = ground arith

  pub main_step-should_stop :
      (read : Option Tree) (phase : Phase) (s : System P)
      → (main_step P read phase s).should_stop ≡ s.should_stop
  main_step-should_stop read joining s = join_next-should_stop s.left s
  main_step-should_stop read starting s = start s.left
    where
      start : (left : List AsioInstance) → (start_next P left s).should_stop ≡ s.should_stop
      start [] = refl
      start (i ∷ is) = elim (start_next_cases P i is s) [ inl e ↦ rw e | inr (e, h) ↦ rw e ]
  main_step-should_stop read testing_stop s = ground arith
  main_step-should_stop read testing_reload s = ground arith
  main_step-should_stop none loading s = refl
  main_step-should_stop (some t) loading s = refl
  main_step-should_stop read clearing s = refl
  main_step-should_stop read threw s = refl
  main_step-should_stop read (exited e) s = refl

  abbrev pub has_stop : List (Turn P) → Bool
  has_stop [] = false
  has_stop (main read ∷ ts) = has_stop ts
  has_stop (stop_signal ∷ ts) = true
  has_stop (reload_signal ∷ ts) = has_stop ts

  run-should_stop :
      (ts : List (Turn P)) (s : System P)
      → (run P ts s).should_stop ≡ (s.should_stop || has_stop ts)
  unfolding run turn
  run-should_stop [] s = ground arith
  run-should_stop (main read ∷ ts) s =
      run-should_stop ts (main_step P read s.phase s)
      ∙ ap (λ b. b || has_stop ts) (main_step-should_stop read s.phase s)
  run-should_stop (stop_signal ∷ ts) s = run-should_stop ts (sig_stop P s) ∙ ground arith
  run-should_stop (reload_signal ∷ ts) s = run-should_stop ts (sig_reload P s)

  abbrev signalled : System P → Bool
  signalled s = s.should_stop || s.should_reload

  -- What holds of a system at each place of the main thread.
  abbrev Place : Phase → System P → Type 0
  Place starting s = All (Quiet (signalled s)) s.handled × (0 < length s.handled + length s.left)
  Place joining s =
      All (Quiet (signalled s)) s.left
      × (0 < length s.handled → signalled s ≡ true)
      × (0 < length s.handled + length s.left)
  Place testing_stop s = (signalled s ≡ true) × (0 < length s.left)
  Place testing_reload s = (s.should_reload ≡ true) × (0 < length s.left)
  Place loading s = 0 < length s.left
  Place clearing s = 0 < length s.left
  Place threw s = Unit
  Place (exited shutting_down) s = s.should_stop ≡ true
  Place (exited reload_failed) s = Unit
  Place (exited no_signal) s = ⊥

  record Inv (s : System P) : Type 0 where
    place : Place s.phase s

  Inv-if :
      (b : Bool) (x y : System P)
      → (b ≡ true → Inv x)
      → (b ≡ false → Inv y)
      → Inv (if b then x else y)
  Inv-if true x y f g = f refl
  Inv-if false x y f g = g refl

  start_next-Inv :
      (left : List AsioInstance) (s : System P)
      → s.left ≡ left
      → s.phase ≡ starting
      → Place starting s
      → Inv (start_next P left s)
  start_next-Inv [] s e p (all, h) = record {
    place = (all, λ k. absurd (omega arith), ground (arith, ap length e));
  }
  start_next-Inv (i ∷ is) s e p (all, h) = elim (start_next_cases P i is s) [
    | inl ok_ ↦ rw ok_ (record {
      place = rw p (
        All-append (Quiet (signalled s)) s.handled (started i) all (λ k. cc),
        omega (arith, length-append s.handled (started i ∷ [])),
      );
    })
    | inr (fails, k) ↦ rw fails (record { place = tt })
  ]

  join_next-Inv :
      (left : List AsioInstance) (s : System P)
      → s.left ≡ left
      → s.phase ≡ joining
      → Place joining s
      → Inv (join_next P left s)
  join_next-Inv [] s e p (all, f, h) =
      let k : 0 < length s.handled = ground (arith, ap length e) in record { place = (f k, k) }
  join_next-Inv (i ∷ is) s e p (all, f, h) =
      let (quiet, rest) = subst (All (Quiet (signalled s))) e all in
      let s' = record s { handled = s.handled ++ join_instance i ∷ []; left = is } in
      Inv-if i.stopped s' s
        (λ q. record {
          place =
              subst (λ ph. Place ph s') (sym p)
                (rest, λ _. quiet q, omega (arith, length-append s.handled (join_instance i ∷ [])));
        })
        (λ _. record { place = subst (λ ph. Place ph s) (sym p) (all, f, h) })

  main_step-Inv :
      (read : Option Tree) (phase : Phase) (s : System P)
      → s.phase ≡ phase
      → Place phase s
      → Inv (main_step P read phase s)
  main_step-Inv read starting s e h = start_next-Inv s.left s refl e h
  main_step-Inv read joining s e h = join_next-Inv s.left s refl e h
  main_step-Inv read testing_stop s e h =
      Inv-if s.should_stop _ _ (λ q. record { place = q })
        (λ q. record { place = (ground arith, h.1) })
  main_step-Inv read testing_reload s e h =
      Inv-if s.should_reload _ _ (λ q. record { place = h.1 }) (λ q. absurd (let set_ = h.0 in cc))
  main_step-Inv none loading s e h = record { place = tt }
  main_step-Inv (some t) loading s e h = record {
    place = omega (arith, length-map (reloaded P t) s.left);
  }
  main_step-Inv read clearing s e h = record { place = (tt, omega arith) }
  main_step-Inv read threw s e h = record { place = subst (λ ph. Place ph s) (sym e) h }
  main_step-Inv read (exited x) s e h = record { place = subst (λ ph. Place ph s) (sym e) h }

  -- A signal stops the instances and leaves a flag set.
  Quiet-All : (b : Bool) (asios : List AsioInstance) → b ≡ true → All (Quiet b) asios
  Quiet-All b [] h = tt
  Quiet-All b (i ∷ is) h = (λ k. h, Quiet-All b is h)

  signal-Place :
      (phase : Phase) (s s' : System P)
      → signalled s' ≡ true
      → (s.should_stop ≡ true → s'.should_stop ≡ true)
      → (s.should_reload ≡ true → s'.should_reload ≡ true)
      → length s'.handled ≡ length s.handled
      → length s'.left ≡ length s.left
      → Place phase s
      → Place phase s'
  signal-Place starting s s' f u v x y (all, h) = (Quiet-All _ s'.handled f, omega arith)
  signal-Place joining s s' f u v x y (all, g, h) = (Quiet-All _ s'.left f, λ k. f, omega arith)
  signal-Place testing_stop s s' f u v x y (g, h) = (f, omega arith)
  signal-Place testing_reload s s' f u v x y (g, h) = (v g, omega arith)
  signal-Place loading s s' f u v x y h = omega arith
  signal-Place clearing s s' f u v x y h = omega arith
  signal-Place threw s s' f u v x y h = tt
  signal-Place (exited shutting_down) s s' f u v x y h = u h
  signal-Place (exited reload_failed) s s' f u v x y h = tt
  signal-Place (exited no_signal) s s' f u v x y h = h

  turn-Inv : (t : Turn P) (s : System P) → Inv s → Inv (turn P t s)
  unfolding turn stop
  turn-Inv (main read) s v = main_step-Inv read s.phase s refl v.place
  turn-Inv stop_signal s v = record {
    place =
        signal-Place s.phase s (sig_stop P s) (ground arith) (λ h. refl) (λ h. h)
          (length-map stop_instance s.handled) (length-map stop_instance s.left) v.place;
  }
  turn-Inv reload_signal s v = record {
    place =
        signal-Place s.phase s (sig_reload P s) (ground arith) (λ h. h) (λ h. refl)
          (length-map stop_instance s.handled) (length-map stop_instance s.left) v.place;
  }

  run-Inv : (ts : List (Turn P)) (s : System P) → Inv s → Inv (run P ts s)
  unfolding run
  run-Inv [] s v = v
  run-Inv (t ∷ ts) s v = run-Inv ts (turn P t s) (turn-Inv t s v)

  Place-exited : (s : System P) (e : Exit) → s.phase ≡ exited e → Inv s → Place (exited e) s
  Place-exited s e h v = subst (λ ph. Place ph s) h v.place

  -- With an instance at least in the pool, however the main thread's steps interleave with signals and
  -- whatever the loads give: `main` never returns for want of a signal, and it returns the code of a
  -- shutdown only if a stop signal came.
  pub run_exits :
      (limit : ℕ) (t : Tree) (i : AsioInstance) (asios : List AsioInstance) (ts : List (Turn P))
      (e : Exit)
      → (run P ts (at_loop P limit t (i ∷ asios))).phase ≡ exited e
      → (e ≢ no_signal) × ((e ≡ reload_failed) ⊎ ((e ≡ shutting_down) × (has_stop ts ≡ true)))
  run_exits limit t i asios ts e h =
      let s = at_loop P limit t (i ∷ asios) in
      ends e ts (run P ts s) (run-should_stop ts s)
        (Place-exited (run P ts s) e h (run-Inv ts s (record { place = (tt, omega arith) })))
    where
      ends :
          (e : Exit) (ts : List (Turn P)) (s' : System P)
          → s'.should_stop ≡ has_stop ts
          → Place (exited e) s'
          → (e ≢ no_signal) × ((e ≡ reload_failed) ⊎ ((e ≡ shutting_down) × (has_stop ts ≡ true)))
      ends shutting_down ts s' f h = (λ q. cc, inr (refl, sym f ∙ h))
      ends reload_failed ts s' f h = (λ q. cc, inl refl)
      ends no_signal ts s' f h = absurd h
