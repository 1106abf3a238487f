-- ===== src/Front/Stopping.antt =====
-- What a stop signal leads to in the loop of server/front/src/Main.cpp, by the place where it comes.
use ian.Prelude.{
  ℕ, zero, suc, ◌+◌, ◌≤◌, ◌≡◌, refl, true, false, Option, List, [], ◌∷◌, length, length-map, All,
  All-map, arith,
}
use ian.Config.Value.{PropertyTree}
use ian.AsioPool.{AsioInstance, join_instance, stop_instance, stop}
use ian.Front.Main.{
  shutting_down, reload_failed, no_signal, Phase, starting, joining, testing_stop, testing_reload,
  loading, clearing, threw, exited, System, sig_stop, sig_reload, join_next, main_step, Turn, main,
  stop_signal, reload_signal, turn, run,
}

abbrev IsStopped : AsioInstance → Type 0
IsStopped i = i.stopped ≡ true

abbrev IsRunning : AsioInstance → Type 0
IsRunning i = i.stopped ≡ false

module _ (P : PropertyTree) where
  open P use {Tree}

  -- The turns of the main thread.
  abbrev pub main_turns : List (Turn P) → ℕ
  main_turns [] = 0
  main_turns (main read ∷ ts) = suc (main_turns ts)
  main_turns (stop_signal ∷ ts) = main_turns ts
  main_turns (reload_signal ∷ ts) = main_turns ts

  -- What is left to do before the end, in no more than `n` turns of the main thread.
  abbrev Closing : ℕ → Phase → List AsioInstance → Type 0
  Closing n joining left = All IsStopped left × (length left + 2 ≤ n)
  Closing n testing_stop left = 1 ≤ n
  Closing n (exited shutting_down) left = Unit
  Closing n _ left = ⊥

  record Stopping (n : ℕ) (s : System P) : Type 0 where
    stops : s.should_stop ≡ true
    closing : Closing n s.phase s.left

  join_next-Stopping :
      (n : ℕ) (left : List AsioInstance) (s : System P)
      → s.should_stop ≡ true
      → s.phase ≡ joining
      → Closing (suc n) joining left
      → Stopping n (join_next P left s)
  unfolding join_instance
  join_next-Stopping n [] s h e c = record { stops = h; closing = omega (arith, c.1) }
  join_next-Stopping n (i ∷ is) s h e c =
      rw (c.0.0) (record { stops = h; closing = rw e (c.0.1, omega (arith, c.1)) })

  main_step-Stopping :
      (n : ℕ) (read : Option Tree) (phase : Phase) (s : System P)
      → s.phase ≡ phase
      → s.should_stop ≡ true
      → Closing (suc n) phase s.left
      → Stopping n (main_step P read phase s)
  main_step-Stopping n read joining s e h c = join_next-Stopping n s.left s h e c
  main_step-Stopping n read testing_stop s e h c = rw h (record { stops = refl; closing = tt })
  main_step-Stopping n read (exited shutting_down) s e h c = record { stops = h; closing = rw e tt }
  main_step-Stopping n read (exited reload_failed) s e h c = absurd c
  main_step-Stopping n read (exited no_signal) s e h c = absurd c
  main_step-Stopping n read starting s e h c = absurd c
  main_step-Stopping n read testing_reload s e h c = absurd c
  main_step-Stopping n read loading s e h c = absurd c
  main_step-Stopping n read clearing s e h c = absurd c
  main_step-Stopping n read threw s e h c = absurd c

  stop-Closing :
      (n : ℕ) (phase : Phase) (left : List AsioInstance)
      → Closing n phase left
      → Closing n phase (stop left)
  unfolding stop
  stop-Closing n joining left c = (
    All-map IsStopped stop_instance left (λ i. refl),
    omega (arith, c.1, length-map stop_instance left),
  )
  stop-Closing n testing_stop left c = c
  stop-Closing n (exited shutting_down) left c = tt
  stop-Closing n (exited reload_failed) left c = c
  stop-Closing n _ left c = absurd c

  -- Nothing is left to do at the end only.
  Closing-zero :
      (phase : Phase) (left : List AsioInstance)
      → Closing 0 phase left
      → (phase ≡ exited shutting_down) × Closing 1 phase left
  Closing-zero joining left c = absurd (omega (arith, c.1))
  Closing-zero testing_stop left c = absurd (omega (arith, c))
  Closing-zero (exited shutting_down) left c = (refl, tt)
  Closing-zero (exited reload_failed) left c = absurd c
  Closing-zero _ left c = absurd c

  run-Stopping :
      (ts : List (Turn P)) (n : ℕ) (s : System P)
      → Stopping n s
      → n ≤ main_turns ts
      → (run P ts s).phase ≡ exited shutting_down
  unfolding run turn
  run-Stopping [] n s v h =
      let none_left : n ≡ 0 = omega arith in
      (Closing-zero s.phase s.left (rw none_left at v.closing)).0
  run-Stopping (main read ∷ ts) zero s v h =
      run-Stopping ts 0 (main_step P read s.phase s)
        (main_step-Stopping 0 read s.phase s refl v.stops (Closing-zero s.phase s.left v.closing).1)
        (omega arith)
  run-Stopping (main read ∷ ts) (suc n) s v h =
      run-Stopping ts n (main_step P read s.phase s)
        (main_step-Stopping n read s.phase s refl v.stops v.closing) (omega arith)
  run-Stopping (stop_signal ∷ ts) n s v h =
      run-Stopping ts n (sig_stop P s)
        (record { stops = refl; closing = stop-Closing n s.phase s.left v.closing }) h
  run-Stopping (reload_signal ∷ ts) n s v h =
      run-Stopping ts n (sig_reload P s)
        (record { stops = v.stops; closing = stop-Closing n s.phase s.left v.closing }) h

  -- Once the main thread joins the threads, a stop signal ends the program with the code of a shutdown: in
  -- no more turns of the main thread than there are instances left to join and two, however they
  -- alternate with further signals and whatever loads would give.
  pub stop_exits :
      (ts : List (Turn P)) (s : System P)
      → s.phase ≡ joining
      → length s.left + 2 ≤ main_turns ts
      → (run P ts (sig_stop P s)).phase ≡ exited shutting_down
  unfolding sig_stop stop
  stop_exits ts s e h =
      run-Stopping ts (length s.left + 2) (sig_stop P s)
        (record {
          stops = refl;
          closing = rw e (
            All-map IsStopped stop_instance s.left (λ i. refl),
            omega (arith, length-map stop_instance s.left),
          );
        })
        h
