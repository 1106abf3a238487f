-- ===== src/Front/Tests.antt =====
-- Runs of the main loop of the front server on a pool of one instance.
use ian.Prelude.{ℕ, ◌≡◌, refl, none, some, List, [], ◌∷◌, All, pos, arith}
use ian.Config.Value.{PropertyTree, new_int_value}
use ian.AsioPool.{AsioInstance, new_instance, start_instance, join_instance, spawn, stop}
use ian.Front.Main.{
  shutting_down, exited, System, sig_stop, sig_reload, Turn, main, stop_signal, reload_signal, turn,
  run, at_loop,
}
use ian.Front.Stopping.{stop_exits}
use ian.Front.Workers.{Ready, Staffed, run-Staffed}

-- Trees that hold one number, at every path.
abbrev counts : PropertyTree
counts = record {
  Tree = ℕ;
  empty = 1;
  get_bool = λ t path d. d;
  get_string = λ t path d. d;
  get_int = λ t path d. pos t;
  child_keys = λ t path. [];
}

abbrev one : AsioInstance
one = new_instance (b'a' ∷ []) (new_int_value counts (b'n' ∷ []) (pos 2) 2)

abbrev pool : List AsioInstance
pool = one ∷ []

-- The instance is started, joined behind a signal, and the flags are tested.
abbrev until_stop : List (Turn counts)
until_stop = main none ∷ main none ∷ stop_signal ∷ main none ∷ main none ∷ main none ∷ []

abbrev waiting : System counts
waiting = run counts (main none ∷ main none ∷ []) (at_loop counts 8 2 pool)

abbrev reloading : System counts
reloading = run counts (reload_signal ∷ main none ∷ main none ∷ main none ∷ main none ∷ []) waiting

stop_exits_example :
    (run counts
      (main none ∷ reload_signal ∷ main none ∷ main none ∷ [])
      (sig_stop counts waiting)).phase
    ≡ exited shutting_down
unfolding run turn
stop_exits_example =
    stop_exits counts (main none ∷ reload_signal ∷ main none ∷ main none ∷ []) waiting refl
      (omega arith)

-- The load succeeds in each of these turns that loads.
abbrev trees : List ℕ
trees = 4 ∷ 4 ∷ 4 ∷ []

-- A reload that changes the number of threads.
abbrev reload : List (Turn counts)
reload =
    main none
    ∷ main none
    ∷ reload_signal
    ∷ main none
    ∷ main none
    ∷ main none
    ∷ main none
    ∷ main (some 5)
    ∷ main none
    ∷ main none
    ∷ main none
    ∷ []

run-Staffed_example :
    let s = run counts reload (at_loop counts 8 2 pool) in
    All (Ready counts s.config_tree) s.handled × All (Staffed counts s.config_tree) s.left
unfolding run turn start_instance join_instance spawn stop sig_stop sig_reload
run-Staffed_example = run-Staffed counts 8 2 pool reload ((refl, refl), tt) refl
