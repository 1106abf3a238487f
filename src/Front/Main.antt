-- ===== src/Front/Main.antt =====
-- The signal handlers and the loop of `main`: server/front/src/Main.cpp.
-- The main thread takes one step at a time, and the handlers of the signals may run between any two. The
-- list of `AsioPool::run`'s loops is split at the instance that is next.
use ian.Prelude.{ℕ, Bool, true, false, Option, none, some, List, [], ◌∷◌, ◌++◌, map, if◌then◌else◌}
use ian.Config.Value.{PropertyTree}
use ian.AsioPool.{AsioInstance, start_instance, join_instance, stop}

-- How `main` returns: 0 behind a stop signal, and 1 otherwise.
pub data Exit : Type 0 where
  shutting_down reload_failed no_signal : Exit

abbrev pub exit_code : Exit → ℕ
exit_code shutting_down = 0
exit_code _ = 1

-- Where the main thread is: in a loop of `AsioPool::run`, at one of the two tests behind it, at the load
-- of the configuration or behind it, or at an end; `threw` is behind an exception of `AsioPool::run`.
pub data Phase : Type 0 where
  starting joining testing_stop testing_reload loading clearing threw : Phase
  exited : Exit → Phase

module _ (P : PropertyTree) where
  open P use {Tree, get_int}

  pub record System : Type 0 where
    pub should_stop : Bool
    pub should_reload : Bool
    pub config_tree : Tree
    pub phase : Phase
    pub handled : List AsioInstance
    pub left : List AsioInstance
    pub thread_limit : ℕ

  unfoldable pub sig_stop : System → System
  unfolding stop
  sig_stop s = record s { should_stop = true; handled = stop s.handled; left = stop s.left }

  unfoldable pub sig_reload : System → System
  unfolding stop
  sig_reload s = record s { should_reload = true; handled = stop s.handled; left = stop s.left }

  -- What a load makes of the number of threads of an instance, which is a listener.
  abbrev pub reloaded : Tree → AsioInstance → AsioInstance
  reloaded t i = record i {
    threads = record i.threads { value = get_int t i.threads.path i.threads.default_val };
  }

  -- The start of `AsioPool::run`.
  abbrev pub restart : List AsioInstance → System → System
  restart asios s = record s { phase = starting; handled = []; left = asios }

  -- The steps of the main thread where an instance is next; a join blocks while it is not stopped.
  abbrev pub start_next : List AsioInstance → System → System
  start_next [] s = record s { phase = joining; handled = []; left = s.handled }
  start_next (i ∷ is) s = elim (start_instance s.thread_limit i) [
    | none ↦ record s { phase = threw }
    | some j ↦ record s { handled = s.handled ++ j ∷ []; left = is }
  ]

  abbrev pub join_next : List AsioInstance → System → System
  join_next [] s = record s { phase = testing_stop; handled = []; left = s.handled }
  join_next (i ∷ is) s =
      if i.stopped then record s { handled = s.handled ++ join_instance i ∷ []; left = is } else s

  abbrev pub load_step : Option Tree → System → System
  load_step none s = record s { phase = exited reload_failed }
  load_step (some t) s = record s {
    config_tree = t;
    handled = map (reloaded t) s.handled;
    left = map (reloaded t) s.left;
    phase = clearing;
  }

  -- `read` is the tree that a load reads, and `none` where it fails.
  abbrev pub main_step : Option Tree → Phase → System → System
  main_step read starting s = start_next s.left s
  main_step read joining s = join_next s.left s
  main_step read testing_stop s =
      if s.should_stop
      then record s { phase = exited shutting_down }
      else record s { phase = testing_reload }
  main_step read testing_reload s =
      if s.should_reload
      then record s { phase = loading }
      else record s { phase = exited no_signal }
  main_step read loading s = load_step read s
  main_step read clearing s = restart s.left (record s { should_reload = false })
  main_step read threw s = s
  main_step read (exited e) s = s

  -- Whose turn it is.
  pub data Turn : Type 0 where
    main : Option Tree → Turn
    stop_signal reload_signal : Turn

  unfoldable pub turn : Turn → System → System
  unfolding sig_stop sig_reload start_instance join_instance
  turn (main read) s = main_step read s.phase s
  turn stop_signal s = sig_stop s
  turn reload_signal s = sig_reload s

  unfoldable pub run : List Turn → System → System
  run [] s = s
  run (t ∷ ts) s = run ts (turn t s)

  -- The loop begins with the signal handlers installed. The number of threads that the system makes for an
  -- instance is taken to stay the same.
  abbrev pub at_loop : ℕ → Tree → List AsioInstance → System
  at_loop limit t asios = record {
    should_stop = false;
    should_reload = false;
    config_tree = t;
    phase = starting;
    handled = [];
    left = asios;
    thread_limit = limit;
  }
