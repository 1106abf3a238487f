-- ===== src/Front/StartTests.antt =====
-- Runs of the front server from the start of `main` on, with one group of each kind.
use ian.Prelude.{
  ℕ, ◌≡◌, refl, Bool, true, false, none, some, negsuc, List, [], ◌∷◌, map, All, Bytes, pos, codes,
}
use ian.Error.{Calls, other}
use ian.Config.Value.{PropertyTree}
use ian.Config.Group.{get_childs}
use ian.Front.Main.{turn, Turn, main, stop_signal}
use ian.Front.Start.{Environment, Launched, launched, launch, terminated, returned, main_result}
use ian.Front.Program.{Addressed, Opened, ClusterStarted, launch_starts}

-- Trees that hold one number, and one child at every path.
abbrev grouped : PropertyTree
grouped = record {
  Tree = ℕ;
  empty = 1;
  get_bool = λ t path d. d;
  get_string = λ t path d. d;
  get_int = λ t path d. pos t;
  child_keys = λ t path. codes "a" ∷ [];
}

abbrev any_address : Bytes → Bool
any_address b = true

-- Calls as of an operating system where every address is taken.
abbrev taken : Calls
taken = record {
  set_option = λ is_open. none;
  open_ = none;
  bind = some (other 98);
  listen = none;
  close_ = none;
}

abbrev environment : Environment
environment = record {
  uninitialised = false;
  cluster_calls = λ n. taken;
  cluster_answers = λ c. none;
  ws_calls = λ n. taken;
  ws_answers = λ n c. some (other 2);
  now = 7;
  thread_limit = 16;
}

addressed : Addressed grouped any_address 2
unfolding get_childs
addressed = record { listens = (refl, tt); peers_listen = (refl, tt); peers_connect = (refl, tt) }

launch_starts_example :
    (l : Launched grouped) × (launch grouped any_address (some 2) environment ≡ launched l)
    × (l.config_tree ≡ 2)
    × ClusterStarted grouped any_address 2 l.cluster
    × (map (λ x. x.config) l.listeners ≡ get_childs grouped (codes "front.ws.listen") 2)
    × All (Opened grouped any_address environment 2) l.listeners
launch_starts_example = launch_starts grouped any_address 2 environment addressed

-- Both instances are started, and joined behind a signal.
abbrev until_stop : List (Turn grouped)
until_stop =
    main none
    ∷ main none
    ∷ main none
    ∷ stop_signal
    ∷ main none
    ∷ main none
    ∷ main none
    ∷ main none
    ∷ []

stops : main_result grouped any_address (some 2) environment until_stop ≡ returned 0
unfolding main_result turn
stops = refl

-- An address that is refused lets the exception of `make_address` leave `main`.
refused : main_result grouped (λ b. false) (some 2) environment until_stop ≡ terminated
unfolding main_result
refused = refl

-- Trees with a negative number of threads.
abbrev negative : PropertyTree
negative = record grouped { get_int = λ t path d. negsuc 0 }

-- A negative number of threads lets the exception of `std::thread` leave `main`.
negative_throws :
    main_result negative any_address (some 2) environment (main none ∷ []) ≡ terminated
unfolding main_result turn
negative_throws = refl
