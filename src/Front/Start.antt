-- ===== src/Front/Start.antt =====
-- The start of the front server: `main` of server/front/src/Main.cpp up to its loop, and WsAcceptor::run
-- with the address of `open` in server/front/src/ws/WsAcceptor.cpp.
-- A signal that comes in front of the loop ends the program or waits for the loop.
use ian.Prelude.{
  ℕ, suc, Bool, true, false, Option, none, some, List, [], ◌∷◌, Bytes, ℤ, pos, negsuc, codes,
  if◌then◌else◌,
}
use ian.Error.{Calls}
use ian.Config.Value.{PropertyTree, new_int_value}
use ian.Config.Group.{ConfigGroup, get_bool_value, get_string_value, get_childs}
use ian.AsioPool.{AsioInstance, create_asio}
use ian.Ssl.{Setup, Answers, init_ssl_context, untouched}
use ian.Cluster.Init
use ian.Cluster.Init.{Started}
use ian.Front.{Config, World}
use ian.Front.Main.{exit_code, Phase, threw, exited, Turn, run, at_loop}
use ian.Ws.Acceptor.{WsAcceptor, new_acceptor, open_}

-- An acceptor with the members that are set once.
pub record WsListener : Type 0 where
  pub config : ConfigGroup
  pub tls : Setup
  pub acceptor : WsAcceptor

-- What the library and the operating system answer while the server starts: the calls of the acceptors
-- of the cluster and of the front server by their numbers, and those on their TLS contexts; and how many
-- threads the system makes for an instance of the pool.
pub record Environment : Type 0 where
  pub uninitialised : Bool
  pub cluster_calls : ℕ → Calls
  pub cluster_answers : Answers
  pub ws_calls : ℕ → Calls
  pub ws_answers : ℕ → Answers
  pub now : ℕ
  pub thread_limit : ℕ

pub data MainResult : Type 0 where
  running terminated : MainResult
  returned : ℕ → MainResult

abbrev pub result_at : Phase → MainResult
result_at (exited e) = returned (exit_code e)
result_at threw = terminated
result_at _ = running

-- A number of seconds, which is taken not to be negative.
abbrev pub seconds_of : ℤ → ℕ
seconds_of (pos n) = n
seconds_of (negsuc n) = 0

module _ (P : PropertyTree) where
  pub record Launched : Type 0 where
    pub config_tree : P.Tree
    pub cluster : Started
    pub listeners : List WsListener

  -- `uncaught` is an exception that leaves `main`.
  pub data Launch : Type 0 where
    load_failed uncaught : Launch
    launched : Launched → Launch

module _ (P : PropertyTree) (is_address : Bytes → Bool) where
  open P use {Tree, get_bool, get_int}

  -- The values of FrontGlobals.cpp behind a load.
  unfoldable pub globals : Tree → Config
  globals t = record {
    connection_limit_soft = get_int t (codes "front.connection_limit_soft") (pos 1000);
    connection_limit_hard = get_int t (codes "front.connection_limit_hard") (pos 1050);
    message_max_size = get_int t (codes "front.message_max_size") (pos 0x4000);
    rate_limit_messages = get_int t (codes "front.rate_limit_messages") (pos 100);
    rate_limit_bytes = get_int t (codes "front.rate_limit_bytes") (pos 0x8000);
    ws_message_auto_fragment = get_bool t (codes "front.ws.message_auto_fragment") true;
    ws_setup_timeout = seconds_of (get_int t (codes "front.ws.socket_setup_timeout") (pos 3));
    ws_timeout = seconds_of (get_int t (codes "front.ws.socket_timeout") (pos 30));
  }

  -- No client is connected yet.
  abbrev pub world_at_start : Tree → Environment → World
  world_at_start t env = record { config = globals t; now = env.now; active_connection_count = 0 }

  abbrev pub ws_listen_addr : Tree → ConfigGroup → Bytes
  ws_listen_addr t group = get_string_value P (codes "ip") (codes "0.0.0.0") t group

  -- The acceptor with a number behind its first `open`.
  abbrev pub first_open : Tree → Environment → ℕ → ConfigGroup → WsAcceptor
  first_open t env n group =
      open_ (world_at_start t env) (get_bool_value P (codes "reuse_addr") false t group)
        (env.ws_calls n) new_acceptor

  abbrev pub front_context : Tree → Environment → ℕ → Setup
  front_context t env n =
      init_ssl_context P (env.ws_answers n) t (record { path = codes "front.ssl" }) untouched

  -- `WsAcceptor::run`; `none` is the exception of `make_address`.
  unfoldable pub run_ws_acceptor : Tree → Environment → ℕ → ConfigGroup → Option WsListener
  unfolding open_ init_ssl_context
  run_ws_acceptor t env n group =
      if is_address (ws_listen_addr t group)
      then some (record {
        config = group;
        tls = front_context t env n;
        acceptor = first_open t env n group;
      })
      else none

  unfoldable pub run_ws_acceptors :
      Tree → Environment → ℕ → List ConfigGroup → Option (List WsListener)
  unfolding run_ws_acceptor
  run_ws_acceptors t env n [] = some []
  run_ws_acceptors t env n (group ∷ groups) = elim (run_ws_acceptor t env n group) [
    | none ↦ none
    | some l ↦ elim (run_ws_acceptors t env (suc n) groups) [
      | none ↦ none
      | some ls ↦ some (l ∷ ls)
    ]
  ]

  -- The pool with the instance of the front server.
  abbrev pub front_pool : Tree → List AsioInstance
  front_pool t = create_asio (codes "front") (new_int_value P (codes "front.threads") (pos 2) t) []

  -- `main` up to its loop. `read` is the tree that the load reads, and `none` where it fails.
  unfoldable pub launch : Option Tree → Environment → Launch P
  unfolding Init.init run_ws_acceptors globals get_childs
  launch none env = load_failed
  launch (some t) env =
      elim (Init.init P is_address t env.uninitialised env.cluster_calls env.cluster_answers
        (front_pool t) (record { path = codes "cluster" })) [
          | none ↦ uncaught
          | some cluster ↦
              elim (run_ws_acceptors t env 0 (get_childs P (codes "front.ws.listen") t)) [
                | none ↦ uncaught
                | some ls ↦ launched (record { config_tree = t; cluster = cluster; listeners = ls })
              ]
        ]

  -- `main`, with the turns of the main thread and of the signal handlers from the loop on.
  unfoldable pub main_result : Option Tree → Environment → List (Turn P) → MainResult
  unfolding launch run
  main_result read env ts = elim (launch read env) [
    | load_failed ↦ returned 1
    | uncaught ↦ terminated
    | launched l ↦
        result_at (run P ts (at_loop P env.thread_limit l.config_tree l.cluster.pool)).phase
  ]
