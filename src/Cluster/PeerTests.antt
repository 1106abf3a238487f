-- ===== src/Cluster/PeerTests.antt =====
-- Runs of the acceptor, of the watcher and of the start of the cluster.
use ian.Prelude.{
  ◌+◌, ◌*◌, ◌≤◌, ◌⊎◌, ◌≡◌, refl, Bool, true, false, none, some, [], ◌∷◌, map, All, Bytes, pos,
  codes, if◌then◌else◌,
}
use ian.Error.{timed_out, other, Calls}
use ian.Config.Value.{PropertyTree}
use ian.Config.Group.{ConfigGroup, get_group, get_childs, get_childs_of, get_int_object}
use ian.AsioPool.{new_instance}
use ian.Cluster.State
use ian.Cluster.State.{SslRole, client, ssl_handshake, ClusterConnection, new_connection, abort}
use ian.Cluster.Connection.{complete, on_ssl_handshake}
use ian.Cluster.Steps
use ian.Cluster.Watcher
use ian.Cluster.Watcher.{
  TcpEndpoint, ClusterWatcher, connect, timer, new_watcher, wait, try_connect, on_connect, on_timer,
  expired,
}
use ian.Cluster.Reconnect
use ian.Cluster.Reconnect.{Watching, IsGone, run-Watching}
use ian.Cluster.Outage.{steps, attempts, Connects, reconnects}
use ian.Cluster.Acceptor
use ian.Cluster.Acceptor.{
  ClusterAcceptor, accept, wait_open, new_acceptor, accept_next, on_accept, listen_addr, open_,
}
use ian.Cluster.Listening
use ian.Cluster.Listening.{Accepting, run-Accepting}
use ian.Cluster.Unheard.{bind_deaf, reuse_never_opens}
use ian.Ssl.{init_ssl_context, untouched}
use ian.Cluster.Init.{Started, peer_watcher, init, init_starts}

abbrev peer : TcpEndpoint
peer = record { address = codes "10.0.0.1"; port = 17001 }

abbrev begun : ClusterWatcher
begun = Watcher.run (new_watcher peer true)

abbrev connected : ClusterWatcher
connected = on_connect false none none (Reconnect.without [] [] begun)

abbrev linked : ClusterConnection
linked = State.run client true none (new_connection false)

abbrev failed : ClusterConnection
failed = abort (Steps.without [] [] linked)

-- The TLS handshake of the connection fails.
abbrev alone : ClusterWatcher
alone = record connected { connection_ = some failed }

fails_handshake : Steps.Step linked failed
unfolding State.run complete on_ssl_handshake abort
fails_handshake =
    Steps.completes [] (ssl_handshake client) [] (record { status = some timed_out; bytes = [] })
      refl refl

losing : Reconnect.Trace begun alone
unfolding Watcher.run try_connect on_connect wait State.run
losing =
    Reconnect.next
      (Reconnect.next Reconnect.here (Reconnect.completes [] connect [] false none none refl tt))
      (Reconnect.newest_steps linked failed refl refl fails_handshake)

run-Watching_example : Watching true alone
run-Watching_example = run-Watching peer true losing

-- The wait ends, a connect times out, and the next wait ends.
abbrev retrying : ClusterWatcher
retrying = record alone { pending = connect ∷ [] }

retries : Reconnect.Trace alone retrying
unfolding Watcher.run try_connect on_connect on_timer wait State.run abort
retries =
    Reconnect.next
      (Reconnect.next
        (Reconnect.next Reconnect.here (Reconnect.completes [] timer [] false none none refl refl))
        (Reconnect.completes [] connect [] false none (some timed_out) refl tt))
      (Reconnect.completes [] timer [] false none none refl refl)

reconnects_example :
    (steps retries ≤ 2 * attempts retries + 1)
    × ((retrying.pending ≡ timer ∷ [])
        ⊎ ((retrying.pending ≡ connect ∷ []) × Connects true retrying))
unfolding Watcher.run try_connect on_connect wait State.run abort retries
reconnects_example = reconnects peer true losing refl retries (((tt, tt), tt), tt)

-- A tree that is the value of the reuse option, with a group to listen at and one to connect to.
abbrev options : PropertyTree
options = record {
  Tree = Bool;
  empty = false;
  get_bool = λ t path d. t;
  get_string = λ t path d. d;
  get_int = λ t path d. d;
  child_keys = λ t path. codes "a" ∷ [];
}

abbrev any_address : Bytes → Bool
any_address b = true

abbrev group : ConfigGroup
group = record { path = codes "cluster.listen.a" }

-- Calls as of an operating system where the address is taken.
abbrev taken : Calls
taken = record {
  set_option = λ is_open. if is_open then none else some (other 9);
  open_ = none;
  bind = some (other 98);
  listen = none;
  close_ = none;
}

abbrev fine : Calls
fine = record taken { bind = none }

abbrev accepting : ClusterAcceptor
accepting = record (new_acceptor false group) {
  is_open = true;
  listening = true;
  pending = accept ∷ [];
}

abbrev accepted : ClusterAcceptor
accepted = on_accept false none none (Listening.without [] [] accepting)

run-Accepting_example : Accepting accepted
unfolding Acceptor.run open_ accept_next
run-Accepting_example =
    run-Accepting options any_address false group false fine accepting refl
      (Listening.next Listening.here (Listening.accepts [] [] false none refl refl))

abbrev deaf : ClusterAcceptor
deaf = record (new_acceptor false group) { pending = accept ∷ [] }

bind_deaf_example : (deaf.listening ≡ false) × (deaf.peers ≡ []) × (deaf.pending ≡ accept ∷ [])
unfolding open_ accept_next on_accept
bind_deaf_example =
    bind_deaf options any_address false taken (other 98) (new_acceptor false group) deaf refl refl
      refl refl refl refl
      (Listening.next Listening.here (Listening.fails [] [] false none (other 9) refl))

abbrev shut : ClusterAcceptor
shut = record (new_acceptor false group) { safe_link = true; pending = wait_open ∷ [] }

reuse_never_opens_example :
    (shut.is_open ≡ false)
    × (shut.listening ≡ false)
    × (shut.peers ≡ [])
    × (shut.pending ≡ wait_open ∷ [])
unfolding Acceptor.run open_ accept_next
reuse_never_opens_example =
    reuse_never_opens options any_address false group true fine shut (refl, (other 9, refl)) refl
      (Listening.next Listening.here
        (Listening.opens [] [] true fine refl (refl, (other 9, refl)) refl))

init_starts_example :
    let config : ConfigGroup = record { path = codes "cluster" } in
    (s : Started) × (init options any_address false false (λ n. taken) (λ c. none) [] config
      ≡ some s)
    × (s.pool
        ≡ new_instance
            (codes "cluster")
            (get_int_object options (codes "threads") (pos 2) false config)
          ∷ [])
    × (s.tls
        ≡ init_ssl_context options (λ c. none) false (get_group (codes "ssl") config) untouched)
    × (map (λ a. a.config) s.acceptors ≡ get_childs_of options (codes "listen") false config)
    × All Accepting s.acceptors
    × (s.watchers
        ≡ map
            (λ g. Watcher.run (peer_watcher options any_address false g))
            (get_childs_of options (codes "connect") false config))
unfolding get_childs
init_starts_example =
    init_starts options any_address false false (λ n. taken) (λ c. none) []
      (record { path = codes "cluster" }) (refl, tt) (refl, tt)
