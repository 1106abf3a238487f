-- ===== src/Cluster/Watcher.antt =====
-- The watcher of a peer: server/common/src/cluster/ClusterWatcher.hpp and ClusterWatcher.cpp.
-- As for a connection, `pending` holds the asynchronous operations under way, by their completion
-- handlers. A connection is owned by its own operations, so that it is gone once none is under way.
-- `connection_` is the connection that the weak pointer was set to last, gone or not, and `earlier` are
-- those that it was set to before.
use ian.Prelude.{ℕ, Bytes, Bool, true, false, Option, none, some, List, [], ◌∷◌, map, if◌then◌else◌}
use ian.Error.{Status, is_operation_aborted}
use ian.Cluster.State
use ian.Cluster.State.{SslRole, client, ClusterConnection, new_connection}

-- A connect, and the wait of the timer, which a new expiry cancels.
pub data WatchOp : Type 0 where
  connect timer canceled : WatchOp

-- `TcpEndpoint`, with an address that `make_address` takes.
pub record TcpEndpoint : Type 0 where
  pub address : Bytes
  pub port : ℕ

pub record ClusterWatcher : Type 0 where
  pub safe_link : Bool
  pub endpoint : TcpEndpoint
  pub connection_ : Option ClusterConnection
  pub earlier : List ClusterConnection
  pub pending : List WatchOp

abbrev pub new_watcher : TcpEndpoint → Bool → ClusterWatcher
new_watcher endpoint safe_link = record {
  safe_link = safe_link;
  endpoint = endpoint;
  connection_ = none;
  earlier = [];
  pending = [];
}

-- `expired` of the weak pointer.
abbrev pub is_gone : ClusterConnection → Bool
is_gone c = elim c.pending [ [] ↦ true | op ∷ ops ↦ false ]

abbrev pub expired : Option ClusterConnection → Bool
expired none = true
expired (some c) = is_gone c

unfoldable pub try_connect : ClusterWatcher → ClusterWatcher
try_connect w = record w { pending = connect ∷ w.pending }

unfoldable pub run : ClusterWatcher → ClusterWatcher
unfolding try_connect
run w = try_connect w

-- `expires_from_now` cancels the waits of the timer.
abbrev pub cancel : WatchOp → WatchOp
cancel timer = canceled
cancel op = op

unfoldable pub wait : ClusterWatcher → ClusterWatcher
wait w = record w { pending = timer ∷ map cancel w.pending }

-- Setting the weak pointer leaves the connection that it was set to before as it is.
abbrev pub left_behind : Option ClusterConnection → List ClusterConnection → List ClusterConnection
left_behind none cs = cs
left_behind (some c) cs = c ∷ cs

-- `uninitialised` and `verified` are those of the new connection.
unfoldable pub on_connect : Bool → Status → Status → ClusterWatcher → ClusterWatcher
unfolding State.run wait
on_connect uninitialised verified (some e) w = wait w
on_connect uninitialised verified none w = wait (record w {
  connection_ = some (State.run client w.safe_link verified (new_connection uninitialised));
  earlier = left_behind w.connection_ w.earlier;
})

unfoldable pub on_timer : Status → ClusterWatcher → ClusterWatcher
unfolding try_connect wait
on_timer ec w =
    if is_operation_aborted ec then w else if expired w.connection_ then try_connect w else wait w
