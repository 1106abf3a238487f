-- ===== src/Cluster/Acceptor.antt =====
-- The acceptor of the cluster: server/common/src/cluster/ClusterAcceptor.hpp and ClusterAcceptor.cpp.
-- It is as the acceptor of the front server in server/front/src/ws, without a limit on the connections.
-- `peers` are the connections that were made of accepted sockets, newest first, as `run` left them.
use ian.Prelude.{Bool, true, false, Option, none, some, List, [], ◌∷◌, if◌then◌else◌, Bytes, codes}
use ian.Error.{Status, Calls}
use ian.Config.Value.{PropertyTree}
use ian.Config.Group.{ConfigGroup, get_bool_value, get_string_value}
use ian.Cluster.State
use ian.Cluster.State.{SslRole, server, ClusterConnection, new_connection}

-- The operations, by their completion handlers.
pub data AcceptOp : Type 0 where
  accept wait_open : AcceptOp

pub record ClusterAcceptor : Type 0 where
  pub config : ConfigGroup
  pub safe_link : Bool
  pub is_open : Bool
  pub listening : Bool
  pub peers : List ClusterConnection
  pub pending : List AcceptOp

-- `safe_link_` is not initialised before `open`.
abbrev pub new_acceptor : Bool → ConfigGroup → ClusterAcceptor
new_acceptor uninitialised config = record {
  config = config;
  safe_link = uninitialised;
  is_open = false;
  listening = false;
  peers = [];
  pending = [];
}

abbrev start : AcceptOp → ClusterAcceptor → ClusterAcceptor
start op a = record a { pending = op ∷ a.pending }

unfoldable pub accept_next : ClusterAcceptor → ClusterAcceptor
accept_next a = start accept a

-- What `open` does once the calls are done, with the status that is left.
abbrev pub opened : Status → ClusterAcceptor → ClusterAcceptor
opened (some e) a = start wait_open a
opened none a = accept_next a

abbrev pub close_acceptor : ClusterAcceptor → ClusterAcceptor
close_acceptor a = record a { is_open = false; listening = false }

-- `bind` and `listen` that fail are followed by `close(ec)`, whose status takes the place of theirs.
abbrev pub listen_step : Calls → ClusterAcceptor → ClusterAcceptor
listen_step calls a = elim calls.listen [
  | some e ↦ opened calls.close_ (close_acceptor a)
  | none ↦ opened none (record a { listening = true })
]

abbrev pub bind_step : Calls → ClusterAcceptor → ClusterAcceptor
bind_step calls a = elim calls.bind [
  | some e ↦ opened calls.close_ (close_acceptor a)
  | none ↦ listen_step calls a
]

abbrev pub open_step : Calls → ClusterAcceptor → ClusterAcceptor
open_step calls a = elim calls.open_ [
  | some e ↦ opened (some e) a
  | none ↦ bind_step calls (record a { is_open = true })
]

abbrev pub open_calls : Bool → Calls → ClusterAcceptor → ClusterAcceptor
open_calls reuse_addr calls a =
    if reuse_addr
    then elim (calls.set_option a.is_open) [ some e ↦ opened (some e) a | none ↦ open_step calls a ]
    else open_step calls a

abbrev pub default_listen_ip : Bytes
default_listen_ip = codes "127.0.0.1"

module _ (P : PropertyTree) where
  open P use {Tree}

  abbrev pub listen_addr : Tree → ClusterAcceptor → Bytes
  listen_addr t a = get_string_value P (codes "ip") default_listen_ip t a.config

  abbrev pub reuse_addr : Tree → ClusterAcceptor → Bool
  reuse_addr t a = get_bool_value P (codes "reuse_addr") false t a.config

  abbrev pub safe_link_option : Tree → ClusterAcceptor → Bool
  safe_link_option t a = get_bool_value P (codes "safe_link") false t a.config

  -- `is_address` tells the addresses that `make_address` takes; it throws at others, which is `none`. The
  -- endpoint has no effect but on the statuses of the calls.
  unfoldable pub open_ : (Bytes → Bool) → Tree → Calls → ClusterAcceptor → Option ClusterAcceptor
  unfolding accept_next
  open_ is_address t calls a =
      let a' = record a { safe_link = safe_link_option t a } in
      if is_address (listen_addr t a) then some (open_calls (reuse_addr t a) calls a') else none

  unfoldable pub run : (Bytes → Bool) → Tree → Calls → ClusterAcceptor → Option ClusterAcceptor
  unfolding open_
  run is_address t calls a = open_ is_address t calls a

-- `uninitialised` and `verified` are those of the new connection.
unfoldable pub on_accept : Bool → Status → Status → ClusterAcceptor → ClusterAcceptor
unfolding accept_next State.run
on_accept uninitialised verified (some e) a = accept_next a
on_accept uninitialised verified none a = accept_next (record a {
  peers = State.run server a.safe_link verified (new_connection uninitialised) ∷ a.peers;
})
