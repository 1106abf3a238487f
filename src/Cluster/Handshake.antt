-- ===== src/Cluster/Handshake.antt =====
-- What the success of the TLS handshake leads to: ClusterConnection::on_ssl_handshake with the message
-- that the class has at that time.
use ian.Prelude.{◌≡◌, refl, Bool, true, none, List, [], ◌∷◌, ◌++◌, Bytes, ok, null_deref, arith}
use ian.Error.{Status}
use ian.Message.{empty_message}
use ian.Cluster.State.{
  Op, ssl_handshake, handshake_write, posted, ClusterConnection, SslRole, new_connection, run,
  send_message, on_posted,
}
use ian.Cluster.Connection.{on_ssl_handshake, Completion, complete}
use ian.Cluster.Steps.{without, Step, sends, completes, Steps, here, next}

-- Before the TLS handshake has completed the outbound message is empty, messages go to the queue, and
-- nothing is pending but the handshake and posted tasks.
abbrev Early : Op → Type 0
Early (ssl_handshake role) = Unit
Early (posted m) = Unit
Early _ = ⊥

abbrev AllEarly : List Op → Type 0
AllEarly [] = Unit
AllEarly (o ∷ os) = Early o × AllEarly os

record Fresh (c : ClusterConnection) : Type 0 where
  outbound : c.message_outbound ≡ empty_message
  writing : c.is_writing ≡ true
  early : AllEarly c.pending

AllEarly-middle :
    (before : List Op) (op : Op) (after : List Op)
    → AllEarly (before ++ op ∷ after)
    → Early op × AllEarly (before ++ after)
AllEarly-middle [] op after h = h
AllEarly-middle (o ∷ before) op after h =
    let rest = AllEarly-middle before op after h.1 in (rest.0, (h.0, rest.1))

complete-Fresh :
    (op : Op) (e : Completion) (c c' : ClusterConnection)
    → Early op
    → Fresh c
    → complete op e c ≡ ok c'
    → Fresh c'
unfolding complete
complete-Fresh (ssl_handshake role) e c c' h v p = unfold on_ssl_handshake in ground arith
complete-Fresh (posted m) e c c' h v p = unfold on_posted in ground arith
complete-Fresh (handshake_write _) e c c' h v p = absurd h
complete-Fresh _ e c c' h v p = absurd h

Step-Fresh : {c c' : ClusterConnection} → Step c c' → Fresh c → Fresh c'
unfolding send_message
Step-Fresh (sends m) v = ground arith
Step-Fresh {c} {c'} (completes before op after e p q) v =
    let (o, rest) = AllEarly-middle before op after (rw (← p) v.early) in
    complete-Fresh op e (without before after c) c' o
      (record { outbound = v.outbound; writing = v.writing; early = rest }) q

Steps-Fresh : {s c : ClusterConnection} → Fresh s → Steps s c → Fresh c
Steps-Fresh v here = v
Steps-Fresh v (next r st) = Step-Fresh st (Steps-Fresh v r)

run-Fresh :
    (role : SslRole) (safe_link uninitialised : Bool) (verified : Status)
    → Fresh (run role safe_link verified (new_connection uninitialised))
unfolding run
run-Fresh role safe_link uninitialised verified = record {
  outbound = refl;
  writing = refl;
  early = (tt, tt);
}

-- Whatever a new connection went through since `run`, the completion of its TLS handshake without an
-- error calls `size` through the null pointer of an empty message.
pub on_ssl_handshake-null_deref :
    (role : SslRole) (safe_link uninitialised : Bool) (verified : Status) (c : ClusterConnection)
    (before after : List Op) (role' : SslRole) (bytes : Bytes)
    → Steps (run role safe_link verified (new_connection uninitialised)) c
    → c.pending ≡ before ++ ssl_handshake role' ∷ after
    → complete
        (ssl_handshake role')
        (record { status = none; bytes = bytes })
        (without before after c)
      ≡ null_deref
unfolding complete on_ssl_handshake
on_ssl_handshake-null_deref role safe_link uninitialised verified c before after role' bytes r p =
    rw ((Steps-Fresh (run-Fresh role safe_link uninitialised verified) r).outbound)
