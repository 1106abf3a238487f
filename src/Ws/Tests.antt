-- ===== src/Ws/Tests.antt =====
-- Runs of a WsConnection.
use ian.Prelude.{codes, ◌+◌, ◌≡◌, refl, [], ◌∷◌, true, none, length, pos, arith}
use ian.Front.{World, default_config}
use ian.Message.{from_vector}
use ian.Ws.State.{
  ssl_handshake, request_read, message_write, timer_wait, posted, WsConnection, new_connection, run,
  send_message, on_posted,
}
use ian.Ws.Connection.{Completion, complete, on_ssl_handshake}
use ian.Ws.RateLimit.{Arrivals, total, count_all, over, count_all-over}
use ian.Ws.Invariant.{Kept}
use ian.Ws.Steps.{
  without, complete_returns, Steps, here, next, sends, completes, Exclusive, run-Exclusive, run-Inv,
}
use ian.Prelude.{◌≤◌, false, some}
use ian.Error.{other, Calls}
use ian.Ws.Order.{ran, InOrder, run-InOrder}
use ian.Ws.Acceptor
use ian.Ws.Acceptor.{WsAcceptor, new_acceptor, wait_accept_next, open_, on_accept}
use ian.Ws.Limit
use ian.Ws.Limit.{accepts, open_limited}

abbrev world : World
world = record {
  config = record default_config { rate_limit_messages = pos 2; rate_limit_bytes = pos 10 };
  now = 5;
  active_connection_count = 1;
}

-- The second of these three arrivals is over the limit on bytes.
abbrev arrivals : Arrivals
arrivals = (5, 4) ∷ (6, 7) ∷ (9, 1) ∷ []

count_all-over_example :
    ((count_all world arrivals (new_connection 5)).1
      ≡ over world (0 + length arrivals) (0 + total arrivals))
    × ((count_all world arrivals (new_connection 5)).0.dropped
        ≡ (count_all world arrivals (new_connection 5)).1)
unfolding over
count_all-over_example =
    count_all-over world arrivals (new_connection 5) (omega arith, (omega arith, (omega arith, tt)))
      (omega arith) refl refl

abbrev started : WsConnection
started = run world (new_connection 5)

abbrev done : Completion
done = record { status = none; bytes = []; flag = true }

-- Behind the TLS handshake a request is read, and the setup timeout is set.
abbrev reading : WsConnection
reading = record started { pending = request_read ∷ timer_wait ∷ [] }

run-Exclusive_example : Exclusive reading
unfolding run complete on_ssl_handshake
run-Exclusive_example =
    run-Exclusive world 5 reading
      (next here (completes world [] ssl_handshake (timer_wait ∷ []) done refl refl))

-- A message is sent, and its task runs.
abbrev written : WsConnection
written = record started {
  is_writing = true;
  message_outbound = from_vector (codes "hi");
  sent = from_vector (codes "hi") ∷ [];
  pending = message_write (codes "hi") ∷ ssl_handshake ∷ timer_wait ∷ [];
}

abbrev writing : Steps started written
unfolding run complete send_message on_posted
writing = next (next here (sends (from_vector (codes "hi")))) (
    completes world [] (posted (from_vector (codes "hi"))) (ssl_handshake ∷ timer_wait ∷ []) done
      refl refl)

run-InOrder_example : InOrder (ran writing) written
run-InOrder_example = run-InOrder world 5 written writing

complete_returns_example :
    Kept (complete world ssl_handshake done (without [] (timer_wait ∷ []) started))
unfolding run
complete_returns_example =
    complete_returns world [] ssl_handshake (timer_wait ∷ []) done [] started refl (run-Inv world 5)

abbrev calls_fine : Calls
calls_fine = record {
  set_option = λ o. none;
  open_ = none;
  bind = none;
  listen = none;
  close_ = none;
}

-- One connection more than none at the limit of one, behind an accept.
abbrev small_world : World
small_world = record {
  config = record default_config { connection_limit_hard = pos 1 };
  now = 0;
  active_connection_count = 0;
}

abbrev listening : WsAcceptor
listening = open_ small_world false calls_fine new_acceptor

-- Behind the accept the next one waits for the timer.
abbrev full : WsAcceptor
full = record { is_open = true; listening = true; accepted = 1; pending = wait_accept_next ∷ [] }

accepting : Limit.Steps small_world listening 0 full 1
unfolding open_ on_accept
accepting = Limit.next Limit.here (accepts refl refl)

open_limited_example : (1 ≤ 1) × ((op : Acceptor.Op) × (full.pending ≡ op ∷ []))
open_limited_example =
    open_limited 1 1 small_world false calls_fine full refl (omega arith) accepting

-- The address is in use.
abbrev in_use : Calls
in_use = record calls_fine { bind = some (other 98) }

abbrev deaf : WsAcceptor
deaf = open_ small_world false in_use new_acceptor
