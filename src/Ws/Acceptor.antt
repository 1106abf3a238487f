-- ===== src/Ws/Acceptor.antt =====
-- The acceptor of the front server: server/front/src/ws/WsAcceptor.hpp and WsAcceptor.cpp.
-- As for the connections, `pending` holds the asynchronous operations under way. `accepted` counts the
-- connections that were made of accepted sockets. The address comes from the configuration, and is one
-- that `make_address` takes (Front/Start has the exception); then it shows in the statuses of the calls.
use ian.Prelude.{
  ℕ, ◌+◌, ◌-◌, ◌/◌, suc, zero, Bool, true, false, none, some, List, [], ◌∷◌, leb, if◌then◌else◌, ℤ,
  pos, negsuc, exceeds,
}
use ian.Error.{Status, Calls}
use ian.Front.{World}

-- The operations, by their completion handlers: an accept, and the waits of the timer.
pub data Op : Type 0 where
  accept wait_open wait_accept_next wait_reopen : Op

pub record WsAcceptor : Type 0 where
  pub is_open : Bool
  pub listening : Bool
  pub accepted : ℕ
  pub pending : List Op

abbrev pub new_acceptor : WsAcceptor
new_acceptor = record { is_open = false; listening = false; accepted = 0; pending = [] }

abbrev pub start : Op → WsAcceptor → WsAcceptor
start op a = record a { pending = op ∷ a.pending }

abbrev pub close_acceptor : WsAcceptor → WsAcceptor
close_acceptor a = record a { is_open = false; listening = false }

-- `n >= z` and `z / 2` on int.
abbrev pub reaches : ℕ → ℤ → Bool
reaches n (pos k) = leb k n
reaches n (negsuc k) = true

abbrev pub half : ℤ → ℤ
half (pos k) = pos (k / 2)
half (negsuc zero) = pos 0
half (negsuc (suc k)) = negsuc ((k + 2) / 2 - 1)

unfoldable pub accept_next : World → WsAcceptor → WsAcceptor
accept_next w a =
    if reaches w.active_connection_count w.config.connection_limit_hard
    then start wait_reopen (close_acceptor a)
    else start accept a

-- What `open` does once the calls are done, with the status that is left.
abbrev pub opened : World → Status → WsAcceptor → WsAcceptor
opened w (some e) a = start wait_open a
opened w none a = accept_next w a

-- `bind` and `listen` that fail are followed by `close(ec)`, whose status takes the place of theirs.
abbrev pub listen_step : World → Calls → WsAcceptor → WsAcceptor
listen_step w calls a = elim calls.listen [
  | some e ↦ opened w calls.close_ (close_acceptor a)
  | none ↦ opened w none (record a { listening = true })
]

abbrev pub bind_step : World → Calls → WsAcceptor → WsAcceptor
bind_step w calls a = elim calls.bind [
  | some e ↦ opened w calls.close_ (close_acceptor a)
  | none ↦ listen_step w calls a
]

abbrev pub open_step : World → Calls → WsAcceptor → WsAcceptor
open_step w calls a = elim calls.open_ [
  | some e ↦ opened w (some e) a
  | none ↦ bind_step w calls (record a { is_open = true })
]

unfoldable pub open_ : World → Bool → Calls → WsAcceptor → WsAcceptor
unfolding accept_next
open_ w reuse_addr calls a =
    if reuse_addr
    then elim (calls.set_option a.is_open) [
      | some e ↦ opened w (some e) a
      | none ↦ open_step w calls a
    ]
    else open_step w calls a

abbrev pub made : Status → WsAcceptor → WsAcceptor
made (some e) a = a
made none a = record a { accepted = a.accepted + 1 }

-- `w` is the world behind the construction of the connection, if one was made.
unfoldable pub on_accept : World → Status → WsAcceptor → WsAcceptor
unfolding accept_next
on_accept w ec a =
    let a' = made ec a in
    if exceeds w.active_connection_count (half w.config.connection_limit_hard)
    then start wait_accept_next a'
    else accept_next w a'

unfoldable pub on_timer_reopen : World → Bool → Calls → WsAcceptor → WsAcceptor
unfolding open_
on_timer_reopen w reuse_addr calls a =
    if reaches w.active_connection_count w.config.connection_limit_hard
    then start wait_reopen a
    else open_ w reuse_addr calls a

-- Nothing binds it: `on_accept` has the timer call `accept_next`.
abbrev pub on_timer_accept : World → WsAcceptor → WsAcceptor
on_timer_accept w a = accept_next w a
