-- ===== src/Ws/Deaf.antt =====
-- What a failed `bind` leads to in WsAcceptor::open.
use ian.Prelude.{ℕ, ◌<◌, ◌≡◌, ◌⊎◌, false, [], ◌∷◌}
use ian.Ws.Acceptor.{accept, wait_accept_next, WsAcceptor}

-- An acceptor that does not listen, and goes on to accept.
record Deaf (k total : ℕ) (a : WsAcceptor) (n : ℕ) : Type 0 where
  silent : a.listening ≡ false
  none_more : a.accepted ≡ total
  below : n < k
  accepting : (a.pending ≡ accept ∷ []) ⊎ (a.pending ≡ wait_accept_next ∷ [])
