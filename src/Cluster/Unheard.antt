-- ===== src/Cluster/Unheard.antt =====
-- What keeps a ClusterAcceptor from listening: the failures in `open` of
-- server/common/src/cluster/ClusterAcceptor.cpp.
use ian.Prelude.{
  ◌≡◌, refl, sym, ◌∙◌, Bool, true, false, some, none, List, [], ◌∷◌, single, Bytes, codes,
}
use ian.Error.{ErrorCode, Calls}
use ian.Config.Value.{PropertyTree}
use ian.Config.Group.{ConfigGroup, get_bool_value}
use ian.Cluster.State.{ClusterConnection}
use ian.Cluster.Acceptor.{
  accept, wait_open, ClusterAcceptor, new_acceptor, accept_next, reuse_addr, open_, run, on_accept,
}
use ian.Cluster.Listening.{without, Step, accepts, fails, opens, Trace, here, next, open_cases}

module _ (P : PropertyTree) (is_address : Bytes → Bool) where
  open P use {Tree}

  -- An acceptor that does not listen, and goes on to accept.
  record Deaf (peers : List ClusterConnection) (a : ClusterAcceptor) : Type 0 where
    silent : a.listening ≡ false
    accepting : a.pending ≡ accept ∷ []
    none_more : a.peers ≡ peers

  Step-Deaf :
      {Allowed : Tree → Calls → Type 0} (peers : List ClusterConnection) {a a' : ClusterAcceptor}
      → Deaf peers a
      → Step P is_address Allowed a a'
      → Deaf peers a'
  unfolding on_accept accept_next
  Step-Deaf peers v (accepts before after u verified e l) = absurd (let s = v.silent in cc)
  Step-Deaf peers v (fails before after u verified x e) =
      let (same, b, c) = single accept before accept after (sym v.accepting ∙ e) in
      record { silent = v.silent; accepting = rw (b, c) refl; none_more = v.none_more }
  Step-Deaf peers v (opens before after t calls e allowed r) =
      absurd (let (same, b, c) = single accept before wait_open after (sym v.accepting ∙ e) in cc)

  Trace-Deaf :
      {Allowed : Tree → Calls → Type 0} (peers : List ClusterConnection) {a a' : ClusterAcceptor}
      → Deaf peers a
      → Trace P is_address Allowed a a'
      → Deaf peers a'
  Trace-Deaf peers v here = v
  Trace-Deaf peers v (next r st) = Step-Deaf peers (Trace-Deaf peers v r) st

  -- If `bind` fails and the `close` behind it does not, an acceptor without the reuse option never
  -- listens again, never gets a further peer and never calls `open` again, however long it runs: an
  -- accept is under way always.
  pub bind_deaf :
      (t : Tree) (calls : Calls) (x : ErrorCode) (a s : ClusterAcceptor) {a' : ClusterAcceptor}
      → a.pending ≡ []
      → reuse_addr P t a ≡ false
      → calls.open_ ≡ none
      → calls.bind ≡ some x
      → calls.close_ ≡ none
      → open_ P is_address t calls a ≡ some s
      → Trace P is_address (λ t calls. Unit) s a'
      → (a'.listening ≡ false) × (a'.peers ≡ a.peers) × (a'.pending ≡ accept ∷ [])
  unfolding accept_next
  bind_deaf t calls x a s p option o b c e r =
      let deaf : Deaf a.peers s =
        rw (open_cases P is_address t calls a s e, option, o, b, c)
          (record { silent = refl; accepting = rw p; none_more = refl }) in
      let v = Trace-Deaf a.peers deaf r in (v.silent, v.none_more, v.accepting)

  -- An `open` that finds the reuse option set, while `set_option` fails on an acceptor that is not open.
  abbrev pub Reuses : ConfigGroup → Tree → Calls → Type 0
  Reuses config t calls =
      (get_bool_value P (codes "reuse_addr") false t config ≡ true)
      × ((e : ErrorCode) × (calls.set_option false ≡ some e))

  record Shut (config : ConfigGroup) (a : ClusterAcceptor) : Type 0 where
    same : a.config ≡ config
    closed : a.is_open ≡ false
    silent : a.listening ≡ false
    waiting : a.pending ≡ wait_open ∷ []
    none_yet : a.peers ≡ []

  open_calls-Shut :
      (config : ConfigGroup) (t : Tree) (calls : Calls) (a s : ClusterAcceptor)
      → a.config ≡ config
      → a.is_open ≡ false
      → a.listening ≡ false
      → a.pending ≡ []
      → a.peers ≡ []
      → Reuses config t calls
      → open_ P is_address t calls a ≡ some s
      → Shut config s
  open_calls-Shut config t calls a s c o l p n (reuses, refused) e =
      let reuses' : reuse_addr P t a ≡ true = rw c reuses in
      rw (open_cases P is_address t calls a s e, reuses', o, refused.1)
        (record { same = c; closed = o; silent = l; waiting = rw p; none_yet = n })

  Step-Shut :
      {config : ConfigGroup} {a a' : ClusterAcceptor}
      → Shut config a
      → Step P is_address (Reuses config) a a'
      → Shut config a'
  Step-Shut v (accepts before after u verified e l) = absurd (let s = v.silent in cc)
  Step-Shut v (fails before after u verified x e) =
      absurd (let (same, b, c) = single wait_open before accept after (sym v.waiting ∙ e) in cc)
  Step-Shut {config = config} {a = a} {a' = a'} v (opens before after t calls e allowed r) =
      let (same, b, c) = single wait_open before wait_open after (sym v.waiting ∙ e) in
      open_calls-Shut config t calls (without before after a) a' v.same v.closed v.silent
        (rw (b, c) refl) v.none_yet allowed r

  -- With the reuse option set in every configuration that is read, and `set_option` failing on an acceptor
  -- that is not open, an acceptor that was run never opens, never listens and never gets a peer: it waits
  -- for its next `open` always.
  pub reuse_never_opens :
      (uninitialised : Bool) (config : ConfigGroup) (t : Tree) (calls : Calls) (s : ClusterAcceptor)
      {a : ClusterAcceptor}
      → Reuses config t calls
      → run P is_address t calls (new_acceptor uninitialised config) ≡ some s
      → Trace P is_address (Reuses config) s a
      → (a.is_open ≡ false) × (a.listening ≡ false) × (a.peers ≡ []) × (a.pending ≡ wait_open ∷ [])
  unfolding run
  reuse_never_opens u config t calls s {a = a} reuses e r =
      let v = go r in (v.closed, v.silent, v.none_yet, v.waiting)
    where
      go : {b : ClusterAcceptor} → Trace P is_address (Reuses config) s b → Shut config b
      go here =
          open_calls-Shut config t calls (new_acceptor u config) s refl refl refl refl refl reuses e
      go (next r st) = Step-Shut (go r) st
