-- ===== src/Front/Program.antt =====
-- The front server from the start of `main` on.
use ian.Prelude.{
  ℕ, suc, ◌≡◌, refl, inl, inr, Bool, true, false, none, some, List, [], ◌∷◌, map, All, Bytes, pos,
  codes, length, Option-cases, arith,
}
use ian.Error.{Status, Calls}
use ian.Config.Value.{PropertyTree, new_int_value}
use ian.Config.Group.{ConfigGroup, get_bool_value, get_childs, get_childs_of}
use ian.AsioPool.{new_instance}
use ian.Cluster.Acceptor
use ian.Cluster.Listening.{Accepting}
use ian.Cluster.Watcher
use ian.Cluster.Init.{Started, init_starts, peer_addr, peer_watcher}
use ian.Front.{World}
use ian.Front.Start.{
  WsListener, Environment, Launched, launched, world_at_start, ws_listen_addr, first_open,
  front_context, run_ws_acceptor, run_ws_acceptors, front_pool, launch,
}
use ian.Ws.Acceptor.{WsAcceptor, new_acceptor, accept_next, opened, open_step, open_}

-- Whatever the calls answer, an acceptor that is opened has an operation more under way.
accept_next-pending :
    (w : World) (a : WsAcceptor) → length (accept_next w a).pending ≡ suc (length a.pending)
unfolding accept_next
accept_next-pending w a = ground arith

opened-pending :
    (w : World) (ec : Status) (a : WsAcceptor)
    → length (opened w ec a).pending ≡ suc (length a.pending)
opened-pending w (some e) a = refl
opened-pending w none a = accept_next-pending w a

open_step-pending :
    (w : World) (calls : Calls) (a : WsAcceptor)
    → length (open_step w calls a).pending ≡ suc (length a.pending)
open_step-pending w calls a = elim (Option-cases calls.open_) [
  | inr (x, p) ↦ rw p refl
  | inl p ↦ elim (Option-cases calls.bind) [
    | inr (x, q) ↦ rw (p, q) (opened-pending w calls.close_ _)
    | inl q ↦ elim (Option-cases calls.listen) [
      | inr (x, s) ↦ rw (p, q, s) (opened-pending w calls.close_ _)
      | inl s ↦ rw (p, q, s) (opened-pending w none _)
    ]
  ]
]

open_pending :
    (w : World) (reuse : Bool) (calls : Calls) (a : WsAcceptor)
    → length (open_ w reuse calls a).pending ≡ suc (length a.pending)
unfolding open_
open_pending w false calls a = open_step-pending w calls a
open_pending w true calls a = elim (Option-cases (calls.set_option a.is_open)) [
  | inr (x, p) ↦ rw p refl
  | inl p ↦ rw p (open_step-pending w calls a)
]

module _ (P : PropertyTree) (is_address : Bytes → Bool) where
  open P use {Tree}

  -- The addresses that the configuration names are ones.
  pub record Addressed (t : Tree) : Type 0 where
    pub listens :
        All
          (λ g. is_address (ws_listen_addr P is_address t g) ≡ true)
          (get_childs P (codes "front.ws.listen") t)
    pub peers_listen :
        All
          (λ g. is_address (Acceptor.listen_addr P t (Acceptor.new_acceptor false g)) ≡ true)
          (get_childs_of P (codes "listen") t (record { path = codes "cluster" }))
    pub peers_connect :
        All
          (λ g. is_address (peer_addr P is_address t g) ≡ true)
          (get_childs_of P (codes "connect") t (record { path = codes "cluster" }))

  -- An acceptor that has its context set up and one operation under way.
  pub record Opened (env : Environment) (t : Tree) (l : WsListener) : Type 0 where
    pub busy : length l.acceptor.pending ≡ 1
    pub secured : (n : ℕ) × (l.tls ≡ front_context P is_address t env n)

  run_acceptors_total :
      (t : Tree) (env : Environment) (n : ℕ) (groups : List ConfigGroup)
      → All (λ g. is_address (ws_listen_addr P is_address t g) ≡ true) groups
      → (ls : List WsListener) × (run_ws_acceptors P is_address t env n groups ≡ some ls)
        × (map (λ l. l.config) ls ≡ groups)
        × All (Opened env t) ls
  unfolding run_ws_acceptors
  run_acceptors_total t env n [] h = ([], refl, refl, tt)
  run_acceptors_total t env n (g ∷ gs) (good, h) =
      let (ls, rest, same, all) = run_acceptors_total t env (suc n) gs h in
      let l : WsListener = record {
        config = g;
        tls = front_context P is_address t env n;
        acceptor = first_open P is_address t env n g;
      } in
      let one : run_ws_acceptor P is_address t env n g ≡ some l =
        unfold run_ws_acceptor in rw good refl in
      (
        l ∷ ls,
        rw (one, rest, run_ws_acceptors) refl,
        rw same refl,
        (
          record {
            busy =
                open_pending (world_at_start P is_address t env)
                  (get_bool_value P (codes "reuse_addr") false t g) (env.ws_calls n) new_acceptor;
            secured = (n, refl);
          },
          all,
        ),
      )

  -- The cluster as `init_starts` has it.
  pub record ClusterStarted (t : Tree) (s : Started) : Type 0 where
    pub pool :
        s.pool
        ≡ new_instance (codes "front") (new_int_value P (codes "front.threads") (pos 2) t)
          ∷ new_instance (codes "cluster") (new_int_value P (codes "cluster.threads") (pos 2) t)
          ∷ []
    pub accepting : All Accepting s.acceptors
    pub each_listens :
        map (λ a. a.config) s.acceptors
        ≡ get_childs_of P (codes "listen") t (record { path = codes "cluster" })
    pub each_connects :
        s.watchers
        ≡ map
            (λ g. Watcher.run (peer_watcher P is_address t g))
            (get_childs_of P (codes "connect") t (record { path = codes "cluster" }))

  -- If the configuration is read and all addresses in it are taken by `make_address`, the start returns,
  -- whatever the calls answer: the pool has the instances of the front server and of the cluster, with the
  -- numbers of threads that the configuration gives; there is an acceptor of the cluster for each group to
  -- listen at, which accepts or will try to open again, and a watcher for each group to connect to; and there is
  -- an acceptor of the front server for each group of its own, in their order, with its context set up and
  -- exactly one operation under way.
  pub launch_starts :
      (t : Tree) (env : Environment)
      → Addressed t
      → (l : Launched P) × (launch P is_address (some t) env ≡ launched l)
        × (l.config_tree ≡ t)
        × ClusterStarted t l.cluster
        × (map (λ x. x.config) l.listeners ≡ get_childs P (codes "front.ws.listen") t)
        × All (Opened env t) l.listeners
  unfolding launch
  launch_starts t env h =
      let (s, e, pool, _, listens, accepting, connects) =
        init_starts P is_address t env.uninitialised env.cluster_calls env.cluster_answers
          (front_pool P is_address t) (record { path = codes "cluster" }) h.peers_listen
          h.peers_connect in
      let (ls, e', same, all) =
        run_acceptors_total t env 0 (get_childs P (codes "front.ws.listen") t) h.listens in
      (
        record { config_tree = t; cluster = s; listeners = ls },
        rw (e, e', launch) refl,
        refl,
        record {
          pool = pool;
          accepting = accepting;
          each_listens = listens;
          each_connects = connects;
        },
        same,
        all,
      )
