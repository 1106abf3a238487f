-- ===== src/Cluster/Init.antt =====
-- The start of the cluster: server/common/src/cluster/Cluster.cpp.
use ian.Prelude.{
  Option-cases, inl, inr, ℕ, suc, ◌-◌, ◌%◌, ◌^◌, ◌≡◌, refl, Bool, true, false, Option, some, none,
  List, [], ◌∷◌, ◌++◌, map, All, Bytes, ℤ, pos, negsuc, codes, if◌then◌else◌,
}
use ian.Error.{Status, Calls}
use ian.Config.Value.{PropertyTree}
use ian.Config.Group.{
  ConfigGroup, get_int_object, get_bool_value, get_string_value, get_int_value, get_childs_of,
  get_childs, get_group,
}
use ian.Ssl.{Setup, Answers, init_ssl_context, untouched}
use ian.AsioPool.{AsioInstance, new_instance, create_asio}
use ian.Cluster.Acceptor
use ian.Cluster.Acceptor.{
  ClusterAcceptor, new_acceptor, listen_addr, reuse_addr, safe_link_option, opened, accept_next,
  close_acceptor, open_step, open_calls, listen_step, bind_step,
}
use ian.Cluster.Watcher
use ian.Cluster.Watcher.{ClusterWatcher, TcpEndpoint, connect, new_watcher}
use ian.Cluster.Listening.{Accepting, open_calls-Accepting}

-- An int as an unsigned short.
abbrev pub port_of : ℤ → ℕ
port_of (pos k) = k % 2 ^ 16
port_of (negsuc k) = 2 ^ 16 - suc (k % 2 ^ 16)

-- The calls of `open` leave the group alone.
opened-config : (ec : Status) (a : ClusterAcceptor) → (opened ec a).config ≡ a.config
unfolding accept_next
opened-config none a = refl
opened-config (some e) a = refl

open_step-config : (calls : Calls) (a : ClusterAcceptor) → (open_step calls a).config ≡ a.config
unfolding accept_next
open_step-config calls a = elim (Option-cases calls.open_) [
  | inr (x, o) ↦ rw o refl
  | inl o ↦ elim (Option-cases calls.bind) [
    | inr (x, b) ↦ rw (o, b) (opened-config calls.close_ (close_acceptor a))
    | inl b ↦ elim (Option-cases calls.listen) [
      | inr (x, l) ↦ rw (o, b, l) (opened-config calls.close_ (close_acceptor a))
      | inl l ↦ rw (o, b, l) refl
    ]
  ]
]

open_calls-config :
    (reuse : Bool) (calls : Calls) (a : ClusterAcceptor)
    → (open_calls reuse calls a).config ≡ a.config
unfolding accept_next
open_calls-config false calls a = open_step-config calls a
open_calls-config true calls a = elim (Option-cases (calls.set_option a.is_open)) [
  | inr (x, o) ↦ rw o refl
  | inl o ↦ rw o (open_step-config calls a)
]

pub record Started : Type 0 where
  pub pool : List AsioInstance
  pub tls : Setup
  pub acceptors : List ClusterAcceptor
  pub watchers : List ClusterWatcher

module _ (P : PropertyTree) (is_address : Bytes → Bool) where
  open P use {Tree}

  -- The address that a peer is watched at, whose default is empty, and its endpoint.
  abbrev pub peer_addr : Tree → ConfigGroup → Bytes
  peer_addr t group = get_string_value P (codes "ip") [] t group

  abbrev pub peer_endpoint : Tree → ConfigGroup → TcpEndpoint
  peer_endpoint t group = record {
    address = peer_addr t group;
    port = port_of (get_int_value P (codes "port") (pos 17001) t group);
  }

  -- The two loops. `calls` are those of the acceptor with a number, and `none` is an exception of
  -- `make_address`.
  unfoldable pub start_acceptors :
      Tree → Bool → (ℕ → Calls) → ℕ → List ConfigGroup → Option (List ClusterAcceptor)
  unfolding Acceptor.run
  start_acceptors t uninitialised calls n [] = some []
  start_acceptors t uninitialised calls n (group ∷ groups) =
      elim (Acceptor.run P is_address t (calls n) (new_acceptor uninitialised group)) [
        | none ↦ none
        | some a ↦ elim (start_acceptors t uninitialised calls (suc n) groups) [
          | none ↦ none
          | some as_ ↦ some (a ∷ as_)
        ]
      ]

  abbrev pub peer_watcher : Tree → ConfigGroup → ClusterWatcher
  peer_watcher t group =
      new_watcher (peer_endpoint t group) (get_bool_value P (codes "safe_link") false t group)

  unfoldable pub start_watchers : Tree → List ConfigGroup → Option (List ClusterWatcher)
  unfolding Watcher.run
  start_watchers t [] = some []
  start_watchers t (group ∷ groups) =
      if is_address (peer_addr t group)
      then elim (start_watchers t groups) [
        | none ↦ none
        | some ws ↦ some (Watcher.run (peer_watcher t group) ∷ ws)
      ]
      else none

  unfoldable pub init :
      Tree → Bool → (ℕ → Calls) → Answers → List AsioInstance → ConfigGroup → Option Started
  unfolding create_asio start_acceptors start_watchers get_childs
  init t uninitialised calls answers pool config =
      let pool' =
        create_asio (codes "cluster") (get_int_object P (codes "threads") (pos 2) t config) pool in
      let tls = init_ssl_context P answers t (get_group (codes "ssl") config) untouched in
      elim (start_acceptors t uninitialised calls 0 (get_childs_of P (codes "listen") t config)) [
        | none ↦ none
        | some as_ ↦ elim (start_watchers t (get_childs_of P (codes "connect") t config)) [
          | none ↦ none
          | some ws ↦ some (record { pool = pool'; tls = tls; acceptors = as_; watchers = ws })
        ]
      ]

  abbrev group_addr : Tree → ConfigGroup → Bytes
  group_addr t group = listen_addr P t (new_acceptor false group)

  run_acceptor :
      (t : Tree) (u : Bool) (calls : Calls) (group : ConfigGroup)
      → is_address (group_addr t group) ≡ true
      → (a : ClusterAcceptor) × (Acceptor.run P is_address t calls (new_acceptor u group) ≡ some a)
        × (a.config ≡ group)
        × Accepting a
  unfolding Acceptor.run Acceptor.open_
  run_acceptor t u calls group good =
      let a = record (new_acceptor u group) {
        safe_link = safe_link_option P t (new_acceptor u group);
      } in
      let reuse = reuse_addr P t (new_acceptor u group) in
      (
        open_calls reuse calls a,
        rw good refl,
        open_calls-config reuse calls a,
        open_calls-Accepting reuse calls a (record { idle = refl; silent = refl; served = tt }),
      )

  start_acceptors_total :
      (t : Tree) (u : Bool) (calls : ℕ → Calls) (n : ℕ) (groups : List ConfigGroup)
      → All (λ g. is_address (group_addr t g) ≡ true) groups
      → (as_ : List ClusterAcceptor) × (start_acceptors t u calls n groups ≡ some as_)
        × (map (λ a. a.config) as_ ≡ groups)
        × All Accepting as_
  unfolding start_acceptors
  start_acceptors_total t u calls n [] h = ([], refl, refl, tt)
  start_acceptors_total t u calls n (g ∷ gs) (good, h) =
      let (a, started, same, accepting) = run_acceptor t u (calls n) g good in
      let (as_, rest, all_same, all) = start_acceptors_total t u calls (suc n) gs h in
      (
        a ∷ as_,
        rw (started, rest, start_acceptors) refl,
        rw (same, all_same) refl,
        (accepting, all),
      )

  start_watchers_total :
      (t : Tree) (groups : List ConfigGroup)
      → All (λ g. is_address (peer_addr t g) ≡ true) groups
      → start_watchers t groups ≡ some (map (λ g. Watcher.run (peer_watcher t g)) groups)
  unfolding start_watchers
  start_watchers_total t [] h = refl
  start_watchers_total t (g ∷ gs) (good, h) =
      rw (good, start_watchers_total t gs h, start_watchers) refl

  -- If the addresses of all groups are taken by `make_address`, the start returns, whatever the calls
  -- answer: with the pool and one more instance, a TLS
  -- context that was set up, an acceptor for each group to listen at, in their order,
  -- each of which accepts or will try to open again, and a watcher for each group to connect to, each of
  -- which connects.
  pub init_starts :
      (t : Tree) (uninitialised : Bool) (calls : ℕ → Calls) (answers : Answers)
      (pool : List AsioInstance) (config : ConfigGroup)
      → All
          (λ g. is_address (listen_addr P t (new_acceptor false g)) ≡ true)
          (get_childs_of P (codes "listen") t config)
      → All (λ g. is_address (peer_addr t g) ≡ true) (get_childs_of P (codes "connect") t config)
      → (s : Started) × (init t uninitialised calls answers pool config ≡ some s)
        × (s.pool
            ≡ pool
              ++ new_instance
                  (codes "cluster")
                  (get_int_object P (codes "threads") (pos 2) t config)
                ∷ [])
        × (s.tls ≡ init_ssl_context P answers t (get_group (codes "ssl") config) untouched)
        × (map (λ a. a.config) s.acceptors ≡ get_childs_of P (codes "listen") t config)
        × All Accepting s.acceptors
        × (s.watchers
            ≡ map
                (λ g. Watcher.run (peer_watcher t g))
                (get_childs_of P (codes "connect") t config))
  unfolding init
  init_starts t u calls answers pool config listens connects =
      let groups = get_childs_of P (codes "listen") t config in
      let (as_, e, same, all) = start_acceptors_total t u calls 0 groups listens in
      (
        _,
        rw (e, start_watchers_total t (get_childs_of P (codes "connect") t config) connects, init)
            refl,
        refl,
        refl,
        same,
        all,
        refl,
      )
