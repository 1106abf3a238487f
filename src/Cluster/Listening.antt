-- ===== src/Cluster/Listening.antt =====
-- A ClusterAcceptor under its executor. The tree of the configuration may be another at each `open`.

use ian.Prelude.{
  ◌≡◌, ◌⊎◌, refl, sym, ◌∙◌, inl, inr, Bool, true, false, some, none, List, [], ◌∷◌, ◌++◌, All,
  single, Bool-cases, Bytes,
}
use ian.Error.{ErrorCode, Status, Calls}
use ian.Config.Value.{PropertyTree}
use ian.Config.Group.{ConfigGroup}
use ian.Cluster.State
use ian.Cluster.State.{server, ClusterConnection, new_connection}
use ian.Cluster.Acceptor.{
  AcceptOp, accept, wait_open, ClusterAcceptor, new_acceptor, accept_next, opened, close_acceptor,
  listen_step, bind_step, open_step, open_calls, listen_addr, reuse_addr, safe_link_option, open_,
  run, on_accept,
}

abbrev pub without : List AcceptOp → List AcceptOp → ClusterAcceptor → ClusterAcceptor
without before after a = record a { pending = before ++ after }

-- A peer as `run` left it, on the side of the server.
abbrev pub IsServed : ClusterConnection → Type 0
IsServed c =
    (uninitialised : Bool) × (verified : Status) × (safe_link : Bool) × (c
      ≡ State.run server safe_link verified (new_connection uninitialised))

-- What holds between the handlers.
pub record Accepting (a : ClusterAcceptor) : Type 0 where
  pub one_operation : (a.pending ≡ accept ∷ []) ⊎ (a.pending ≡ wait_open ∷ [])
  pub open_listens : a.listening ≡ true → (a.is_open ≡ true) × (a.pending ≡ accept ∷ [])
  pub peers_served : All IsServed a.peers

-- The same without an operation under way.
pub record Ready (a : ClusterAcceptor) : Type 0 where
  pub idle : a.pending ≡ []
  pub silent : a.listening ≡ false
  pub served : All IsServed a.peers

opened-Accepting :
    (ec : Status) (a : ClusterAcceptor)
    → a.pending ≡ []
    → (a.listening ≡ true → (a.is_open ≡ true) × (ec ≡ none))
    → All IsServed a.peers
    → Accepting (opened ec a)
unfolding accept_next
opened-Accepting none a p l h = record {
  one_operation = inl (rw p);
  open_listens = λ q. ((l q).0, rw p);
  peers_served = h;
}
opened-Accepting (some e) a p l h = record {
  one_operation = inr (rw p);
  open_listens = λ q. absurd (let bad = (l q).1 in cc);
  peers_served = h;
}

listen_step-Accepting :
    (calls : Calls) (a : ClusterAcceptor)
    → a.is_open ≡ true
    → Ready a
    → Accepting (listen_step calls a)
listen_step-Accepting calls a o v = go calls.listen refl
  where
    go : (ec : Status) → calls.listen ≡ ec → Accepting (listen_step calls a)
    go none e =
        rw e
          (opened-Accepting none (record a { listening = true }) v.idle (λ q. (o, refl)) v.served)
    go (some x) e =
        rw e (opened-Accepting calls.close_ (close_acceptor a) v.idle (λ q. cc) v.served)

bind_step-Accepting :
    (calls : Calls) (a : ClusterAcceptor)
    → a.is_open ≡ true
    → Ready a
    → Accepting (bind_step calls a)
bind_step-Accepting calls a o v = go calls.bind refl
  where
    go : (ec : Status) → calls.bind ≡ ec → Accepting (bind_step calls a)
    go none e = rw e (listen_step-Accepting calls a o v)
    go (some x) e =
        rw e (opened-Accepting calls.close_ (close_acceptor a) v.idle (λ q. cc) v.served)

open_step-Accepting :
    (calls : Calls) (a : ClusterAcceptor) → Ready a → Accepting (open_step calls a)
open_step-Accepting calls a v = go calls.open_ refl
  where
    go : (ec : Status) → calls.open_ ≡ ec → Accepting (open_step calls a)
    go none e = rw e (
        bind_step-Accepting calls (record a { is_open = true }) refl
          (record { idle = v.idle; silent = v.silent; served = v.served }))
    go (some x) e =
        rw e (opened-Accepting (some x) a v.idle (λ q. absurd (let s = v.silent in cc)) v.served)

pub open_calls-Accepting :
    (reuse : Bool) (calls : Calls) (a : ClusterAcceptor)
    → Ready a
    → Accepting (open_calls reuse calls a)
open_calls-Accepting false calls a v = open_step-Accepting calls a v
open_calls-Accepting true calls a v = go (calls.set_option a.is_open) refl
  where
    go : (ec : Status) → calls.set_option a.is_open ≡ ec → Accepting (open_calls true calls a)
    go none e = rw e (open_step-Accepting calls a v)
    go (some x) e =
        rw e (opened-Accepting (some x) a v.idle (λ q. absurd (let s = v.silent in cc)) v.served)

on_accept-Accepting :
    (u : Bool) (verified ec : Status) (a : ClusterAcceptor)
    → a.pending ≡ []
    → (a.listening ≡ true → a.is_open ≡ true)
    → All IsServed a.peers
    → Accepting (on_accept u verified ec a)
unfolding on_accept accept_next
on_accept-Accepting u verified (some e) a p l h = record {
  one_operation = inl (rw p);
  open_listens = λ q. (l q, rw p);
  peers_served = h;
}
on_accept-Accepting u verified none a p l h = record {
  one_operation = inl (rw p);
  open_listens = λ q. (l q, rw p);
  peers_served = ((u, verified, a.safe_link, refl), h);
}

module _ (P : PropertyTree) (is_address : Bytes → Bool) where
  open P use {Tree}

  -- One step. An accept succeeds on an acceptor that listens only. `Allowed` says which trees and calls
  -- an `open` may find.
  pub data Step (Allowed : Tree → Calls → Type 0) : ClusterAcceptor → ClusterAcceptor → Type 0 where
    accepts :
        {a : ClusterAcceptor} (before after : List AcceptOp) (uninitialised : Bool)
        (verified : Status)
        → a.pending ≡ before ++ accept ∷ after
        → a.listening ≡ true
        → Step Allowed a (on_accept uninitialised verified none (without before after a))
    fails :
        {a : ClusterAcceptor} (before after : List AcceptOp) (uninitialised : Bool)
        (verified : Status) (e : ErrorCode)
        → a.pending ≡ before ++ accept ∷ after
        → Step Allowed a (on_accept uninitialised verified (some e) (without before after a))
    opens :
        {a a' : ClusterAcceptor} (before after : List AcceptOp) (t : Tree) (calls : Calls)
        → a.pending ≡ before ++ wait_open ∷ after
        → Allowed t calls
        → open_ P is_address t calls (without before after a) ≡ some a'
        → Step Allowed a a'

  pub data Trace (Allowed : Tree → Calls → Type 0) (s : ClusterAcceptor)
      : ClusterAcceptor → Type 0 where
    here : Trace Allowed s s
    next : {a a' : ClusterAcceptor} → Trace Allowed s a → Step Allowed a a' → Trace Allowed s a'

  -- An `open` that returns has an address.
  pub open_cases :
      (t : Tree) (calls : Calls) (a a' : ClusterAcceptor)
      → open_ P is_address t calls a ≡ some a'
      → a' ≡ open_calls (reuse_addr P t a) calls (record a { safe_link = safe_link_option P t a })
  unfolding open_
  open_cases t calls a a' e = elim (Bool-cases (is_address (listen_addr P t a))) [
    | inl good ↦ let r = rw good at e in cc
    | inr bad ↦ absurd (let r = rw bad at e in cc)
  ]

  Step-Accepting :
      {Allowed : Tree → Calls → Type 0} {a a' : ClusterAcceptor}
      → Accepting a
      → Step Allowed a a'
      → Accepting a'
  Step-Accepting {a = a} i (accepts before after u v e l) = elim i.one_operation [
    | inl p ↦
        let (same, b, c) = single accept before accept after (sym p ∙ e) in
        on_accept-Accepting u v none (without before after a) (rw (b, c) refl)
          (λ q. (i.open_listens q).0) i.peers_served
    | inr p ↦ absurd (let (same, b, c) = single wait_open before accept after (sym p ∙ e) in cc)
  ]
  Step-Accepting {a = a} i (fails before after u v x e) = elim i.one_operation [
    | inl p ↦
        let (same, b, c) = single accept before accept after (sym p ∙ e) in
        on_accept-Accepting u v (some x) (without before after a) (rw (b, c) refl)
          (λ q. (i.open_listens q).0) i.peers_served
    | inr p ↦ absurd (let (same, b, c) = single wait_open before accept after (sym p ∙ e) in cc)
  ]
  Step-Accepting {a = a} {a' = a'} i (opens before after t calls e allowed r) =
      elim i.one_operation [
        | inl p ↦ absurd (let (same, b, c) = single accept before wait_open after (sym p ∙ e) in cc)
        | inr p ↦
            let (same, b, c) = single wait_open before wait_open after (sym p ∙ e) in
            rw (open_cases t calls (without before after a) a' r) (
              open_calls-Accepting _ calls _ (record {
                idle = rw (b, c) refl;
                silent = elim (Bool-cases a.listening) [
                  | inl l ↦ absurd (let q = sym p ∙ (i.open_listens l).1 in cc)
                  | inr l ↦ l
                ];
                served = i.peers_served;
              }))
      ]

  -- Whatever the calls answer and the accepts come to, and however the configuration changes: exactly
  -- one operation of an acceptor that was run is under way, it accepts while it listens and is open
  -- then, and every peer was run as a server.
  pub run-Accepting :
      (uninitialised : Bool) (config : ConfigGroup) (t : Tree) (calls : Calls) (s : ClusterAcceptor)
      {a : ClusterAcceptor}
      → run P is_address t calls (new_acceptor uninitialised config) ≡ some s
      → Trace (λ t calls. Unit) s a
      → Accepting a
  unfolding run
  run-Accepting u config t calls s e here =
      rw (open_cases t calls (new_acceptor u config) s e)
        (open_calls-Accepting _ calls _ (record { idle = refl; silent = refl; served = tt }))
  run-Accepting u config t calls s e (next r st) =
      Step-Accepting (run-Accepting u config t calls s e r) st
