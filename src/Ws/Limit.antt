-- ===== src/Ws/Limit.antt =====
-- A WsAcceptor under its executor, as the only one of the server.
use ian.Prelude.{
  ℕ, ◌≤◌, ◌<◌, suc, ◌≡◌, refl, Bool, true, false, none, some, [], ◌∷◌, leb, pos, Bool-cases,
  Option-cases, exceeds, inl, inr, arith,
}
use ian.Error.{ErrorCode, Status, Calls}
use ian.Front.{World}
use ian.Ws.Acceptor.{
  Op, accept, wait_open, wait_accept_next, wait_reopen, WsAcceptor, start, close_acceptor, opened,
  accept_next, open_, on_accept, half, on_timer_reopen, new_acceptor, reaches, open_step, made,
}

-- The acceptor, without the operation that completes.
abbrev pub taken : WsAcceptor → WsAcceptor
taken a = record a { pending = [] }

-- One step of the acceptor and of the count of connections: its operation completes, where an accept
-- on an acceptor that does not listen fails, or a connection ends.
pub data Step (w : World) : WsAcceptor → ℕ → WsAcceptor → ℕ → Type 0 where
  accepts :
      {a : WsAcceptor} {n : ℕ}
      → a.pending ≡ accept ∷ []
      → a.listening ≡ true
      → Step w a n (on_accept (record w { active_connection_count = suc n }) none (taken a)) (suc n)
  fails :
      {a : WsAcceptor} {n : ℕ} (e : ErrorCode)
      → a.pending ≡ accept ∷ []
      → Step w a n (on_accept (record w { active_connection_count = n }) (some e) (taken a)) n
  opens :
      {a : WsAcceptor} {n : ℕ} (reuse_addr : Bool) (calls : Calls)
      → a.pending ≡ wait_open ∷ []
      → Step w a n (open_ (record w { active_connection_count = n }) reuse_addr calls (taken a)) n
  goes_on :
      {a : WsAcceptor} {n : ℕ}
      → a.pending ≡ wait_accept_next ∷ []
      → Step w a n (accept_next (record w { active_connection_count = n }) (taken a)) n
  reopens :
      {a : WsAcceptor} {n : ℕ} (reuse_addr : Bool) (calls : Calls)
      → a.pending ≡ wait_reopen ∷ []
      → Step w a n
          (on_timer_reopen (record w { active_connection_count = n }) reuse_addr calls (taken a))
          n
  ends : {a : WsAcceptor} {n : ℕ} → Step w a (suc n) a n

pub data Steps (w : World) (a : WsAcceptor) (n : ℕ) : WsAcceptor → ℕ → Type 0 where
  here : Steps w a n a n
  next : {b c : WsAcceptor} {k l : ℕ} → Steps w a n b k → Step w b k c l → Steps w a n c l

-- One operation is under way, and it is an accept only where a connection more is within the limit.
abbrev pub Limited : ℕ → WsAcceptor → ℕ → Type 0
Limited k a n = (op : Op) × (a.pending ≡ op ∷ []) × (n ≤ k) × (op ≡ accept → n < k)

NotAccept : (op : Op) → Type 0
NotAccept accept = ⊥
NotAccept _ = Unit

waits-Limited :
    (k n : ℕ) (op : Op) (a : WsAcceptor)
    → a.pending ≡ []
    → n ≤ k
    → NotAccept op
    → Limited k (start op a) n
unfolding NotAccept
waits-Limited k n accept a e h x = absurd x
waits-Limited k n wait_open a e h x = (wait_open, rw e, h, λ q. cc)
waits-Limited k n wait_accept_next a e h x = (wait_accept_next, rw e, h, λ q. cc)
waits-Limited k n wait_reopen a e h x = (wait_reopen, rw e, h, λ q. cc)

accept_next-Limited :
    (k : ℕ) (w : World) (a : WsAcceptor)
    → w.config.connection_limit_hard ≡ pos k
    → a.pending ≡ []
    → w.active_connection_count ≤ k
    → Limited k (accept_next w a) w.active_connection_count
unfolding accept_next NotAccept
accept_next-Limited k w a l e h = elim (Bool-cases (leb k w.active_connection_count)) [
  | inl full ↦
      rw (l, full) (waits-Limited k w.active_connection_count wait_reopen (close_acceptor a) e h tt)
  | inr free ↦ rw (l, free) (accept, rw e, h, λ q. ground arith)
]

opened-Limited :
    (k : ℕ) (w : World) (ec : Status) (a : WsAcceptor)
    → w.config.connection_limit_hard ≡ pos k
    → a.pending ≡ []
    → w.active_connection_count ≤ k
    → Limited k (opened w ec a) w.active_connection_count
unfolding NotAccept
opened-Limited k w (some x) a l e h = waits-Limited k w.active_connection_count wait_open a e h tt
opened-Limited k w none a l e h = accept_next-Limited k w a l e h

open_step-Limited :
    (k : ℕ) (w : World) (calls : Calls) (a : WsAcceptor)
    → w.config.connection_limit_hard ≡ pos k
    → a.pending ≡ []
    → w.active_connection_count ≤ k
    → Limited k (open_step w calls a) w.active_connection_count
open_step-Limited k w calls a l e h = elim (Option-cases calls.open_) [
  | inr (x, p) ↦ rw p (opened-Limited k w (some x) a l e h)
  | inl p ↦ elim (Option-cases calls.bind) [
    | inr (x, q) ↦ rw (p, q) (opened-Limited k w calls.close_ (close_acceptor a) l e h)
    | inl q ↦ elim (Option-cases calls.listen) [
      | inr (x, s) ↦ rw (p, q, s) (opened-Limited k w calls.close_ (close_acceptor a) l e h)
      | inl s ↦
          rw (p, q, s)
            (opened-Limited k w none (record a { is_open = true; listening = true }) l e h)
    ]
  ]
]

open-Limited :
    (k : ℕ) (w : World) (reuse_addr : Bool) (calls : Calls) (a : WsAcceptor)
    → w.config.connection_limit_hard ≡ pos k
    → a.pending ≡ []
    → w.active_connection_count ≤ k
    → Limited k (open_ w reuse_addr calls a) w.active_connection_count
unfolding open_
open-Limited k w false calls a l e h = open_step-Limited k w calls a l e h
open-Limited k w true calls a l e h = elim (Option-cases (calls.set_option a.is_open)) [
  | inr (x, p) ↦ rw p (opened-Limited k w (some x) a l e h)
  | inl p ↦ rw p (open_step-Limited k w calls a l e h)
]

on_accept-Limited :
    (k : ℕ) (w : World) (ec : Status) (a : WsAcceptor)
    → w.config.connection_limit_hard ≡ pos k
    → a.pending ≡ []
    → w.active_connection_count ≤ k
    → Limited k (on_accept w ec a) w.active_connection_count
unfolding on_accept NotAccept
on_accept-Limited k w ec a l e h =
    let a' = made ec a in
    let e' : (made ec a).pending ≡ [] = elim (Option-cases ec) [
      | inl p ↦ rw p e
      | inr (x, p) ↦ rw p e
    ] in
    elim (Bool-cases (exceeds w.active_connection_count (half w.config.connection_limit_hard))) [
      | inl busy ↦ rw busy (waits-Limited k w.active_connection_count wait_accept_next a' e' h tt)
      | inr calm ↦ rw calm (accept_next-Limited k w a' l e' h)
    ]

reopen-Limited :
    (k : ℕ) (w : World) (reuse_addr : Bool) (calls : Calls) (a : WsAcceptor)
    → w.config.connection_limit_hard ≡ pos k
    → a.pending ≡ []
    → w.active_connection_count ≤ k
    → Limited k (on_timer_reopen w reuse_addr calls a) w.active_connection_count
unfolding on_timer_reopen NotAccept
reopen-Limited k w reuse_addr calls a l e h =
    elim (Bool-cases (reaches w.active_connection_count w.config.connection_limit_hard)) [
      | inl full ↦ rw full (waits-Limited k w.active_connection_count wait_reopen a e h tt)
      | inr free ↦ rw free (open-Limited k w reuse_addr calls a l e h)
    ]

Step-Limited :
    {w : World} {a : WsAcceptor} {n : ℕ} {b : WsAcceptor} {m : ℕ} (k : ℕ)
    → w.config.connection_limit_hard ≡ pos k
    → Step w a n b m
    → Limited k a n
    → Limited k b m
Step-Limited {w} {n = n} k l (accepts p q) (op, e, h, g) =
    let same : op ≡ accept = cc in
    on_accept-Limited k (record w { active_connection_count = suc n }) none _ l refl
      (omega (arith, g same))
Step-Limited {w} {n = n} k l (fails x p) (op, e, h, g) =
    on_accept-Limited k (record w { active_connection_count = n }) (some x) _ l refl h
Step-Limited {w} {n = n} k l (opens reuse_addr calls p) (op, e, h, g) =
    open-Limited k (record w { active_connection_count = n }) reuse_addr calls _ l refl h
Step-Limited {w} {n = n} k l (goes_on p) (op, e, h, g) =
    accept_next-Limited k (record w { active_connection_count = n }) _ l refl h
Step-Limited {w} {n = n} k l (reopens reuse_addr calls p) (op, e, h, g) =
    reopen-Limited k (record w { active_connection_count = n }) reuse_addr calls _ l refl h
Step-Limited k l ends (op, e, h, g) = (op, e, omega arith, λ q. omega (arith, g q))

Steps-Limited :
    {w : World} {a : WsAcceptor} {n : ℕ} {b : WsAcceptor} {m : ℕ} (k : ℕ)
    → w.config.connection_limit_hard ≡ pos k
    → Limited k a n
    → Steps w a n b m
    → Limited k b m
Steps-Limited k l v here = v
Steps-Limited k l v (next r s) = Step-Limited k l s (Steps-Limited k l v r)

-- With a single acceptor and a hard limit that is not negative and stays the same, whatever the calls
-- on the socket answer, however the completions come and connections end, the connections are never
-- more than the hard limit, if they were not when the acceptor was run, and the acceptor always has
-- exactly one operation under way.
pub open_limited :
    (k m : ℕ) (w : World) (reuse_addr : Bool) (calls : Calls) (b : WsAcceptor)
    → w.config.connection_limit_hard ≡ pos k
    → w.active_connection_count ≤ k
    → Steps w (open_ w reuse_addr calls new_acceptor) w.active_connection_count b m
    → (m ≤ k) × ((op : Op) × (b.pending ≡ op ∷ []))
open_limited k m w reuse_addr calls b l h r =
    let v = open-Limited k w reuse_addr calls new_acceptor l refl h in
    let (op, e, bound, _) = Steps-Limited k l v r in (bound, (op, e))
