-- ===== src/Cluster/Outage.antt =====
-- What a ClusterWatcher does while its connection is gone.
use mathlib.Core.Path.{subst}
use ian.Prelude.{
  ℕ, suc, ◌+◌, ◌*◌, ◌≤◌, single, ◌≡◌, ◌⊎◌, refl, sym, ap, ◌∙◌, inl, inr, Bool, true, false, Option,
  some, none, List, [], ◌∷◌, ◌++◌, All, arith,
}
use ian.Error.{Status, is_operation_aborted}
use ian.Cluster.State
use ian.Cluster.State.{client, ClusterConnection, new_connection}
use ian.Cluster.Watcher.{
  WatchOp, TcpEndpoint, connect, timer, ClusterWatcher, new_watcher, expired, try_connect, run,
  wait, on_connect, on_timer,
}
use ian.Cluster.Reconnect.{
  Delivers, complete, without, Step, completes, newest_steps, earlier_steps, Trace, here, next,
  IsGone, Watching, IsGone-middle, left_behind-IsGone, Step-Watching, run-Watching,
}

pub steps : {s w : ClusterWatcher} → Trace s w → ℕ
steps here = 0
steps (next r st) = suc (steps r)

-- How many of the completions are those of a connect.
abbrev is_connect : WatchOp → ℕ
is_connect connect = 1
is_connect _ = 0

abbrev attempts_of : {w w' : ClusterWatcher} → Step w w' → ℕ
attempts_of (completes before op after u v ec e d) = is_connect op
attempts_of (newest_steps c c' e live st) = 0
attempts_of (earlier_steps before c c' after e live st) = 0

pub attempts : {s w : ClusterWatcher} → Trace s w → ℕ
attempts here = 0
attempts (next r st) = attempts r + attempts_of st

-- No connect succeeds.
abbrev pub Fails : WatchOp → Status → Type 0
Fails connect none = ⊥
Fails _ ec = Unit

abbrev pub StepFails : {w w' : ClusterWatcher} → Step w w' → Type 0
StepFails (completes before op after u v ec e d) = Fails op ec
StepFails (newest_steps c c' e live st) = Unit
StepFails (earlier_steps before c c' after e live st) = Unit

abbrev pub AllFail : {s w : ClusterWatcher} → Trace s w → Type 0
AllFail here = Unit
AllFail (next r st) = AllFail r × StepFails st

-- Behind `n` steps with `a` attempts, the connection is as it was, and the next step is an attempt if more
-- than half of those before were none.
record Out (safe_link : Bool) (o : Option ClusterConnection) (n a : ℕ) (w : ClusterWatcher)
    : Type 0 where
  watching : Watching safe_link w
  same : w.connection_ ≡ o
  turn : ((w.pending ≡ timer ∷ []) × (n ≤ 2 * a)) ⊎ ((w.pending ≡ connect ∷ []) × (n ≤ 2 * a + 1))

-- A connect that fails, and a wait that ends.
failed_turn :
    (n a : ℕ) (u : Bool) (v ec : Status) (w : ClusterWatcher)
    → Fails connect ec
    → n ≤ 2 * a + 1
    → let w' = on_connect u v ec (without [] [] w) in
      (w'.connection_ ≡ w.connection_) × (w'.pending ≡ timer ∷ []) × (suc n ≤ 2 * (a + 1))
unfolding on_connect wait
failed_turn n a u v none w f h = absurd f
failed_turn n a u v (some e) w f h = (refl, refl, omega arith)

waited_turn :
    (n a : ℕ) (ec : Status) (w : ClusterWatcher)
    → is_operation_aborted ec ≡ false
    → expired w.connection_ ≡ true
    → n ≤ 2 * a
    → let w' = on_timer ec (without [] [] w) in
      (w'.connection_ ≡ w.connection_) × (w'.pending ≡ connect ∷ []) × (suc n ≤ 2 * (a + 0) + 1)
unfolding on_timer try_connect
waited_turn n a ec w fired over h = rw (fired, over) (refl, refl, omega arith)

completed_turn :
    (n a : ℕ) (before : List WatchOp) (op : WatchOp) (after : List WatchOp) (u : Bool)
    (v ec : Status) (w : ClusterWatcher)
    → w.pending ≡ before ++ op ∷ after
    → Delivers op ec
    → Fails op ec
    → expired w.connection_ ≡ true
    → ((w.pending ≡ timer ∷ []) × (n ≤ 2 * a)) ⊎ ((w.pending ≡ connect ∷ []) × (n ≤ 2 * a + 1))
    → let w' = complete op u v ec (without before after w) in
      let a' = a + is_connect op in
      (w'.connection_ ≡ w.connection_)
      × (((w'.pending ≡ timer ∷ []) × (suc n ≤ 2 * a'))
          ⊎ ((w'.pending ≡ connect ∷ []) × (suc n ≤ 2 * a' + 1)))
completed_turn n a before op after u v ec w e d f over (inl (t, h)) =
    let (same, b, c) = single timer before op after (sym t ∙ e) in
    let fired = subst (λ o. Delivers o ec) (sym same) d in
    let (x, y, z) = waited_turn n a ec w fired over h in rw (← same, b, c) (x, inr (y, z))
completed_turn n a before op after u v ec w e d f over (inr (t, h)) =
    let (same, b, c) = single connect before op after (sym t ∙ e) in
    let (x, y, z) = failed_turn n a u v ec w (subst (λ o. Fails o ec) (sym same) f) h in
    rw (← same, b, c) (x, inl (y, z))

Step-Out :
    {safe_link : Bool} {o : Option ClusterConnection} (n a : ℕ) {w w' : ClusterWatcher}
    → expired o ≡ true
    → Out safe_link o n a w
    → (st : Step w w') → StepFails st
    → Out safe_link o (suc n) (a + attempts_of st) w'
Step-Out n a {w = w} over i (completes before op after u v ec e d) f =
    let (x, y) =
      completed_turn n a before op after u v ec w e d f (ap expired i.same ∙ over) i.turn in
    record {
      watching = Step-Watching i.watching (completes before op after u v ec e d);
      same = x ∙ i.same;
      turn = y;
    }
Step-Out n a {w = w} over i (newest_steps c c' e live st) f =
    absurd (let gone = sym (ap expired e) ∙ ap expired i.same ∙ over in cc)
Step-Out n a {w = w} over i (earlier_steps before c c' after e live st) f =
    absurd (let gone = IsGone-middle before c after (rw (← e) i.watching.one_connection) in cc)

Trace-Out :
    {safe_link : Bool} {w : ClusterWatcher}
    → Watching safe_link w
    → expired w.connection_ ≡ true
    → {w' : ClusterWatcher} (r : Trace w w') → AllFail r
    → Out safe_link w.connection_ (steps r) (attempts r) w'
unfolding steps attempts
Trace-Out i over here f = record {
  watching = i;
  same = refl;
  turn = elim i.one_operation [ inl c ↦ inr (c, omega arith) | inr t ↦ inl (t, omega arith) ];
}
Trace-Out i over (next r st) (fs, f) =
    Step-Out (steps r) (attempts r) over (Trace-Out i over r fs) st f

-- A connect that succeeds gives the watcher a connection, and no other is left.
abbrev pub Connects : Bool → ClusterWatcher → Type 0
Connects safe_link w =
    (uninitialised : Bool) (verified : Status)
    → let w' = on_connect uninitialised verified none (without [] [] w) in
      (w'.connection_ ≡ some (State.run client safe_link verified (new_connection uninitialised)))
      × (expired w'.connection_ ≡ false)
      × (w'.pending ≡ timer ∷ [])
      × All IsGone w'.earlier

Connects-pending :
    (safe_link : Bool) (w : ClusterWatcher)
    → Watching safe_link w
    → expired w.connection_ ≡ true
    → Connects safe_link w
unfolding on_connect wait
Connects-pending safe_link w i over = λ u v. (
  rw i.same_link refl,
  unfold State.run in refl,
  refl,
  left_behind-IsGone w.connection_ w.earlier over i.one_connection,
)

-- A watcher whose connection is gone never gives up. However the executor goes on behind any run, as long as
-- no connect succeeds: of every two completions one at least is that of a connect; the watcher
-- waits, or it connects; and if it connects and that succeeds, it has a new connection that was run as a
-- client, no other one is left, and it waits.
pub reconnects :
    (endpoint : TcpEndpoint) (safe_link : Bool) {w w' : ClusterWatcher}
    → Trace (run (new_watcher endpoint safe_link)) w
    → expired w.connection_ ≡ true
    → (r : Trace w w') → AllFail r
    → (steps r ≤ 2 * attempts r + 1)
      × ((w'.pending ≡ timer ∷ []) ⊎ ((w'.pending ≡ connect ∷ []) × Connects safe_link w'))
reconnects endpoint safe_link {w = w} {w' = w'} before over r f =
    let o = Trace-Out (run-Watching endpoint safe_link before) over r f in
    elim o.turn [
      | inl (t, h) ↦ (omega (arith, h), inl t)
      | inr (c, h) ↦
          (h, inr (c, Connects-pending safe_link w' o.watching (ap expired o.same ∙ over)))
    ]
