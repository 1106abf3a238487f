-- ===== src/Cluster/Reconnect.antt =====
-- A ClusterWatcher under its executor, with the connections that it made: any operation under way may
-- complete next, of the watcher or of a connection.
use mathlib.Core.Path.{subst}
use ian.Prelude.{
  single, ◌≡◌, ◌⊎◌, refl, sym, ap, ◌∙◌, inl, inr, Bool, true, false, Option, some, none, List, [],
  ◌∷◌, ◌++◌, All, Bool-cases,
}
use ian.Error.{Status, is_operation_aborted}
use ian.Cluster.State.{ClusterConnection}
use ian.Cluster.Steps
use ian.Cluster.Watcher.{
  WatchOp, TcpEndpoint, connect, timer, canceled, ClusterWatcher, new_watcher, is_gone, expired,
  try_connect, run, wait, left_behind, on_connect, on_timer,
}

-- The handler of an operation. A wait completes with `operation_aborted` exactly if it was canceled.
abbrev pub Delivers : WatchOp → Status → Type 0
Delivers connect ec = Unit
Delivers timer ec = is_operation_aborted ec ≡ false
Delivers canceled ec = is_operation_aborted ec ≡ true

abbrev pub complete : WatchOp → Bool → Status → Status → ClusterWatcher → ClusterWatcher
complete connect uninitialised verified ec w = on_connect uninitialised verified ec w
complete timer uninitialised verified ec w = on_timer ec w
complete canceled uninitialised verified ec w = on_timer ec w

abbrev pub without : List WatchOp → List WatchOp → ClusterWatcher → ClusterWatcher
without before after w = record w { pending = before ++ after }

-- One step. A connection that is gone takes none.
pub data Step : ClusterWatcher → ClusterWatcher → Type 0 where
  completes :
      {w : ClusterWatcher} (before : List WatchOp) (op : WatchOp) (after : List WatchOp)
      (uninitialised : Bool) (verified ec : Status)
      → w.pending ≡ before ++ op ∷ after
      → Delivers op ec
      → Step w (complete op uninitialised verified ec (without before after w))
  newest_steps :
      {w : ClusterWatcher} (c c' : ClusterConnection)
      → w.connection_ ≡ some c
      → is_gone c ≡ false
      → Steps.Step c c'
      → Step w (record w { connection_ = some c' })
  earlier_steps :
      {w : ClusterWatcher} (before : List ClusterConnection) (c c' : ClusterConnection)
      (after : List ClusterConnection)
      → w.earlier ≡ before ++ c ∷ after
      → is_gone c ≡ false
      → Steps.Step c c'
      → Step w (record w { earlier = before ++ c' ∷ after })

pub data Trace (s : ClusterWatcher) : ClusterWatcher → Type 0 where
  here : Trace s s
  next : {w w' : ClusterWatcher} → Trace s w → Step w w' → Trace s w'

abbrev pub IsGone : ClusterConnection → Type 0
IsGone c = is_gone c ≡ true

-- One operation is under way, and no connection but the last is left; none at all while it connects.
pub record Watching (safe_link : Bool) (w : ClusterWatcher) : Type 0 where
  pub same_link : w.safe_link ≡ safe_link
  pub one_operation : (w.pending ≡ connect ∷ []) ⊎ (w.pending ≡ timer ∷ [])
  pub one_connection : All IsGone w.earlier
  pub connects_alone : w.pending ≡ connect ∷ [] → expired w.connection_ ≡ true

pub IsGone-middle :
    (before : List ClusterConnection) (c : ClusterConnection) (after : List ClusterConnection)
    → All IsGone (before ++ c ∷ after)
    → IsGone c
IsGone-middle [] c after (h, all) = h
IsGone-middle (b ∷ before) c after (h, all) = IsGone-middle before c after all

pub left_behind-IsGone :
    (o : Option ClusterConnection) (cs : List ClusterConnection)
    → expired o ≡ true
    → All IsGone cs
    → All IsGone (left_behind o cs)
left_behind-IsGone none cs h all = all
left_behind-IsGone (some c) cs h all = (h, all)

-- A connect that completes, in a state where no operation is under way.
on_connect-Watching :
    (uninitialised : Bool) (verified ec : Status) (w : ClusterWatcher)
    → w.pending ≡ []
    → expired w.connection_ ≡ true
    → All IsGone w.earlier
    → Watching w.safe_link (on_connect uninitialised verified ec w)
unfolding on_connect wait
on_connect-Watching u v (some e) w p h all = record {
  same_link = refl;
  one_operation = inr (rw p);
  one_connection = all;
  connects_alone = λ q. cc;
}
on_connect-Watching u v none w p h all = record {
  same_link = refl;
  one_operation = inr (rw p);
  one_connection = left_behind-IsGone w.connection_ w.earlier h all;
  connects_alone = λ q. cc;
}

on_timer-Watching :
    (ec : Status) (w : ClusterWatcher)
    → is_operation_aborted ec ≡ false
    → w.pending ≡ []
    → All IsGone w.earlier
    → Watching w.safe_link (on_timer ec w)
unfolding on_timer try_connect wait
on_timer-Watching ec w fired p all = elim (Bool-cases (expired w.connection_)) [
  | inl over ↦
      rw (fired, over)
        (record {
          same_link = refl;
          one_operation = inl (rw p);
          one_connection = all;
          connects_alone = λ q. over;
        })
  | inr live ↦
      rw (fired, live)
        (record {
          same_link = refl;
          one_operation = inr (rw p);
          one_connection = all;
          connects_alone = λ q. cc;
        })
]

completes-Watching :
    (before : List WatchOp) (op : WatchOp) (after : List WatchOp) (u : Bool) (v ec : Status)
    (w : ClusterWatcher)
    → w.pending ≡ before ++ op ∷ after
    → Delivers op ec
    → Watching w.safe_link w
    → Watching w.safe_link (complete op u v ec (without before after w))
completes-Watching before op after u v ec w e d i = elim i.one_operation [
  | inl c ↦
      let (same, b, a) = single connect before op after (sym c ∙ e) in
      rw (← same, b, a)
        (on_connect-Watching u v ec (without [] [] w) refl (i.connects_alone c) i.one_connection)
  | inr t ↦
      let (same, b, a) = single timer before op after (sym t ∙ e) in
      let fired = subst (λ o. Delivers o ec) (sym same) d in
      rw (← same, b, a) (on_timer-Watching ec (without [] [] w) fired refl i.one_connection)
]

pub Step-Watching :
    {safe_link : Bool} {w w' : ClusterWatcher}
    → Watching safe_link w
    → Step w w'
    → Watching safe_link w'
Step-Watching {w = w} i (completes before op after u v ec e d) =
    subst (λ b. Watching b (complete op u v ec (without before after w))) i.same_link
      (completes-Watching before op after u v ec w e d (record {
        same_link = refl;
        one_operation = i.one_operation;
        one_connection = i.one_connection;
        connects_alone = i.connects_alone;
      }))
Step-Watching {w = w} i (newest_steps c c' e live s) = record {
  same_link = i.same_link;
  one_operation = i.one_operation;
  one_connection = i.one_connection;
  connects_alone = λ q. absurd (let over = sym (ap expired e) ∙ i.connects_alone q in cc);
}
Step-Watching {w = w} i (earlier_steps before c c' after e live s) =
    absurd (let over = IsGone-middle before c after (rw (← e) i.one_connection) in cc)

-- Over any order of completions, of the watcher and of its connections, exactly one operation of the
-- watcher is under way, which is not a canceled wait, at most one of its connections is left, and none
-- while it connects, and its `safe_link` is the one that it was made with.
pub run-Watching :
    (endpoint : TcpEndpoint) (safe_link : Bool) {w : ClusterWatcher}
    → Trace (run (new_watcher endpoint safe_link)) w
    → Watching safe_link w
unfolding run try_connect
run-Watching endpoint safe_link here = record {
  same_link = refl;
  one_operation = inl refl;
  one_connection = tt;
  connects_alone = λ q. refl;
}
run-Watching endpoint safe_link (next r s) = Step-Watching (run-Watching endpoint safe_link r) s
