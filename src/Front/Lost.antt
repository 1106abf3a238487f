-- ===== src/Front/Lost.antt =====
-- What a stop signal leads to that comes while server/front/src/Main.cpp reloads the configuration.
use ian.Prelude.{ℕ, ◌+◌, ◌≤◌, ◌<◌, ◌≡◌, size_of, true, false, Option, some, List, map, length, All}
use ian.Config.Value.{PropertyTree}
use ian.AsioPool.{AsioInstance}
use ian.Front.Main.{Phase, starting, joining, clearing, System, Turn, main, turn}

abbrev IsRunning : AsioInstance → Type 0
IsRunning i = i.stopped ≡ false

-- An instance without workers, and with no more threads to make than the system makes.
abbrev Fits : ℕ → AsioInstance → Type 0
Fits limit i = (i.workers ≡ 0) × (size_of i.threads.value ≤ limit)

module _ (P : PropertyTree) where
  open P use {Tree, get_int}

  -- The same of what a tree says of the instance.
  abbrev pub Roomy : ℕ → Tree → AsioInstance → Type 0
  Roomy limit t i =
      (i.workers ≡ 0) × (size_of (get_int t i.threads.path i.threads.default_val) ≤ limit)

  -- Turns of the main thread alone, with loads that succeed.
  abbrev pub loads : List Tree → List (Turn P)
  loads ts = map (λ t. main (some t)) ts

  -- The way from behind a load to threads that run, in `n` turns at most.
  abbrev Heading : ℕ → Phase → System P → Type 0
  Heading n clearing s =
      (0 < length s.left) × (length s.left + 2 ≤ n) × All (Fits s.thread_limit) s.left
  Heading n starting s =
      All IsRunning s.handled
      × (0 < length s.handled + length s.left)
      × (length s.left + 1 ≤ n)
      × All (Fits s.thread_limit) s.left
  Heading n joining s = All IsRunning s.left × (0 < length s.left)
  Heading n _ s = ⊥

  -- At the end of the way the threads run, and the main thread waits for them.
  abbrev Waits : Option Tree → System P → Type 0
  Waits read s = (s.phase ≡ joining) × (s.should_stop ≡ true) × (turn P (main read) s ≡ s)
