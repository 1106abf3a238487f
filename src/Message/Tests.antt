-- ===== src/Message/Tests.antt =====
-- Runs of the queue of MessageQueue.cpp.
use ian.Prelude.{◌≡◌, List, [], ◌∷◌, ok}
use ian.Message.{MessageQueue, empty_queue}
use ian.Message.Fifo.{Queues, Queues-empty}
use ian.Message.Refinement.{Request, pushes, pops, serve, fifo, Reports, serve-fifo}

abbrev history : List Request
history = pushes (1 ∷ 2 ∷ []) ∷ pushes (3 ∷ []) ∷ pops ∷ pops ∷ pops ∷ pushes (4 ∷ []) ∷ []

serve-fifo_example :
    (r : MessageQueue) × (serve history empty_queue ≡ ok ((fifo history []).0, r))
    × Queues r (fifo history []).1
    × Reports r (fifo history []).1
serve-fifo_example = serve-fifo history [] empty_queue Queues-empty
