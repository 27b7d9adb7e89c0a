-- ===== src/Examples/Queues.antt =====
-- Examples of the theorems on the queue, its scheduler and its worker.
use vvz_lmrs.Prelude.{ℕ, ◌≡◌, refl, true, false, ◌&&◌, List, [], ◌∷◌, ◌++◌, In, All, Result, ok}
use vvz_lmrs.Prelude.Int.{ℤ, pos}
use vvz_lmrs.Queue.{QueueEntry, is_candidate, key_ltb, largest, largest_fit_scheduler, dispatch}
use vvz_lmrs.Queue.Schedule.{scheduler_best}
use vvz_lmrs.Queue.Dispatch.{Dispatched, dispatch_once}
use vvz_lmrs.Examples.Data.{small, large, waiting}

scheduler_best_example :
    In small (small ∷ large ∷ [])
    × (is_candidate (pos 200) small ≡ true)
    × All (λ e. (is_candidate (pos 200) e && key_ltb small e) ≡ false) (small ∷ large ∷ [])
scheduler_best_example =
    scheduler_best (pos 200) (small ∷ large ∷ []) small
      (unfold largest_fit_scheduler is_candidate largest in refl)

-- A world that is the list of what was handed over, on a card with 200 bytes to spare.
abbrev read_capacity : List QueueEntry → Result ℤ × List QueueEntry
read_capacity log = (ok (pos 200), log)

abbrev hand_over : QueueEntry → List QueueEntry → Result ℕ × List QueueEntry
hand_over e log = (ok 0, log ++ e ∷ [])

dispatch_once_example :
    Dispatched
      (λ log. log)
      read_capacity
      hand_over
      (λ s. refl)
      (λ e s. refl)
      waiting
      []
      (dispatch read_capacity hand_over waiting [])
dispatch_once_example =
    dispatch_once (λ log. log) read_capacity hand_over (λ s. refl) (λ e s. refl) waiting []
