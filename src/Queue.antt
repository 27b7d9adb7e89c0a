-- ===== src/Queue.antt =====
-- lmrs/queue.py: the request queue, the largest-fit scheduler and the dispatch worker.
pub mod Edits
pub mod Order
pub mod Schedule
pub mod Dispatch
use Prim.Native.String.{compare as compare_text}
use text.Mathlib.Text.{is_lt}
use vvz_lmrs.Prelude.{
  String, Bool, true, false, not, ◌&&◌, ◌==◌, Option, none, some, List, [], ◌∷◌, ◌++◌, map, filter,
  if◌then◌else◌, Result, ok, err,
}
use vvz_lmrs.Prelude.Int.{ℤ, ltb_ℤ, leb_ℤ, eqb_ℤ}
use vvz_lmrs.Prelude.Dict.{Dict}
use vvz_lmrs.Prelude.Value.{Value}

pub record QueueEntry : Type 0 where
  pub request_id : String
  pub session_id : String
  pub model_name : String
  pub required_tokens : ℤ
  pub required_dynamic_vram_bytes : ℤ
  pub admitted_at : String
  pub expires_at : String
  pub priority : ℤ
  pub status : String
  pub metadata : Dict Value

pub record RequestQueue : Type 0 where
  pub entries : List QueueEntry

abbrev pub empty_queue : RequestQueue
empty_queue = record { entries = [] }

unfoldable pub add : RequestQueue → QueueEntry → RequestQueue
add q entry = record { entries = q.entries ++ entry ∷ [] }

-- `e.request_id != request_id`
abbrev pub is_other : String → QueueEntry → Bool
is_other request_id e = not (e.request_id == request_id)

unfoldable pub cancel : RequestQueue → String → RequestQueue
cancel q request_id = record { entries = filter (is_other request_id) q.entries }

-- One dict of `RequestQueue.snapshot`; its keys are fixed.
pub record EntrySnapshot : Type 0 where
  pub request_id : String
  pub session_id : String
  pub model_name : String
  pub required_tokens : ℤ
  pub required_dynamic_vram_bytes : ℤ
  pub admitted_at : String
  pub expires_at : String
  pub priority : ℤ
  pub status : String

abbrev pub entry_snapshot : QueueEntry → EntrySnapshot
entry_snapshot e = record {
  request_id = e.request_id;
  session_id = e.session_id;
  model_name = e.model_name;
  required_tokens = e.required_tokens;
  required_dynamic_vram_bytes = e.required_dynamic_vram_bytes;
  admitted_at = e.admitted_at;
  expires_at = e.expires_at;
  priority = e.priority;
  status = e.status;
}

unfoldable pub snapshot : RequestQueue → List EntrySnapshot
snapshot q = map entry_snapshot q.entries

-- `a < b` for the key `(required_dynamic_vram_bytes, priority, admitted_at)`
unfoldable pub key_ltb : QueueEntry → QueueEntry → Bool
key_ltb a b =
    if eqb_ℤ a.required_dynamic_vram_bytes b.required_dynamic_vram_bytes
    then (if eqb_ℤ a.priority b.priority
        then is_lt (compare_text a.admitted_at b.admitted_at)
        else ltb_ℤ a.priority b.priority)
    else ltb_ℤ a.required_dynamic_vram_bytes b.required_dynamic_vram_bytes

unfoldable pub is_candidate : ℤ → QueueEntry → Bool
is_candidate usable e = e.status == "queued" && leb_ℤ e.required_dynamic_vram_bytes usable

-- `max(best, *entries, key=...)`, the first of those that are equal
unfoldable pub largest : QueueEntry → List QueueEntry → QueueEntry
largest best [] = best
largest best (e ∷ es) = largest (if key_ltb best e then e else best) es

abbrev largest_of : List QueueEntry → Option QueueEntry
largest_of [] = none
largest_of (e ∷ es) = some (largest e es)

unfoldable pub largest_fit_scheduler : List QueueEntry → ℤ → Option QueueEntry
largest_fit_scheduler entries usable = largest_of (filter (is_candidate usable) entries)

unfoldable pub launch_recheck : QueueEntry → ℤ → Bool
launch_recheck entry usable = leb_ℤ entry.required_dynamic_vram_bytes usable

-- The worker's calls: the capacity provider and the executor read and change the world `S`, and
-- either may raise. `launch_read` is handed the second reading, `dispatch_read` the first.
module _ {S R : Type 0} (capacity_provider : S → Result ℤ × S)
    (executor : QueueEntry → S → Result R × S) where
  after_executor : QueueEntry → Result R × S → Result (Option QueueEntry) × S
  after_executor selected (ok _, s) = (ok (some selected), s)
  after_executor selected (err e, s) = (err e, s)

  launch_read : QueueEntry → Result ℤ × S → Result (Option QueueEntry) × S
  unfolding after_executor
  launch_read selected (err e, s) = (err e, s)
  launch_read selected (ok usable, s) =
      if launch_recheck selected usable
      then after_executor selected (executor selected s)
      else (ok none, s)

  launch : Option QueueEntry → S → Result (Option QueueEntry) × S
  unfolding launch_read
  launch none s = (ok none, s)
  launch (some selected) s = launch_read selected (capacity_provider s)

  dispatch_read : RequestQueue → Result ℤ × S → Result (Option QueueEntry) × S
  unfolding launch
  dispatch_read queue (err e, s) = (err e, s)
  dispatch_read queue (ok usable, s) = launch (largest_fit_scheduler queue.entries usable) s

  -- `QueueDispatchWorker(executor).dispatch(queue, capacity_provider)`
  unfoldable pub dispatch : RequestQueue → S → Result (Option QueueEntry) × S
  unfolding dispatch_read
  dispatch queue s = dispatch_read queue (capacity_provider s)
